-- ===== src/Users/Revocation.antt =====
-- A new session epoch: what `IncrementTokenVersion` does to the tokens of its user and of others.
use loyalty_points_app.Prelude.{
  String, ◌≡◌, refl, Bool, false, Option-cases, none, some, List, [], ◌∷◌, inl, inr, arith, eq_iff,
  ◌==◌,
}
use loyalty_points_app.Prelude.Int.{ℤ, pos, ◌+ℤ◌}
use loyalty_points_app.Authentication.Context.{Context}
use loyalty_points_app.Sql.Schema.{UserRow}
use loyalty_points_app.Sql.{Env, World, Result, ok, err}
use loyalty_points_app.Users.Types.{IncrementTokenVersionRequest}
use loyalty_points_app.Users.Repository.{find_user, bump, bump_rows, increment_token_version}

module _ (id : String) where
  find_user-bump_rows :
      (row : UserRow) (rows : List UserRow)
      → find_user false id "" rows ≡ some row
      → find_user false id "" (bump_rows id rows) ≡ some (bump row)
  unfolding find_user bump_rows
  find_user-bump_rows row [] h = ground arith
  find_user-bump_rows row (r ∷ rows) h = ground (arith, find_user-bump_rows row rows)

  bump_rows-absent :
      (rows : List UserRow) → find_user false id "" rows ≡ none → bump_rows id rows ≡ rows
  unfolding find_user bump_rows
  bump_rows-absent [] h = refl
  bump_rows-absent (r ∷ rows) h = ground (arith, bump_rows-absent rows)

  find_user-others :
      (scoped : Bool) (other u : String) (rows : List UserRow)
      → (other == id) ≡ false
      → scoped ≡ false
      → find_user scoped other u (bump_rows id rows) ≡ find_user scoped other u rows
  unfolding find_user bump_rows
  find_user-others scoped other u [] h k = refl
  find_user-others scoped other u (r ∷ rows) h k = ground (
    arith,
    eq_iff r.id id,
    eq_iff r.id other,
    eq_iff other id,
    find_user-others scoped other u rows,
  )

-- The new version is the old one and one, and it is what the row holds; or nothing changed.
abbrev pub Bumps : String → World → Result ℤ × World → Type 0
Bumps id w (ok v, w') =
    (row : UserRow) × (find_user false id "" w.db.users ≡ some row)
    × (v ≡ row.token_version +ℤ pos 1)
    × (find_user false id "" w'.db.users ≡ some (bump row))
Bumps id w (err x, w') = w'.db ≡ w.db

-- The same for a row that is known to be there.
abbrev Raises : String → UserRow → World → Result ℤ × World → Type 0
Raises id row w (ok v, w') =
    (v ≡ row.token_version +ℤ pos 1) × (find_user false id "" w'.db.users ≡ some (bump row))
Raises id row w (err x, w') = w'.db ≡ w.db

Raises-Bumps :
    (id : String) (row : UserRow) (w : World) (z : Result ℤ × World)
    → find_user false id "" w.db.users ≡ some row
    → Raises id row w z
    → Bumps id w z
Raises-Bumps id row w (ok v, w') found (raised, stored) = (row, found, raised, stored)
Raises-Bumps id row w (err x, w') found same = same

increment_token_version-Raises :
    (ctx : Context) (r : IncrementTokenVersionRequest) (e : Env) (w : World) (row : UserRow)
    → find_user false r.user_id "" w.db.users ≡ some row
    → Raises r.user_id row w (increment_token_version ctx r e w)
unfolding increment_token_version
increment_token_version-Raises ctx r e w row found =
    ground (arith, find_user-bump_rows r.user_id row w.db.users found)

-- Revocation: an increment that returns a version has raised the user's version by one, and the
-- returned version is the one that the row holds now, so a token with the old version no longer
-- matches. An increment that returns an error has left the tables alone.
pub increment_token_version-Bumps :
    (ctx : Context) (r : IncrementTokenVersionRequest) (e : Env) (w : World)
    → Bumps r.user_id w (increment_token_version ctx r e w)
unfolding increment_token_version
increment_token_version-Bumps ctx r e w =
    elim (Option-cases (find_user false r.user_id "" w.db.users)) [
      | inl missing ↦ ground (arith, bump_rows-absent r.user_id w.db.users missing)
      | inr (row, found) ↦
          Raises-Bumps r.user_id row w _ found (increment_token_version-Raises ctx r e w row found)
    ]

-- An increment leaves every other user's version alone: the row that is read for another id is the
-- same before and after.
pub increment_token_version_others :
    (ctx : Context) (r : IncrementTokenVersionRequest) (other : String) (e : Env) (w : World)
    → (other == r.user_id) ≡ false
    → find_user false other "" (increment_token_version ctx r e w).1.db.users
      ≡ find_user false other "" w.db.users
unfolding increment_token_version
increment_token_version_others ctx r other e w differ =
    ground (arith, find_user-others r.user_id false other "" w.db.users differ refl)
