-- ===== src/Sessions/Validity.antt =====
-- When `ValidateAccessToken` accepts a token.
use loyalty_points_app.Prelude.{
  String, ◌≡◌, refl, sym, ◌∙◌, Bool-cases, true, false, Option-cases, none, some, inl, inr, arith,
  ◌==◌,
}
use loyalty_points_app.Prelude.Int.{ℤ, ltb_ℤ, eqb_ℤ, eq_of_parts}
use loyalty_points_app.Authentication.Context.{LoginClaim, Context}
use loyalty_points_app.Sql.Schema.{Db, UserRow}
use loyalty_points_app.Sql.{Env, World, Result, ok, err, Result-cases, ◌>>=◌}
use loyalty_points_app.Sql.Atomic.{tick}
use loyalty_points_app.Users.{
  GetTokenVersionRequest, find_user, get_token_version, validate_get_token_version,
}
use loyalty_points_app.Sessions.Libraries.{TokenLibrary}
use loyalty_points_app.Sessions.Tokens.{
  compare_versions, check_claim, open_token, validate_access_token,
}

-- The stored session epoch of a user.
abbrev pub HasVersion : String → ℤ → Db → Type 0
HasVersion id version db =
    (row : UserRow) × (find_user false id "" db.users ≡ some row) × (row.token_version ≡ version)

eqb_ℤ_lem : (a b : ℤ) → eqb_ℤ a b ≡ true → a ≡ b
eqb_ℤ_lem a b h = ground (arith, eq_of_parts a b)

-- A read that returns a version returns the stored one; no table changes.
abbrev pub ReadsVersion : String → World → Result ℤ × World → Type 0
ReadsVersion id w (ok version, w') = HasVersion id version w.db × (w'.db ≡ w.db)
ReadsVersion id w (err x, w') = w'.db ≡ w.db

abbrev ReadsRow : UserRow → World → Result ℤ × World → Type 0
ReadsRow row w (ok version, w') = (row.token_version ≡ version) × (w'.db ≡ w.db)
ReadsRow row w (err x, w') = w'.db ≡ w.db

ReadsRow-ReadsVersion :
    (id : String) (row : UserRow) (w : World) (z : Result ℤ × World)
    → find_user false id "" w.db.users ≡ some row
    → ReadsRow row w z
    → ReadsVersion id w z
ReadsRow-ReadsVersion id row w (ok version, w') found (same, kept) = ((row, found, same), kept)
ReadsRow-ReadsVersion id row w (err x, w') found kept = kept

get_token_version-ReadsVersion :
    (ctx : Context) (r : GetTokenVersionRequest) (e : Env) (w : World)
    → ReadsVersion r.user_id w (get_token_version ctx r e w)
unfolding get_token_version
get_token_version-ReadsVersion ctx r e w =
    elim (Option-cases (find_user false r.user_id "" w.db.users)) [
      | inl missing ↦ ground arith
      | inr (row, found) ↦
          ReadsRow-ReadsVersion r.user_id row w (get_token_version ctx r e w) found (ground arith)
    ]

-- Where the statement does not fail, the stored version is read.
pub get_token_version_lem :
    (ctx : Context) (r : GetTokenVersionRequest) (e : Env) (w : World) (row : UserRow)
    → (r.user_id == "") ≡ false
    → e.fault w.calls ≡ none
    → find_user false r.user_id "" w.db.users ≡ some row
    → get_token_version ctx r e w ≡ (ok row.token_version, tick w)
unfolding get_token_version validate_get_token_version
get_token_version_lem ctx r e w row named quiet found = ground arith

module _ {Jws : Type 0} (jose : TokenLibrary Jws) where
  -- The token is signed with the server's key, over this claim.
  abbrev pub Carries : String → LoginClaim → Type 0
  Carries token claim =
      (signed : Jws) × (jose.parse_signed token ≡ ok signed)
      × ((payload : String) × (jose.verify signed ≡ ok payload)
          × (jose.unmarshal payload ≡ ok claim))

  -- What an accepted claim satisfies, and that nothing is written.
  abbrev pub Vouches : String → Env → World → Result LoginClaim × World → Type 0
  Vouches token e w (ok claim, w') =
      Carries token claim
      × (ltb_ℤ claim.expiration_time (jose.unix (e.now w.calls)) ≡ false)
      × HasVersion claim.user_id claim.token_version w.db
      × (w'.db ≡ w.db)
  Vouches token e w (err x, w') = w'.db ≡ w.db

  -- The same, of the claim that the token is known to carry.
  abbrev Confirms : LoginClaim → World → Result LoginClaim × World → Type 0
  Confirms claim w (ok c, w') =
      (c ≡ claim) × HasVersion claim.user_id claim.token_version w.db × (w'.db ≡ w.db)
  Confirms claim w (err x, w') = w'.db ≡ w.db

  compare_versions-Confirms :
      (claim : LoginClaim) (e : Env) (w : World) (z : Result ℤ × World)
      → ReadsVersion claim.user_id w z
      → Confirms claim w (compare_versions jose claim (λ _ _. z) e w)
  compare_versions-Confirms claim e w (ok version, w') ((row, found, same), kept) =
      elim (Bool-cases (eqb_ℤ claim.token_version version)) [
        | inl matches ↦
            rw matches
              (refl, (row, found, same ∙ sym (eqb_ℤ_lem claim.token_version version matches)), kept)
        | inr stale ↦ rw stale kept
      ]
  compare_versions-Confirms claim e w (err x, w') kept = kept

  -- The claim is in time, its epoch is stored, and nothing is written; or an error.
  abbrev Passes : LoginClaim → Env → World → Result LoginClaim × World → Type 0
  Passes claim e w (ok c, w') =
      (c ≡ claim)
      × (ltb_ℤ claim.expiration_time (jose.unix (e.now w.calls)) ≡ false)
      × HasVersion claim.user_id claim.token_version w.db
      × (w'.db ≡ w.db)
  Passes claim e w (err x, w') = w'.db ≡ w.db

  Passes-Confirms :
      (claim : LoginClaim) (e : Env) (w : World) (z : Result LoginClaim × World)
      → ltb_ℤ claim.expiration_time (jose.unix (e.now w.calls)) ≡ false
      → Confirms claim (tick w) z
      → Passes claim e w z
  Passes-Confirms claim e w (ok c, w') in_time (same, stored, kept) = (same, in_time, stored, kept)
  Passes-Confirms claim e w (err x, w') in_time kept = kept

  check_claim-Passes :
      (ctx : Context) (claim : LoginClaim) (e : Env) (w : World)
      → Passes claim e w (check_claim jose ctx claim e w)
  check_claim-Passes ctx claim e w =
      let request : GetTokenVersionRequest = record { user_id = claim.user_id } in
      let reads = get_token_version-ReadsVersion ctx request e (tick w) in
      elim (Bool-cases (ltb_ℤ claim.expiration_time (jose.unix (e.now w.calls)))) [
        | inl late ↦ rw late refl
        | inr in_time ↦ rw in_time (
            Passes-Confirms claim e w _ in_time (
              compare_versions-Confirms claim e (tick w) (get_token_version ctx request e (tick w))
                reads))
      ]

  Vouches-Passes :
      (token : String) (claim : LoginClaim) (e : Env) (w : World) (z : Result LoginClaim × World)
      → Carries token claim
      → Passes claim e w z
      → Vouches token e w z
  Vouches-Passes token claim e w (ok c, w') carried (same, in_time, stored, kept) =
      rw same (carried, in_time, stored, kept)
  Vouches-Passes token claim e w (err x, w') carried kept = kept

  pub open_token_lem :
      (token : String) (claim : LoginClaim) (e : Env) (w : World)
      → Carries token claim
      → open_token jose token e w ≡ (ok claim, w)
  unfolding open_token
  open_token_lem token claim e w (signed, parsed, (payload, verified, read)) = ground arith

  -- A token that opens carries the claim; opening one touches nothing.
  abbrev Opens : String → World → Result LoginClaim × World → Type 0
  Opens token w (ok claim, w') = Carries token claim × (w' ≡ w)
  Opens token w (err x, w') = w' ≡ w

  open_token-Opens :
      (token : String) (e : Env) (w : World) → Opens token w (open_token jose token e w)
  unfolding open_token
  open_token-Opens token e w = elim (Result-cases (jose.parse_signed token)) [
    | inr (x, failed) ↦ ground arith
    | inl (signed, parsed) ↦ elim (Result-cases (jose.verify signed)) [
      | inr (x, failed) ↦ ground arith
      | inl (payload, verified) ↦ elim (Result-cases (jose.unmarshal payload)) [
        | inr (x, failed) ↦ ground arith
        | inl (claim, read) ↦
            let carried : Carries token claim = (signed, parsed, (payload, verified, read)) in
            rw (open_token_lem token claim e w carried) (carried, refl)
      ]
    ]
  ]

  -- What follows the opening, on its result.
  Vouches-Opens :
      (ctx : Context) (token : String) (e : Env) (w : World) (z : Result LoginClaim × World)
      → Opens token w z
      → Vouches token e w (((λ _ _. z) >>= check_claim jose ctx) e w)
  Vouches-Opens ctx token e w (ok claim, w') (carried, same) =
      rw same (Vouches-Passes token claim e w _ carried (check_claim-Passes ctx claim e w))
  Vouches-Opens ctx token e w (err x, w') same = rw same refl

  -- A token that is accepted is signed with the server's key over the claim that is returned, is not
  -- past its time, and has the session epoch that is stored for its user. Accepted or not, no table
  -- changes.
  pub validate_access_token-Vouches :
      (ctx : Context) (token : String) (e : Env) (w : World)
      → Vouches token e w (validate_access_token jose ctx token e w)
  unfolding validate_access_token
  validate_access_token-Vouches ctx token e w =
      Vouches-Opens ctx token e w (open_token jose token e w) (open_token-Opens token e w)
