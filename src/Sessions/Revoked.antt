-- ===== src/Sessions/Revoked.antt =====
-- What a logout does to the tokens of its user.
use loyalty_points_app.Prelude.{
  String, ◌≡◌, ◌≢◌, refl, subst, true, false, Bool-cases, some, inl, inr, arith, ◌==◌,
}
use loyalty_points_app.Prelude.Int.{ℤ, pos, ◌+ℤ◌, leb_ℤ, +ℤ_parts}
use loyalty_points_app.Authentication.Context.{LoginClaim, Context}
use loyalty_points_app.Sql.Schema.{UserRow}
use loyalty_points_app.Sql.{Env, World, Result, ok, err, wrap}
use loyalty_points_app.Users.{find_user, increment_token_version}
use loyalty_points_app.Users.Revocation.{Bumps, increment_token_version-Bumps}
use loyalty_points_app.Sessions.Libraries.{TokenLibrary}
use loyalty_points_app.Sessions.Tokens.{validate_access_token}
use loyalty_points_app.Sessions.Logout.{LogoutRequest, logout, validate_logout}
use loyalty_points_app.Sessions.Validity.{
  Carries, HasVersion, Vouches, validate_access_token-Vouches,
}

Bumps-wrap :
    (id message : String) (e : Env) (w : World) (z : Result ℤ × World)
    → Bumps id w z
    → Bumps id w (wrap message (λ _ _. z) e w)
Bumps-wrap id message e w (ok v, w') h = h
Bumps-wrap id message e w (err x, w') h = h

-- A logout raises the session epoch of its user by one and returns it, or changes nothing.
pub logout-Bumps :
    (ctx : Context) (r : LogoutRequest) (e : Env) (w : World) → Bumps r.user_id w (logout ctx r e w)
unfolding logout validate_logout
logout-Bumps ctx r e w = elim (Bool-cases (r.user_id == "")) [
  | inl empty ↦ rw (logout, validate_logout, empty) refl
  | inr named ↦
      rw (logout, validate_logout, named)
        (Bumps-wrap r.user_id "could not revoke tokens" e w
          (increment_token_version ctx (record { user_id = r.user_id }) e w)
          (increment_token_version-Bumps ctx (record { user_id = r.user_id }) e w))
]

module _ {Jws : Type 0} (jose : TokenLibrary Jws) where
  -- A token carries one claim.
  Carries-unique :
      (token : String) (claim c : LoginClaim)
      → Carries jose token claim
      → Carries jose token c
      → c ≡ claim
  Carries-unique token claim c (s, parsed, (p, verified, read))
        (s', parsed', (p', verified', read')) =
      ground arith

  -- The epoch of the claim is below the one that the logout returned.
  stale :
      (id : String) (version n : ℤ) (w v w' : World)
      → HasVersion id version w.db
      → v.db ≡ w.db
      → Bumps id v (ok n, w')
      → n ≡ version +ℤ pos 1
  stale id version n w v w' (row, found, same) kept (row', found', raised, stored) = ground arith

  outdated :
      (id : String) (version n : ℤ) (u : World)
      → n ≡ version +ℤ pos 1
      → ((row : UserRow)
          → find_user false id "" u.db.users ≡ some row
          → leb_ℤ n row.token_version ≡ true)
      → HasVersion id version u.db
      → ⊥
  outdated id version n u raised later (row, found, same) =
      let bound = later row found in ground (arith, +ℤ_parts version (pos 1))

  -- A token that was accepted is refused for good once its user has logged out: on any later
  -- tables whose epoch for the user, if the user is there, is not below the one that the logout
  -- returned.
  pub logout_revokes :
      (ctx ctx' ctx'' : Context) (token : String) (claim c : LoginClaim) (e e' e'' : Env)
      (w v u : World) (n : ℤ)
      → (validate_access_token jose ctx token e w).0 ≡ ok claim
      → v.db ≡ w.db
      → (logout ctx' (record { user_id = claim.user_id }) e' v).0 ≡ ok n
      → ((row : UserRow)
          → find_user false claim.user_id "" u.db.users ≡ some row
          → leb_ℤ n row.token_version ≡ true)
      → (validate_access_token jose ctx'' token e'' u).0 ≢ ok c
  logout_revokes ctx ctx' ctx'' token claim c e e' e'' w v u n accepted kept left later again =
      let z = validate_access_token jose ctx token e w in
      let before =
        subst (λ r. Vouches jose token e w (r, z.1)) accepted
          (validate_access_token-Vouches jose ctx token e w) in
      let z' = validate_access_token jose ctx'' token e'' u in
      let after =
        subst (λ r. Vouches jose token e'' u (r, z'.1)) again
          (validate_access_token-Vouches jose ctx'' token e'' u) in
      let y = logout ctx' (record { user_id = claim.user_id }) e' v in
      let bumped =
        subst (λ r. Bumps claim.user_id v (r, y.1)) left
          (logout-Bumps ctx' (record { user_id = claim.user_id }) e' v) in
      let same = Carries-unique token claim c before.0 after.0 in
      outdated claim.user_id claim.token_version n u
        (stale claim.user_id claim.token_version n w v y.1 before.2 kept bumped) later
        (subst (λ x. HasVersion x.user_id x.token_version u.db) same after.2)
