-- ===== src/Sessions/SignedIn.antt =====
-- From a login to the token of the next request.
use loyalty_points_app.Prelude.{
  ℕ, suc, String, ◌≡◌, refl, sym, subst, false, none, some, arith, ◌==◌,
}
use loyalty_points_app.Prelude.Int.{ltb_ℤ, ◌+ℤ◌}
use loyalty_points_app.Errs.{Error}
use loyalty_points_app.Authentication.Context.{LoginClaim, Context}
use loyalty_points_app.Authorization.{permissions_for_role}
use loyalty_points_app.Sql.Schema.{UserRow}
use loyalty_points_app.Sql.{Env, World, Result, ok, err}
use loyalty_points_app.Sql.Atomic.{tick}
use loyalty_points_app.Users.{find_user, find_user_by_email, root_user_id}
use loyalty_points_app.Sessions.Libraries.{TokenLibrary, PasswordLibrary}
use loyalty_points_app.Sessions.Tokens.{validate_access_token}
use loyalty_points_app.Sessions.Login.{
  EmailPasswordAuthenticatorRequest, EmailPasswordAuthenticatorResponse, access_token_ttl,
  login_claim, authenticate, login_handler,
}
use loyalty_points_app.Sessions.RoundTrip.{validate_access_token-issue_access_token}
use loyalty_points_app.Sessions.Credentials.{LogsIn, authenticate-LogsIn}
use loyalty_points_app.Jsonrpc.{map_error}

-- The claim that a validation returns is of a user, with the permissions of its role.
abbrev pub Identifies : String → Result LoginClaim × World → Type 0
Identifies user_id (ok claim, w') =
    (claim.user_id ≡ user_id) × (claim.permissions ≡ permissions_for_role claim.role)
Identifies user_id (err x, w') = ⊥

module _ {Jws : Type 0} (jose : TokenLibrary Jws) (bcrypt : PasswordLibrary) where
  -- Two logins that fail, for whatever reasons, give the client the same error: an unknown email, a
  -- wrong password, an incomplete request and a failure of the database cannot be told apart.
  pub login_handler_uniform :
      (ctx : Context) (email password email' password' : String) (e e' : Env) (w v : World)
      (x y : Error)
      → (login_handler jose bcrypt ctx email password e w).0 ≡ err x
      → (login_handler jose bcrypt ctx email' password' e' v).0 ≡ err y
      → map_error x ≡ map_error y
  unfolding login_handler
  login_handler_uniform ctx email password email' password' e e' w v x y failed failed' =
      ground arith

module _ {Jws : Type 0} (jose : TokenLibrary Jws) (bcrypt : PasswordLibrary)
    (reads : (claim : LoginClaim) (payload : String)
      → jose.marshal claim ≡ ok payload
      → jose.unmarshal payload ≡ ok claim)
    (parses : (signed : Jws) (token : String)
      → jose.compact_serialize signed ≡ ok token
      → jose.parse_signed token ≡ ok signed)
    (verifies : (payload : String) (signed : Jws)
      → jose.sign payload ≡ ok signed
      → jose.verify signed ≡ ok payload) where
  -- What the token of a login is worth on the tables of a later request: the claim, of the row that
  -- the email found, is accepted.
  pub authenticate-Accepted :
      (ctx ctx' : Context) (r : EmailPasswordAuthenticatorRequest)
      (resp : EmailPasswordAuthenticatorResponse) (e e' : Env) (w v : World)
      → (authenticate jose bcrypt ctx r e w).0 ≡ ok resp
      → (resp.user_id == "") ≡ false
      → e'.fault (suc v.calls) ≡ none
      → ((k : ℕ)
          → ltb_ℤ (jose.unix (e.now k +ℤ access_token_ttl)) (jose.unix (e'.now v.calls)) ≡ false)
      → ((row : UserRow)
          → find_user_by_email false r.email root_user_id w.db.users ≡ some row
          → find_user false row.id "" v.db.users ≡ some row)
      → (claim : LoginClaim) × (claim.user_id ≡ resp.user_id)
        × (claim.permissions ≡ permissions_for_role claim.role)
        × ((row : UserRow) × (find_user_by_email false r.email root_user_id w.db.users ≡ some row)
            × (claim.role ≡ row.role))
        × (validate_access_token jose ctx' resp.token e' v ≡ (ok claim, tick (tick v)))
  authenticate-Accepted ctx ctx' r resp e e' w v success named quiet in_time same =
      let z = authenticate jose bcrypt ctx r e w in
      let (user, (row, found, a, b, c, d, f), matches, (k, u, issued, g, h, kept)) =
        subst (λ o. LogsIn jose bcrypt r e w (o, z.1)) success
          (authenticate-LogsIn jose bcrypt ctx r e w) in
      (
        login_claim jose bcrypt user (e.now k),
        sym g,
        refl,
        (row, found, d),
        validate_access_token-issue_access_token jose reads parses verifies ctx'
            (login_claim jose bcrypt user (e.now k)) resp.token e e' u v row issued (rw (← g) named)
            quiet (in_time k) (rw a (same row found)) (sym f),
      )

  -- After a login that succeeded, its token is accepted and gives the claim of the user that the
  -- answer names, with the permissions of the claim's role: where the libraries read back what they
  -- wrote, the user's id is not empty and finds the row that the email found, the statement does not
  -- fail, and no reading of the login's clock is more than an hour old.
  pub validate_access_token-authenticate :
      (ctx ctx' : Context) (r : EmailPasswordAuthenticatorRequest)
      (resp : EmailPasswordAuthenticatorResponse) (e e' : Env) (w v : World)
      → (authenticate jose bcrypt ctx r e w).0 ≡ ok resp
      → (resp.user_id == "") ≡ false
      → e'.fault (suc v.calls) ≡ none
      → ((k : ℕ)
          → ltb_ℤ (jose.unix (e.now k +ℤ access_token_ttl)) (jose.unix (e'.now v.calls)) ≡ false)
      → ((row : UserRow)
          → find_user_by_email false r.email root_user_id w.db.users ≡ some row
          → find_user false row.id "" v.db.users ≡ some row)
      → Identifies resp.user_id (validate_access_token jose ctx' resp.token e' v)
  validate_access_token-authenticate ctx ctx' r resp e e' w v success named quiet in_time same =
      let (claim, user, permitted, stored, accepted) =
        authenticate-Accepted ctx ctx' r resp e e' w v success named quiet in_time same in
      subst (Identifies resp.user_id) (sym accepted) (user, permitted)
