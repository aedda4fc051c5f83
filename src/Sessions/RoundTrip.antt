-- ===== src/Sessions/RoundTrip.antt =====
-- A token that `IssueAccessToken` returns, given back to `ValidateAccessToken`.
use loyalty_points_app.Prelude.{
  suc, String, ◌≡◌, ◌∙◌, true, false, none, some, inl, inr, arith, ◌==◌,
}
use loyalty_points_app.Prelude.Int.{ℤ, ltb_ℤ, eqb_ℤ}
use loyalty_points_app.Authentication.Context.{LoginClaim, Context}
use loyalty_points_app.Sql.Schema.{UserRow}
use loyalty_points_app.Sql.{Env, World, ok, Result-cases, >>=_ok}
use loyalty_points_app.Sql.Atomic.{tick}
use loyalty_points_app.Users.{find_user}
use loyalty_points_app.Sessions.Libraries.{TokenLibrary}
use loyalty_points_app.Sessions.Tokens.{
  check_claim, open_token, issue_access_token, validate_access_token,
}
use loyalty_points_app.Sessions.Validity.{Carries, get_token_version_lem, open_token_lem}

eqb_ℤ_refl : (a : ℤ) → eqb_ℤ a a ≡ true
eqb_ℤ_refl a = ground arith

-- The libraries undo what they did: encoding/json reads back the claim it wrote, and go-jose parses
-- what it serialized and verifies what the server's key signed.
module _ {Jws : Type 0} (jose : TokenLibrary Jws)
    (reads : (claim : LoginClaim) (payload : String)
      → jose.marshal claim ≡ ok payload
      → jose.unmarshal payload ≡ ok claim)
    (parses : (signed : Jws) (token : String)
      → jose.compact_serialize signed ≡ ok token
      → jose.parse_signed token ≡ ok signed)
    (verifies : (payload : String) (signed : Jws)
      → jose.sign payload ≡ ok signed
      → jose.verify signed ≡ ok payload) where
  -- An issued token carries its claim.
  pub Carries-issue_access_token :
      (claim : LoginClaim) (token : String) (e : Env) (w : World)
      → (issue_access_token jose claim e w).0 ≡ ok token
      → Carries jose token claim
  unfolding issue_access_token
  Carries-issue_access_token claim token e w issued = elim (Result-cases (jose.marshal claim)) [
    | inr (x, failed) ↦ ground arith
    | inl (payload, written) ↦ elim (Result-cases (jose.sign payload)) [
      | inr (x, failed) ↦ ground arith
      | inl (signed, done) ↦ (
        signed,
        parses signed token (ground arith),
        (payload, verifies payload signed done, reads claim payload written),
      )
    ]
  ]

  check_claim_lem :
      (ctx : Context) (claim : LoginClaim) (e : Env) (w : World) (row : UserRow)
      → (claim.user_id == "") ≡ false
      → e.fault (suc w.calls) ≡ none
      → ltb_ℤ claim.expiration_time (jose.unix (e.now w.calls)) ≡ false
      → find_user false claim.user_id "" w.db.users ≡ some row
      → row.token_version ≡ claim.token_version
      → check_claim jose ctx claim e w ≡ (ok claim, tick (tick w))
  check_claim_lem ctx claim e w row named quiet in_time found same = ground (
    arith,
    eqb_ℤ_refl claim.token_version,
    get_token_version_lem ctx (record { user_id = claim.user_id }) e (tick w) row named quiet found,
  )

  pub validate_access_token-issue_access_token :
      (ctx : Context) (claim : LoginClaim) (token : String) (e e' : Env) (w v : World)
      (row : UserRow)
      → (issue_access_token jose claim e w).0 ≡ ok token
      → (claim.user_id == "") ≡ false
      → e'.fault (suc v.calls) ≡ none
      → ltb_ℤ claim.expiration_time (jose.unix (e'.now v.calls)) ≡ false
      → find_user false claim.user_id "" v.db.users ≡ some row
      → row.token_version ≡ claim.token_version
      → validate_access_token jose ctx token e' v ≡ (ok claim, tick (tick v))
  unfolding validate_access_token
  validate_access_token-issue_access_token ctx claim token e e' w v row issued named quiet in_time
        found same =
      >>=_ok (open_token jose token) (check_claim jose ctx) e' v v claim
        (open_token_lem jose token claim e' v (Carries-issue_access_token claim token e w issued))
      ∙ check_claim_lem ctx claim e' v row named quiet in_time found same
