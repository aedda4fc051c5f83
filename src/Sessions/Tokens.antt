-- ===== src/Sessions/Tokens.antt =====
-- internal/pkg/authentication/accessTokenServiceImpl.go.
use loyalty_points_app.Prelude.{String, not}
use loyalty_points_app.Prelude.Int.{ℤ, ltb_ℤ, eqb_ℤ}
use loyalty_points_app.Errs.{plain}
use loyalty_points_app.Authentication.Context.{LoginClaim, Context}
use loyalty_points_app.Sql.{Action, branch, pure, raise, lift, wrap, time_now, ◌>>=◌}
use loyalty_points_app.Users.{get_token_version}
use loyalty_points_app.Sessions.Libraries.{TokenLibrary}

module _ {Jws : Type 0} (jose : TokenLibrary Jws) where
  unfoldable pub issue_access_token : LoginClaim → Action String
  issue_access_token claim = do
    payload ← wrap "IssueAccessToken failed: could not marshal claims" (lift (jose.marshal claim))
    signed ← wrap "IssueAccessToken failed: could not sign payload" (lift (jose.sign payload))
    wrap "IssueAccessToken failed: could not serialize token" (lift (jose.compact_serialize signed))

  -- The stored session epoch against that of a claim.
  abbrev pub compare_versions : LoginClaim → Action ℤ → Action LoginClaim
  compare_versions claim read = do
    version ← wrap "ValidateAccessToken failed: could not read token version" read
    branch (not (eqb_ℤ claim.token_version version))
        (raise (plain "ValidateAccessToken failed: token has been revoked")) (pure claim)

  -- A claim of a token that verifies: its time, then its session epoch.
  abbrev pub check_claim : Context → LoginClaim → Action LoginClaim
  check_claim ctx claim = do
    now ← time_now
    branch (ltb_ℤ claim.expiration_time (jose.unix now))
        (raise (plain "ValidateAccessToken failed: token has expired"))
        (compare_versions claim (get_token_version ctx (record { user_id = claim.user_id })))

  -- The claim that a token carries, once its signature is verified.
  unfoldable pub open_token : String → Action LoginClaim
  open_token token = do
    signed ←
        wrap "ValidateAccessToken failed: could not parse token" (lift (jose.parse_signed token))
    payload ←
        wrap "ValidateAccessToken failed: could not verify token signature"
          (lift (jose.verify signed))
    wrap "ValidateAccessToken failed: could not unmarshal claims" (lift (jose.unmarshal payload))

  unfoldable pub validate_access_token : Context → String → Action LoginClaim
  validate_access_token ctx token = do claim ← open_token token; check_claim ctx claim
