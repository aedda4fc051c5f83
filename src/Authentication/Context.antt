-- ===== src/Authentication/Context.antt =====
-- pkg/authentication/loginClaim.go and authContext.go. A request's `context.Context` is the claim
-- that the authorization middleware stores, and the mark of an open database transaction.
use loyalty_points_app.Prelude.{String, Bool, Option, some, List}
use loyalty_points_app.Prelude.Int.{ℤ}

pub record LoginClaim : Type 0 where
  pub user_id : String
  pub email : String
  pub last_name : String
  pub role : String
  pub permissions : List String
  pub expiration_time : ℤ
  pub token_version : ℤ

pub record Context : Type 0 where
  pub claim : Option LoginClaim
  pub in_tx : Bool

-- `LoginClaimFromContext`
abbrev pub login_claim_from_context : Context → Option LoginClaim
login_claim_from_context ctx = ctx.claim

-- `ContextWithLoginClaim`
abbrev pub context_with_login_claim : Context → LoginClaim → Context
context_with_login_claim ctx c = record ctx { claim = some c }
