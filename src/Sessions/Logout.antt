-- ===== src/Sessions/Logout.antt =====
-- internal/pkg/authentication/logoutServiceImpl.go, with the request and the handler of
-- pkg/authentication.
use loyalty_points_app.Prelude.{String, Bool, true, Option, none, some, ◌==◌, if◌then◌else◌}
use loyalty_points_app.Prelude.Int.{ℤ}
use loyalty_points_app.Errs.{Error, plain, internal, with_message}
use loyalty_points_app.Authentication.Context.{Context}
use loyalty_points_app.Sql.{Action, pure, reword, wrap, check, ◌>>=◌}
use loyalty_points_app.Jsonrpc.{with_claim}
use loyalty_points_app.Users.{increment_token_version}

pub record LogoutRequest : Type 0 where
  pub user_id : String

unfoldable pub validate_logout : LogoutRequest → Option Error
validate_logout r =
    if r.user_id == "" then some (plain "validation failed: UserID is required") else none

unfoldable pub logout : Context → LogoutRequest → Action ℤ
logout ctx request = check "invalid request for Logout" (validate_logout request) do
  wrap "could not revoke tokens"
      (increment_token_version ctx (record { user_id = request.user_id }))

unfoldable pub logout_handler : Context → Action Bool
logout_handler ctx = with_claim ctx λ claim. do
  _ ←
      reword (λ _. with_message internal "could not log out")
        (logout ctx (record { user_id = claim.user_id }))
  pure true
