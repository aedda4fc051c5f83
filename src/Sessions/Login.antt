-- ===== src/Sessions/Login.antt =====
-- internal/pkg/authentication/emailPasswordAuthenticatorImpl.go, with the request, its validation
-- and the handler of pkg/authentication.
use loyalty_points_app.Prelude.{String, Option, [], ◌==◌, if◌then◌else◌}
use loyalty_points_app.Prelude.Int.{pos, ◌+ℤ◌}
use loyalty_points_app.Errs.{
  Error, sentinel, wrapped, is, unauthorized, not_found, new_validation_error, with_message,
  reason_if,
}
use loyalty_points_app.Authentication.Context.{LoginClaim, Context}
use loyalty_points_app.Authorization.{permissions_for_role}
use loyalty_points_app.Sql.{Time, Action, branch, pure, raise, reword, wrap, check, time_now, ◌>>=◌}
use loyalty_points_app.Users.{User, get_by_email, root_user_id}
use loyalty_points_app.Sessions.Libraries.{TokenLibrary, PasswordLibrary}
use loyalty_points_app.Sessions.Tokens.{issue_access_token}

-- An hour, in nanoseconds.
abbrev pub access_token_ttl : Time
access_token_ttl = pos 3600000000000

pub record EmailPasswordAuthenticatorRequest : Type 0 where
  pub email : String
  pub password : String

pub record EmailPasswordAuthenticatorResponse : Type 0 where
  pub token : String
  pub user_id : String
  pub email : String

unfoldable pub validate_credentials : EmailPasswordAuthenticatorRequest → Option Error
validate_credentials r = new_validation_error (
    reason_if (r.email == "") "Email is required"
      (reason_if (r.password == "") "Password is required" []))

-- No row for the email is the same answer as a wrong password.
abbrev pub lookup_error : Error → Error
lookup_error x =
    if is x not_found then sentinel unauthorized else wrapped "could not retrieve user by email" x

abbrev pub response_of : User → String → EmailPasswordAuthenticatorResponse
response_of user token = record { token = token; user_id = user.id; email = user.email }

module _ {Jws : Type 0} (jose : TokenLibrary Jws) (bcrypt : PasswordLibrary) where
  -- The claim of a token that is issued at an instant.
  abbrev pub login_claim : User → Time → LoginClaim
  login_claim user now = record {
    user_id = user.id;
    email = user.email;
    last_name = "";
    role = user.role;
    permissions = permissions_for_role user.role;
    expiration_time = jose.unix (now +ℤ access_token_ttl);
    token_version = user.token_version;
  }

  abbrev pub grant_token : User → Action EmailPasswordAuthenticatorResponse
  grant_token user = do
    now ← time_now
    token ← wrap "could not issue access token" (issue_access_token jose (login_claim user now))
    pure (response_of user token)

  unfoldable pub authenticate :
      Context → EmailPasswordAuthenticatorRequest → Action EmailPasswordAuthenticatorResponse
  authenticate ctx request =
      check "invalid request for Authenticate" (validate_credentials request) do
        user ←
            reword lookup_error
              (get_by_email ctx (record { email = request.email; user_id = root_user_id }))
        branch (bcrypt.compare_hash_and_password user.password_hash request.password)
            (grant_token user) (raise (sentinel unauthorized))

  -- `Login`: whatever the error, the client reads one message.
  unfoldable pub login_handler :
      Context → String → String → Action EmailPasswordAuthenticatorResponse
  login_handler ctx email password =
      reword (λ _. with_message unauthorized "invalid credentials")
        (authenticate ctx (record { email = email; password = password }))
