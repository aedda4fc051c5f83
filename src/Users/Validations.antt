-- ===== src/Users/Validations.antt =====
-- pkg/users/userRepositoryValidations.go.
use loyalty_points_app.Prelude.{Option, [], not, ◌||◌, ◌==◌}
use loyalty_points_app.Errs.{Error, new_validation_error, reason_if}
use loyalty_points_app.Authorization.{role_member, role_admin}
use loyalty_points_app.Users.Types.{
  CreateUserRequest, GetUserByIdRequest, GetUserByEmailRequest, GetTokenVersionRequest,
  IncrementTokenVersionRequest,
}

unfoldable pub validate_create : CreateUserRequest → Option Error
validate_create r = new_validation_error (
    reason_if (r.user.email == "") "Email is required" (
      reason_if (r.user.password_hash == "") "PasswordHash is required" (
        reason_if (not (r.user.role == role_member || r.user.role == role_admin))
          "Role must be 'member' or 'admin'" [])))

unfoldable pub validate_get_by_id : GetUserByIdRequest → Option Error
validate_get_by_id r = new_validation_error (reason_if (r.id == "") "ID is required" [])

unfoldable pub validate_get_by_email : GetUserByEmailRequest → Option Error
validate_get_by_email r = new_validation_error (reason_if (r.email == "") "Email is required" [])

unfoldable pub validate_get_token_version : GetTokenVersionRequest → Option Error
validate_get_token_version r =
    new_validation_error (reason_if (r.user_id == "") "UserID is required" [])

unfoldable pub validate_increment_token_version : IncrementTokenVersionRequest → Option Error
validate_increment_token_version r =
    new_validation_error (reason_if (r.user_id == "") "UserID is required" [])
