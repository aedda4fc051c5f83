-- ===== src/Registration/Types.antt =====
-- pkg/users/userRegistrationService.go and userRegistrationServiceValidations.go.
use loyalty_points_app.Prelude.{
  ℕ, String, Bool, false, Option, [], not, is_some, ltb, ◌==◌, if◌then◌else◌,
}
use loyalty_points_app.Errs.{Error, new_validation_error, reason_if}
use text.Mathlib.Text.{find?}
use Prim.Native.String.{len}

pub record RegisterRequest : Type 0 where
  pub email : String
  pub password : String
  pub name : String
  pub account_name : String

pub record RegisterResponse : Type 0 where
  pub token : String
  pub user_id : String
  pub account_id : String
  pub email : String

abbrev pub min_password_length : ℕ
min_password_length = 8

-- `strings.Contains`
abbrev pub contains : String → String → Bool
contains s t = is_some (find? s t)

-- A password's length is that of its bytes.
unfoldable pub validate_register : RegisterRequest → Option Error
validate_register r = new_validation_error (
    reason_if (r.email == "") "Email is required" (
      reason_if (if r.email == "" then false else not (contains r.email "@"))
        "Email must be a valid email address"
        (reason_if (r.password == "") "Password is required" (
          reason_if (if r.password == "" then false else ltb (len r.password) min_password_length)
            "Password must be at least 8 characters"
            (reason_if (r.name == "") "Name is required" [])))))
