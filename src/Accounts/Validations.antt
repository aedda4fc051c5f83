-- ===== src/Accounts/Validations.antt =====
-- pkg/accounts/accountRepositoryValidations.go, accountServiceValidations.go and
-- accountOpenerValidations.go: the `Validate` methods.
use loyalty_points_app.Prelude.{Option, [], ◌==◌}
use loyalty_points_app.Prelude.Int.{pos, ltb_ℤ, eqb_ℤ}
use loyalty_points_app.Errs.{Error, new_validation_error, reason_if}
use loyalty_points_app.Accounts.Types.{
  CreateAccountRequest, ListAccountsRequest, GetAccountByIdRequest, GetAccountBalanceRequest,
  UpdateAccountBalanceRequest, UpdateAccountNameRequest, FetchMyAccountsRequest, ReadAccountRequest,
  ReadAccountBalanceRequest, RenameAccountRequest, AdjustAccountBalanceRequest, OpenAccountRequest,
}

unfoldable pub validate_create : CreateAccountRequest → Option Error
validate_create r = new_validation_error (
    reason_if (r.account.owner_id == "") "OwnerID is required" (
      reason_if (r.account.name == "") "Name is required"
        (reason_if (ltb_ℤ r.account.balance (pos 0)) "Balance must be >= 0" [])))

unfoldable pub validate_get_by_id : GetAccountByIdRequest → Option Error
validate_get_by_id r = new_validation_error (
    reason_if (r.account_id == "") "AccountID is required"
      (reason_if (r.user_id == "") "UserID is required" []))

unfoldable pub validate_get_account_balance : GetAccountBalanceRequest → Option Error
validate_get_account_balance r = new_validation_error (
    reason_if (r.account_id == "") "AccountID is required"
      (reason_if (r.user_id == "") "UserID is required" []))

unfoldable pub validate_update_account_balance : UpdateAccountBalanceRequest → Option Error
validate_update_account_balance r = new_validation_error (
    reason_if (r.account_id == "") "AccountID is required" (
      reason_if (eqb_ℤ r.delta (pos 0)) "Delta must be non-zero"
        (reason_if (r.user_id == "") "UserID is required" [])))

unfoldable pub validate_update_account_name : UpdateAccountNameRequest → Option Error
validate_update_account_name r = new_validation_error (
    reason_if (r.account_id == "") "AccountID is required" (
      reason_if (r.name == "") "Name is required"
        (reason_if (r.user_id == "") "UserID is required" [])))

unfoldable pub validate_list : ListAccountsRequest → Option Error
validate_list r = new_validation_error (reason_if (r.user_id == "") "UserID is required" [])

unfoldable pub validate_fetch_my_accounts : FetchMyAccountsRequest → Option Error
validate_fetch_my_accounts r =
    new_validation_error (reason_if (r.user_id == "") "UserID is required" [])

unfoldable pub validate_read_account : ReadAccountRequest → Option Error
validate_read_account r = new_validation_error (
    reason_if (r.account_id == "") "AccountID is required"
      (reason_if (r.user_id == "") "UserID is required" []))

unfoldable pub validate_read_account_balance : ReadAccountBalanceRequest → Option Error
validate_read_account_balance r = new_validation_error (
    reason_if (r.account_id == "") "AccountID is required"
      (reason_if (r.user_id == "") "UserID is required" []))

unfoldable pub validate_rename_account : RenameAccountRequest → Option Error
validate_rename_account r = new_validation_error (
    reason_if (r.account_id == "") "AccountID is required" (
      reason_if (r.name == "") "Name is required"
        (reason_if (r.user_id == "") "UserID is required" [])))

unfoldable pub validate_adjust_account_balance : AdjustAccountBalanceRequest → Option Error
validate_adjust_account_balance r = new_validation_error (
    reason_if (r.account_id == "") "AccountID is required" (
      reason_if (eqb_ℤ r.delta (pos 0)) "Delta must be non-zero"
        (reason_if (r.user_id == "") "UserID is required" [])))

unfoldable pub validate_open_account : OpenAccountRequest → Option Error
validate_open_account r = new_validation_error (reason_if (r.user_id == "") "UserID is required" [])
