-- ===== src/Accounts/Service.antt =====
-- internal/pkg/accounts/accountServiceImpl.go and accountOpenerServiceImpl.go.
use loyalty_points_app.Prelude.{String, List, ◌==◌, if◌then◌else◌}
use loyalty_points_app.Prelude.Int.{ℤ, pos}
use loyalty_points_app.Authentication.Context.{Context}
use loyalty_points_app.Sql.{Action, check, wrap, time_now, ◌>>=◌}
use loyalty_points_app.Accounts.Types.{
  Account, FetchMyAccountsRequest, ReadAccountRequest, ReadAccountBalanceRequest,
  RenameAccountRequest, AdjustAccountBalanceRequest, OpenAccountRequest,
}
use loyalty_points_app.Accounts.Validations.{
  validate_fetch_my_accounts, validate_read_account, validate_read_account_balance,
  validate_rename_account, validate_adjust_account_balance, validate_open_account,
}
use loyalty_points_app.Accounts.Repository as Repository
use loyalty_points_app.Accounts.Listing as Listing

unfoldable pub fetch_my_accounts : Context → FetchMyAccountsRequest → Action (List Account)
fetch_my_accounts ctx request =
    check "invalid request for FetchMyAccounts" (validate_fetch_my_accounts request)
      (wrap "could not fetch accounts" (Listing.list ctx (record { user_id = request.user_id })))

unfoldable pub get_account_by_id : Context → ReadAccountRequest → Action Account
get_account_by_id ctx request =
    check "invalid request for GetAccountByID" (validate_read_account request) (
      wrap "could not get account" (
        Repository.get_by_id ctx
          (record { account_id = request.account_id; user_id = request.user_id })))

unfoldable pub read_account_balance : Context → ReadAccountBalanceRequest → Action ℤ
read_account_balance ctx request =
    check "invalid request for GetAccountBalance" (validate_read_account_balance request) (
      wrap "could not get account balance" (
        Repository.get_account_balance ctx
          (record { account_id = request.account_id; user_id = request.user_id })))

unfoldable pub rename_account : Context → RenameAccountRequest → Action Account
rename_account ctx request =
    check "invalid request for UpdateAccountName" (validate_rename_account request) (
      wrap "could not update account name" (
        Repository.update_account_name ctx (record {
          account_id = request.account_id;
          name = request.name;
          user_id = request.user_id;
        })))

unfoldable pub adjust_account_balance : Context → AdjustAccountBalanceRequest → Action ℤ
adjust_account_balance ctx request =
    check "invalid request for UpdateAccountBalance" (validate_adjust_account_balance request) (
      wrap "could not update account balance" (
        Repository.update_account_balance ctx (record {
          account_id = request.account_id;
          delta = request.delta;
          user_id = request.user_id;
        })))

abbrev pub default_account_name : String
default_account_name = "Primary Wallet"

-- `OpenAccount`: the repository assigns the id.
unfoldable pub open_account : Context → OpenAccountRequest → Action Account
open_account ctx request =
    check "invalid request for OpenAccount" (validate_open_account request) do
      let name = if request.name == "" then default_account_name else request.name
      now ← time_now
      wrap "could not open account" (
          Repository.create ctx (record {
            account = record {
              id = "";
              owner_id = request.user_id;
              name = name;
              balance = pos 0;
              created_at = now;
            };
          }))
