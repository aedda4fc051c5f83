-- ===== src/Accounts/Adaptor.antt =====
-- pkg/accounts/accountServiceJSONRPCAdaptor.go and accountOpenerJSONRPCAdaptor.go. A handler fills
-- its result from the account, so it returns what it fills in.
use loyalty_points_app.Prelude.{String, not, List, map, ◌==◌, if◌then◌else◌}
use loyalty_points_app.Prelude.Int.{ℤ}
use loyalty_points_app.Errs.{
  Error, is, with_message, not_found, insufficient_balance, forbidden, invalid_argument, internal,
}
use loyalty_points_app.Authentication.Context.{Context}
use loyalty_points_app.Authorization.{role_admin}
use loyalty_points_app.Sql.{Time, Action, branch, pure, raise, reword, ◌>>=◌}
use loyalty_points_app.Jsonrpc.{with_claim}
use loyalty_points_app.Accounts.Types.{Account}
use loyalty_points_app.Accounts.Service.{
  fetch_my_accounts, get_account_by_id, read_account_balance, rename_account,
  adjust_account_balance, open_account,
}

pub record AccountResult : Type 0 where
  pub id : String
  pub user_id : String
  pub name : String
  pub balance : ℤ
  pub created_at : Time

abbrev pub account_result : Account → AccountResult
account_result a = record {
  id = a.id;
  user_id = a.owner_id;
  name = a.name;
  balance = a.balance;
  created_at = a.created_at;
}

pub record BalanceResult : Type 0 where
  pub account_id : String
  pub balance : ℤ

-- `if errors.Is(err, errs.ErrInvalidArgument) { return err }`, and an internal error with a message.
abbrev pub invalid_or_internal : String → Error → Error
invalid_or_internal message x = if is x invalid_argument then x else with_message internal message

abbrev pub not_found_or_internal : Error → Error
not_found_or_internal x =
    if is x not_found
    then with_message not_found "account not found"
    else invalid_or_internal "could not retrieve account" x

abbrev pub balance_update_error : Error → Error
balance_update_error x =
    if is x insufficient_balance
    then with_message insufficient_balance "insufficient balance"
    else if is x not_found
    then with_message not_found "account not found"
    else invalid_or_internal "could not update account balance" x

module _ (ctx : Context) where
  unfoldable pub fetch_my_accounts_handler : Action (List AccountResult)
  fetch_my_accounts_handler = with_claim ctx λ claim. do
    accounts ←
        reword (invalid_or_internal "could not retrieve accounts")
          (fetch_my_accounts ctx (record { user_id = claim.user_id }))
    pure (map account_result accounts)

  unfoldable pub get_account_by_id_handler : String → Action AccountResult
  get_account_by_id_handler account_id = with_claim ctx λ claim. do
    account ←
        reword not_found_or_internal
          (get_account_by_id ctx (record { user_id = claim.user_id; account_id = account_id }))
    pure (account_result account)

  unfoldable pub get_account_balance_handler : String → Action BalanceResult
  get_account_balance_handler account_id = with_claim ctx λ claim. do
    balance ←
        reword not_found_or_internal
          (read_account_balance ctx (record { user_id = claim.user_id; account_id = account_id }))
    pure (record { account_id = account_id; balance = balance })

  unfoldable pub update_account_name_handler : String → String → Action AccountResult
  update_account_name_handler account_id name = with_claim ctx λ claim. do
    account ← reword not_found_or_internal (
        rename_account ctx
          (record { user_id = claim.user_id; account_id = account_id; name = name }))
    pure (account_result account)

  unfoldable pub update_account_balance_handler : String → ℤ → Action BalanceResult
  update_account_balance_handler account_id delta = with_claim ctx λ claim.
      branch (not (claim.role == role_admin))
        (raise (with_message forbidden "balance adjustment is admin-only"))
        (do
          balance ← reword balance_update_error (
              adjust_account_balance ctx
                (record { user_id = claim.user_id; account_id = account_id; delta = delta }))
          pure (record { account_id = account_id; balance = balance }))

  unfoldable pub open_account_handler : String → Action AccountResult
  open_account_handler name = with_claim ctx λ claim. do
    account ←
        reword (invalid_or_internal "could not open account")
          (open_account ctx (record { user_id = claim.user_id; name = name }))
    pure (account_result account)
