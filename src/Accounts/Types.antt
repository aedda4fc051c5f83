-- ===== src/Accounts/Types.antt =====
-- pkg/accounts/account.go, accountRepository.go, accountService.go and accountOpenerService.go: the
-- account and the requests. A response with one field is that field.
use loyalty_points_app.Prelude.{String}
use loyalty_points_app.Prelude.Int.{ℤ}
use loyalty_points_app.Sql.{Time}

pub record Account : Type 0 where
  pub id : String
  pub owner_id : String
  pub name : String
  pub balance : ℤ
  pub created_at : Time

pub record CreateAccountRequest : Type 0 where
  pub account : Account

pub record ListAccountsRequest : Type 0 where
  pub user_id : String

pub record GetAccountByIdRequest : Type 0 where
  pub account_id : String
  pub user_id : String

pub record GetAccountBalanceRequest : Type 0 where
  pub account_id : String
  pub user_id : String

pub record UpdateAccountBalanceRequest : Type 0 where
  pub account_id : String
  pub delta : ℤ
  pub user_id : String

pub record UpdateAccountNameRequest : Type 0 where
  pub account_id : String
  pub name : String
  pub user_id : String

pub record FetchMyAccountsRequest : Type 0 where
  pub user_id : String

pub record ReadAccountRequest : Type 0 where
  pub user_id : String
  pub account_id : String

pub record ReadAccountBalanceRequest : Type 0 where
  pub user_id : String
  pub account_id : String

pub record RenameAccountRequest : Type 0 where
  pub user_id : String
  pub account_id : String
  pub name : String

pub record AdjustAccountBalanceRequest : Type 0 where
  pub user_id : String
  pub account_id : String
  pub delta : ℤ

pub record OpenAccountRequest : Type 0 where
  pub user_id : String
  pub name : String
