-- ===== src/Wallets/Types.antt =====
-- pkg/wallets/transaction.go, transactionRepository.go and walletService.go.
use loyalty_points_app.Prelude.{ℕ, String, Bool, List}
use loyalty_points_app.Prelude.Int.{ℤ}
use loyalty_points_app.Sql.{Time}

-- `Kind` is a Go string with two constants.
abbrev pub kind_earn : String
kind_earn = "earn"

abbrev pub kind_spend : String
kind_spend = "spend"

pub record Transaction : Type 0 where
  pub id : String
  pub ref : String
  pub account_id : String
  pub owner_id : String
  pub kind : String
  pub points : ℤ
  pub occurred_at : Time
  pub recorded_at : Time
  pub created_by : String

pub record CreateTransactionRequest : Type 0 where
  pub transaction : Transaction

pub record ListTransactionsRequest : Type 0 where
  pub user_id : String
  pub page_size : ℤ
  pub cursor : String

pub record GetTransactionByIdRequest : Type 0 where
  pub user_id : String
  pub ref : String

pub record ProcessTransactionRequest : Type 0 where
  pub user_id : String
  pub ref : String
  pub account_id : String
  pub kind : String
  pub points : ℤ
  pub occurred_at : Time

pub record EarnPointsRequest : Type 0 where
  pub user_id : String
  pub ref : String
  pub account_id : String
  pub points : ℤ
  pub occurred_at : Time

pub record SpendPointsRequest : Type 0 where
  pub user_id : String
  pub ref : String
  pub account_id : String
  pub points : ℤ
  pub occurred_at : Time

pub record ProcessTransactionResponse : Type 0 where
  pub transaction : Transaction
  pub balance : ℤ
  pub duplicate : Bool

pub record ProcessTransactionBatchRequest : Type 0 where
  pub transactions : List ProcessTransactionRequest

abbrev pub batch_outcome_accepted : String
batch_outcome_accepted = "accepted"

abbrev pub batch_outcome_duplicate : String
batch_outcome_duplicate = "duplicate"

abbrev pub batch_outcome_rejected : String
batch_outcome_rejected = "rejected"

pub record BatchElementResult : Type 0 where
  pub ref : String
  pub outcome : String
  pub reason : String
  pub balance : ℤ

pub record ProcessTransactionBatchResponse : Type 0 where
  pub results : List BatchElementResult
  pub accepted : ℕ
  pub duplicate : ℕ
  pub rejected : ℕ
