-- ===== src/Wallets/Adaptor.antt =====
-- pkg/wallets/walletServiceJSONRPCAdaptor.go. A handler fills its result from the response, so it
-- returns what it fills in.
use loyalty_points_app.Prelude.{ℕ, String, Bool, not, List, map, ◌==◌, if◌then◌else◌}
use loyalty_points_app.Prelude.Int.{ℤ}
use loyalty_points_app.Errs.{
  Error, is, with_message, not_found, insufficient_balance, forbidden, invalid_argument, internal,
}
use loyalty_points_app.Authentication.Context.{Context, LoginClaim}
use loyalty_points_app.Authorization.{role_admin}
use loyalty_points_app.Sql.{Time, Action, branch, pure, raise, reword, ◌>>=◌}
use loyalty_points_app.Jsonrpc.{with_claim}
use loyalty_points_app.Wallets.Types.{
  ProcessTransactionRequest, ProcessTransactionResponse, ProcessTransactionBatchResponse,
  BatchElementResult,
}
use loyalty_points_app.Wallets.Service.{process_transaction, earn_points, spend_points}
use loyalty_points_app.Wallets.Ingestion.{process_transaction_batch}

-- `ProcessTransactionJSONRPCRequest`
pub record TransactionParams : Type 0 where
  pub ref : String
  pub account_id : String
  pub kind : String
  pub points : ℤ
  pub occurred_at : Time

-- `EarnPointsJSONRPCRequest` and `SpendPointsJSONRPCRequest`
pub record PointsParams : Type 0 where
  pub ref : String
  pub account_id : String
  pub points : ℤ
  pub occurred_at : Time

-- `ProcessTransactionJSONRPCResponse`
pub record TransactionResult : Type 0 where
  pub ref : String
  pub account_id : String
  pub kind : String
  pub points : ℤ
  pub occurred_at : Time
  pub recorded_at : Time
  pub balance : ℤ
  pub duplicate : Bool

-- `BatchTransactionResult`, `BatchSummary` and `ProcessTransactionBatchResult`
pub record BatchTransactionResult : Type 0 where
  pub ref : String
  pub status : String
  pub reason : String
  pub balance : ℤ

pub record BatchSummary : Type 0 where
  pub accepted : ℕ
  pub duplicate : ℕ
  pub rejected : ℕ

pub record BatchResult : Type 0 where
  pub results : List BatchTransactionResult
  pub summary : BatchSummary

unfoldable pub map_process_error : Error → Error
map_process_error x =
    if is x forbidden
    then with_message forbidden "you do not own this account"
    else if is x insufficient_balance
    then with_message insufficient_balance "insufficient balance"
    else if is x not_found
    then with_message not_found "account not found"
    else if is x invalid_argument
    then x
    else with_message internal "could not process transaction"

unfoldable pub map_batch_error : Error → Error
map_batch_error x =
    if is x invalid_argument then x else with_message internal "could not process transaction batch"

-- `fillProcessResult`
abbrev pub process_result : ProcessTransactionResponse → TransactionResult
process_result resp = record {
  ref = resp.transaction.ref;
  account_id = resp.transaction.account_id;
  kind = resp.transaction.kind;
  points = resp.transaction.points;
  occurred_at = resp.transaction.occurred_at;
  recorded_at = resp.transaction.recorded_at;
  balance = resp.balance;
  duplicate = resp.duplicate;
}

-- The request of a batch's element: the user is the claim's, never the wire's.
abbrev pub element_request : LoginClaim → TransactionParams → ProcessTransactionRequest
element_request claim p = record {
  user_id = claim.user_id;
  ref = p.ref;
  account_id = p.account_id;
  kind = p.kind;
  points = p.points;
  occurred_at = p.occurred_at;
}

abbrev pub batch_transaction_result : BatchElementResult → BatchTransactionResult
batch_transaction_result r = record {
  ref = r.ref;
  status = r.outcome;
  reason = r.reason;
  balance = r.balance;
}

abbrev pub batch_result : ProcessTransactionBatchResponse → BatchResult
batch_result resp = record {
  results = map batch_transaction_result resp.results;
  summary = record {
    accepted = resp.accepted;
    duplicate = resp.duplicate;
    rejected = resp.rejected;
  };
}

module _ (ctx : Context) where
  unfoldable pub process_transaction_handler : TransactionParams → Action TransactionResult
  process_transaction_handler params = with_claim ctx λ claim. do
    resp ← reword map_process_error (process_transaction ctx (element_request claim params))
    pure (process_result resp)

  unfoldable pub earn_points_handler : PointsParams → Action TransactionResult
  earn_points_handler params = with_claim ctx λ claim. do
    resp ← reword map_process_error (
        earn_points ctx (record {
          user_id = claim.user_id;
          ref = params.ref;
          account_id = params.account_id;
          points = params.points;
          occurred_at = params.occurred_at;
        }))
    pure (process_result resp)

  unfoldable pub spend_points_handler : PointsParams → Action TransactionResult
  spend_points_handler params = with_claim ctx λ claim. do
    resp ← reword map_process_error (
        spend_points ctx (record {
          user_id = claim.user_id;
          ref = params.ref;
          account_id = params.account_id;
          points = params.points;
          occurred_at = params.occurred_at;
        }))
    pure (process_result resp)

  unfoldable pub process_transaction_batch_handler : List TransactionParams → Action BatchResult
  process_transaction_batch_handler params = with_claim ctx λ claim.
      branch (not (claim.role == role_admin))
        (raise (with_message forbidden "batch ingestion is admin-only"))
        (do
          resp ← reword map_batch_error (
              process_transaction_batch ctx
                (record { transactions = map (element_request claim) params }))
          pure (batch_result resp))
