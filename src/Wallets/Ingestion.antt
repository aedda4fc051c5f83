-- ===== src/Wallets/Ingestion.antt =====
-- `ProcessTransactionBatch` of internal/pkg/wallets/walletServiceImpl.go.
use loyalty_points_app.Prelude.{List, [], ◌∷◌, ◌++◌, ◌+◌, if◌then◌else◌}
use loyalty_points_app.Prelude.Int.{pos}
use loyalty_points_app.Authentication.Context.{Context}
use loyalty_points_app.Sql.{before, Result, ok, err, Action, pure, try, check, ◌>>=◌}
use loyalty_points_app.Wallets.Types.{
  ProcessTransactionRequest, ProcessTransactionResponse, ProcessTransactionBatchRequest,
  BatchElementResult, batch_outcome_accepted, batch_outcome_duplicate, batch_outcome_rejected,
  ProcessTransactionBatchResponse,
}
use loyalty_points_app.Wallets.Validations.{validate_batch}
use loyalty_points_app.Wallets.Service.{reason_for, process_transaction}

-- `sort.SliceStable` by `OccurredAt`: the stable sort, as insertion before the first later element.
abbrev pub insert_by_time :
    ProcessTransactionRequest → List ProcessTransactionRequest → List ProcessTransactionRequest
insert_by_time x [] = x ∷ []
insert_by_time x (y ∷ ys) =
    if before y.occurred_at x.occurred_at then y ∷ insert_by_time x ys else x ∷ y ∷ ys

unfoldable pub sort_by_time : List ProcessTransactionRequest → List ProcessTransactionRequest
sort_by_time [] = []
sort_by_time (x ∷ xs) = insert_by_time x (sort_by_time xs)

-- One turn of the loop over the batch: the result that it appends, and the counter that it raises.
abbrev pub element_result :
    ProcessTransactionRequest → Result ProcessTransactionResponse → BatchElementResult
element_result tx (err x) = record {
  ref = tx.ref;
  outcome = batch_outcome_rejected;
  reason = reason_for x;
  balance = pos 0;
}
element_result tx (ok r) =
    if r.duplicate
    then record {
      ref = tx.ref;
      outcome = batch_outcome_duplicate;
      reason = "";
      balance = r.balance;
    }
    else record { ref = tx.ref; outcome = batch_outcome_accepted; reason = ""; balance = r.balance }

abbrev pub tally :
    ProcessTransactionRequest
    → Result ProcessTransactionResponse
    → ProcessTransactionBatchResponse
    → ProcessTransactionBatchResponse
tally tx (err x) resp = record resp {
  results = resp.results ++ element_result tx (err x) ∷ [];
  rejected = resp.rejected + 1;
}
tally tx (ok r) resp =
    if r.duplicate
    then record resp {
      results = resp.results ++ element_result tx (ok r) ∷ [];
      duplicate = resp.duplicate + 1;
    }
    else record resp {
      results = resp.results ++ element_result tx (ok r) ∷ [];
      accepted = resp.accepted + 1;
    }

unfoldable pub process_all :
    Context
    → List ProcessTransactionRequest
    → ProcessTransactionBatchResponse
    → Action ProcessTransactionBatchResponse
process_all ctx [] resp = pure resp
process_all ctx (tx ∷ rest) resp = do
  r ← try (process_transaction ctx tx)
  process_all ctx rest (tally tx r resp)

unfoldable pub process_transaction_batch :
    Context → ProcessTransactionBatchRequest → Action ProcessTransactionBatchResponse
process_transaction_batch ctx request =
    check "invalid request for ProcessTransactionBatch" (validate_batch request) do
      process_all ctx (sort_by_time request.transactions)
          (record { results = []; accepted = 0; duplicate = 0; rejected = 0 })
