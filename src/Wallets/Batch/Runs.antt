-- ===== src/Wallets/Batch/Runs.antt =====
-- A batch is a run of the abstract machine, and what every step keeps, a batch keeps.
use loyalty_points_app.Prelude.{String, ◌≡◌, inl, inr, false, Option-cases, List, [], ◌∷◌}
use loyalty_points_app.Prelude.Int.{ℤ}
use loyalty_points_app.Authentication.Context.{Context}
use loyalty_points_app.Sql.Schema.{Db}
use loyalty_points_app.Sql.{Env, World}
use loyalty_points_app.Wallets.Types.{
  ProcessTransactionRequest, ProcessTransactionBatchRequest, ProcessTransactionBatchResponse,
}
use loyalty_points_app.Wallets.Validations.{validate_batch}
use loyalty_points_app.Wallets.Service.{process_transaction}
use loyalty_points_app.Wallets.Ingestion.{
  tally, process_all, process_transaction_batch, sort_by_time,
}
use loyalty_points_app.Wallets.Invariant.{IsValid, IsExplained}
use loyalty_points_app.Wallets.Steps.{
  Step, process_transaction-Step, Step-IsValid, Step-IsExplained,
}

-- Several steps of the abstract machine.
pub data Run : Db → Db → Type 0 where
  stop : {db : Db} → Run db db
  step : {db mid db' : Db} → Step db mid → Run mid db' → Run db db'

process_all-Run :
    (ctx : Context) (e : Env) (txs : List ProcessTransactionRequest)
    (resp : ProcessTransactionBatchResponse) (w : World)
    → ctx.in_tx ≡ false
    → Run w.db (process_all ctx txs resp e w).1.db
unfolding process_all
process_all-Run ctx e [] resp w outer = stop
process_all-Run ctx e (tx ∷ txs) resp w outer =
    let (r, w') = process_transaction ctx tx e w in
    step (process_transaction-Step e ctx tx w outer)
      (process_all-Run ctx e txs (tally tx r resp) w' outer)

-- Refinement: on a context with no open transaction, whatever the batch, the caller and the
-- failures on the way, a batch is a run of the abstract machine.
pub process_transaction_batch-Run :
    (e : Env) (ctx : Context) (request : ProcessTransactionBatchRequest) (w : World)
    → ctx.in_tx ≡ false
    → Run w.db (process_transaction_batch ctx request e w).1.db
unfolding process_transaction_batch
process_transaction_batch-Run e ctx request w outer = elim (Option-cases (validate_batch request)) [
  | inl valid ↦ rw valid (process_all-Run ctx e (sort_by_time request.transactions) _ w outer)
  | inr (x, invalid) ↦ rw invalid stop
]

Run-IsValid : {db db' : Db} → Run db db' → IsValid db → IsValid db'
Run-IsValid stop v = v
Run-IsValid (step s run) v = Run-IsValid run (Step-IsValid s v)

Run-IsExplained :
    {db db' : Db} (off : String → ℤ)
    → Run db db'
    → IsValid db
    → IsExplained off db
    → IsExplained off db'
Run-IsExplained off stop v h = h
Run-IsExplained off (step s run) v h =
    Run-IsExplained off run (Step-IsValid s v) (Step-IsExplained off s v h)

-- On a context with no open transaction, a batch keeps well-formed tables well formed: ids, refs
-- and account ids stay unique, every reference has its target, and every balance stays an int64 of
-- at least zero.
pub process_transaction_batch-IsValid :
    (e : Env) (ctx : Context) (request : ProcessTransactionBatchRequest) (w : World)
    → ctx.in_tx ≡ false
    → IsValid w.db
    → IsValid (process_transaction_batch ctx request e w).1.db
process_transaction_batch-IsValid e ctx request w outer v =
    Run-IsValid (process_transaction_batch-Run e ctx request w outer) v

-- On a context with no open transaction, a batch moves every balance by exactly the points that it
-- posts to the account's ledger: from well-formed tables where each balance is the ledger's sum
-- and some amount, it leads to tables where each balance is the new ledger's sum and the same
-- amount.
pub process_transaction_batch-IsExplained :
    (e : Env) (ctx : Context) (request : ProcessTransactionBatchRequest) (w : World)
    (off : String → ℤ)
    → ctx.in_tx ≡ false
    → IsValid w.db
    → IsExplained off w.db
    → IsExplained off (process_transaction_batch ctx request e w).1.db
process_transaction_batch-IsExplained e ctx request w off outer v h =
    Run-IsExplained off (process_transaction_batch-Run e ctx request w outer) v h
