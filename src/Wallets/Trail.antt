-- ===== src/Wallets/Trail.antt =====
-- The audit trail is only appended to, by one row for an attempt at most.
use loyalty_points_app.Prelude.{
  ℕ, suc, ◌≡◌, refl, ◌∙◌, ap, sym, ◌≤◌, inl, inr, false, Option-cases, List, [], ◌∷◌, ◌++◌, length,
  length-append, arith,
}
use mathlib.Core.List.{append_assoc, append-nil}
use loyalty_points_app.Authentication.Context.{Context}
use loyalty_points_app.Sql.Schema.{Db, AuditRow}
use loyalty_points_app.Sql.{Env, World, Result, ok, err}
use loyalty_points_app.Wallets.Types.{
  ProcessTransactionRequest, ProcessTransactionResponse, ProcessTransactionBatchRequest,
  ProcessTransactionBatchResponse,
}
use loyalty_points_app.Wallets.Validations.{validate_batch}
use loyalty_points_app.Wallets.Service.{process_transaction}
use loyalty_points_app.Wallets.Ingestion.{
  tally, process_all, process_transaction_batch, sort_by_time,
}
use loyalty_points_app.Wallets.Attempt.{Settles, process_transaction-Settles}
use loyalty_points_app.Wallets.Batch.{length-sort_by_time}

-- The new trail is the old one and at most `n` rows after it.
abbrev pub Appends : ℕ → Db → Db → Type 0
Appends n db db' =
    (rows : List AuditRow) × (db'.audit_entries ≡ db.audit_entries ++ rows) × (length rows ≤ n)

Appends-nothing : (n : ℕ) (db db' : Db) → db' ≡ db → Appends n db db'
Appends-nothing n db db' same =
    ([], ap (λ (d : Db). d.audit_entries) same ∙ sym (append-nil _), omega arith)

Appends-then :
    (n : ℕ) (db mid db' : Db) → Appends 1 db mid → Appends n mid db' → Appends (suc n) db db'
Appends-then n db mid db' (xs, a, p) (ys, b, q) = (
  xs ++ ys,
  b ∙ ap (λ (l : List AuditRow). l ++ ys) a ∙ append_assoc db.audit_entries xs ys,
  omega (arith, length-append xs ys),
)

Settles-Appends :
    (e : Env) (ctx : Context) (request : ProcessTransactionRequest) (w : World)
    (z : Result ProcessTransactionResponse × World)
    → Settles e ctx request w z
    → Appends 1 w.db z.1.db
Settles-Appends e ctx request w (ok resp, w') (owner, found, inl (fresh, p)) =
    (_, ap (λ (d : Db). d.audit_entries) p.5, omega arith)
Settles-Appends e ctx request w (ok resp, w') (owner, found, inr (again, r)) =
    (_, ap (λ (d : Db). d.audit_entries) r.1, omega arith)
Settles-Appends e ctx request w (err x, w') (owner, from, inl recorded) =
    (_, ap (λ (d : Db). d.audit_entries) recorded, omega arith)
Settles-Appends e ctx request w (err x, w') (owner, from, inr same) =
    Appends-nothing 1 w.db w'.db same

process_all-Appends :
    (ctx : Context) (e : Env) (txs : List ProcessTransactionRequest)
    (resp : ProcessTransactionBatchResponse) (w : World)
    → ctx.in_tx ≡ false
    → Appends (length txs) w.db (process_all ctx txs resp e w).1.db
unfolding process_all
process_all-Appends ctx e [] resp w outer = Appends-nothing 0 w.db w.db refl
process_all-Appends ctx e (tx ∷ txs) resp w outer =
    let (r, w') = process_transaction ctx tx e w in
    Appends-then (length txs) w.db w'.db (process_all ctx txs (tally tx r resp) e w').1.db
      (Settles-Appends e ctx tx w (r, w') (process_transaction-Settles e ctx tx w outer))
      (process_all-Appends ctx e txs (tally tx r resp) w' outer)

-- On a context with no open transaction, whatever the batch, the caller and the failures on the
-- way, a batch keeps every row of the audit trail, in its order, and appends at most one row for
-- each element.
pub process_transaction_batch-Appends :
    (e : Env) (ctx : Context) (request : ProcessTransactionBatchRequest) (w : World)
    → ctx.in_tx ≡ false
    → Appends (length request.transactions) w.db (process_transaction_batch ctx request e w).1.db
unfolding process_transaction_batch
process_transaction_batch-Appends e ctx request w outer =
    elim (Option-cases (validate_batch request)) [
      | inl valid ↦ rw valid (
          rw (sym (length-sort_by_time request.transactions))
            (process_all-Appends ctx e (sort_by_time request.transactions) _ w outer))
      | inr (x, invalid) ↦ rw invalid (Appends-nothing _ w.db w.db refl)
    ]
