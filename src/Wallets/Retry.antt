-- ===== src/Wallets/Retry.antt =====
-- Sending a transaction again: a ref moves points once.
use loyalty_points_app.Prelude.{
  ◌≡◌, ap, ◌∙◌, ◌||◌, ◌==◌, Bool, String, true, false, inl, inr, List, arith, eq_refl,
}
use loyalty_points_app.Prelude.Int.{ℤ}
use loyalty_points_app.Authentication.Context.{Context}
use loyalty_points_app.Sql.Schema.{Db, AuditRow}
use loyalty_points_app.Sql.{Env, World, Result, ok, err}
use loyalty_points_app.Wallets.Types.{
  Transaction, ProcessTransactionRequest, ProcessTransactionResponse,
}
use loyalty_points_app.Wallets.Repository.{has_ref}
use loyalty_points_app.Wallets.Service.{process_transaction}
use loyalty_points_app.Wallets.Invariant.{has_ref-snoc}
use loyalty_points_app.Wallets.Outcomes.{write_scoped, Posted}
use loyalty_points_app.Wallets.Attempt.{Settles, process_transaction-Settles}
use loyalty_points_app.Wallets.Steps.{Step, audit, post}
use loyalty_points_app.Wallets.Batch.{Run, stop, step}

-- Only the audit trail differs.
abbrev pub SameMoney : Db → Db → Type 0
SameMoney db db' = (rows : List AuditRow) × (db' ≡ record db { audit_entries = rows })

Settles-SameMoney :
    (e : Env) (ctx : Context) (request : ProcessTransactionRequest) (w : World)
    (z : Result ProcessTransactionResponse × World)
    → has_ref request.ref w.db.transactions ≡ true
    → Settles e ctx request w z
    → SameMoney w.db z.1.db
Settles-SameMoney e ctx request w (ok resp, w') seen (owner, found, inl (fresh, p)) = ground arith
Settles-SameMoney e ctx request w (ok resp, w') seen (owner, found, inr (again, r)) = (_, r.1)
Settles-SameMoney e ctx request w (err x, w') seen (owner, from, inl recorded) = (_, recorded)
Settles-SameMoney e ctx request w (err x, w') seen (owner, from, inr same) =
    (w.db.audit_entries, same)

-- On a context with no open transaction, an attempt whose ref is in the ledger, whoever sends it
-- and with whatever amount and account, moves no points: at most the audit trail changes.
pub process_transaction-SameMoney :
    (e : Env) (ctx : Context) (request : ProcessTransactionRequest) (w : World)
    → ctx.in_tx ≡ false
    → has_ref request.ref w.db.transactions ≡ true
    → SameMoney w.db (process_transaction ctx request e w).1.db
process_transaction-SameMoney e ctx request w outer seen =
    Settles-SameMoney e ctx request w _ seen (process_transaction-Settles e ctx request w outer)

-- A posted ref is in the ledger.
pub Posted-has_ref :
    (e : Env) (scoped : Bool) (request : ProcessTransactionRequest) (delta now occurred_at : ℤ)
    (owner : String) (resp : ProcessTransactionResponse) (db : Db) (w : World)
    → Posted e scoped request delta now occurred_at owner resp db w
    → has_ref request.ref w.db.transactions ≡ true
Posted-has_ref e scoped request delta now occurred_at owner resp db w
      (new_ref, new_id, known, n, fits, same, t) =
    ap (λ (db : Db). has_ref request.ref db.transactions) same
    ∙ has_ref-snoc request.ref db.transactions _
    ∙ rw new_ref (rw (ap (λ (x : Transaction). x.ref) t) (eq_refl request.ref))

Settles-has_ref :
    (e : Env) (ctx : Context) (request : ProcessTransactionRequest) (w : World)
    (resp : ProcessTransactionResponse) (w' : World)
    → Settles e ctx request w (ok resp, w')
    → has_ref request.ref w'.db.transactions ≡ true
Settles-has_ref e ctx request w resp w' (owner, found, inl (fresh, p)) =
    Posted-has_ref e (write_scoped ctx) request _ _ _ owner resp w.db w' p
Settles-has_ref e ctx request w resp w' (owner, found, inr (again, r)) =
    ap (λ (db : Db). has_ref request.ref db.transactions) r.1 ∙ r.0

pub Step-has_ref :
    {db db' : Db} (ref : String)
    → Step db db'
    → has_ref ref db.transactions ≡ true
    → has_ref ref db'.transactions ≡ true
Step-has_ref ref (audit rows same) seen = ap (λ (db : Db). has_ref ref db.transactions) same ∙ seen
Step-has_ref {db} ref (post t scoped owner rows new_ref new_id known n fits same) seen =
    ap (λ (db : Db). has_ref ref db.transactions) same
    ∙ has_ref-snoc ref db.transactions t
    ∙ ap (λ (b : Bool). b || t.ref == ref) seen

pub Run-has_ref :
    {db db' : Db} (ref : String)
    → Run db db'
    → has_ref ref db.transactions ≡ true
    → has_ref ref db'.transactions ≡ true
Run-has_ref ref stop seen = seen
Run-has_ref ref (step s run) seen = Run-has_ref ref run (Step-has_ref ref s seen)

-- Exactly once, on contexts with no open transaction: when an attempt has returned a result, and
-- any number of steps of the abstract machine were taken since, an attempt with the same ref moves
-- no points.
pub process_transaction_once :
    (e e' : Env) (ctx ctx' : Context) (request again : ProcessTransactionRequest) (w v w' : World)
    (resp : ProcessTransactionResponse)
    → ctx.in_tx ≡ false
    → ctx'.in_tx ≡ false
    → again.ref ≡ request.ref
    → process_transaction ctx request e w ≡ (ok resp, v)
    → Run v.db w'.db
    → SameMoney w'.db (process_transaction ctx' again e' w').1.db
process_transaction_once e e' ctx ctx' request again w v w' resp outer outer' same_ref returned
      run =
    let settled = process_transaction-Settles e ctx request w outer in
    process_transaction-SameMoney e' ctx' again w' outer' (
      rw same_ref (
        Run-has_ref request.ref run
          (Settles-has_ref e ctx request w resp v (rw returned at settled))))
