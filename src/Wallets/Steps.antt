-- ===== src/Wallets/Steps.antt =====
-- The abstract machine of the ledger: what a caller of the wallet can do to the tables.
use loyalty_points_app.Prelude.{Bool, String, ◌≡◌, ◌<◌, inl, inr, true, false, List, arith}
use loyalty_points_app.Prelude.Int.{ℤ}
use loyalty_points_app.Authentication.Context.{Context}
use loyalty_points_app.Sql.Schema.{Db, AuditRow, TransactionRow}
use loyalty_points_app.Sql.{Env, World, Result, ok, err}
use loyalty_points_app.Accounts.{has_account, overflows, affected_rows}
use loyalty_points_app.Wallets.Types.{ProcessTransactionRequest, ProcessTransactionResponse}
use loyalty_points_app.Wallets.Repository.{has_ref, has_id}
use loyalty_points_app.Wallets.Service.{process_transaction}
use loyalty_points_app.Wallets.Drift.{Explained-add_to_rows}
use loyalty_points_app.Wallets.Effects.{ledger_row}
use loyalty_points_app.Wallets.Invariant.{IsValid, IsExplained, with_posting, with_posting-IsValid}
use loyalty_points_app.Wallets.Outcomes.{Posted}
use loyalty_points_app.Wallets.Attempt.{Settles, process_transaction-Settles}

-- Only the audit trail changes; or a transaction with a new ref is posted to a known account, whose
-- balance moves by its points within an int64 and not below zero.
pub data Step (db db' : Db) : Type 0 where
  audit : (rows : List AuditRow) → db' ≡ record db { audit_entries = rows } → Step db db'
  post :
      (t : TransactionRow) (scoped : Bool) (owner : String) (rows : List AuditRow)
      → has_ref t.ref db.transactions ≡ false
      → has_id t.id db.transactions ≡ false
      → has_account t.account_id db.accounts ≡ true
      → 0 < affected_rows scoped t.points t.account_id owner db.accounts
      → overflows t.points t.account_id db.accounts ≡ false
      → db' ≡ with_posting db t scoped owner rows
      → Step db db'

pub Step-IsValid : {db db' : Db} → Step db db' → IsValid db → IsValid db'
Step-IsValid (audit rows e) v = rw e (record {
  distinct_ids = v.distinct_ids;
  funded = v.funded;
  owned = v.owned;
  distinct_refs = v.distinct_refs;
  posted = v.posted;
})
Step-IsValid {db} (post t scoped owner rows new_ref new_id known n fits e) v =
    rw e (with_posting-IsValid db t scoped owner rows new_ref new_id known fits v)

pub Step-IsExplained :
    {db db' : Db} (off : String → ℤ)
    → Step db db'
    → IsValid db
    → IsExplained off db
    → IsExplained off db'
Step-IsExplained off (audit rows e) v h = rw e h
Step-IsExplained {db} off (post t scoped owner rows new_ref new_id known n fits e) v h =
    rw e (Explained-add_to_rows off db.transactions t scoped owner db.accounts v.distinct_ids n h)

pub Posted-Step :
    (e : Env) (scoped : Bool) (request : ProcessTransactionRequest) (delta now occurred_at : ℤ)
    (owner : String) (resp : ProcessTransactionResponse) (db : Db) (w : World)
    → Posted e scoped request delta now occurred_at owner resp db w
    → Step db w.db
Posted-Step e scoped request delta now occurred_at owner resp db w
      (new_ref, new_id, known, n, fits, same, t) =
    post (ledger_row e resp.transaction) scoped owner w.db.audit_entries (rw t new_ref) new_id
      (rw t known) (rw t n) (rw t fits) (ground arith)

Settles-Step :
    (e : Env) (ctx : Context) (request : ProcessTransactionRequest) (w : World)
    (z : Result ProcessTransactionResponse × World)
    → Settles e ctx request w z
    → Step w.db z.1.db
Settles-Step e ctx request w (ok resp, w') (owner, found, inl (fresh, p)) =
    Posted-Step e _ request _ _ _ owner resp w.db w' p
Settles-Step e ctx request w (ok resp, w') (owner, found, inr (again, r)) = audit _ r.1
Settles-Step e ctx request w (err x, w') (owner, from, inl recorded) = audit _ recorded
Settles-Step e ctx request w (err x, w') (owner, from, inr same) = audit w.db.audit_entries same

-- Refinement: on a context with no open transaction, whatever the request, the caller and the
-- failures on the way, a processing attempt is one step of the abstract machine.
pub process_transaction-Step :
    (e : Env) (ctx : Context) (request : ProcessTransactionRequest) (w : World)
    → ctx.in_tx ≡ false
    → Step w.db (process_transaction ctx request e w).1.db
process_transaction-Step e ctx request w outer =
    Settles-Step e ctx request w _ (process_transaction-Settles e ctx request w outer)
