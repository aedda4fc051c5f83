-- ===== src/Wallets/Effects.antt =====
-- What the ledger's repository does to the tables.
use loyalty_points_app.Prelude.{
  ◌≡◌, refl, true, false, [], ◌∷◌, ◌++◌, Option-cases, some, inl, inr, arith,
}
use loyalty_points_app.Errs.{Error, is, duplicate_ref}
use loyalty_points_app.Authentication.Context.{Context}
use loyalty_points_app.Accounts.{has_account, has_user}
use loyalty_points_app.Sql.Schema.{TransactionRow}
use loyalty_points_app.Sql.{Env, World, Result, ok, err}
use loyalty_points_app.Wallets.Types.{
  Transaction, CreateTransactionRequest, GetTransactionByIdRequest,
}
use loyalty_points_app.Errs.Laws.{is-new_validation_error}
use loyalty_points_app.Wallets.Validations.{validate_create}
use loyalty_points_app.Wallets.Repository.{create, get_by_id, transaction_row, has_ref, has_id}

-- The row that holds a transaction.
abbrev pub ledger_row : Env → Transaction → TransactionRow
ledger_row e t = transaction_row (e.format_time t.occurred_at) (e.format_time t.recorded_at) t

-- A new row holds the transaction under a fresh identifier; its ref and identifier were not there,
-- and its account and owner were. A duplicate is reported where the ref was there.
abbrev pub Creates : Env → Transaction → World → Result Transaction × World → Type 0
Creates e t w (ok t', w') =
    (w'.db ≡ record w.db { transactions = w.db.transactions ++ ledger_row e t' ∷ [] })
    × (t' ≡ record t { id = t'.id })
    × (has_ref t.ref w.db.transactions ≡ false)
    × (has_id t'.id w.db.transactions ≡ false)
    × (has_account t.account_id w.db.accounts ≡ true)
    × (has_user t.owner_id w.db.users ≡ true)
Creates e t w (err x, w') =
    (w'.db ≡ w.db) × (is x duplicate_ref ≡ true → has_ref t.ref w.db.transactions ≡ true)

not_duplicate :
    (r : CreateTransactionRequest) (x : Error)
    → validate_create r ≡ some x
    → is x duplicate_ref ≡ false
unfolding validate_create
not_duplicate r x h = is-new_validation_error _ x duplicate_ref h

pub create-Creates :
    (ctx : Context) (r : CreateTransactionRequest) (e : Env) (w : World)
    → Creates e r.transaction w (create ctx r e w)
unfolding create
create-Creates ctx r e w = elim (Option-cases (validate_create r)) [
  | inl valid ↦ rw valid (ground arith)
  | inr (x, invalid) ↦ rw invalid (refl, λ h. cc (not_duplicate r x invalid))
]

pub db-get_by_id :
    (ctx : Context) (r : GetTransactionByIdRequest) (e : Env) (w : World)
    → (get_by_id ctx r e w).1.db ≡ w.db
unfolding get_by_id
db-get_by_id ctx r e w = ground arith
