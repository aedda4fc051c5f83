-- ===== src/Wallets/Accepts.antt =====
-- Liveness: a fundable transaction is accepted when the database answers.
use loyalty_points_app.Prelude.{ℕ, suc, ◌||◌, ◌≡◌, true, false, not, none, some, arith, ◌==◌}
use loyalty_points_app.Prelude.Int.{ℤ, ◌+ℤ◌}
use loyalty_points_app.Authentication.Context.{Context}
use loyalty_points_app.Authorization.{is_granted, perm_account_read_all, perm_account_write_all}
use loyalty_points_app.Sql.Schema.{AccountRow}
use loyalty_points_app.Sql.{Time, Env, World, Result, ok, err}
use loyalty_points_app.Accounts as Accounts
use loyalty_points_app.Accounts.{
  Account, GetAccountByIdRequest, UpdateAccountBalanceRequest, find_account, has_account, has_user,
  overflows, affected_rows, add_to_rows, add_balance, validate_get_by_id,
  validate_update_account_balance, get_by_id, update_account_balance,
}
use loyalty_points_app.Audits as Audits
use loyalty_points_app.Audits.{AuditEntry, CreateAuditEntryRequest}
use loyalty_points_app.Wallets.Types.{Transaction, CreateTransactionRequest, kind_earn, kind_spend}
use loyalty_points_app.Wallets.Validations as Validations
use loyalty_points_app.Wallets.Repository as Repository
use loyalty_points_app.Wallets.Repository.{has_ref, has_id}

-- No statement fails at the driver.
abbrev pub IsQuiet : Env → Type 0
IsQuiet e = (n : ℕ) → e.fault n ≡ none

abbrev pub ReadsRow : AccountRow → World → Result Account × World → Type 0
ReadsRow row w (ok a, w') = (a.owner_id ≡ row.owner_id) × (w'.db ≡ w.db)
ReadsRow row w (err x, w') = ⊥

pub get_by_id-ReadsRow :
    (e : Env) (ctx : Context) (r : GetAccountByIdRequest) (w : World) (row : AccountRow) (t : Time)
    → IsQuiet e
    → validate_get_by_id r ≡ none
    → find_account (not (is_granted ctx perm_account_read_all)) r.account_id r.user_id w.db.accounts
      ≡ some row
    → e.parse_time row.created_at ≡ ok t
    → ReadsRow row w (get_by_id ctx r e w)
unfolding get_by_id Accounts.scan_account
get_by_id-ReadsRow e ctx r w row t quiet valid found readable = ground (arith, quiet w.calls)

abbrev pub Moves : ℤ → Result ℤ × World → Type 0
Moves b (ok b', w') = b' ≡ b
Moves b (err x, w') = ⊥

pub update_account_balance-Moves :
    (e : Env) (ctx : Context) (r : UpdateAccountBalanceRequest) (w : World) (row : AccountRow)
    → IsQuiet e
    → validate_update_account_balance r ≡ none
    → overflows r.delta r.account_id w.db.accounts ≡ false
    → affected_rows
        (not (is_granted ctx perm_account_write_all))
        r.delta
        r.account_id
        r.user_id
        w.db.accounts
      ≡ 1
    → find_account false r.account_id "" (
        add_to_rows
          (not (is_granted ctx perm_account_write_all))
          r.delta
          r.account_id
          r.user_id
          w.db.accounts)
      ≡ some (add_balance r.delta row)
    → Moves (row.balance +ℤ r.delta) (update_account_balance ctx r e w)
unfolding update_account_balance
update_account_balance-Moves e ctx r w row quiet valid fits one found =
    ground (arith, quiet w.calls, quiet (suc w.calls))

abbrev pub Inserts : World → Result Transaction × World → Type 0
Inserts w (ok t, w') = (w'.db.accounts ≡ w.db.accounts)
Inserts w (err x, w') = ⊥

pub create-Inserts :
    (e : Env) (ctx : Context) (r : CreateTransactionRequest) (w : World)
    → IsQuiet e
    → Validations.validate_create r ≡ none
    → (r.transaction.kind == kind_earn || r.transaction.kind == kind_spend) ≡ true
    → (r.transaction.id == "") ≡ true
    → has_ref r.transaction.ref w.db.transactions ≡ false
    → has_id (e.uuid w.calls) w.db.transactions ≡ false
    → has_account r.transaction.account_id w.db.accounts ≡ true
    → has_user r.transaction.owner_id w.db.users ≡ true
    → Inserts w (Repository.create ctx r e w)
unfolding Repository.create
create-Inserts e ctx r w quiet valid kind fresh new_ref new_id account owner =
    ground (arith, quiet (suc w.calls))

abbrev pub Succeeds : Result AuditEntry × World → Type 0
Succeeds (ok a, w') = Unit
Succeeds (err x, w') = ⊥

pub audit-Succeeds :
    (e : Env) (ctx : Context) (r : CreateAuditEntryRequest) (w : World)
    → IsQuiet e
    → Audits.validate_create r ≡ none
    → Succeeds (Audits.create ctx r e w)
unfolding Audits.create
audit-Succeeds e ctx r w quiet valid = ground (arith, quiet w.calls)
