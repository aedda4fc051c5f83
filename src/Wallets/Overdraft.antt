-- ===== src/Wallets/Overdraft.antt =====
-- A transaction that the balance does not allow is refused as such, where the database answers.
use loyalty_points_app.Prelude.{
  ℕ, suc, String, ◌≡◌, refl, ◌∙◌, ap, Bool, true, false, not, Option, none, some, List, arith, ◌==◌,
  if◌then◌else◌,
}
use loyalty_points_app.Prelude.Int.{ℤ, pos, ◌+ℤ◌, leb_ℤ, in_int64}
use loyalty_points_app.Errs.{Error, is, insufficient_balance}
use loyalty_points_app.Authentication.Context.{Context}
use loyalty_points_app.Authorization.{is_granted, perm_account_read_all, perm_account_write_all}
use loyalty_points_app.Sql.Schema.{Db, AccountRow}
use loyalty_points_app.Sql.{Time, Env, World, Result, Action, ok, err, run_in_tx}
use loyalty_points_app.Sql.Atomic.{tick, tx_context}
use loyalty_points_app.Accounts.{
  Account, UpdateAccountBalanceRequest, find_account, has_account, has_user, overflows,
  affected_rows, validate_update_account_balance, update_account_balance,
}
use loyalty_points_app.Accounts.Effects.{add_to_rows_none}
use loyalty_points_app.Accounts.Rows.{DistinctIds}
use loyalty_points_app.Accounts.Located.{
  has_account-located, overflows-located, affected_rows-located, find_account-owner,
}
use loyalty_points_app.Audits as Audits
use loyalty_points_app.Audits.{outcome_rejected}
use loyalty_points_app.Wallets.Types.{
  ProcessTransactionRequest, ProcessTransactionResponse, Transaction,
}
use loyalty_points_app.Wallets.Validations.{validate_process}
use loyalty_points_app.Wallets.Repository.{has_ref, has_id}
use loyalty_points_app.Wallets.Service.{
  signed_delta, reason_for, build_audit_entry, reject_transaction, apply_created, after_create,
  unit_of_work, or_reject, with_account, process_transaction,
}
use loyalty_points_app.Wallets.Valid.{
  IsSound, validate_process-IsSound, validate_get_by_id-none, validate_update-none,
  validate_create-none,
}
use loyalty_points_app.Wallets.Accepts.{
  IsQuiet, ReadsRow, Inserts, get_by_id-ReadsRow, create-Inserts, audit-Succeeds,
}

-- The error of a short balance.
module _ {A : Type 0} where
  abbrev pub Overdrawn : Result A × World → Type 0
  Overdrawn (ok a, w) = ⊥
  Overdrawn (err x, w) = is x insufficient_balance ≡ true

update_account_balance-Overdrawn :
    (e : Env) (ctx : Context) (r : UpdateAccountBalanceRequest) (w : World) (row : AccountRow)
    → IsQuiet e
    → validate_update_account_balance r ≡ none
    → overflows r.delta r.account_id w.db.accounts ≡ false
    → affected_rows
        (not (is_granted ctx perm_account_write_all))
        r.delta
        r.account_id
        r.user_id
        w.db.accounts
      ≡ 0
    → find_account
        (not (is_granted ctx perm_account_write_all))
        r.account_id
        r.user_id
        w.db.accounts
      ≡ some row
    → Overdrawn (update_account_balance ctx r e w)
unfolding update_account_balance
update_account_balance-Overdrawn e ctx r w row quiet valid fits zero_rows found =
    let scoped = not (is_granted ctx perm_account_write_all) in
    ground (
      arith,
      quiet w.calls,
      quiet (suc w.calls),
      add_to_rows_none scoped r.delta r.account_id r.user_id w.db.accounts zero_rows,
    )

run_in_tx-Overdrawn :
    (e : Env) (ctx : Context) (fn : Context → Action ProcessTransactionResponse) (w : World)
    → IsQuiet e
    → ctx.in_tx ≡ false
    → Overdrawn (fn (tx_context ctx) e (tick w))
    → Overdrawn (run_in_tx ctx fn e w)
unfolding run_in_tx
run_in_tx-Overdrawn e ctx fn w quiet outer h = rw outer (grind (arith, quiet))

-- One attempt of a sound request on an account that was found.
module _ (e : Env) (ctx : Context) (request : ProcessTransactionRequest) (quiet : IsQuiet e)
    (s : IsSound request) (row : AccountRow) (now : Time) where
  abbrev delta : ℤ
  delta = signed_delta request.kind request.points

  abbrev scoped : Bool
  scoped = not (is_granted ctx perm_account_write_all)

  validate_rejection-none :
      (owner : Option String) (x : Error)
      → is x insufficient_balance ≡ true
      → Audits.validate_create
          (build_audit_entry request delta owner outcome_rejected (reason_for x) now)
        ≡ none
  unfolding Audits.validate_create reason_for
  validate_rejection-none owner x short = rw (short, s.user) refl

  or_reject-Overdrawn :
      (owner : Option String) (r : Result ProcessTransactionResponse) (w : World)
      → Overdrawn (r, w)
      → Overdrawn (or_reject ctx request delta now owner r e w)
  unfolding reject_transaction
  or_reject-Overdrawn owner (ok resp) w h = absurd h
  or_reject-Overdrawn owner (err x) w short = grind (
    arith,
    audit-Succeeds e ctx (build_audit_entry request delta owner outcome_rejected (reason_for x) now)
        w quiet (validate_rejection-none owner x short),
  )

  -- The account's row is there, and cannot take the points.
  abbrev IsShort : List AccountRow → Type 0
  IsShort rows =
      (overflows delta request.account_id rows ≡ false)
      × (affected_rows scoped delta request.account_id row.owner_id rows ≡ 0)
      × (find_account scoped request.account_id row.owner_id rows ≡ some row)

  after_create-Overdrawn :
      (r : Result Transaction) (w v : World)
      → (row.owner_id == "") ≡ false
      → IsShort w.db.accounts
      → Inserts w (r, v)
      → Overdrawn (after_create ctx request delta now row.owner_id r e v)
  unfolding apply_created
  after_create-Overdrawn (ok t) w v named (fits, zero_rows, found) same = grind (
    arith,
    update_account_balance-Overdrawn e ctx
        (record { account_id = request.account_id; delta = delta; user_id = row.owner_id }) v row
        quiet (validate_update-none request s row.owner_id named) (rw same fits) (rw same zero_rows)
        (rw same found),
  )
  after_create-Overdrawn (err x) w v named short h = absurd h

  -- What the tables offer to the unit of work.
  abbrev IsReady : Db → Type 0
  IsReady db =
      (has_ref request.ref db.transactions ≡ false)
      × ((n : ℕ) → has_id (e.uuid n) db.transactions ≡ false)
      × (has_account request.account_id db.accounts ≡ true)
      × (has_user row.owner_id db.users ≡ true)
      × IsShort db.accounts

  unit_of_work-Overdrawn :
      (occurred_at : Time) (w : World)
      → (row.owner_id == "") ≡ false
      → IsReady w.db
      → Overdrawn (unit_of_work ctx request delta now occurred_at row.owner_id e w)
  unfolding unit_of_work
  unit_of_work-Overdrawn occurred_at w named (new_ref, new_id, account, owner, short) =
      after_create-Overdrawn _ w _ named short (
        create-Inserts e ctx _ w quiet (validate_create-none request s row.owner_id now occurred_at)
          s.kind refl new_ref (new_id w.calls) account owner)

-- The unit of work sees the caller's permissions.
IsReady-tx :
    (e : Env) (ctx : Context) (request : ProcessTransactionRequest) (quiet : IsQuiet e)
    (s : IsSound request) (row : AccountRow) (now : Time) (db : Db)
    → IsReady e ctx request quiet s row now db
    → IsReady e (tx_context ctx) request quiet s row now db
unfolding is_granted
IsReady-tx e ctx request quiet s row now db h = h

-- The attempt after the account was read.
with_account-Overdrawn :
    (e : Env) (ctx : Context) (request : ProcessTransactionRequest) (quiet : IsQuiet e)
    (s : IsSound request) (row : AccountRow) (now occurred_at : Time) (r : Result Account)
    (w v : World)
    → ctx.in_tx ≡ false
    → (row.owner_id == "") ≡ false
    → IsReady e ctx request quiet s row now w.db
    → ReadsRow row w (r, v)
    → Overdrawn
        (with_account ctx request (signed_delta request.kind request.points) now occurred_at r e v)
unfolding with_account
with_account-Overdrawn e ctx request quiet s row now occurred_at (ok a) w v outer named ready
      (owner, same) =
    let delta = signed_delta request.kind request.points in
    or_reject-Overdrawn e ctx request quiet s row now (some a.owner_id) _ _ (
      run_in_tx-Overdrawn e ctx (λ tx. unit_of_work tx request delta now occurred_at a.owner_id) v
        quiet outer
        (rw owner (
          unit_of_work-Overdrawn e (tx_context ctx) request quiet s row now occurred_at (tick v)
            named (IsReady-tx e ctx request quiet s row now v.db (rw same ready)))))
with_account-Overdrawn e ctx request quiet s row now occurred_at (err x) w v outer named ready h =
    absurd h

-- The overdraft rule: where no statement fails at the driver, a valid request with a new ref, on an
-- account that the caller's scoped read finds, whose points would take the balance below zero (in
-- the range of an int64) is answered by an error that is `ErrInsufficientBalance`. The stored
-- creation time has to parse, the owner to be a known user with an id, and the random id to be new.
pub process_transaction-Overdrawn :
    (e : Env) (ctx : Context) (request : ProcessTransactionRequest) (w : World) (row : AccountRow)
    (created_at : Time)
    → IsQuiet e
    → ctx.in_tx ≡ false
    → validate_process request ≡ none
    → DistinctIds w.db.accounts
    → find_account
        (not (is_granted ctx perm_account_read_all))
        request.account_id
        request.user_id
        w.db.accounts
      ≡ some row
    → e.parse_time row.created_at ≡ ok created_at
    → (row.owner_id == "") ≡ false
    → has_user row.owner_id w.db.users ≡ true
    → has_ref request.ref w.db.transactions ≡ false
    → ((n : ℕ) → has_id (e.uuid n) w.db.transactions ≡ false)
    → leb_ℤ (pos 0) (row.balance +ℤ signed_delta request.kind request.points) ≡ false
    → in_int64 (row.balance +ℤ signed_delta request.kind request.points) ≡ true
    → Overdrawn (process_transaction ctx request e w)
unfolding process_transaction
process_transaction-Overdrawn e ctx request w row created_at quiet outer valid distinct found
      readable named user new_ref new_id short fits =
    let read = not (is_granted ctx perm_account_read_all) in
    let write = not (is_granted ctx perm_account_write_all) in
    let id = request.account_id in
    let delta = signed_delta request.kind request.points in
    let s = validate_process-IsSound request valid in
    rw valid (
      with_account-Overdrawn e ctx request quiet s row (e.now w.calls) _ _ w _ outer named
        (
          new_ref,
          new_id,
          has_account-located read id request.user_id row w.db.accounts found,
          user,
          (
            overflows-located read id request.user_id row delta w.db.accounts distinct found
                ∙ ap not fits,
            affected_rows-located read id request.user_id row write delta w.db.accounts distinct
                  found
                ∙ ap (λ b. if b then 1 else 0) short,
            find_account-owner read id request.user_id row write w.db.accounts distinct found,
          ),
        )
        (get_by_id-ReadsRow e ctx _ (tick w) row created_at quiet
          (validate_get_by_id-none request s) found readable))
