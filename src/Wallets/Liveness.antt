-- ===== src/Wallets/Liveness.antt =====
-- A transaction that the balance and the column allow is accepted, where the database answers.
use loyalty_points_app.Prelude.{
  ℕ, String, ◌≡◌, refl, ◌∙◌, ap, Bool, true, false, not, Option, none, some, List, arith, ◌==◌,
  if◌then◌else◌,
}
use loyalty_points_app.Prelude.Int.{ℤ, pos, ◌+ℤ◌, leb_ℤ, in_int64}
use loyalty_points_app.Authentication.Context.{Context}
use loyalty_points_app.Authorization.{is_granted, perm_account_read_all, perm_account_write_all}
use loyalty_points_app.Sql.Schema.{Db, AccountRow}
use loyalty_points_app.Sql.{Time, Env, World, Result, Action, ok, err, run_in_tx}
use loyalty_points_app.Sql.Atomic.{tick, tx_context}
use loyalty_points_app.Accounts.{
  Account, find_account, has_account, has_user, overflows, affected_rows, add_to_rows, add_balance,
}
use loyalty_points_app.Accounts.Rows.{DistinctIds}
use loyalty_points_app.Accounts.Located.{
  has_account-located, overflows-located, affected_rows-located, find_account-updated,
}
use loyalty_points_app.Wallets.Types.{
  ProcessTransactionRequest, ProcessTransactionResponse, Transaction,
}
use loyalty_points_app.Wallets.Validations.{validate_process}
use loyalty_points_app.Wallets.Repository.{has_ref, has_id}
use loyalty_points_app.Wallets.Service.{
  signed_delta, apply_created, after_create, unit_of_work, or_reject, with_account,
  process_transaction,
}
use loyalty_points_app.Wallets.Valid.{
  IsSound, validate_process-IsSound, validate_get_by_id-none, validate_update-none,
  validate_create-none, validate_audit-none,
}
use loyalty_points_app.Wallets.Accepts.{
  IsQuiet, ReadsRow, Inserts, get_by_id-ReadsRow, update_account_balance-Moves, create-Inserts,
  audit-Succeeds,
}

-- A new transaction, with this balance after it.
abbrev pub Accepted : ℤ → Result ProcessTransactionResponse × World → Type 0
Accepted b (ok resp, w) = (resp.duplicate ≡ false) × (resp.balance ≡ b)
Accepted b (err x, w) = ⊥

run_in_tx-Accepted :
    (b : ℤ) (e : Env) (ctx : Context) (fn : Context → Action ProcessTransactionResponse) (w : World)
    → IsQuiet e
    → ctx.in_tx ≡ false
    → Accepted b (fn (tx_context ctx) e (tick w))
    → Accepted b (run_in_tx ctx fn e w)
unfolding run_in_tx
run_in_tx-Accepted b e ctx fn w quiet outer h = rw outer (grind (arith, quiet))

or_reject-Accepted :
    (b : ℤ) (e : Env) (ctx : Context) (request : ProcessTransactionRequest) (delta : ℤ) (now : Time)
    (owner : Option String) (r : Result ProcessTransactionResponse) (w : World)
    → Accepted b (r, w)
    → Accepted b (or_reject ctx request delta now owner r e w)
or_reject-Accepted b e ctx request delta now owner (ok resp) w h = h
or_reject-Accepted b e ctx request delta now owner (err x) w h = absurd h

-- One attempt of a sound request on an account that was found.
module _ (e : Env) (ctx : Context) (request : ProcessTransactionRequest) (quiet : IsQuiet e)
    (s : IsSound request) (row : AccountRow) (now : Time) where
  abbrev delta : ℤ
  delta = signed_delta request.kind request.points

  abbrev scoped : Bool
  scoped = not (is_granted ctx perm_account_write_all)

  -- The account's row can take the points.
  abbrev CanMove : List AccountRow → Type 0
  CanMove rows =
      (overflows delta request.account_id rows ≡ false)
      × (affected_rows scoped delta request.account_id row.owner_id rows ≡ 1)
      × (find_account false request.account_id ""
            (add_to_rows scoped delta request.account_id row.owner_id rows)
          ≡ some (add_balance delta row))

  apply_created-Accepted :
      (created : Transaction) (w : World)
      → (row.owner_id == "") ≡ false
      → CanMove w.db.accounts
      → Accepted
          (row.balance +ℤ delta)
          (apply_created ctx request delta now row.owner_id created e w)
  unfolding apply_created
  apply_created-Accepted created w named (fits, one, found) = grind (
    arith,
    update_account_balance-Moves e ctx
        (record { account_id = request.account_id; delta = delta; user_id = row.owner_id }) w row
        quiet (validate_update-none request s row.owner_id named) fits one found,
    λ (v : World).
        audit-Succeeds e ctx _ v quiet (validate_audit-none request s (some row.owner_id) now),
  )

  -- What the tables offer to the unit of work.
  abbrev IsReady : Db → Type 0
  IsReady db =
      (has_ref request.ref db.transactions ≡ false)
      × ((n : ℕ) → has_id (e.uuid n) db.transactions ≡ false)
      × (has_account request.account_id db.accounts ≡ true)
      × (has_user row.owner_id db.users ≡ true)
      × CanMove db.accounts

  after_create-Accepted :
      (r : Result Transaction) (w v : World)
      → (row.owner_id == "") ≡ false
      → CanMove w.db.accounts
      → Inserts w (r, v)
      → Accepted (row.balance +ℤ delta) (after_create ctx request delta now row.owner_id r e v)
  after_create-Accepted (ok t) w v named moves same =
      apply_created-Accepted t v named (rw same moves)
  after_create-Accepted (err x) w v named moves h = absurd h

  unit_of_work-Accepted :
      (occurred_at : Time) (w : World)
      → (row.owner_id == "") ≡ false
      → IsReady w.db
      → Accepted
          (row.balance +ℤ delta)
          (unit_of_work ctx request delta now occurred_at row.owner_id e w)
  unfolding unit_of_work
  unit_of_work-Accepted occurred_at w named (new_ref, new_id, account, owner, moves) =
      after_create-Accepted _ w _ named moves (
        create-Inserts e ctx _ w quiet (validate_create-none request s row.owner_id now occurred_at)
          s.kind refl new_ref (new_id w.calls) account owner)

-- The unit of work sees the caller's permissions.
IsReady-tx :
    (e : Env) (ctx : Context) (request : ProcessTransactionRequest) (quiet : IsQuiet e)
    (s : IsSound request) (row : AccountRow) (now : Time) (db : Db)
    → IsReady e ctx request quiet s row now db
    → IsReady e (tx_context ctx) request quiet s row now db
unfolding is_granted
IsReady-tx e ctx request quiet s row now db h = h

-- The attempt after the account was read.
with_account-Accepted :
    (e : Env) (ctx : Context) (request : ProcessTransactionRequest) (quiet : IsQuiet e)
    (s : IsSound request) (row : AccountRow) (now occurred_at : Time) (r : Result Account)
    (w v : World)
    → ctx.in_tx ≡ false
    → (row.owner_id == "") ≡ false
    → IsReady e ctx request quiet s row now w.db
    → ReadsRow row w (r, v)
    → Accepted
        (row.balance +ℤ signed_delta request.kind request.points)
        (with_account ctx request (signed_delta request.kind request.points) now occurred_at r e v)
unfolding with_account
with_account-Accepted e ctx request quiet s row now occurred_at (ok a) w v outer named ready
      (owner, same) =
    let delta = signed_delta request.kind request.points in
    or_reject-Accepted _ e ctx request delta now (some a.owner_id) _ _ (
      run_in_tx-Accepted _ e ctx (λ tx. unit_of_work tx request delta now occurred_at a.owner_id) v
        quiet outer
        (rw owner (
          unit_of_work-Accepted e (tx_context ctx) request quiet s row now occurred_at (tick v)
            named (IsReady-tx e ctx request quiet s row now v.db (rw same ready)))))
with_account-Accepted e ctx request quiet s row now occurred_at (err x) w v outer named ready h =
    absurd h

-- Liveness: where no statement fails at the driver, a valid request with a new ref, on an account
-- that the caller's scoped read finds, is accepted if the new balance is an int64 of at least zero,
-- and the answer is the old balance plus the signed points. The stored creation time has to parse,
-- the owner to be a known user with an id, and the random id to be new.
pub process_transaction-Accepted :
    (e : Env) (ctx : Context) (request : ProcessTransactionRequest) (w : World) (row : AccountRow)
    (created_at : Time)
    → IsQuiet e
    → ctx.in_tx ≡ false
    → validate_process request ≡ none
    → DistinctIds w.db.accounts
    → find_account
        (not (is_granted ctx perm_account_read_all))
        request.account_id
        request.user_id
        w.db.accounts
      ≡ some row
    → e.parse_time row.created_at ≡ ok created_at
    → (row.owner_id == "") ≡ false
    → has_user row.owner_id w.db.users ≡ true
    → has_ref request.ref w.db.transactions ≡ false
    → ((n : ℕ) → has_id (e.uuid n) w.db.transactions ≡ false)
    → leb_ℤ (pos 0) (row.balance +ℤ signed_delta request.kind request.points) ≡ true
    → in_int64 (row.balance +ℤ signed_delta request.kind request.points) ≡ true
    → Accepted
        (row.balance +ℤ signed_delta request.kind request.points)
        (process_transaction ctx request e w)
unfolding process_transaction
process_transaction-Accepted e ctx request w row created_at quiet outer valid distinct found
      readable named user new_ref new_id enough fits =
    let read = not (is_granted ctx perm_account_read_all) in
    let write = not (is_granted ctx perm_account_write_all) in
    let id = request.account_id in
    let delta = signed_delta request.kind request.points in
    let s = validate_process-IsSound request valid in
    rw valid (
      with_account-Accepted e ctx request quiet s row (e.now w.calls) _ _ w _ outer named
        (
          new_ref,
          new_id,
          has_account-located read id request.user_id row w.db.accounts found,
          user,
          (
            overflows-located read id request.user_id row delta w.db.accounts distinct found
                ∙ ap not fits,
            affected_rows-located read id request.user_id row write delta w.db.accounts distinct
                  found
                ∙ ap (λ b. if b then 1 else 0) enough,
            find_account-updated read id request.user_id row write delta w.db.accounts distinct
                found enough,
          ),
        )
        (get_by_id-ReadsRow e ctx _ (tick w) row created_at quiet
          (validate_get_by_id-none request s) found readable))
