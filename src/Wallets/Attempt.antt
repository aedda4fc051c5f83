-- ===== src/Wallets/Attempt.antt =====
-- A whole attempt of `ProcessTransaction`, from its guard to its end.
use loyalty_points_app.Prelude.{
  String, ◌≡◌, refl, sym, ◌⊎◌, inl, inr, false, not, none, some, Option, Option-cases,
  if◌then◌else◌,
}
use loyalty_points_app.Authentication.Context.{Context}
use loyalty_points_app.Authorization.{is_granted, perm_account_read_all}
use loyalty_points_app.Sql.Schema.{Db}
use loyalty_points_app.Sql.{Time, is_zero, Env, World, Result, ok, err}
use loyalty_points_app.Sql.Atomic.{tick}
use loyalty_points_app.Accounts.{Account, find_account}
use loyalty_points_app.Accounts.Effects as AccountEffects
use loyalty_points_app.Accounts.Effects.{owner_of}
use loyalty_points_app.Wallets.Types.{ProcessTransactionRequest, ProcessTransactionResponse}
use loyalty_points_app.Wallets.Validations.{validate_process}
use loyalty_points_app.Wallets.Service.{signed_delta, with_account, process_transaction}
use loyalty_points_app.Wallets.Outcomes.{write_scoped, Done, Refused}
use loyalty_points_app.Wallets.Settles.{
  Refuses, reject_transaction-Refuses, Ends, or_reject-Ends, run_in_tx-Commits,
}

abbrev pub owner_in : Context → ProcessTransactionRequest → Db → Option String
owner_in ctx request db = owner_of (
    find_account (not (is_granted ctx perm_account_read_all)) request.account_id request.user_id
      db.accounts)

abbrev pub stamped : Env → ProcessTransactionRequest → World → Time
stamped e request w = if is_zero request.occurred_at then e.now w.calls else request.occurred_at

-- How an attempt ends, by its result.
abbrev pub Settles :
    Env
    → Context
    → ProcessTransactionRequest
    → World
    → Result ProcessTransactionResponse × World
    → Type 0
Settles e ctx request w (ok resp, w') =
    (owner : String) × (owner_in ctx request w.db ≡ some owner)
    × Done e (write_scoped ctx) request (signed_delta request.kind request.points) (e.now w.calls)
        (stamped e request w) owner w.db resp w'
Settles e ctx request w (err x, w') =
    (owner : Option String) × ((owner ≡ none) ⊎ (owner ≡ owner_in ctx request w.db))
    × Refused e (write_scoped ctx) request (signed_delta request.kind request.points)
        (e.now w.calls) (stamped e request w) owner x w.db w'

module _ (e : Env) (ctx : Context) (request : ProcessTransactionRequest) (w v : World)
    (same : v.db ≡ w.db) where
  -- No account was found.
  Refuses-Settles :
      (z : Result ProcessTransactionResponse × World)
      → Refuses e ctx request
          (signed_delta request.kind request.points)
          (e.now w.calls)
          (stamped e request w)
          ""
          none
          v
          z
      → Settles e ctx request w z
  Refuses-Settles (ok resp, w') h = absurd h
  Refuses-Settles (err x, w') h = (none, inl refl, rw same at h)

  -- The account was found.
  Ends-Settles :
      (owner : String) (z : Result ProcessTransactionResponse × World)
      → owner_in ctx request w.db ≡ some owner
      → Ends e ctx request
          (signed_delta request.kind request.points)
          (e.now w.calls)
          (stamped e request w)
          owner
          v
          z
      → Settles e ctx request w z
  Ends-Settles owner (ok resp, w') found h = (owner, found, rw same at h)
  Ends-Settles owner (err x, w') found h = (some owner, inr (sym found), rw same at h)

-- The attempt after the account was read into `r`, in a state `v` with the tables of `w`.
with_account-Settles :
    (e : Env) (ctx : Context) (request : ProcessTransactionRequest) (w : World) (r : Result Account)
    (v : World)
    → ctx.in_tx ≡ false
    → AccountEffects.Reads
        (not (is_granted ctx perm_account_read_all))
        (record { account_id = request.account_id; user_id = request.user_id })
        w
        (r, v)
    → Settles e ctx request w (
        with_account ctx request
          (signed_delta request.kind request.points)
          (e.now w.calls)
          (stamped e request w)
          r
          e
          v)
unfolding with_account
with_account-Settles e ctx request w (ok account) v outer (same, found) =
    let delta = signed_delta request.kind request.points in
    let now = e.now w.calls in
    let occurred_at = stamped e request w in
    Ends-Settles e ctx request w v same account.owner_id _ found (
      or_reject-Ends e ctx request delta now occurred_at account.owner_id v _ _
        (run_in_tx-Commits e ctx request delta now occurred_at account.owner_id v outer))
with_account-Settles e ctx request w (err x) v outer same =
    let delta = signed_delta request.kind request.points in
    Refuses-Settles e ctx request w v same _ (
      reject_transaction-Refuses e ctx request delta (e.now w.calls) (stamped e request w) "" none x
        v)

-- On a context with no open transaction, whatever statement fails on the way, an attempt ends in
-- one of three ways. Accepted: the ref was new, the account's owner is the one that the caller's
-- scoped read finds, and exactly one ledger row with the signed delta, the balance update and one
-- accepted audit row were written. Duplicate: the ref was in the ledger, and one duplicate audit
-- row is all that was written. An error: accounts, users and ledger are as before, and at most one
-- rejected audit row, with the reason of the error that is returned, was written.
pub process_transaction-Settles :
    (e : Env) (ctx : Context) (request : ProcessTransactionRequest) (w : World)
    → ctx.in_tx ≡ false
    → Settles e ctx request w (process_transaction ctx request e w)
unfolding process_transaction with_account
process_transaction-Settles e ctx request w outer = elim (Option-cases (validate_process request)) [
  | inr (x, invalid) ↦ rw invalid (none, inl refl, inr refl)
  | inl valid ↦ rw valid (
      with_account-Settles e ctx request w _ _ outer (
        AccountEffects.get_by_id-Reads ctx
          (record { account_id = request.account_id; user_id = request.user_id }) e (tick w)))
]
