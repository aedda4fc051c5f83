-- ===== src/Wallets/Concurrent/Invariants.antt =====
-- What no schedule breaks.
use loyalty_points_app.Prelude.{
  ℕ, zero, suc, String, ◌≡◌, refl, false, none, some, Option, inl, inr, List, [], ◌∷◌, All,
}
use loyalty_points_app.Prelude.Int.{ℤ}
use loyalty_points_app.Errs.{Error}
use loyalty_points_app.Authentication.Context.{Context}
use loyalty_points_app.Sql.Schema.{Db}
use loyalty_points_app.Sql.{Time, Env, World, Result, ok, err}
use loyalty_points_app.Sql.Atomic.{tick}
use loyalty_points_app.Accounts.Effects as AccountEffects
use loyalty_points_app.Wallets.Types.{ProcessTransactionRequest, ProcessTransactionResponse}
use loyalty_points_app.Wallets.Validations.{validate_process}
use loyalty_points_app.Wallets.Service.{signed_delta}
use loyalty_points_app.Wallets.Outcomes.{write_scoped}
use loyalty_points_app.Wallets.Settles.{
  Commits, run_in_tx-Commits, Refuses, reject_transaction-Refuses,
}
use loyalty_points_app.Wallets.Steps.{Step, audit, Posted-Step, Step-IsValid, Step-IsExplained}
use loyalty_points_app.Wallets.Invariant.{IsValid, IsExplained}
use loyalty_points_app.Wallets.Concurrent.Turns.{
  Attempt, arrived, loaded, turned_down, finished, arrive, end_work, end_request, advance, turn,
  interleave,
}

-- The context of an attempt has no open transaction.
abbrev pub IsOutside : Attempt → Type 0
IsOutside (arrived ctx request) = ctx.in_tx ≡ false
IsOutside (loaded ctx request now occurred_at r) = ctx.in_tx ≡ false
IsOutside (turned_down ctx request now owner_id x) = ctx.in_tx ≡ false
IsOutside (finished ctx request r) = ctx.in_tx ≡ false

same-Step : {db db' : Db} → db' ≡ db → Step db db'
same-Step {db} same = audit db.audit_entries same

module _ (e : Env) where
  -- A step of an attempt is a step of the abstract machine, and leaves the attempt outside.
  abbrev pub Moves : World → Attempt × World → Type 0
  Moves w (a, w') = Step w.db w'.db × IsOutside a

  Moves-Commits :
      (ctx : Context) (request : ProcessTransactionRequest) (now occurred_at : Time)
      (owner : String) (w : World) (z : Result ProcessTransactionResponse × World)
      → ctx.in_tx ≡ false
      → Commits e ctx request (signed_delta request.kind request.points) now occurred_at owner w z
      → Moves w (end_work e ctx request now owner z)
  Moves-Commits ctx request now occurred_at owner w (ok resp, w') outer (inl (fresh, p)) =
      (Posted-Step e (write_scoped ctx) request _ now occurred_at owner resp w.db w' p, outer)
  Moves-Commits ctx request now occurred_at owner w (ok resp, w') outer (inr (twice, r)) =
      (audit _ r.1, outer)
  Moves-Commits ctx request now occurred_at owner w (err x, w') outer same = (same-Step same, outer)

  Moves-Refuses :
      (ctx : Context) (request : ProcessTransactionRequest) (now : Time) (owner : Option String)
      (w : World) (z : Result ProcessTransactionResponse × World)
      → ctx.in_tx ≡ false
      → Refuses e ctx request (signed_delta request.kind request.points) now now "" owner w z
      → Moves w (end_request e ctx request z)
  Moves-Refuses ctx request now owner w (ok resp, w') outer h = absurd h
  Moves-Refuses ctx request now owner w (err x, w') outer (inl written) = (audit _ written, outer)
  Moves-Refuses ctx request now owner w (err x, w') outer (inr same) = (same-Step same, outer)

  Moves-arrive :
      (ctx : Context) (request : ProcessTransactionRequest) (w : World) (o : Option Error)
      → ctx.in_tx ≡ false
      → Moves w (arrive e ctx request o w)
  Moves-arrive ctx request w (some x) outer = (same-Step refl, outer)
  Moves-arrive ctx request w none outer = (
    same-Step (
        AccountEffects.db-get_by_id ctx
          (record { account_id = request.account_id; user_id = request.user_id }) e (tick w)),
    outer,
  )

  pub advance-Moves : (a : Attempt) (w : World) → IsOutside a → Moves w (advance e a w)
  unfolding advance
  advance-Moves (arrived ctx request) w outer =
      Moves-arrive ctx request w (validate_process request) outer
  advance-Moves (loaded ctx request now occurred_at (err x)) w outer = (same-Step refl, outer)
  advance-Moves (loaded ctx request now occurred_at (ok account)) w outer =
      let delta = signed_delta request.kind request.points in
      Moves-Commits ctx request now occurred_at account.owner_id w _ outer
        (run_in_tx-Commits e ctx request delta now occurred_at account.owner_id w outer)
  advance-Moves (turned_down ctx request now owner x) w outer =
      Moves-Refuses ctx request now owner w _ outer (
        reject_transaction-Refuses e ctx request (signed_delta request.kind request.points) now now
          "" owner x w)
  advance-Moves (finished ctx request r) w outer = (same-Step refl, outer)

  abbrev pub AllMove : World → List Attempt × World → Type 0
  AllMove w (attempts, w') = Step w.db w'.db × All IsOutside attempts

  pub turn-AllMove :
      (i : ℕ) (attempts : List Attempt) (w : World)
      → All IsOutside attempts
      → AllMove w (turn e i attempts w)
  unfolding turn
  turn-AllMove i [] w h = (same-Step refl, tt)
  turn-AllMove zero (a ∷ rest) w (outer, h) =
      let moved = advance-Moves a w outer in (moved.0, (moved.1, h))
  turn-AllMove (suc i) (a ∷ rest) w (outer, h) =
      let moved = turn-AllMove i rest w h in (moved.0, (outer, moved.1))

  -- Whatever the schedule of any number of attempts, whose steps come between one another, on contexts
  -- with no open transaction and with any failures on the way: from well-formed tables whose balances
  -- are their ledger rows and a fixed amount for each account, the tables stay well-formed, so no
  -- balance falls below zero and no ref stands twice, and the balances stay explained.
  pub interleave-IsExplained :
      (off : String → ℤ) (schedule : List ℕ) (attempts : List Attempt) (w : World)
      → All IsOutside attempts
      → IsValid w.db
      → IsExplained off w.db
      → IsValid (interleave e schedule attempts w).1.db
        × IsExplained off (interleave e schedule attempts w).1.db
  unfolding interleave
  interleave-IsExplained off [] attempts w outer valid explained = (valid, explained)
  interleave-IsExplained off (i ∷ schedule) attempts w outer valid explained =
      let (moved, outer') = turn-AllMove i attempts w outer in
      interleave-IsExplained off schedule (turn e i attempts w).0 (turn e i attempts w).1 outer'
        (Step-IsValid moved valid) (Step-IsExplained off moved valid explained)
