-- ===== src/Wallets/Concurrent/Durable.antt =====
-- An answer that was given stays true while others go on.
use loyalty_points_app.Prelude.{
  ℕ, zero, suc, String, ◌≡◌, ap, ◌∙◌, true, none, some, Option, inl, inr, List, [], ◌∷◌, All,
}
use loyalty_points_app.Errs.{Error}
use loyalty_points_app.Authentication.Context.{Context}
use loyalty_points_app.Sql.Schema.{Db}
use loyalty_points_app.Sql.{Time, Env, World, Result, ok, err, run_in_tx}
use loyalty_points_app.Wallets.Types.{ProcessTransactionRequest, ProcessTransactionResponse}
use loyalty_points_app.Wallets.Repository.{has_ref}
use loyalty_points_app.Wallets.Validations.{validate_process}
use loyalty_points_app.Wallets.Service.{signed_delta, reject_transaction, unit_of_work}
use loyalty_points_app.Wallets.Outcomes.{write_scoped}
use loyalty_points_app.Wallets.Settles.{
  Commits, run_in_tx-Commits, Refuses, reject_transaction-Refuses,
}
use loyalty_points_app.Wallets.Retry.{Step-has_ref, Posted-has_ref}
use loyalty_points_app.Wallets.Steps.{Step}
use loyalty_points_app.Wallets.Concurrent.Turns.{
  Attempt, arrived, loaded, turned_down, finished, arrive, end_work, end_request, advance, turn,
  interleave,
}
use loyalty_points_app.Wallets.Concurrent.Invariants.{IsOutside, turn-AllMove, advance-Moves}

-- An attempt that has ended with a result has its ref in the ledger.
abbrev pub IsKept : World → Attempt → Type 0
IsKept w (finished ctx request (ok resp)) = has_ref request.ref w.db.transactions ≡ true
IsKept w (finished ctx request (err x)) = Unit
IsKept w (arrived ctx request) = Unit
IsKept w (loaded ctx request now occurred_at r) = Unit
IsKept w (turned_down ctx request now owner_id x) = Unit

Step-IsKept : (a : Attempt) (w w' : World) → Step w.db w'.db → IsKept w a → IsKept w' a
Step-IsKept (finished ctx request (ok resp)) w w' s kept = Step-has_ref request.ref s kept
Step-IsKept (finished ctx request (err x)) w w' s kept = tt
Step-IsKept (arrived ctx request) w w' s kept = tt
Step-IsKept (loaded ctx request now occurred_at r) w w' s kept = tt
Step-IsKept (turned_down ctx request now owner_id x) w w' s kept = tt

Step-AllKept :
    (attempts : List Attempt) (w w' : World)
    → Step w.db w'.db
    → All (IsKept w) attempts
    → All (IsKept w') attempts
Step-AllKept [] w w' s h = tt
Step-AllKept (a ∷ rest) w w' s (kept, h) = (Step-IsKept a w w' s kept, Step-AllKept rest w w' s h)

abbrev Keeps : Attempt × World → Type 0
Keeps (a, w) = IsKept w a

abbrev AllKept : List Attempt × World → Type 0
AllKept (attempts, w) = All (IsKept w) attempts

module _ (e : Env) where
  Keeps-Commits :
      (ctx : Context) (request : ProcessTransactionRequest) (now occurred_at : Time)
      (owner : String) (w : World) (z : Result ProcessTransactionResponse × World)
      → Commits e ctx request (signed_delta request.kind request.points) now occurred_at owner w z
      → Keeps (end_work e ctx request now owner z)
  Keeps-Commits ctx request now occurred_at owner w (err x, w') h = tt
  Keeps-Commits ctx request now occurred_at owner w (ok resp, w') (inl (fresh, p)) =
      Posted-has_ref e (write_scoped ctx) request _ now occurred_at owner resp w.db w' p
  Keeps-Commits ctx request now occurred_at owner w (ok resp, w') (inr (twice, r)) =
      ap (λ (db : Db). has_ref request.ref db.transactions) r.1 ∙ r.0

  Keeps-Refuses :
      (ctx : Context) (request : ProcessTransactionRequest) (now : Time) (owner : Option String)
      (w : World) (z : Result ProcessTransactionResponse × World)
      → Refuses e ctx request (signed_delta request.kind request.points) now now "" owner w z
      → Keeps (end_request e ctx request z)
  Keeps-Refuses ctx request now owner w (ok resp, w') h = absurd h
  Keeps-Refuses ctx request now owner w (err x, w') h = tt

  Keeps-arrive :
      (ctx : Context) (request : ProcessTransactionRequest) (w : World) (o : Option Error)
      → Keeps (arrive e ctx request o w)
  Keeps-arrive ctx request w (some x) = tt
  Keeps-arrive ctx request w none = tt

  advance-Keeps : (a : Attempt) (w : World) → IsOutside a → IsKept w a → Keeps (advance e a w)
  unfolding advance
  advance-Keeps (arrived ctx request) w outer kept =
      Keeps-arrive ctx request w (validate_process request)
  advance-Keeps (loaded ctx request now occurred_at (err x)) w outer kept = tt
  advance-Keeps (loaded ctx request now occurred_at (ok account)) w outer kept =
      Keeps-Commits ctx request now occurred_at account.owner_id w
        (run_in_tx ctx
          (λ tx.
            unit_of_work tx request (signed_delta request.kind request.points) now occurred_at
              account.owner_id)
          e w)
        (run_in_tx-Commits e ctx request (signed_delta request.kind request.points) now occurred_at
          account.owner_id w outer)
  advance-Keeps (turned_down ctx request now owner x) w outer kept =
      Keeps-Refuses ctx request now owner w
        (reject_transaction ctx request (signed_delta request.kind request.points) now owner x e w)
        (reject_transaction-Refuses e ctx request (signed_delta request.kind request.points) now now
          "" owner x w)
  advance-Keeps (finished ctx request r) w outer kept = kept

  turn-AllKept :
      (i : ℕ) (attempts : List Attempt) (w : World)
      → All IsOutside attempts
      → All (IsKept w) attempts
      → AllKept (turn e i attempts w)
  unfolding turn
  turn-AllKept i [] w outer h = tt
  turn-AllKept zero (a ∷ rest) w (outer, _) (kept, h) = (
    advance-Keeps a w outer kept,
    Step-AllKept rest w (advance e a w).1 (advance-Moves e a w outer).0 h,
  )
  turn-AllKept (suc i) (a ∷ rest) w (outer, outers) (kept, h) = (
    Step-IsKept a w (turn e i rest w).1 (turn-AllMove e i rest w outers).0 kept,
    turn-AllKept i rest w outers h,
  )

  -- Whatever the schedule of any number of attempts, on contexts with no open transaction and with any
  -- failures on the way: where each attempt of the list that has ended with a result has its ref in the
  -- ledger, as where none has ended, each that has ended with a result afterwards has its ref in it.
  pub interleave_durable :
      (schedule : List ℕ) (attempts : List Attempt) (w : World)
      → All IsOutside attempts
      → All (IsKept w) attempts
      → All (IsKept (interleave e schedule attempts w).1) (interleave e schedule attempts w).0
  unfolding interleave
  interleave_durable [] attempts w outer h = h
  interleave_durable (i ∷ schedule) attempts w outer h =
      interleave_durable schedule (turn e i attempts w).0 (turn e i attempts w).1
        (turn-AllMove e i attempts w outer).1 (turn-AllKept i attempts w outer h)
