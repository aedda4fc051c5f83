-- ===== src/Wallets/Concurrent/Once.antt =====
-- A ref is accepted once, whatever the schedule.
use loyalty_points_app.Prelude.{
  ℕ, zero, suc, ◌+◌, ◌≤◌, String, ◌≡◌, subst, Bool, Bool-cases, true, false, not, ◌&&◌, Option,
  none, some, inl, inr, List, [], ◌∷◌, All, count_where, arith, eq_iff, ◌==◌, if◌then◌else◌,
}
use loyalty_points_app.Errs.{Error}
use loyalty_points_app.Authentication.Context.{Context}
use loyalty_points_app.Sql.{Time, Env, World, Result, ok, err, run_in_tx}
use loyalty_points_app.Wallets.Types.{ProcessTransactionRequest, ProcessTransactionResponse}
use loyalty_points_app.Wallets.Repository.{has_ref}
use loyalty_points_app.Wallets.Validations.{validate_process}
use loyalty_points_app.Wallets.Service.{signed_delta, reject_transaction, unit_of_work}
use loyalty_points_app.Wallets.Outcomes.{write_scoped}
use loyalty_points_app.Wallets.Settles.{
  Commits, run_in_tx-Commits, Refuses, reject_transaction-Refuses,
}
use loyalty_points_app.Wallets.Retry.{Step-has_ref, Posted-has_ref}
use loyalty_points_app.Wallets.Steps.{Step}
use loyalty_points_app.Wallets.Concurrent.Turns.{
  Attempt, arrived, loaded, turned_down, finished, arrive, end_work, end_request, advance, turn,
  interleave,
}
use loyalty_points_app.Wallets.Concurrent.Invariants.{IsOutside, turn-AllMove, advance-Moves}

-- The attempt has moved points under the ref.
abbrev pub is_accepted : String → Attempt → Bool
is_accepted ref (finished ctx request (ok resp)) = not resp.duplicate && request.ref == ref
is_accepted ref (finished ctx request (err x)) = false
is_accepted ref (arrived ctx request) = false
is_accepted ref (loaded ctx request now occurred_at r) = false
is_accepted ref (turned_down ctx request now owner_id x) = false

abbrev pub one_if : Bool → ℕ
one_if b = if b then 1 else 0

-- One, where the ledger has the ref.
abbrev pub posted : String → World → ℕ
posted ref w = one_if (has_ref ref w.db.transactions)

posted-Step : (ref : String) (w w' : World) → Step w.db w'.db → posted ref w ≤ posted ref w'
posted-Step ref w w' s = elim (Bool-cases (has_ref ref w.db.transactions)) [
  | inl seen ↦ rw seen (rw (Step-has_ref ref s seen) (omega arith))
  | inr new ↦ rw new (omega arith)
]

one_if_bound : (b : Bool) → one_if b ≤ 1
one_if_bound true = omega arith
one_if_bound false = omega arith

module _ (e : Env) (ref : String) where
  -- What a step adds to the accepted attempts is added to the ledger.
  abbrev Adds : Attempt → World → Attempt × World → Type 0
  Adds a w (a', w') =
      one_if (is_accepted ref a') + posted ref w ≤ one_if (is_accepted ref a) + posted ref w'

  Adds-Commits :
      (ctx : Context) (request : ProcessTransactionRequest) (now occurred_at : Time)
      (owner : String) (a : Attempt) (w : World) (z : Result ProcessTransactionResponse × World)
      → posted ref w ≤ posted ref (end_work e ctx request now owner z).1
      → Commits e ctx request (signed_delta request.kind request.points) now occurred_at owner w z
      → Adds a w (end_work e ctx request now owner z)
  Adds-Commits ctx request now occurred_at owner a w (err x, w') grows h = omega arith
  Adds-Commits ctx request now occurred_at owner a w (ok resp, w') grows (inr (twice, r)) =
      rw twice (omega arith)
  Adds-Commits ctx request now occurred_at owner a w (ok resp, w') grows (inl (fresh, p)) =
      elim (Bool-cases (request.ref == ref)) [
        | inr other ↦ rw (fresh, other) (omega arith)
        | inl same ↦
            let named = (eq_iff request.ref ref).0 same in
            let before = subst (λ k. has_ref k w.db.transactions ≡ false) named p.0 in
            let after =
              subst (λ k. has_ref k w'.db.transactions ≡ true) named
                (Posted-has_ref e (write_scoped ctx) request _ now occurred_at owner resp w.db w'
                  p) in
            rw (fresh, same, before, after) (omega arith)
      ]

  Adds-Refuses :
      (ctx : Context) (request : ProcessTransactionRequest) (now : Time) (owner : Option String)
      (a : Attempt) (w : World) (z : Result ProcessTransactionResponse × World)
      → posted ref w ≤ posted ref (end_request e ctx request z).1
      → Refuses e ctx request (signed_delta request.kind request.points) now now "" owner w z
      → Adds a w (end_request e ctx request z)
  Adds-Refuses ctx request now owner a w (ok resp, w') grows h = absurd h
  Adds-Refuses ctx request now owner a w (err x, w') grows h = omega arith

  Adds-arrive :
      (ctx : Context) (request : ProcessTransactionRequest) (w : World) (o : Option Error)
      → posted ref w ≤ posted ref (arrive e ctx request o w).1
      → Adds (arrived ctx request) w (arrive e ctx request o w)
  Adds-arrive ctx request w (some x) grows = omega arith
  Adds-arrive ctx request w none grows = omega arith

  advance-Adds : (a : Attempt) (w : World) → IsOutside a → Adds a w (advance e a w)
  unfolding advance
  advance-Adds a w outer =
      added a outer (posted-Step ref w (advance e a w).1 (advance-Moves e a w outer).0)
    where
      added :
          (a : Attempt)
          → IsOutside a
          → posted ref w ≤ posted ref (advance e a w).1
          → Adds a w (advance e a w)
      added (arrived ctx request) outer grows =
          Adds-arrive ctx request w (validate_process request) grows
      added (loaded ctx request now occurred_at (err x)) outer grows = omega arith
      added (loaded ctx request now occurred_at (ok account)) outer grows =
          Adds-Commits ctx request now occurred_at account.owner_id
            (loaded ctx request now occurred_at (ok account)) w
            (run_in_tx ctx
              (λ tx.
                unit_of_work tx request (signed_delta request.kind request.points) now occurred_at
                  account.owner_id)
              e w)
            grows
            (run_in_tx-Commits e ctx request (signed_delta request.kind request.points) now
              occurred_at account.owner_id w outer)
      added (turned_down ctx request now owner x) outer grows =
          Adds-Refuses ctx request now owner (turned_down ctx request now owner x) w
            (reject_transaction ctx request (signed_delta request.kind request.points) now owner x e
              w)
            grows
            (reject_transaction-Refuses e ctx request (signed_delta request.kind request.points) now
              now "" owner x w)
      added (finished ctx request r) outer grows = omega arith

  turn-Adds :
      (i : ℕ) (attempts : List Attempt) (w : World)
      → All IsOutside attempts
      → count_where (is_accepted ref) (turn e i attempts w).0 + posted ref w
        ≤ count_where (is_accepted ref) attempts + posted ref (turn e i attempts w).1
  unfolding turn
  turn-Adds i [] w h = omega arith
  turn-Adds zero (a ∷ rest) w (outer, h) = omega (arith, advance-Adds a w outer)
  turn-Adds (suc i) (a ∷ rest) w (outer, h) = omega (arith, turn-Adds i rest w h)

  interleave-Adds :
      (schedule : List ℕ) (attempts : List Attempt) (w : World)
      → All IsOutside attempts
      → count_where (is_accepted ref) (interleave e schedule attempts w).0 + posted ref w
        ≤ count_where (is_accepted ref) attempts + posted ref (interleave e schedule attempts w).1
  unfolding interleave
  interleave-Adds [] attempts w h = omega arith
  interleave-Adds (i ∷ schedule) attempts w h = omega (
    arith,
    turn-Adds i attempts w h,
    interleave-Adds schedule (turn e i attempts w).0 (turn e i attempts w).1
        (turn-AllMove e i attempts w h).1,
  )

  -- Whatever the schedule of any number of attempts, on contexts with no open transaction and with any
  -- failures on the way: of attempts none of which had moved points under a ref, at most one has
  -- afterwards, and none if the ledger had the ref before; where one has, the ledger has the ref.
  pub interleave_once :
      (schedule : List ℕ) (attempts : List Attempt) (w : World)
      → All IsOutside attempts
      → count_where (is_accepted ref) attempts ≡ 0
      → (count_where (is_accepted ref) (interleave e schedule attempts w).0 + posted ref w ≤ 1)
        × (count_where (is_accepted ref) (interleave e schedule attempts w).0
            ≤ posted ref (interleave e schedule attempts w).1)
  interleave_once schedule attempts w outer none_yet =
      let adds = interleave-Adds schedule attempts w outer in
      let most = one_if_bound (has_ref ref (interleave e schedule attempts w).1.db.transactions) in
      (omega arith, omega arith)
