-- ===== src/Wallets/Concurrent/Alone.antt =====
-- An attempt that is alone.
use loyalty_points_app.Prelude.{String, ◌≡◌, refl, some, Option-cases, inl, inr}
use loyalty_points_app.Authentication.Context.{Context}
use loyalty_points_app.Sql.{Time, Env, World, Result, ok, err, run_in_tx}
use loyalty_points_app.Accounts.{Account}
use loyalty_points_app.Wallets.Types.{ProcessTransactionRequest, ProcessTransactionResponse}
use loyalty_points_app.Wallets.Validations.{validate_process}
use loyalty_points_app.Wallets.Service.{
  signed_delta, or_reject, unit_of_work, with_account, process_transaction,
}
use loyalty_points_app.Wallets.Concurrent.Turns.{
  Attempt, arrived, load, end_work, end_request, advance,
}

module _ (e : Env) where
  -- The next step of an attempt, at the tables that the last one left.
  abbrev pub again : Attempt × World → Attempt × World
  again (a, w) = advance e a w

  again-end_work :
      (ctx : Context) (request : ProcessTransactionRequest) (now : Time) (owner : String)
      (z : Result ProcessTransactionResponse × World)
      → again (end_work e ctx request now owner z)
        ≡ end_request e ctx request (
            or_reject ctx request
              (signed_delta request.kind request.points)
              now
              (some owner)
              z.0
              e
              z.1)
  unfolding advance
  again-end_work ctx request now owner (ok resp, w) = refl
  again-end_work ctx request now owner (err x, w) = refl

  again-load :
      (ctx : Context) (request : ProcessTransactionRequest) (now occurred_at : Time)
      (z : Result Account × World)
      → again (again (load e ctx request now occurred_at z))
        ≡ end_request e ctx request (
            with_account ctx request
              (signed_delta request.kind request.points)
              now
              occurred_at
              z.0
              e
              z.1)
  unfolding advance with_account
  again-load ctx request now occurred_at (err x, w) = refl
  again-load ctx request now occurred_at (ok account, w) =
      again-end_work ctx request now account.owner_id (
        run_in_tx ctx
          (λ tx.
            unit_of_work tx request (signed_delta request.kind request.points) now occurred_at
              account.owner_id)
          e w)

  -- An attempt whose three steps are taken with nothing between them ends as `ProcessTransaction`
  -- does, with its result and its tables.
  pub advance-process_transaction :
      (ctx : Context) (request : ProcessTransactionRequest) (w : World)
      → again (again (again (arrived ctx request, w)))
        ≡ end_request e ctx request (process_transaction ctx request e w)
  unfolding advance process_transaction
  advance-process_transaction ctx request w = elim (Option-cases (validate_process request)) [
    | inr (x, invalid) ↦ rw (advance, invalid) refl
    | inl valid ↦ rw (advance, valid) (again-load ctx request _ _ _)
  ]
