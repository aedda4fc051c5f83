-- ===== src/Wallets/Concurrent/Turns.antt =====
-- `ProcessTransaction` of internal/pkg/wallets/walletServiceImpl.go, cut where another request may
-- come between: after the account is read, after the unit of work, and after the audit row of a
-- rejection. A unit of work is one step: on a ref and on an account PostgreSQL's unique index and row
-- lock make those of two requests wait for one another.
use loyalty_points_app.Prelude.{
  ℕ, zero, suc, String, Option, none, some, List, [], ◌∷◌, if◌then◌else◌,
}
use loyalty_points_app.Errs.{Error, wrapped}
use loyalty_points_app.Authentication.Context.{Context}
use loyalty_points_app.Sql.{Time, is_zero, Env, World, Result, ok, err, run_in_tx}
use loyalty_points_app.Sql.Atomic.{tick}
use loyalty_points_app.Accounts as AccountRepository
use loyalty_points_app.Accounts.{Account}
use loyalty_points_app.Wallets.Types.{ProcessTransactionRequest, ProcessTransactionResponse}
use loyalty_points_app.Wallets.Validations.{validate_process}
use loyalty_points_app.Wallets.Service.{signed_delta, reject_transaction, unit_of_work}

-- How far a request has come.
pub data Attempt : Type 0 where
  arrived : Context → ProcessTransactionRequest → Attempt
  loaded : Context → ProcessTransactionRequest → (now occurred_at : Time) → Result Account → Attempt
  turned_down :
      Context
      → ProcessTransactionRequest
      → (now : Time) → (owner_id : Option String) → Error
      → Attempt
  finished : Context → ProcessTransactionRequest → Result ProcessTransactionResponse → Attempt

module _ (e : Env) where
  abbrev pub load :
      Context → ProcessTransactionRequest → Time → Time → Result Account × World → Attempt × World
  load ctx request now occurred_at (r, w) = (loaded ctx request now occurred_at r, w)

  abbrev pub arrive : Context → ProcessTransactionRequest → Option Error → World → Attempt × World
  arrive ctx request (some x) w =
      (finished ctx request (err (wrapped "invalid request for ProcessTransaction" x)), w)
  arrive ctx request none w =
      load ctx request (e.now w.calls)
        (if is_zero request.occurred_at then e.now w.calls else request.occurred_at)
        (AccountRepository.get_by_id ctx
          (record { account_id = request.account_id; user_id = request.user_id }) e (tick w))

  abbrev pub end_work :
      Context
      → ProcessTransactionRequest
      → Time
      → String
      → Result ProcessTransactionResponse × World
      → Attempt × World
  end_work ctx request now owner_id (ok resp, w) = (finished ctx request (ok resp), w)
  end_work ctx request now owner_id (err x, w) = (turned_down ctx request now (some owner_id) x, w)

  abbrev pub end_request :
      Context
      → ProcessTransactionRequest
      → Result ProcessTransactionResponse × World
      → Attempt × World
  end_request ctx request (r, w) = (finished ctx request r, w)

  -- One step of one attempt.
  unfoldable pub advance : Attempt → World → Attempt × World
  advance (arrived ctx request) w = arrive ctx request (validate_process request) w
  advance (loaded ctx request now occurred_at (err x)) w = (turned_down ctx request now none x, w)
  advance (loaded ctx request now occurred_at (ok account)) w =
      end_work ctx request now account.owner_id (
        run_in_tx ctx
          (λ tx.
            unit_of_work tx request (signed_delta request.kind request.points) now occurred_at
              account.owner_id)
          e w)
  advance (turned_down ctx request now owner_id x) w =
      end_request ctx request (
        reject_transaction ctx request (signed_delta request.kind request.points) now owner_id x e
          w)
  advance (finished ctx request r) w = (finished ctx request r, w)

  -- The attempt of that number takes a step; there may be none.
  unfoldable pub turn : ℕ → List Attempt → World → List Attempt × World
  unfolding advance
  turn i [] w = ([], w)
  turn zero (a ∷ rest) w = let (a', w') = advance a w in (a' ∷ rest, w')
  turn (suc i) (a ∷ rest) w = let (rest', w') = turn i rest w in (a ∷ rest', w')

  -- A schedule: whose turn it is, step after step.
  unfoldable pub interleave : List ℕ → List Attempt → World → List Attempt × World
  unfolding turn
  interleave [] attempts w = (attempts, w)
  interleave (i ∷ is) attempts w =
      let (attempts', w') = turn i attempts w in interleave is attempts' w'
