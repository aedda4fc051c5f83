-- ===== src/Sql/Atomic.antt =====
-- A unit of work commits as a whole or leaves the tables as they were.
use loyalty_points_app.Prelude.{suc, ◌≡◌, true, false, arith}
use loyalty_points_app.Authentication.Context.{Context}
use loyalty_points_app.Sql.Monad.{Result, ok, err, Env, World, Action}
use loyalty_points_app.Sql.Transactions.{run_in_tx}

-- The context and the state that the function of a unit of work starts with.
abbrev pub tx_context : Context → Context
tx_context ctx = record ctx { in_tx = true }

abbrev pub tick : World → World
tick w = record w { calls = suc w.calls }

module _ {A : Type 0} where
  -- The function returned and its writes are there; or there was an error, and none is.
  abbrev pub Transacts : World → Result A × World → Result A × World → Type 0
  Transacts w (ran, v) (ok a, w') =
      (ran ≡ ok a) × (w'.db ≡ v.db) × (w'.next_audit_id ≡ v.next_audit_id)
  Transacts w (ran, v) (err x, w') = w'.db ≡ w.db

  -- For any function, on the outermost call, whatever the driver reports of BEGIN, COMMIT and
  -- ROLLBACK: a unit of work that returns a value has run its function to that value and kept its
  -- writes; one that returns an error has left every table as it was.
  pub run_in_tx-Transacts :
      (ctx : Context) (fn : Context → Action A) (e : Env) (w : World)
      → ctx.in_tx ≡ false
      → Transacts w (fn (tx_context ctx) e (tick w)) (run_in_tx ctx fn e w)
  unfolding run_in_tx
  run_in_tx-Transacts ctx fn e w outer = rw outer (ground arith)
