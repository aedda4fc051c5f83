-- ===== src/Sql/Transactions.antt =====
-- `PostgresTxManager.RunInTx` of pkg/postgres/tx.go.
use loyalty_points_app.Prelude.{suc, true, none, some, if◌then◌else◌}
use loyalty_points_app.Errs.{Error, wrapped, wrapped_two, plain}
use loyalty_points_app.Sql.Schema.{Db}
use loyalty_points_app.Sql.Monad.{Result, ok, err, driver, Env, World, Action}
use loyalty_points_app.Authentication.Context.{Context}

module _ {A : Type 0} where
  -- `tx.Rollback()`: the server drops the writes also where the driver reports a failure.
  abbrev rollback : Db → Error → Env → World → Result A × World
  rollback before x e w =
      let w' = record w { db = before; calls = suc w.calls } in
      elim (e.fault w.calls) [
        | none ↦ (err x, w')
        | some t ↦ (
          err (wrapped_two "could not roll back transaction" (plain (e.sql_text (driver t))) x),
          w',
        )
      ]

  -- `tx.Commit()`: where it fails, the writes are not there.
  abbrev commit : Db → A → Env → World → Result A × World
  commit before a e w = elim (e.fault w.calls) [
    | none ↦ (ok a, record w { calls = suc w.calls })
    | some t ↦ (
      err (wrapped "could not commit transaction" (plain (e.sql_text (driver t)))),
      record w { db = before; calls = suc w.calls },
    )
  ]

  abbrev finish : Db → Env → Result A × World → Result A × World
  finish before e (r, w) = elim r [ err x ↦ rollback before x e w | ok a ↦ commit before a e w ]

  -- `m.db.BeginTx`, the function, and its end.
  abbrev outermost : Context → (Context → Action A) → Action A
  outermost ctx fn e w = elim (e.fault w.calls) [
    | none ↦ finish w.db e (fn (record ctx { in_tx = true }) e (record w { calls = suc w.calls }))
    | some t ↦ (
      err (wrapped "could not begin transaction" (plain (e.sql_text (driver t)))),
      record w { calls = suc w.calls },
    )
  ]

  unfoldable pub run_in_tx : Context → (Context → Action A) → Action A
  run_in_tx ctx fn = if ctx.in_tx then fn ctx else outermost ctx fn
