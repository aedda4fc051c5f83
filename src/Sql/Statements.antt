-- ===== src/Sql/Statements.antt =====
-- Running a statement. `Outcome` is what `database/sql` hands back: rows, or an error.
use loyalty_points_app.Prelude.{suc, String, Bool, Option, none, some, false, true}
use loyalty_points_app.Errs.{Error, plain}
use loyalty_points_app.Sql.Schema.{Db}
use loyalty_points_app.Sql.Monad.{
  ok, SqlError, unique_violation, foreign_key_violation, driver, World, Action,
}

pub data Outcome (A : Type 0) : Type 0 where
  done : A → Outcome A
  failed : SqlError → Outcome A

-- A statement reads and writes the tables, or is rejected and changes nothing.
abbrev pub Statement : Type 0 → Type 0
Statement A = Db → Outcome (A × Db)

module _ {A : Type 0} where
  abbrev pub settle : World → Outcome (A × Db) → Outcome A × World
  settle w o = elim o [ done p ↦ (done p.0, record w { db = p.1 }) | failed x ↦ (failed x, w) ]

  abbrev pub attempt : Option String → Outcome (A × Db) → World → Outcome A × World
  attempt fault o w = elim fault [ none ↦ settle w o | some t ↦ (failed (driver t), w) ]

  -- `exec.ExecContext`, `exec.QueryContext` and `exec.QueryRowContext`
  abbrev pub exec : Statement A → Action (Outcome A)
  exec s e w =
      let (o, w') = attempt (e.fault w.calls) (s w.db) (record w { calls = suc w.calls }) in
      (ok o, w')

  abbrev pub query : (Db → A) → Statement A
  query f db = done (f db, db)

-- `IsUniqueConstraintViolation` and `IsForeignKeyConstraintViolation`
abbrev pub is_unique_constraint_violation : SqlError → Bool
is_unique_constraint_violation unique_violation = true
is_unique_constraint_violation _ = false

abbrev pub is_foreign_key_constraint_violation : SqlError → Bool
is_foreign_key_constraint_violation foreign_key_violation = true
is_foreign_key_constraint_violation _ = false

-- The driver's error as a Go error value.
abbrev pub sql_error : SqlError → Action Error
sql_error x e w = (ok (plain (e.sql_text x)), w)
