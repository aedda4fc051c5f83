-- ===== src/Migrations/Client.antt =====
-- `NewClient` of pkg/postgres/client.go; the bounds of the pool are outside the model.
use loyalty_points_app.Prelude.{String, Option, none, some}
use loyalty_points_app.Errs.{Error, wrapped}

-- `sql.Open` and `Ping`, by the data source's name.
pub record Connector : Type 0 where
  pub open_error : String → Option Error
  pub ping_error : String → Option Error

abbrev pub or_error : String → Option Error → Option Error → Option Error
or_error message (some x) next = some (wrapped message x)
or_error message none next = next

abbrev pub new_client : Connector → String → Option Error
new_client c dsn =
    or_error "failed to open postgres database" (c.open_error dsn)
      (or_error "failed to ping postgres database" (c.ping_error dsn) none)
