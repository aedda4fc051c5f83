-- ===== src/Sql.antt =====
-- The database as the program sees it: pkg/sql, pkg/postgres/tx.go, pkg/postgres/errors.go,
-- pkg/time/time.go and the tables of pkg/postgres/migrations/0001_init.sql.
--
-- A repository method is an action: it reads an environment (clock, random identifiers, the
-- driver's failures) and takes the state of the server to a result and a new state. A statement is
-- atomic, as in SQL. Any statement, `BEGIN`, `COMMIT` and `ROLLBACK` can fail at the driver, as the
-- environment says; a unit of work that does not commit leaves the tables as it found them.
pub mod Schema
mod Monad
mod Statements
mod Transactions
pub mod Atomic
pub use Schema.{Db}
pub use Monad.*
pub use Statements.*
unfoldable pub use Transactions.{run_in_tx}
