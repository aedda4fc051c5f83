-- ===== src/Migrations.antt =====
-- The migrations that run at every start.
mod Client
mod Statements
mod Run
pub mod Again
unfoldable pub use Client.*
unfoldable pub use Statements.*
unfoldable pub use Run.*
