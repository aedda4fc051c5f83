-- ===== src/Audits.antt =====
-- The audit trail of transaction-processing attempts.
mod Types
mod Validations
mod Repository
mod Service
pub mod Effects
pub mod Privacy
pub use Types.*
unfoldable pub use Validations.*
unfoldable pub use Repository.*
unfoldable pub use Service.*
