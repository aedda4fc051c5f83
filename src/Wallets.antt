-- ===== src/Wallets.antt =====
-- The wallet: the ledger of transactions and the service that writes it.
mod Types
mod Validations
mod Repository
pub mod Effects
pub mod Outcomes
pub mod Drift
pub mod Settles
pub mod Attempt
pub mod Invariant
pub mod Steps
pub mod Batch
pub mod Retry
pub mod Trail
pub mod Concurrent
pub mod Pages
pub mod Listing
pub mod Valid
pub mod Accepts
pub mod Liveness
pub mod Overdraft
pub mod Adaptor
pub mod Exposure
mod Service
mod Ingestion
pub use Types.*
unfoldable pub use Validations.*
unfoldable pub use Repository.*
unfoldable pub use Service.*
unfoldable pub use Ingestion.*
