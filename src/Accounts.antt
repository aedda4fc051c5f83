-- ===== src/Accounts.antt =====
-- Accounts: the wallets of the members.
mod Types
mod Validations
mod Repository
mod Listing
mod Service
pub mod Effects
pub mod Rows
pub mod Adaptor
pub mod Located
pub mod Credit
pub mod Privacy
pub mod Admin
pub use Types.*
unfoldable pub use Validations.*
unfoldable pub use Repository.*
unfoldable pub use Listing.*
unfoldable pub use Service.*
