-- ===== src/Users.antt =====
-- Users: the principals and their session epochs.
mod Types
mod Validations
mod Repository
pub mod Listing
pub mod Revocation
pub mod Privacy
pub use Types.*
unfoldable pub use Validations.*
unfoldable pub use Repository.*
