-- ===== src/Wallets/Concurrent.antt =====
-- Attempts of several requests at once: what others do between two steps of `ProcessTransaction`.
mod Turns
pub mod Alone
pub mod Invariants
pub mod Once
pub mod Durable
unfoldable pub use Turns.*
