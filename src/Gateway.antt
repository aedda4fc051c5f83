-- ===== src/Gateway.antt =====
-- The gateway: what stands between the network and a handler.
mod Http
mod Authorizing
mod Limiting
mod Logging
mod Chain
pub mod Gate
pub mod Brake
pub mod Tokenless
unfoldable pub use Http.*
unfoldable pub use Authorizing.*
unfoldable pub use Limiting.*
unfoldable pub use Logging.*
unfoldable pub use Chain.*
