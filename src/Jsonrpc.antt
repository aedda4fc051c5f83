-- ===== src/Jsonrpc.antt =====
-- pkg/jsonrpc: the errors that a client sees, and what every handler begins with.
mod Errors
mod Handlers
pub mod Mapping
unfoldable pub use Errors.*
pub use Handlers.*
