-- ===== src/Server.antt =====
-- The JSON-RPC server: the codec's calls, the services' methods, and the whole way of a request.
mod Calls
mod Services
pub mod Methods
pub mod Anonymous
pub mod Reached
unfoldable pub use Calls.*
unfoldable pub use Services.*
