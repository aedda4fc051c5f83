-- ===== src/Startup.antt =====
-- The start of the server: its configuration, its dependencies and the chain that they give.
mod Config
mod Dependencies
pub mod Closed
unfoldable pub use Config.*
unfoldable pub use Dependencies.*
