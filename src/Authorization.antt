-- ===== src/Authorization.antt =====
-- Authorization: what a role may do, and which methods it reaches.
mod Permissions
mod Policies
pub mod Scopes
pub mod Roles
unfoldable pub use Permissions.*
unfoldable pub use Policies.*
