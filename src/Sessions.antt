-- ===== src/Sessions.antt =====
-- Sessions: access tokens, login and logout.
mod Libraries
mod Tokens
mod Login
mod Logout
pub mod Validity
pub mod RoundTrip
pub mod Revoked
pub mod Credentials
pub mod SignedIn
pub use Libraries.*
unfoldable pub use Tokens.*
unfoldable pub use Login.*
unfoldable pub use Logout.*
