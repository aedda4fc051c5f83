-- ===== src/Authentication.antt =====
-- Authentication: the login claim and the request context.
pub mod Context
pub use Context.{LoginClaim}
