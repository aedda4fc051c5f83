-- ===== src/Bootstrap.antt =====
-- The operator's bootstrap: it wipes the tables and makes the one system user.
mod Run
pub mod Fresh
pub mod FirstLogin
unfoldable pub use Run.*
