-- ===== src/Registration.antt =====
-- Registration: a new user, his first account and his first token.
mod Types
mod Service
mod Adaptor
pub mod Inserts
pub mod Enrolment
pub mod Outcome
pub use Types.*
unfoldable pub use Service.*
unfoldable pub use Adaptor.*
