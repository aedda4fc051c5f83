-- ===== src/Wallets/Batch.antt =====
-- A batch of attempts: its runs of the abstract machine and its answer.
mod Order
mod Tally
mod Runs
pub use Order.*
pub use Tally.*
pub use Runs.*
