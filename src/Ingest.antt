-- ===== src/Ingest.antt =====
-- The CLI's `ingest` command: a CSV file, one request, and its summary.
mod Rows
mod Batch
mod Summary
mod Printing
mod Preview
mod Command
pub mod Order
pub mod Accounting
pub mod Sending
pub mod Repeats
unfoldable pub use Rows.*
unfoldable pub use Batch.*
unfoldable pub use Summary.*
unfoldable pub use Printing.*
unfoldable pub use Preview.*
unfoldable pub use Command.*
