-- ===== src/Failure.antt =====
-- src/failure.rs: the failure vocabulary (`Kinds`), its records (`Record`), and what is proved of them.
mod Kinds
mod Record
pub mod Retry
pub mod Causes
pub mod Truncation
pub mod Roots
mod Examples
unfoldable pub use Kinds.*
unfoldable pub use Record.*
