-- ===== src/Store.antt =====
-- src/persistence/: the stores over SQLite.
pub mod Table
pub mod Database
pub mod Messages
pub mod Runs
pub mod Sessions
pub mod Actions
pub mod Approvals
pub mod Integrity
pub mod Legacy
mod Examples
