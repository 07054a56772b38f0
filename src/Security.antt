-- ===== src/Security.antt =====
-- src/security.rs and src/enforcement.rs: which paths and which commands an agent may reach.
pub mod Paths
pub mod Workspace
pub mod Commands
pub mod Shell
pub mod Gate
pub mod Sample
mod Examples
