-- ===== src/Repositories.antt =====
-- The repository layer (apps/desktop/src-tauri/src/repositories) over the tables of the local
-- database (apps/desktop/src-tauri/migrations).
pub mod Rows
pub mod Tables
pub mod Transaction
pub mod Tasks
pub mod Runs
pub mod Events
pub mod Artifacts
pub mod Domain
pub mod Projects
