-- ===== src/Worker.antt =====
-- The worker supervisor (apps/desktop/src-tauri/src/worker/mod.rs).
pub mod Backoff
pub mod Version
pub mod Outside
pub mod Jobs
pub mod Start
pub mod Calls
pub mod Quiet
pub mod Advances
pub mod Steps
pub mod Tracked
pub mod Outcome
