-- ===== src/Orchestrator.antt =====
-- The task orchestrator (apps/desktop/src-tauri/src/orchestrator.rs).
pub mod TaskStatus
pub mod RunStatus
pub mod Event
pub mod Moves
pub mod Transition
pub mod Gating
pub mod Cascade
pub mod Rollup
pub mod RunEvent
pub mod Apply
pub mod Projection
pub mod Replay
pub mod Commit
