-- ===== src/Execution/Router/Laws.antt =====
-- What a caller of `build_intent` can rely on.
pub mod Steps
pub mod Fresh
pub mod Replay
pub mod Locks
pub mod Maker
