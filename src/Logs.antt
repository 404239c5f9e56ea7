-- ===== src/Logs.antt =====
-- logs/logs.go: the request log.
pub mod Entry
pub mod Fold
pub mod Recorder
pub mod Query
pub mod Pages
pub mod Invariant
pub mod Retention
pub mod Persist
