-- ===== src/Drives.antt =====
-- packages/fold-drives: the drives of an actor, their levels and their wear.
pub mod Types
pub mod Config
pub mod System
pub mod Snapshot
pub mod Levels
pub mod Runs
