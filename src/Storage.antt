-- ===== src/Storage.antt =====
-- packages/fold-storage: the journal file of events and checkpoints.
pub mod Records
pub mod Digest
pub mod Checkpoint
pub mod Reader
pub mod Writer
