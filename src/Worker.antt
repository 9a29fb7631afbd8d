-- ===== src/Worker.antt =====
-- apps/memory-worker: the windows of sources that a worker schedules, and the ledger of its jobs.
pub mod Windows
pub mod Sealing
pub mod Scheduler
pub mod Processing
pub mod Jobs
pub mod Lease
