-- ===== src/Examples.antt =====
-- Sample logs, tests of the definitions on concrete inputs, and the theorems at such inputs.
mod Samples
mod Logs
mod Changes
mod Folds
mod Journals
mod Windows
mod Jobs
mod Leases
mod Actors
