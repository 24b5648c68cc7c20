-- ===== src/Deposits.antt =====
-- The deposit half of the watcher (watcher/src/deposits): matching outputs, recording deposits and
-- advancing them by their confirmations.
pub mod Confirmations
pub mod Matching
pub mod Tables
pub mod Ingest
pub mod Advance
pub mod Handler
pub mod Targets
pub mod Finality
pub mod Progress
pub mod Replay
pub mod Entered
pub mod Entry
mod Examples
