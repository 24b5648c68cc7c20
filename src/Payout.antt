-- ===== src/Payout.antt =====
-- backend/src/executor/payout-executor.ts: from a queued withdrawal to a confirmed payout.
pub mod Tables
pub mod Node
pub mod Checks
pub mod Signing
pub mod Queue
pub mod Broadcast
pub mod Confirm
pub mod Coins
pub mod Release
pub mod Evidence
pub mod Signatures
pub mod Moves
pub mod SigningMoves
pub mod BroadcastMoves
pub mod PollMoves
pub mod Completion
pub mod Examples
