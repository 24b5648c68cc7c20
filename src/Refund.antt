-- ===== src/Refund.antt =====
-- backend/src/executor/refund-executor.ts and backend/src/dobbscoin/sender.ts: the over-cap part of a
-- deposit, paid back to its sender.
pub mod Rows
pub mod Sender
pub mod SenderLaws
pub mod Signing
pub mod Sending
pub mod Poll
pub mod Steps
pub mod SigningMoves
pub mod SendingMoves
pub mod PollMoves
pub mod Amounts
pub mod Examples
