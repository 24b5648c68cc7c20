-- ===== src/Gnosis.antt =====
-- backend/src/gnosis: withdrawals as the burn events on Gnosis tell them.
pub mod Destination
pub mod DestinationLaws
pub mod BurnVerifier
pub mod Backing
pub mod EventWatcher
pub mod Watermark
pub mod LogOrder
pub mod Scan
pub mod Reach
pub mod BurnConfirm
pub mod Recount
pub mod RecountLaws
mod Examples
