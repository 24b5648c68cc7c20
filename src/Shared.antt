-- ===== src/Shared.antt =====
-- The shared package (shared/src): order states, their transition tables and the guards on them.
pub mod Result
pub mod Inbound
pub mod Outbound
pub mod InboundPaths
pub mod OutboundPaths
mod Examples
