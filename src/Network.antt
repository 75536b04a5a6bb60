-- ===== src/Network.antt =====
-- src/network: what nodes know of each other and the messages that they send.
pub mod SizeTWrapper
pub mod NodeInfo
pub mod Directory
pub mod Message
pub mod Net
pub mod Await
pub mod Pseudo
pub mod Members
mod Tests
