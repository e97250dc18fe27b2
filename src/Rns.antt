-- ===== src/Rns.antt =====
-- internal/rns: framing, packets, links and resources.
pub mod Hdlc
pub mod Packet
pub mod Crypto
pub mod Identity
pub mod Token
pub mod Link
pub mod Resource
pub mod Announce
pub mod LinkData
pub mod LinkState
pub mod Dispatch
