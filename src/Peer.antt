-- ===== src/Peer.antt =====
-- The direct connection of two players, src/src/p2p: codes, requests and control packets.
pub mod Text
pub mod Admission
pub mod Control
