-- ===== src/Network.antt =====
-- src/src/core_dll/network: the packets of a session, from both ends.
pub mod Packet
pub mod Receiver
pub mod Steps
pub mod Receive
pub mod Build
pub mod Delivery
mod Tests
