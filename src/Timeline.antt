-- ===== src/Timeline.antt =====
-- src/src/core_dll/sync/InputTimeline.cpp and InputTimeline.hpp: a thread of its own samples the player's input
-- at the deadline of each frame, and the game thread consumes the frames.
pub mod State
pub mod Control
pub mod Capture
pub mod Pump
pub mod Steps
mod Tests
