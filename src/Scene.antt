-- ===== src/Scene.antt =====
-- src/src/core_dll/engine and the input type of src/src/core_dll/mbaa_mem: what reaches the game on each screen, the
-- menus, and the score of a session.
pub mod Input
pub mod Gate
pub mod Filter
pub mod Score
pub mod Rematch
pub mod Menu
pub mod InputDelay
mod Tests
