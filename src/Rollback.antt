-- ===== src/Rollback.antt =====
-- src/src/core_dll/rollback: predictions of inputs that have not arrived, and the way back from wrong ones.
pub mod Prediction
pub mod Corrections
