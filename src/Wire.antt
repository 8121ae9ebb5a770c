-- ===== src/Wire.antt =====
-- Datagrams that are laid out byte by byte: little-endian fields at fixed offsets.
pub mod Bytes
pub mod Probe
pub mod Route
pub mod Close
