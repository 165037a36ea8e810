-- ===== src/Heuristics.antt =====
-- include/binaryatlas/heuristics and src/heuristics: findings about a binary and its functions.
pub mod Finding
pub mod Vtable
pub mod Function
pub mod Detectors
pub mod Detect
