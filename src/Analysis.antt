-- ===== src/Analysis.antt =====
-- include/binaryatlas/analysis and src/analysis: graphs, metrics and function recovery.
pub mod Function
pub mod Graph
pub mod Metrics
pub mod Recovery
