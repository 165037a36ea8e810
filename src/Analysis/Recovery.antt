-- ===== src/Analysis/Recovery.antt =====
-- src/analysis/recovery.cpp: seeds, blocks, functions and the call graph.
pub mod Seeds
pub mod Walk
pub mod Function
pub mod CallGraph
pub mod Analyze
