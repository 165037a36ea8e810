-- ===== src/Output.antt =====
-- include/binaryatlas/output, src/output and src/graph: how results are written.
pub mod Dot
pub mod Json
pub mod JsonValues
pub mod JsonWriter
pub mod TerminalLines
pub mod Terminal
