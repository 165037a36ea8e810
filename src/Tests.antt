-- ===== src/Tests.antt =====
-- The theorems at concrete inputs, and runs of the definitions.
mod Util
mod Image
mod Disasm
mod Graph
mod Recovery
mod Format
mod Layouts
mod Elf
mod Heuristics
mod Engine
mod Output
mod Cli
