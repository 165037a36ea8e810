-- ===== src/Disasm.antt =====
-- include/binaryatlas/disasm and src/disasm/disassembler.cpp.
pub mod Instruction
pub mod Index
pub mod Capstone
pub mod Decode
pub mod Buffer
pub mod Sections
