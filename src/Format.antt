-- ===== src/Format.antt =====
-- src/format: the reading of an ELF file.
pub mod ElfTypes
pub mod Codes
pub mod Ranges
pub mod Reads
pub mod Strings
pub mod Symbols
pub mod Relocations
pub mod Parse
