-- ===== src/Util.antt =====
-- include/binaryatlas/util: checked arithmetic, bounded reads and text helpers.
pub mod Arithmetic
pub mod ByteReader
pub mod Strings
pub mod FileIo
