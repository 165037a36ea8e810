-- ===== src/Core.antt =====
-- include/binaryatlas/core and src/core: results, the data model and the parsed image.
pub mod Error
pub mod Types
pub mod Image
