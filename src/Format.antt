-- ===== src/Format.antt =====
-- internal/format: the records of the file and their encodings.
pub mod Hash
pub mod Checked
pub mod Header
pub mod Types
pub mod Directory
pub mod Codec
pub mod Chunk
pub mod DirIndex
