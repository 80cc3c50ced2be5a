-- ===== src/Fbx.antt =====
-- Package fbx: the container over the encodings of internal/format.
pub mod HeaderExt
pub mod Seal
pub mod Region
pub mod Journal
pub mod Write
pub mod Reader
pub mod Detect
pub mod Entry
pub mod Tx
pub mod Options
pub mod Iter
pub mod Index
pub mod Container
pub mod Publish
pub mod Commit
