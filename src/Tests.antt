-- ===== src/Tests.antt =====
-- The theorems at concrete inputs.
mod Samples
mod Format
mod Fbx
mod Writing
mod Insert
mod Index
mod Transactions
mod Publish
mod Commit
