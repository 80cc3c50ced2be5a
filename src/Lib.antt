-- ===== src/Lib.antt =====
-- The container format of go-fbx: one file that holds many entries in compressed chunks, with a
-- directory at the end and a header at the front that points at it.
--
-- A file starts with the header (internal/format/header.go). The content of an entry is cut into
-- chunks, and a chunk record (internal/format/chunk.go, codec.go) is appended for each. A commit
-- (fbx/tx.go) appends the directory (internal/format/directory.go), whose entries refer to the
-- chunks, and records that hold a copy of the header (fbx/journal.go), and writes the header. The
-- header keeps more fields in its reserved bytes (fbx/header_ext.go, fbx/compaction_stats.go). When
-- the header does not lead to a valid directory, the last valid record does.
--
-- Files:
-- Base and its children: Boolean tests, lists over the native numbers, errors and results,
-- little-endian integers, bits, CRC-32, and the rules that take a chain of reads apart.
-- File: ReadAt and WriteAt of the file, which is the list of its bytes. Errors of the device are
-- not modelled.
-- Paths: Normalize of internal/pathutil/path.go.
-- Format.Header: HeaderV1, MarshalBinary (marshal), UnmarshalHeaderV1 (unmarshal).
-- Format.Types, Format.Hash, Format.Checked: the records of a directory, FNV1a64, the addition and
-- multiplication that report an overflow.
-- Format.Directory: EncodeDirectory and DecodeDirectory; Directory.Sort is the sort by path,
-- Directory.Chunks the loops over chunk references, Directory.Entry the body of the loops over
-- entries and DecodeDirectoryEntryAt.
-- Format.Codec: compressPayload and decompressPayload. The packages zstd and lz4 are the parameter
-- Compressors; IsLossless says what they document.
-- Format.Chunk: EncodeChunkRecord, ReadChunkHeaderAt, ReadChunkRecordAtOptLimited.
-- Format.DirIndex: the index of a directory, of internal/format/dir_index.go.
-- Fbx.HeaderExt: the fields in the reserved bytes, and the tests of the layout. Fbx.Seal: the
-- header that Commit builds.
-- Fbx.Region: the directory read at the place that the header names.
-- Fbx.Journal: the records of the header, and the search for the last valid one.
-- Fbx.Write: writeChunksSequential of fbx/tx.go, with appendAt and mapErr of fbx/container.go.
-- Write.Parallel: writeChunksParallel; what the goroutines and channels leave open is the order in
-- which the results arrive, a parameter. Write.Appends: that all of it only appends.
-- Fbx.Detect: detectText and looksCompressed of fbx/tx.go. Fbx.Entry: writeEntry, from its options
-- to the entry; the time is a parameter.
-- Fbx.Index: fbx/dir_index.go, the index built, read and used; Index.Lookup is
-- findEntryByPathFromDirIndex of fbx/container.go, Index.Search the sort.Search that it calls,
-- Index.Build and Index.Scan what the ranges and the rows are.
-- Fbx.Container: a container of fbx/container.go with its entries or the index of its directory;
-- loadSnapshotByHeader, ensureEntriesLoadedLocked, Stat, OpenReader, List, Begin. Fbx.Commit:
-- Commit and Rollback as a whole (the pieces that are appended, the header, and what is read again
-- in its child modules).
-- Fbx.Reader: entryReader, and how OpenReader makes it, of fbx/container.go.
-- Fbx.Publish: the end of Tx.Commit of fbx/tx.go, from the header that is built on; a call of Sync
-- changes no bytes.
-- Fbx.Tx: the state of a transaction and the operations of fbx/tx.go that remove entries or change
-- their metadata; Tx.Insert: Add, Upsert and Replace; Tx.Sound and Tx.Steps: a transaction as a
-- sequence of calls, and what they all keep. The map of the entries is a list of pairs, visited in
-- its order, which stands for any order.
-- Fbx.Options: Options and defaultOptions of fbx/options.go, mergeOptions of fbx/container.go.
-- Fbx.Iter: the iterator of fbx/iter.go.
-- Tests: the theorems at concrete inputs.
--
-- A Go slice or array of bytes is a list of numbers, an integer of n bytes a number below 256^n,
-- with the wrap-around written out; int has 64 bits. An error return is the result err. The loop of
-- writeChunksSequential has one round of fuel more than the source has bytes, and entryReader.Read
-- one more than the buffer has; a round takes a byte at least. The loop of zstdDecoderLimitBucket
-- has 11 rounds: ten doublings reach its cap.
--
-- Not modelled: the attempts of Open to recover a container, Create, Verify, RemoveGlob, the scan
-- for directories, locks, packing, the ZIP import, the command line.
pub mod Base
pub mod File
pub mod Paths
pub mod Format
pub mod Fbx
mod Tests
