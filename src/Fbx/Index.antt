-- ===== src/Fbx/Index.antt =====
-- fbx/dir_index.go: the index of a directory, built from the bytes of the directory, read at the
-- place that the header names, and used to read the entries.
pub mod Search
pub mod Lookup
pub mod Build
pub mod Scan
pub mod Directory
pub mod Eager
use go_fbx.Base.{
  ℕ, zero, suc, ◌+◌, ◌-◌, ◌^◌, ◌%◌, Bool, true, false, not, ◌&&◌, ◌||◌, Option, none, some,
}
use go_fbx.Base.{List, [], ◌∷◌, ◌++◌, length, take, drop, slice, ltb, leb, ◌==◌, if◌then◌else◌}
use go_fbx.Base.{Bytes, uint, equal, checksum, bit_and}
use go_fbx.Base.{
  Result, ok, err, ◌>>=◌, ◌>>◌, guard, need, invalid_format, crc_mismatch, limit_exceeded,
}
use go_fbx.File.{read_at}
use go_fbx.Format.Types.{EntryV1, ChunkRefV1}
use go_fbx.Format.Checked.{add_uint64, mul_uint64}
use go_fbx.Format.Header.{HeaderV1, magic_dir, magic_end, flag_has_dir_index}
use go_fbx.Format.Directory.Entry.{max_int, decode_directory_entry_at}
use go_fbx.Format.DirIndex.{
  DirIndexEntryV1, DirIndexHashRangeV1, DirIndexV1, marshal_index, decode_index,
}
use go_fbx.Fbx.HeaderExt.{DirIndexPointer, read_header_dir_index_pointer, read_header_generation}
use go_fbx.Fbx.Region.{region_within_file, max_directory_blob_size}
use go_fbx.Fbx.Write.{mapped}
use go_fbx.Fbx.Tx.{Entries, lookup, assign}

abbrev pub dir_index_dir_header_size : ℕ
dir_index_dir_header_size = 20

abbrev pub dir_index_dir_entry_head_size : ℕ
dir_index_dir_entry_head_size = 44

abbrev pub dir_index_dir_chunk_ref_size : ℕ
dir_index_dir_chunk_ref_size = 32

abbrev pub dir_index_dir_footer_size : ℕ
dir_index_dir_footer_size = 16

-- `dirBlob[:len(dirBlob)-dirIndexDirFooterSize]`; of fewer bytes than a footer Go takes no slice,
-- which no caller asks for.
abbrev pub without_footer : Bytes → Bytes
without_footer blob = take (length blob - dir_index_dir_footer_size) blob

-- `validateDirectoryBlobEnvelope`
unfoldable pub validate_directory_blob_envelope : Bytes → ℕ → ℕ → Result ℕ
validate_directory_blob_envelope blob expected_crc expected_size = do
  guard (leb (dir_index_dir_header_size + dir_index_dir_footer_size) (length blob)) invalid_format
  guard (length blob == expected_size) invalid_format
  guard (equal (take 4 blob) magic_dir) invalid_format
  let footer = drop (length blob - dir_index_dir_footer_size) blob
  guard (equal (take 4 footer) magic_end) invalid_format
  let crc = uint (slice 4 8 footer)
  let total = uint (slice 8 16 footer)
  guard (crc == expected_crc && total == expected_size) invalid_format
  guard (checksum (without_footer blob) == crc) crc_mismatch
  guard (uint (slice 8 12 blob) == 0) invalid_format
  ok (uint (slice 4 8 blob))

-- The row for the entry whose head stands at the cursor, and the end of the entry.
unfoldable pub scan_row : Bytes → ℕ → Result (DirIndexEntryV1 × ℕ)
scan_row blob cursor = do
  head_end ← need invalid_format (add_uint64 cursor dir_index_dir_entry_head_size)
  guard (leb head_end (length blob - dir_index_dir_footer_size)) invalid_format
  let head = slice cursor head_end blob
  let path_hash = uint (slice 0 8 head)
  let chunk_count = uint (slice 32 36 head)
  let meta_size = uint (slice 36 40 head)
  let path_size = uint (slice 40 44 head)
  chunks_bytes ← need invalid_format (mul_uint64 chunk_count dir_index_dir_chunk_ref_size)
  size1 ← need invalid_format (add_uint64 dir_index_dir_entry_head_size chunks_bytes)
  size2 ← need invalid_format (add_uint64 size1 meta_size)
  entry_size ← need invalid_format (add_uint64 size2 path_size)
  entry_end ← need invalid_format (add_uint64 cursor entry_size)
  guard (leb entry_end (length blob - dir_index_dir_footer_size)) invalid_format
  off1 ← need invalid_format (add_uint64 cursor dir_index_dir_entry_head_size)
  off2 ← need invalid_format (add_uint64 off1 chunks_bytes)
  path_off ← need invalid_format (add_uint64 off2 meta_size)
  guard (leb cursor (2 ^ 32 - 1) && (leb entry_size (2 ^ 32 - 1) && leb path_off (2 ^ 32 - 1)))
      limit_exceeded
  ok (
    record {
      dir_entry_offset = cursor;
      dir_entry_size = entry_size;
      path_hash64 = path_hash;
      path_offset = path_off;
      path_size = path_size;
    },
    entry_end,
  )

-- The loop over the entries: the rows, and the cursor behind the last entry.
unfoldable pub scan_rows : ℕ → Bytes → ℕ → Result (List DirIndexEntryV1 × ℕ)
scan_rows zero blob cursor = ok ([], cursor)
scan_rows (suc n) blob cursor = do
  (row, entry_end) ← scan_row blob cursor
  (rows, last) ← scan_rows n blob entry_end
  ok (row ∷ rows, last)

-- `scanDirectoryEntriesForIndex`
unfoldable pub scan_directory_entries_for_index : Bytes → Result (List DirIndexEntryV1 × ℕ)
scan_directory_entries_for_index blob = do
  entry_count ← validate_directory_blob_envelope blob (checksum (without_footer blob)) (length blob)
  (rows, cursor) ← scan_rows entry_count blob dir_index_dir_header_size
  total ← need invalid_format (add_uint64 cursor dir_index_dir_footer_size)
  guard (total == length blob) invalid_format
  ok (rows, entry_count)

-- The rows with their indices.
abbrev pub numbered : ℕ → List DirIndexEntryV1 → List (ℕ × ℕ)
numbered i [] = []
numbered i (row ∷ rows) = (row.path_hash64, i) ∷ numbered (i + 1) rows

-- `sort.Slice` by hash and, with the same hash, by index
unfoldable pub insert_by_hash : ℕ × ℕ → List (ℕ × ℕ) → List (ℕ × ℕ)
insert_by_hash a [] = a ∷ []
insert_by_hash a (b ∷ bs) =
    if ltb b.0 a.0 || b.0 == a.0 && ltb b.1 a.1 then b ∷ insert_by_hash a bs else a ∷ b ∷ bs

unfoldable pub sort_by_hash : List (ℕ × ℕ) → List (ℕ × ℕ)
sort_by_hash [] = []
sort_by_hash (a ∷ rest) = insert_by_hash a (sort_by_hash rest)

-- The loops over the sorted rows, with the range that grows: a row with its hash and the next index
-- joins it, another one starts the next range.
unfoldable pub group : DirIndexHashRangeV1 → List (ℕ × ℕ) → List DirIndexHashRangeV1
group r [] = r ∷ []
group r (a ∷ rest) =
    elim (a.0 == r.path_hash64 && a.1 % 2 ^ 32 == (r.first_entry_index + r.entry_span) % 2 ^ 32) [
      | true ↦ group (record r { entry_span = (r.entry_span + 1) % 2 ^ 32 }) rest
      | false ↦
          r
          ∷ group (record { path_hash64 = a.0; first_entry_index = a.1 % 2 ^ 32; entry_span = 1 })
              rest
    ]

-- The loops from the first row on.
abbrev pub groups : List (ℕ × ℕ) → List DirIndexHashRangeV1
groups [] = []
groups (a ∷ rest) =
    group (record { path_hash64 = a.0; first_entry_index = a.1 % 2 ^ 32; entry_span = 1 }) rest

-- `buildDirIndexHashRanges`
unfoldable pub build_dir_index_hash_ranges : List DirIndexEntryV1 → List DirIndexHashRangeV1
build_dir_index_hash_ranges rows = groups (sort_by_hash (numbered 0 rows))

-- `buildDirIndexBlob`
unfoldable pub build_dir_index_blob : Bytes → ℕ → ℕ → ℕ → Result Bytes
build_dir_index_blob blob dir_offset dir_crc generation = do
  (rows, entry_count) ← scan_directory_entries_for_index blob
  let ranges = build_dir_index_hash_ranges rows
  guard (length rows == entry_count) invalid_format
  mapped (
      marshal_index (record {
        flags = 0;
        generation = generation;
        dir_offset = dir_offset;
        dir_size = length blob;
        dir_crc32 = dir_crc;
        entries = rows;
        hash_ranges = ranges;
      }))

-- `maybeReadDirIndexByHeader`: `none` where the header has no index.
unfoldable pub maybe_read_dir_index_by_header : Bytes → HeaderV1 → ℕ → Result (Option DirIndexV1)
maybe_read_dir_index_by_header f h file_size =
    if bit_and h.flags flag_has_dir_index == 0 then ok none else do
      let ptr = read_header_dir_index_pointer h
      guard (not (ptr.offset == 0 || (ptr.size == 0 || ptr.crc32 == 0))) invalid_format
      guard (region_within_file ptr.offset ptr.size file_size) invalid_format
      guard (leb ptr.size max_directory_blob_size) limit_exceeded
      guard (leb ptr.size max_int) limit_exceeded
      blob ← read_at f ptr.offset ptr.size
      idx ← mapped (decode_index blob ptr.crc32)
      guard
          (idx.dir_offset == h.dir_offset
            && (idx.dir_size == h.dir_size && idx.dir_crc32 == h.dir_crc32))
          invalid_format
      let gen = read_header_generation h
      guard (not (ltb 0 gen && not (idx.generation == gen))) invalid_format
      ok (some idx)

-- The tests of one row against the entry that stands at its place.
unfoldable pub read_row : Bytes → DirIndexEntryV1 → Result EntryV1
read_row blob row = do
  e ← mapped (decode_directory_entry_at blob row.dir_entry_offset row.dir_entry_size)
  guard (e.path_hash64 == row.path_hash64 && e.path_size == row.path_size) invalid_format
  path_end ← need invalid_format (add_uint64 row.path_offset row.path_size)
  guard (leb path_end (length blob - dir_index_dir_footer_size)) invalid_format
  guard (leb path_end max_int) limit_exceeded
  guard (equal (slice row.path_offset path_end blob) e.path) invalid_format
  ok e

-- The loop over the rows.
unfoldable pub read_rows_loop : Bytes → List DirIndexEntryV1 → Entries → Result Entries
read_rows_loop blob [] entries = ok entries
read_rows_loop blob (row ∷ rows) entries = do
  e ← read_row blob row
  elim (lookup e.path entries) [
    | some _ ↦ err invalid_format
    | none ↦ read_rows_loop blob rows (assign e.path e entries)
  ]

-- `readEntriesByDirIndex`
unfoldable pub read_entries_by_dir_index : Bytes → HeaderV1 → DirIndexV1 → Result Entries
read_entries_by_dir_index blob h idx = do
  entry_count ← validate_directory_blob_envelope blob h.dir_crc32 h.dir_size
  guard (entry_count == length idx.entries) invalid_format
  read_rows_loop blob idx.entries []

-- The loop over the chunks of an entry in `validateEntriesChunkOffsets`.
unfoldable pub chunks_within : ℕ → List ChunkRefV1 → Result (Unit {0})
chunks_within file_size [] = ok tt
chunks_within file_size (c ∷ cs) = do
  head_end ← need invalid_format (add_uint64 c.chunk_offset 16)
  chunk_end ← need invalid_format (add_uint64 head_end c.comp_size)
  guard (leb chunk_end file_size) invalid_format
  chunks_within file_size cs

-- `validateEntriesChunkOffsets`
unfoldable pub validate_entries_chunk_offsets : Entries → ℕ → Result (Unit {0})
validate_entries_chunk_offsets [] file_size = ok tt
validate_entries_chunk_offsets (x ∷ xs) file_size = do
  chunks_within file_size x.1.chunks
  validate_entries_chunk_offsets xs file_size
