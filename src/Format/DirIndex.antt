-- ===== src/Format/DirIndex.antt =====
-- internal/format/dir_index.go: the index of a directory, which lists the places of the entries and,
-- by hash, the rows that have it.
pub mod RoundTrip
pub mod Validate
use go_fbx.Base.{
  ℕ, zero, suc, ◌+◌, ◌-◌, ◌^◌, ◌%◌, Bool, true, false, not, ◌&&◌, ◌||◌, Option, none, some,
}
use go_fbx.Base.{List, [], ◌∷◌, ◌++◌, length, take, drop, slice, ltb, leb, ◌==◌, if◌then◌else◌}
use go_fbx.Base.{Bytes, put_uint, uint, equal, checksum}
use go_fbx.Base.{
  Result, ok, err, ◌>>=◌, ◌>>◌, guard, need, invalid_dir, format_crc_mismatch,
  format_limit_exceeded,
}
use go_fbx.Format.Checked.{add_uint64, mul_uint64}
use go_fbx.Format.Directory.Entry.{max_int}

abbrev pub dir_index_version : ℕ
dir_index_version = 1

abbrev pub dir_index_header_size : ℕ
dir_index_header_size = 64

abbrev pub dir_index_entry_size : ℕ
dir_index_entry_size = 24

abbrev pub dir_index_hash_range_size : ℕ
dir_index_hash_range_size = 16

-- 'I', 'D', 'X', '1'
abbrev pub magic_dir_index : Bytes
magic_dir_index = 0x49 ∷ 0x44 ∷ 0x58 ∷ 0x31 ∷ []

pub record DirIndexEntryV1 : Type 0 where
  pub dir_entry_offset : ℕ
  pub dir_entry_size : ℕ
  pub path_hash64 : ℕ
  pub path_offset : ℕ
  pub path_size : ℕ

pub record DirIndexHashRangeV1 : Type 0 where
  pub path_hash64 : ℕ
  pub first_entry_index : ℕ
  pub entry_span : ℕ

pub record DirIndexV1 : Type 0 where
  pub flags : ℕ
  pub generation : ℕ
  pub dir_offset : ℕ
  pub dir_size : ℕ
  pub dir_crc32 : ℕ
  pub entries : List DirIndexEntryV1
  pub hash_ranges : List DirIndexHashRangeV1

-- `buf[:60]`; the four bytes in front of the generation stay 0.
unfoldable pub index_head : DirIndexV1 → Bytes
index_head idx =
    magic_dir_index
    ++ (put_uint 2 dir_index_version
        ++ (put_uint 2 dir_index_header_size
            ++ (put_uint 4 idx.flags
                ++ (put_uint 4 dir_index_entry_size
                    ++ (put_uint 4 dir_index_hash_range_size
                        ++ (put_uint 4 0
                            ++ (put_uint 8 idx.generation
                                ++ (put_uint 8 idx.dir_offset
                                    ++ (put_uint 8 idx.dir_size
                                        ++ (put_uint 4 idx.dir_crc32
                                            ++ (put_uint 4 (length idx.entries)
                                                ++ put_uint 4 (length idx.hash_ranges))))))))))))

-- The loop over the entries.
unfoldable pub rows_bytes : List DirIndexEntryV1 → Bytes
rows_bytes [] = []
rows_bytes (row ∷ rows) =
    (put_uint 4 row.dir_entry_offset
      ++ (put_uint 4 row.dir_entry_size
          ++ (put_uint 8 row.path_hash64
              ++ (put_uint 4 row.path_offset ++ put_uint 4 row.path_size))))
    ++ rows_bytes rows

-- The loop over the ranges.
unfoldable pub ranges_bytes : List DirIndexHashRangeV1 → Bytes
ranges_bytes [] = []
ranges_bytes (row ∷ rows) =
    (put_uint 8 row.path_hash64 ++ (put_uint 4 row.first_entry_index ++ put_uint 4 row.entry_span))
    ++ ranges_bytes rows

-- The size of an index with so many entries and ranges, or an overflow.
unfoldable pub index_size : ℕ → ℕ → Result ℕ
index_size entry_count hash_count = do
  entry_bytes ← need invalid_dir (mul_uint64 entry_count dir_index_entry_size)
  hash_bytes ← need invalid_dir (mul_uint64 hash_count dir_index_hash_range_size)
  head_entries ← need invalid_dir (add_uint64 dir_index_header_size entry_bytes)
  need invalid_dir (add_uint64 head_entries hash_bytes)

-- `MarshalBinary`
unfoldable pub marshal_index : DirIndexV1 → Result Bytes
marshal_index idx = do
  guard (not (ltb (2 ^ 32 - 1) (length idx.entries) || ltb (2 ^ 32 - 1) (length idx.hash_ranges)))
      invalid_dir
  total ← index_size (length idx.entries) (length idx.hash_ranges)
  guard (leb total max_int) format_limit_exceeded
  ok (
      index_head idx
      ++ (put_uint 4 (checksum (index_head idx))
          ++ (rows_bytes idx.entries ++ ranges_bytes idx.hash_ranges)))

-- The loop that reads the entries, from the bytes at `off`.
unfoldable pub read_rows : ℕ → Bytes → List DirIndexEntryV1 × Bytes
read_rows zero r = ([], r)
read_rows (suc n) r =
    let (rows, rest) = read_rows n (drop dir_index_entry_size r) in
    (
      record {
        dir_entry_offset = uint (slice 0 4 r);
        dir_entry_size = uint (slice 4 8 r);
        path_hash64 = uint (slice 8 16 r);
        path_offset = uint (slice 16 20 r);
        path_size = uint (slice 20 24 r);
      }
          ∷ rows,
      rest,
    )

-- The loop that reads the ranges.
unfoldable pub read_ranges : ℕ → Bytes → List DirIndexHashRangeV1
read_ranges zero r = []
read_ranges (suc n) r =
    record {
      path_hash64 = uint (slice 0 8 r);
      first_entry_index = uint (slice 8 12 r);
      entry_span = uint (slice 12 16 r);
    }
    ∷ read_ranges n (drop dir_index_hash_range_size r)

-- The first loop of `validateDirIndexV1`; `first` is `i == 0`.
unfoldable pub validate_rows : Bool → ℕ → List DirIndexEntryV1 → Result (Unit {0})
validate_rows first prev [] = ok tt
validate_rows first prev (row ∷ rows) = do
  guard (not (row.dir_entry_size == 0 || row.path_size == 0)) invalid_dir
  guard (first || leb prev row.dir_entry_offset) invalid_dir
  validate_rows false row.dir_entry_offset rows

-- `idx.Entries[j].PathHash64 == row.PathHash64` for every row of the list
unfoldable pub all_hash : ℕ → List DirIndexEntryV1 → Bool
all_hash hash [] = true
all_hash hash (row ∷ rows) = row.path_hash64 == hash && all_hash hash rows

-- The second loop: the intervals of the ranges.
unfoldable pub validate_ranges :
    List DirIndexEntryV1 → Bool → ℕ → List DirIndexHashRangeV1 → Result (List (ℕ × ℕ))
validate_ranges entries first prev [] = ok []
validate_ranges entries first prev (row ∷ rows) = do
  guard (not (row.entry_span == 0)) invalid_dir
  end ← need invalid_dir (add_uint64 row.first_entry_index row.entry_span)
  guard (leb end (length entries)) invalid_dir
  guard (first || leb prev row.path_hash64) invalid_dir
  guard
      (all_hash row.path_hash64
        (take (end % 2 ^ 32 - row.first_entry_index) (drop row.first_entry_index entries)))
      invalid_dir
  used ← validate_ranges entries false row.path_hash64 rows
  ok ((row.first_entry_index, (end - 1) % 2 ^ 32) ∷ used)

-- `sort.Slice` of the intervals by their first index
unfoldable pub insert_interval : ℕ × ℕ → List (ℕ × ℕ) → List (ℕ × ℕ)
insert_interval i [] = i ∷ []
insert_interval i (j ∷ js) = if ltb j.0 i.0 then j ∷ insert_interval i js else i ∷ j ∷ js

unfoldable pub sort_intervals : List (ℕ × ℕ) → List (ℕ × ℕ)
unfolding insert_interval
sort_intervals [] = []
sort_intervals (i ∷ is) = insert_interval i (sort_intervals is)

-- The last loop: no interval starts at or before the end of the one in front of it.
unfoldable pub disjoint : List (ℕ × ℕ) → Bool
disjoint [] = true
disjoint (i ∷ []) = true
disjoint (i ∷ j ∷ is) = ltb i.1 j.0 && disjoint (j ∷ is)

-- `validateDirIndexV1`
unfoldable pub validate_index : DirIndexV1 → Result (Unit {0})
validate_index idx = do
  validate_rows true 0 idx.entries
  used ← validate_ranges idx.entries true 0 idx.hash_ranges
  guard (disjoint (sort_intervals used)) invalid_dir

-- `UnmarshalDirIndexV1`
unfoldable pub unmarshal_index : Bytes → Result DirIndexV1
unmarshal_index blob = do
  guard (leb dir_index_header_size (length blob)) invalid_dir
  guard (equal (slice 0 4 blob) magic_dir_index) invalid_dir
  guard (uint (slice 4 6 blob) == dir_index_version) invalid_dir
  guard (uint (slice 6 8 blob) == dir_index_header_size) invalid_dir
  guard (uint (slice 12 16 blob) == dir_index_entry_size) invalid_dir
  guard (uint (slice 16 20 blob) == dir_index_hash_range_size) invalid_dir
  guard (checksum (take 60 blob) == uint (slice 60 64 blob)) format_crc_mismatch
  let entry_count = uint (slice 52 56 blob)
  let hash_count = uint (slice 56 60 blob)
  expected_len ← index_size entry_count hash_count
  guard (expected_len == length blob) invalid_dir
  let rows = read_rows entry_count (drop dir_index_header_size blob)
  let idx : DirIndexV1 = record {
    flags = uint (slice 8 12 blob);
    generation = uint (slice 24 32 blob);
    dir_offset = uint (slice 32 40 blob);
    dir_size = uint (slice 40 48 blob);
    dir_crc32 = uint (slice 48 52 blob);
    entries = rows.0;
    hash_ranges = read_ranges hash_count rows.1;
  }
  validate_index idx
  ok idx

-- `DecodeDirIndexV1`
unfoldable pub decode_index : Bytes → ℕ → Result DirIndexV1
decode_index blob expected_crc = do
  guard (checksum blob == expected_crc) format_crc_mismatch
  unmarshal_index blob
