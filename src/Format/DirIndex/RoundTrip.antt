-- ===== src/Format/DirIndex/RoundTrip.antt =====
-- `DecodeDirIndexV1` reads back what `MarshalBinary` writes for an index that `validateDirIndexV1`
-- accepts.
use go_fbx.Base.{ℕ, ◌+◌, ◌*◌, ◌≡◌, refl, arith}
use go_fbx.Base.{
  List, [], ◌∷◌, ◌++◌, length, length-append, All, take, drop, slice, le→leb, ==_refl,
}
use go_fbx.Base.{
  Bytes, IsUint, put_uint, uint-put_uint, length-put_uint, equal, checksum, checksum-IsUint,
}
use go_fbx.Base.{ok}
use go_fbx.Format.Checked.{add_uint64-fits, mul_uint64-fits}
use go_fbx.Format.DirIndex.{
  DirIndexEntryV1, DirIndexHashRangeV1, DirIndexV1, index_head, rows_bytes, ranges_bytes,
  index_size, marshal_index, read_rows, read_ranges, validate_index, unmarshal_index, decode_index,
}

-- Go's types.
pub record IsRow (row : DirIndexEntryV1) : Type 0 where
  pub offset_u32 : IsUint 4 row.dir_entry_offset
  pub size_u32 : IsUint 4 row.dir_entry_size
  pub hash_u64 : IsUint 8 row.path_hash64
  pub path_offset_u32 : IsUint 4 row.path_offset
  pub path_size_u32 : IsUint 4 row.path_size

pub record IsRange (row : DirIndexHashRangeV1) : Type 0 where
  pub hash_u64 : IsUint 8 row.path_hash64
  pub first_u32 : IsUint 4 row.first_entry_index
  pub span_u32 : IsUint 4 row.entry_span

-- An index with Go's types whose lists can be counted in 32 bits.
pub record IsIndex (idx : DirIndexV1) : Type 0 where
  pub flags_u32 : IsUint 4 idx.flags
  pub generation_u64 : IsUint 8 idx.generation
  pub dir_offset_u64 : IsUint 8 idx.dir_offset
  pub dir_size_u64 : IsUint 8 idx.dir_size
  pub dir_crc32_u32 : IsUint 4 idx.dir_crc32
  pub entries_u32 : IsUint 4 (length idx.entries)
  pub ranges_u32 : IsUint 4 (length idx.hash_ranges)
  pub rows : All IsRow idx.entries
  pub ranges : All IsRange idx.hash_ranges

length-rows_bytes : (rows : List DirIndexEntryV1) → length (rows_bytes rows) ≡ 24 * length rows
unfolding rows_bytes
length-rows_bytes [] = refl
length-rows_bytes (row ∷ rows) =
    simp (length-append, length-put_uint, length-rows_bytes rows) (omega arith)

length-ranges_bytes :
    (rows : List DirIndexHashRangeV1) → length (ranges_bytes rows) ≡ 16 * length rows
unfolding ranges_bytes
length-ranges_bytes [] = refl
length-ranges_bytes (row ∷ rows) =
    simp (length-append, length-put_uint, length-ranges_bytes rows) (omega arith)

read_rows-rows_bytes :
    (rows : List DirIndexEntryV1) (rest : Bytes)
    → All IsRow rows
    → read_rows (length rows) (rows_bytes rows ++ rest) ≡ (rows, rest)
unfolding read_rows rows_bytes put_uint
read_rows-rows_bytes [] rest ts = refl
read_rows-rows_bytes (row ∷ rows) rest (t, ts) = rw (
  uint-put_uint 4 row.dir_entry_offset t.offset_u32,
  uint-put_uint 4 row.dir_entry_size t.size_u32,
  uint-put_uint 8 row.path_hash64 t.hash_u64,
  uint-put_uint 4 row.path_offset t.path_offset_u32,
  uint-put_uint 4 row.path_size t.path_size_u32,
  read_rows-rows_bytes rows rest ts,
)

read_ranges-ranges_bytes :
    (rows : List DirIndexHashRangeV1)
    → All IsRange rows
    → read_ranges (length rows) (ranges_bytes rows) ≡ rows
unfolding read_ranges ranges_bytes put_uint
read_ranges-ranges_bytes [] ts = refl
read_ranges-ranges_bytes (row ∷ rows) (t, ts) = rw (
  uint-put_uint 8 row.path_hash64 t.hash_u64,
  uint-put_uint 4 row.first_entry_index t.first_u32,
  uint-put_uint 4 row.entry_span t.span_u32,
  read_ranges-ranges_bytes rows ts,
)

-- What `MarshalBinary` writes.
abbrev pub index_bytes : DirIndexV1 → Bytes
index_bytes idx =
    index_head idx
    ++ (put_uint 4 (checksum (index_head idx))
        ++ (rows_bytes idx.entries ++ ranges_bytes idx.hash_ranges))

-- The parts of the head, whatever follows it.
head_parts :
    (idx : DirIndexV1) (rest : Bytes)
    → (slice 0 4 (index_head idx ++ rest) ≡ (0x49 ∷ 0x44 ∷ 0x58 ∷ 0x31 ∷ []))
      × (slice 4 6 (index_head idx ++ rest) ≡ put_uint 2 1)
      × (slice 6 8 (index_head idx ++ rest) ≡ put_uint 2 64)
      × (slice 8 12 (index_head idx ++ rest) ≡ put_uint 4 idx.flags)
      × (slice 12 16 (index_head idx ++ rest) ≡ put_uint 4 24)
      × (slice 16 20 (index_head idx ++ rest) ≡ put_uint 4 16)
      × (slice 24 32 (index_head idx ++ rest) ≡ put_uint 8 idx.generation)
      × (slice 32 40 (index_head idx ++ rest) ≡ put_uint 8 idx.dir_offset)
      × (slice 40 48 (index_head idx ++ rest) ≡ put_uint 8 idx.dir_size)
      × (slice 48 52 (index_head idx ++ rest) ≡ put_uint 4 idx.dir_crc32)
      × (slice 52 56 (index_head idx ++ rest) ≡ put_uint 4 (length idx.entries))
      × (slice 56 60 (index_head idx ++ rest) ≡ put_uint 4 (length idx.hash_ranges))
      × (take 60 (index_head idx ++ rest) ≡ index_head idx)
unfolding index_head put_uint
head_parts idx rest = (refl, refl, refl, refl, refl, refl, refl, refl, refl, refl, refl, refl, refl)

-- The parts behind the head.
tail_parts :
    (idx : DirIndexV1) (crc : ℕ) (rest : Bytes)
    → (slice 60 64 (index_head idx ++ (put_uint 4 crc ++ rest)) ≡ put_uint 4 crc)
      × (drop 64 (index_head idx ++ (put_uint 4 crc ++ rest)) ≡ rest)
      × (length (index_head idx ++ (put_uint 4 crc ++ rest)) ≡ 64 + length rest)
unfolding index_head put_uint
tail_parts idx crc rest = (refl, refl, omega arith)

index_size_ok : (n m : ℕ) → IsUint 4 n → IsUint 4 m → index_size n m ≡ ok (64 + n * 24 + m * 16)
unfolding index_size
index_size_ok n m hn hm = rw (
  mul_uint64-fits n 24 (omega arith),
  mul_uint64-fits m 16 (omega arith),
  add_uint64-fits 64 (n * 24) (omega arith),
  add_uint64-fits (64 + n * 24) (m * 16) (omega arith),
)

marshal_index_ok : (idx : DirIndexV1) → IsIndex idx → marshal_index idx ≡ ok (index_bytes idx)
unfolding marshal_index
marshal_index_ok idx t =
    rw (index_size_ok (length idx.entries) (length idx.hash_ranges) t.entries_u32 t.ranges_u32)
      (ground (arith, t.entries_u32, t.ranges_u32))

unmarshal_index_ok :
    (idx : DirIndexV1)
    → IsIndex idx
    → validate_index idx ≡ ok tt
    → unmarshal_index (index_bytes idx) ≡ ok idx
unfolding unmarshal_index equal
unmarshal_index_ok idx t v =
    let crc = checksum (index_head idx) in
    let body = rows_bytes idx.entries ++ ranges_bytes idx.hash_ranges in
    let rest = put_uint 4 crc ++ body in
    let h = head_parts idx rest in
    let b = tail_parts idx crc body in
    let n = length idx.entries in
    let m = length idx.hash_ranges in
    let total : length (index_head idx ++ rest) ≡ 64 + n * 24 + m * 16 = omega (
      arith,
      b.2,
      length-append (rows_bytes idx.entries) (ranges_bytes idx.hash_ranges),
      length-rows_bytes idx.entries,
      length-ranges_bytes idx.hash_ranges,
    ) in
    rw (
      le→leb 64 (length (index_head idx ++ rest)) (omega arith),
      h.0,
      h.1,
      h.2,
      h.3,
      h.4,
      h.5,
      h.6,
      h.7,
      h.8,
      h.9,
      h.10,
      h.11,
      h.12,
      b.0,
      b.1,
      uint-put_uint 2 1 (omega arith),
      uint-put_uint 2 64 (omega arith),
      uint-put_uint 4 24 (omega arith),
      uint-put_uint 4 16 (omega arith),
      uint-put_uint 4 crc (checksum-IsUint (index_head idx)),
      uint-put_uint 4 n t.entries_u32,
      uint-put_uint 4 m t.ranges_u32,
      uint-put_uint 4 idx.flags t.flags_u32,
      uint-put_uint 8 idx.generation t.generation_u64,
      uint-put_uint 8 idx.dir_offset t.dir_offset_u64,
      uint-put_uint 8 idx.dir_size t.dir_size_u64,
      uint-put_uint 4 idx.dir_crc32 t.dir_crc32_u32,
      ==_refl crc,
      index_size_ok n m t.entries_u32 t.ranges_u32,
      total,
      ==_refl (64 + n * 24 + m * 16),
      read_rows-rows_bytes idx.entries (ranges_bytes idx.hash_ranges) t.rows,
      read_ranges-ranges_bytes idx.hash_ranges t.ranges,
      v,
    )

-- An index whose fields fit their types and that `validateDirIndexV1` accepts is written by
-- `MarshalBinary` without an error, and `DecodeDirIndexV1`, given the checksum of the bytes, reads
-- it back.
pub decode_index-marshal_index :
    (idx : DirIndexV1)
    → IsIndex idx
    → validate_index idx ≡ ok tt
    → (b : Bytes) × (marshal_index idx ≡ ok b) × (decode_index b (checksum b) ≡ ok idx)
unfolding decode_index
decode_index-marshal_index idx t v = (
  index_bytes idx,
  marshal_index_ok idx t,
  rw (==_refl (checksum (index_bytes idx)), unmarshal_index_ok idx t v),
)
