-- ===== src/Format/Directory/Chunks.antt =====
-- The chunk references of an entry: the loop of `EncodeDirectory` that writes them and the loop
-- that `DecodeDirectory` and `DecodeDirectoryEntryAt` share.
use go_fbx.Base.{ℕ, zero, suc, ◌+◌, ◌*◌, ◌^◌, ◌<◌, ◌≤◌, ◌≡◌, refl, Bool, true, false, ◌||◌, arith}
use go_fbx.Base.{
  List, [], ◌∷◌, ◌++◌, append_assoc, length, length-append, leb, ◌==◌, All, none, some,
}
use go_fbx.Base.{le→leb, Bytes, IsUint, put_uint, read_uint, read_uint-put_uint, length-put_uint}
use go_fbx.Base.{Result, ok, ◌>>=◌, ◌>>◌, guard, need, invalid_dir}
use go_fbx.Format.Types.{ChunkRefV1}
use go_fbx.Format.Checked.{add_uint64, add_uint64-fits}

-- The six writes for one reference; the last is the reserved word, always 0.
unfoldable pub chunk_ref_bytes : ChunkRefV1 → Bytes
chunk_ref_bytes c =
    put_uint 8 c.chunk_offset
    ++ (put_uint 8 c.raw_offset
        ++ (put_uint 4 c.raw_size
            ++ (put_uint 4 c.comp_size ++ (put_uint 4 c.crc32_raw ++ put_uint 4 0))))

unfoldable pub chunks_bytes : List ChunkRefV1 → Bytes
unfolding chunk_ref_bytes
chunks_bytes [] = []
chunks_bytes (c ∷ cs) = chunk_ref_bytes c ++ chunks_bytes cs

-- The six reads for one reference.
unfoldable pub read_chunk_ref : Bytes → Result (ChunkRefV1 × Bytes)
read_chunk_ref r = do
  (chunk_offset, r1) ← need invalid_dir (read_uint 8 r)
  (raw_offset, r2) ← need invalid_dir (read_uint 8 r1)
  (raw_size, r3) ← need invalid_dir (read_uint 4 r2)
  (comp_size, r4) ← need invalid_dir (read_uint 4 r3)
  (crc32_raw, r5) ← need invalid_dir (read_uint 4 r4)
  (reserved, r6) ← need invalid_dir (read_uint 4 r5)
  ok (
    record {
      chunk_offset = chunk_offset;
      raw_offset = raw_offset;
      raw_size = raw_size;
      comp_size = comp_size;
      crc32_raw = crc32_raw;
      reserved = reserved;
    },
    r6,
  )

-- The loop over `e.Chunks`, with the references left to read; `first` is `j == 0`.
unfoldable pub read_chunks : ℕ → Bool → ℕ → Bytes → Result (List ChunkRefV1 × Bytes)
unfolding read_chunk_ref
read_chunks zero first prev_end r = ok ([], r)
read_chunks (suc n) first prev_end r = do
  (c, r1) ← read_chunk_ref r
  guard (c.reserved == 0) invalid_dir
  guard (first || leb prev_end c.raw_offset) invalid_dir
  end ← need invalid_dir (add_uint64 c.raw_offset c.raw_size)
  (cs, r2) ← read_chunks n false end r1
  ok (c ∷ cs, r2)

-- `last.RawOffset + last.RawSize != e.FileSize`, tested where there are bytes and chunks.
unfoldable pub last_end_ok : ℕ → List ChunkRefV1 → Bool
last_end_ok file_size [] = true
last_end_ok file_size (c ∷ []) =
    file_size == 0
    || elim (add_uint64 c.raw_offset c.raw_size) [ none ↦ false | some end ↦ end == file_size ]
last_end_ok file_size (c ∷ d ∷ cs) = last_end_ok file_size (d ∷ cs)

-- Go's types of a reference, with the reserved word that is written.
pub record IsChunkRef (c : ChunkRefV1) : Type 0 where
  pub chunk_offset_u64 : IsUint 8 c.chunk_offset
  pub raw_offset_u64 : IsUint 8 c.raw_offset
  pub raw_size_u32 : IsUint 4 c.raw_size
  pub comp_size_u32 : IsUint 4 c.comp_size
  pub crc32_raw_u32 : IsUint 4 c.crc32_raw
  pub reserved_zero : c.reserved ≡ 0

-- The references cover increasing parts of the entry, from `prev_end` on, that do not overlap.
abbrev pub IsChain : ℕ → List ChunkRefV1 → Type 0
IsChain prev_end [] = Unit {0}
IsChain prev_end (c ∷ cs) =
    (prev_end ≤ c.raw_offset)
    × (c.raw_offset + c.raw_size < 2 ^ 64)
    × IsChain (c.raw_offset + c.raw_size) cs

pub length-chunks_bytes : (cs : List ChunkRefV1) → length (chunks_bytes cs) ≡ 32 * length cs
unfolding chunks_bytes
length-chunks_bytes [] = refl
length-chunks_bytes (c ∷ cs) =
    simp (length-append, length-put_uint, length-chunks_bytes cs) (omega arith)

read_chunk_ref-bytes :
    (c : ChunkRefV1) (rest : Bytes)
    → IsChunkRef c
    → read_chunk_ref (chunk_ref_bytes c ++ rest) ≡ ok (c, rest)
unfolding read_chunk_ref chunk_ref_bytes
read_chunk_ref-bytes c rest t =
    rw
      (
        append_assoc (put_uint 8 c.chunk_offset),
        append_assoc (put_uint 8 c.raw_offset),
        append_assoc (put_uint 4 c.raw_size),
        append_assoc (put_uint 4 c.comp_size),
        append_assoc (put_uint 4 c.crc32_raw),
        read_uint-put_uint 8 c.chunk_offset _ t.chunk_offset_u64,
        read_uint-put_uint 8 c.raw_offset _ t.raw_offset_u64,
        read_uint-put_uint 4 c.raw_size _ t.raw_size_u32,
        read_uint-put_uint 4 c.comp_size _ t.comp_size_u32,
        read_uint-put_uint 4 c.crc32_raw _ t.crc32_raw_u32,
        read_uint-put_uint 4 0 _ (omega arith),
      )
      (ground arith)

chunks_bytes-cons :
    (c : ChunkRefV1) (cs : List ChunkRefV1)
    → chunks_bytes (c ∷ cs) ≡ chunk_ref_bytes c ++ chunks_bytes cs
unfolding chunks_bytes
chunks_bytes-cons c cs = refl

||-true : (b : Bool) → (b || true) ≡ true
||-true true = refl
||-true false = refl

pub read_chunks-bytes :
    (cs : List ChunkRefV1) (first : Bool) (prev_end : ℕ) (rest : Bytes)
    → All IsChunkRef cs
    → IsChain prev_end cs
    → read_chunks (length cs) first prev_end (chunks_bytes cs ++ rest) ≡ ok (cs, rest)
unfolding read_chunks
read_chunks-bytes [] first prev_end rest t k = unfold chunks_bytes in refl
read_chunks-bytes (c ∷ cs) first prev_end rest (t, ts) (before, fits, k) = rw (
  chunks_bytes-cons c cs,
  append_assoc (chunk_ref_bytes c),
  read_chunk_ref-bytes c (chunks_bytes cs ++ rest) t,
  t.reserved_zero,
  le→leb prev_end c.raw_offset before,
  ||-true first,
  add_uint64-fits c.raw_offset c.raw_size fits,
  read_chunks-bytes cs false (c.raw_offset + c.raw_size) rest ts k,
)
