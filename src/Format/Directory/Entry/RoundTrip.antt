-- ===== src/Format/Directory/Entry/RoundTrip.antt =====
-- Both decoders read back what `EncodeDirectory` writes for an entry.
use go_fbx.Base.{ℕ, ◌+◌, ◌-◌, ◌*◌, ◌^◌, ◌<◌, ◌≤◌, ◌≡◌, ◌≢◌, refl, sym, true, arith}
use go_fbx.Base.{[], ◌++◌, append_assoc, length, length-append, All, ◌==◌, le→leb}
use go_fbx.Base.{slice, take-append_front, drop-append_front}
use go_fbx.Base.{Bytes, IsUint, put_uint, equal_iff, read_uint-put_uint, length-put_uint}
use go_fbx.Base.{read_bytes-append, read_bytes_all, ok}
use go_fbx.Format.Types.{EntryV1}
use go_fbx.Format.Hash.{fnv1a64, fnv1a64-IsUint}
use go_fbx.Format.Checked.{add_uint64-fits, mul_uint64-fits}
use go_fbx.Format.Directory.Chunks.{
  IsChunkRef, IsChain, chunks_bytes, length-chunks_bytes, read_chunks-bytes, last_end_ok,
}
use go_fbx.Format.Directory.Entry.{
  dir_header_size, dir_footer_size, dir_entry_head_size, dir_chunk_ref_size, with_sizes,
  entry_head_bytes, entry_bytes, read_entry_head, head_ok, path_ok, read_entry,
  decode_directory_entry_at,
}

-- An entry that the format can hold: lists whose lengths fit 32 bits, a path, chunks that cover
-- increasing parts, up to the size of the file.
pub record IsEntry (e : EntryV1) : Type 0 where
  pub mtime_u64 : IsUint 8 e.mtime_unix
  pub mode_u32 : IsUint 4 e.mode
  pub flags_u32 : IsUint 4 e.entry_flags
  pub size_u64 : IsUint 8 e.file_size
  pub chunks_u32 : IsUint 4 (length e.chunks)
  pub meta_u32 : IsUint 4 (length e.meta)
  pub path_u32 : IsUint 4 (length e.path)
  pub path_named : e.path ≢ []
  pub refs : All IsChunkRef e.chunks
  pub chain : IsChain 0 e.chunks
  pub no_chunks : length e.chunks ≡ 0 → e.file_size ≡ 0
  pub covered : last_end_ok e.file_size e.chunks ≡ true

-- The bytes that an entry takes in the directory.
abbrev pub entry_size : EntryV1 → ℕ
entry_size e =
    dir_entry_head_size + dir_chunk_ref_size * length e.chunks + length e.meta + length e.path

pub length-entry_bytes : (e : EntryV1) → length (entry_bytes e) ≡ entry_size e
unfolding entry_bytes
length-entry_bytes e =
    simp (length-append, length-put_uint, length-chunks_bytes e.chunks) (omega arith)

-- The head that the decoders have when they come to the lists.
abbrev bare : EntryV1 → EntryV1
bare e = record (with_sizes e) { chunks = []; meta = []; path = [] }

read_entry_head-bytes :
    (e : EntryV1) (rest : Bytes)
    → IsEntry e
    → read_entry_head (entry_head_bytes (with_sizes e) ++ rest) ≡ ok (bare e, rest)
unfolding read_entry_head entry_head_bytes with_sizes
read_entry_head-bytes e rest t = rw (
  append_assoc (put_uint 8 (fnv1a64 e.path)),
  append_assoc (put_uint 8 e.mtime_unix),
  append_assoc (put_uint 4 e.mode),
  append_assoc (put_uint 4 e.entry_flags),
  append_assoc (put_uint 8 e.file_size),
  append_assoc (put_uint 4 (length e.chunks)),
  append_assoc (put_uint 4 (length e.meta)),
  read_uint-put_uint 8 (fnv1a64 e.path) _ (fnv1a64-IsUint e.path),
  read_uint-put_uint 8 e.mtime_unix _ t.mtime_u64,
  read_uint-put_uint 4 e.mode _ t.mode_u32,
  read_uint-put_uint 4 e.entry_flags _ t.flags_u32,
  read_uint-put_uint 8 e.file_size _ t.size_u64,
  read_uint-put_uint 4 (length e.chunks) _ t.chunks_u32,
  read_uint-put_uint 4 (length e.meta) _ t.meta_u32,
  read_uint-put_uint 4 (length e.path) _ t.path_u32,
)

head_ok-bare : (e : EntryV1) → IsEntry e → head_ok (bare e) ≡ true
unfolding head_ok with_sizes
head_ok-bare e t = ground (arith, t.no_chunks)

path_ok-bare : (e : EntryV1) → IsEntry e → path_ok (bare e) e.path ≡ true
unfolding path_ok with_sizes
path_ok-bare e t = ground (arith, equal_iff e.path [], t.path_named)

entry_bytes-append :
    (e : EntryV1) (rest : Bytes)
    → entry_bytes e ++ rest
      ≡ entry_head_bytes (with_sizes e) ++ (chunks_bytes e.chunks ++ (e.meta ++ (e.path ++ rest)))
unfolding entry_bytes
entry_bytes-append e rest = rw (
  append_assoc (entry_head_bytes (with_sizes e)),
  append_assoc (chunks_bytes e.chunks),
  append_assoc e.meta,
)

room_for_head :
    (e : EntryV1) (rest : Bytes)
    → dir_footer_size ≤ length rest
    → 60 ≤ length (entry_bytes e ++ rest)
room_for_head e rest room = rw length-append (omega (arith, length-entry_bytes e))

room_for_lists :
    (e : EntryV1) (rest : Bytes)
    → dir_footer_size ≤ length rest
    → length e.chunks * 32 + (length e.meta + length e.path) + 16
      ≤ length (chunks_bytes e.chunks ++ (e.meta ++ (e.path ++ rest)))
room_for_lists e rest room = simp (length-append, length-chunks_bytes e.chunks) (omega arith)

-- The body of the loop of `DecodeDirectory` reads back what `EncodeDirectory` writes for an entry
-- that the format can hold, and leaves what follows, if at least a footer follows.
pub read_entry-entry_bytes :
    (e : EntryV1) (rest : Bytes)
    → IsEntry e
    → dir_footer_size ≤ length rest
    → read_entry (entry_bytes e ++ rest) ≡ ok (with_sizes e, rest)
unfolding read_entry with_sizes
read_entry-entry_bytes e rest t room =
    let n = length e.chunks in
    let m = length e.meta in
    let p = length e.path in
    rw (
      le→leb 60 (length (entry_bytes e ++ rest)) (room_for_head e rest room),
      entry_bytes-append e rest,
      read_entry_head-bytes e _ t,
      head_ok-bare e t,
      mul_uint64-fits n 32 (omega (arith, t.chunks_u32)),
      add_uint64-fits m p (omega (arith, t.meta_u32, t.path_u32)),
      add_uint64-fits (n * 32) (m + p) (omega (arith, t.chunks_u32, t.meta_u32, t.path_u32)),
      add_uint64-fits (n * 32 + (m + p)) 16 (omega (arith, t.chunks_u32, t.meta_u32, t.path_u32)),
      le→leb (n * 32 + (m + p) + 16) _ (room_for_lists e rest room),
      read_chunks-bytes e.chunks true 0 _ t.refs t.chain,
      t.covered,
      read_bytes-append m e.meta _ refl,
      read_bytes-append p e.path rest refl,
      path_ok-bare e t,
    )

-- An entry with the directory's header or other entries in front and the footer behind.
pub slice_middle :
    (front mid back : Bytes) (i j : ℕ)
    → i ≡ length front
    → j ≡ i + length mid
    → slice i j (front ++ (mid ++ back)) ≡ mid
slice_middle front mid back i j hi hj =
    rw (drop-append_front i front (mid ++ back) (sym hi))
      (take-append_front (j - i) mid back (omega arith))

pub entry_bytes-parts :
    (e : EntryV1)
    → entry_bytes e
      ≡ entry_head_bytes (with_sizes e) ++ (chunks_bytes e.chunks ++ (e.meta ++ e.path))
unfolding entry_bytes
entry_bytes-parts e = refl

-- `DecodeDirectoryEntryAt`, at the place where `EncodeDirectory` put an entry that the format can
-- hold, returns the entry completed by its hash and sizes, where the directory header is in front,
-- the footer behind and the offsets are below 2^32.
pub decode_directory_entry_at-entry_bytes :
    (e : EntryV1) (front back : Bytes)
    → IsEntry e
    → dir_header_size ≤ length front
    → dir_footer_size ≤ length back
    → length front + entry_size e < 2 ^ 32
    → decode_directory_entry_at (front ++ (entry_bytes e ++ back)) (length front) (entry_size e)
      ≡ ok (with_sizes e)
unfolding decode_directory_entry_at with_sizes
decode_directory_entry_at-entry_bytes e front back t hf hb small =
    let n = length e.chunks in
    let m = length e.meta in
    let p = length e.path in
    let off = length front in
    let size = entry_size e in
    let blob = front ++ (entry_bytes e ++ back) in
    let total : length blob ≡ off + size + length back =
      rw (length-append, length-append) (omega (arith, length-entry_bytes e)) in
    rw (
      le→leb 36 (length blob) (omega arith),
      le→leb 44 size (omega arith),
      le→leb 20 off hf,
      add_uint64-fits off size (omega arith),
      le→leb (off + size) (length blob - 16) (omega arith),
      le→leb (off + size) 9223372036854775807 (omega arith),
      slice_middle front (entry_bytes e) back off (off + size) refl
          (omega (arith, length-entry_bytes e)),
      entry_bytes-parts e,
      read_entry_head-bytes e _ t,
      head_ok-bare e t,
      mul_uint64-fits n 32 (omega (arith, t.chunks_u32)),
      add_uint64-fits m p (omega (arith, t.meta_u32, t.path_u32)),
      add_uint64-fits 44 (n * 32) (omega (arith, t.chunks_u32)),
      add_uint64-fits (44 + n * 32) (m + p) (omega (arith, t.chunks_u32, t.meta_u32, t.path_u32)),
      same_size n m p,
      read_chunks-bytes e.chunks true 0 _ t.refs t.chain,
      t.covered,
      read_bytes-append m e.meta _ refl,
      read_bytes_all p e.path refl,
      path_ok-bare e t,
    )
  where
    same_size : (n m p : ℕ) → (44 + n * 32 + (m + p) == 44 + 32 * n + m + p) ≡ true
    same_size n m p = ground arith
