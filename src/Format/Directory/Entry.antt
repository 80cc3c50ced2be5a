-- ===== src/Format/Directory/Entry.antt =====
-- One entry of a directory: the body of the loop of `EncodeDirectory`, the body of the loop of
-- `DecodeDirectory`, and `DecodeDirectoryEntryAt` of internal/format/directory_entry.go.
pub mod RoundTrip
use go_fbx.Base.{ℕ, ◌+◌, ◌-◌, ◌^◌, Bool, true, false, not, ◌&&◌, ◌||◌, [], ◌∷◌, ◌++◌}
use go_fbx.Base.{length, slice, leb, ◌==◌, if◌then◌else◌}
use go_fbx.Base.{Bytes, put_uint, read_uint, read_bytes, equal}
use go_fbx.Base.{Error, Result, ok, err, ◌>>=◌, ◌>>◌, guard, need, invalid_dir, eof, unexpected_eof}
use go_fbx.Format.Types.{EntryV1}
use go_fbx.Format.Hash.{fnv1a64}
use go_fbx.Format.Checked.{add_uint64, mul_uint64}
use go_fbx.Format.Directory.Chunks.{chunks_bytes, read_chunks, last_end_ok}

abbrev pub dir_header_size : ℕ
dir_header_size = 20

abbrev pub dir_footer_size : ℕ
dir_footer_size = 16

abbrev pub dir_entry_head_size : ℕ
dir_entry_head_size = 44

abbrev pub dir_chunk_ref_size : ℕ
dir_chunk_ref_size = 32

-- `int(^uint(0) >> 1)`
abbrev pub max_int : ℕ
max_int = 2 ^ 63 - 1

-- The entry with the hash and the sizes that `EncodeDirectory` computes for it.
unfoldable pub with_sizes : EntryV1 → EntryV1
with_sizes e = record e {
  path_hash64 = fnv1a64 e.path;
  path_size = length e.path;
  meta_size = length e.meta;
  chunk_count = length e.chunks;
}

unfoldable pub entry_head_bytes : EntryV1 → Bytes
entry_head_bytes e =
    put_uint 8 e.path_hash64
    ++ (put_uint 8 e.mtime_unix
        ++ (put_uint 4 e.mode
            ++ (put_uint 4 e.entry_flags
                ++ (put_uint 8 e.file_size
                    ++ (put_uint 4 e.chunk_count
                        ++ (put_uint 4 e.meta_size ++ put_uint 4 e.path_size))))))

-- What the loop of `EncodeDirectory` writes for one entry.
unfoldable pub entry_bytes : EntryV1 → Bytes
unfolding entry_head_bytes with_sizes
entry_bytes e = entry_head_bytes (with_sizes e) ++ (chunks_bytes e.chunks ++ (e.meta ++ e.path))

-- The eight reads of the head; the lists are still empty.
unfoldable pub read_entry_head : Bytes → Result (EntryV1 × Bytes)
read_entry_head r = do
  (path_hash64, r1) ← need invalid_dir (read_uint 8 r)
  (mtime_unix, r2) ← need invalid_dir (read_uint 8 r1)
  (mode, r3) ← need invalid_dir (read_uint 4 r2)
  (entry_flags, r4) ← need invalid_dir (read_uint 4 r3)
  (file_size, r5) ← need invalid_dir (read_uint 8 r4)
  (chunk_count, r6) ← need invalid_dir (read_uint 4 r5)
  (meta_size, r7) ← need invalid_dir (read_uint 4 r6)
  (path_size, r8) ← need invalid_dir (read_uint 4 r7)
  ok (
    record {
      path_hash64 = path_hash64;
      mtime_unix = mtime_unix;
      mode = mode;
      entry_flags = entry_flags;
      file_size = file_size;
      chunk_count = chunk_count;
      meta_size = meta_size;
      path_size = path_size;
      chunks = [];
      meta = [];
      path = [];
    },
    r8,
  )

-- The tests of the head that both decoders make.
unfoldable pub head_ok : EntryV1 → Bool
head_ok e =
    not (e.chunk_count == 0 && not (e.file_size == 0))
    && (leb e.chunk_count max_int && (leb e.meta_size max_int && leb e.path_size max_int))

-- The error of `io.ReadFull`: `EOF` where nothing was left, else `ErrUnexpectedEOF`.
abbrev pub read_full_error : Bytes → Error
read_full_error [] = eof
read_full_error (b ∷ r) = unexpected_eof

-- The tests of a path: it is not empty, and the hash of the head is its hash.
unfoldable pub path_ok : EntryV1 → Bytes → Bool
path_ok e path = not (equal path []) && fnv1a64 path == e.path_hash64

-- `DecodeDirectory` on one entry; the footer is still behind it.
unfoldable pub read_entry : Bytes → Result (EntryV1 × Bytes)
unfolding read_entry_head head_ok path_ok
read_entry r = do
  guard (leb (dir_entry_head_size + dir_footer_size) (length r)) invalid_dir
  (e, r1) ← read_entry_head r
  guard (head_ok e) invalid_dir
  chunk_bytes ← need invalid_dir (mul_uint64 e.chunk_count dir_chunk_ref_size)
  meta_path_bytes ← need invalid_dir (add_uint64 e.meta_size e.path_size)
  need_bytes ← need invalid_dir (add_uint64 chunk_bytes meta_path_bytes)
  with_footer ← need invalid_dir (add_uint64 need_bytes dir_footer_size)
  guard (leb with_footer (length r1)) invalid_dir
  (chunks, r2) ← read_chunks e.chunk_count true 0 r1
  guard (last_end_ok e.file_size chunks) invalid_dir
  (meta, r3) ← need (read_full_error r2) (read_bytes e.meta_size r2)
  (path, r4) ← need (read_full_error r3) (read_bytes e.path_size r3)
  guard (path_ok e path) invalid_dir
  ok (record e { chunks = chunks; meta = meta; path = path }, r4)

-- `DecodeDirectoryEntryAt`
unfoldable pub decode_directory_entry_at : Bytes → ℕ → ℕ → Result EntryV1
unfolding read_entry_head head_ok path_ok
decode_directory_entry_at blob entry_off entry_size = do
  guard (leb (dir_header_size + dir_footer_size) (length blob)) invalid_dir
  guard (leb dir_entry_head_size entry_size) invalid_dir
  guard (leb dir_header_size entry_off) invalid_dir
  end ← need invalid_dir (add_uint64 entry_off entry_size)
  guard (leb end (length blob - dir_footer_size)) invalid_dir
  guard (leb end max_int) invalid_dir
  (e, r1) ← read_entry_head (slice entry_off end blob)
  guard (head_ok e) invalid_dir
  chunk_bytes ← need invalid_dir (mul_uint64 e.chunk_count dir_chunk_ref_size)
  meta_path_bytes ← need invalid_dir (add_uint64 e.meta_size e.path_size)
  head_chunks ← need invalid_dir (add_uint64 dir_entry_head_size chunk_bytes)
  need_bytes ← need invalid_dir (add_uint64 head_chunks meta_path_bytes)
  guard (need_bytes == entry_size) invalid_dir
  (chunks, r2) ← read_chunks e.chunk_count true 0 r1
  guard (last_end_ok e.file_size chunks) invalid_dir
  (meta, r3) ← need invalid_dir (read_bytes e.meta_size r2)
  (path, r4) ← need invalid_dir (read_bytes e.path_size r3)
  guard (length r4 == 0) invalid_dir
  guard (path_ok e path) invalid_dir
  ok (record e { chunks = chunks; meta = meta; path = path })
