-- ===== src/Format/Directory.antt =====
-- internal/format/directory.go: `EncodeDirectory` and `DecodeDirectory`. The decoder's reads thread
-- the unread bytes; `int` is 64 bits wide.
pub mod Sort
pub mod Chunks
pub mod Entry
pub mod RoundTrip
use go_fbx.Base.{ℕ, zero, suc, ◌+◌, ◌-◌, ◌/◌, not, ◌&&◌}
use go_fbx.Base.{List, [], ◌∷◌, ◌++◌, length, take, drop, slice, leb, ◌==◌}
use go_fbx.Base.{Bytes, put_uint, read_uint, read_bytes, uint, equal, checksum}
use go_fbx.Base.{Result, ok, err, ◌>>=◌, ◌>>◌, guard, need, invalid_dir, format_crc_mismatch}
use go_fbx.Format.Types.{EntryV1, DirectoryV1}
use go_fbx.Format.Header.{magic_dir, magic_end}
use go_fbx.Format.Directory.Sort.{sort_entries}
use go_fbx.Format.Directory.Entry.{
  dir_header_size, dir_footer_size, dir_entry_head_size, max_int, entry_bytes, read_entry,
}

-- The loop of `EncodeDirectory` over the sorted entries.
unfoldable pub write_entries : List EntryV1 → Result Bytes
write_entries [] = ok []
write_entries (e ∷ es) = do
  guard (not (equal e.path [])) invalid_dir
  rest ← write_entries es
  ok (entry_bytes e ++ rest)

-- The buffer in front of the footer.
unfoldable pub directory_head : ℕ → ℕ → Bytes → Bytes
directory_head count build_unix body =
    magic_dir ++ (put_uint 4 count ++ (put_uint 4 0 ++ (put_uint 8 build_unix ++ body)))

-- The footer: the end mark, the checksum of what is in front, the size of all.
unfoldable pub directory_footer : ℕ → ℕ → Bytes
directory_footer crc total = magic_end ++ (put_uint 4 crc ++ put_uint 8 total)

-- `EncodeDirectory`: the bytes and their checksum. `uint64(buf.Len()+8)` is taken when the mark and
-- the checksum, 8 bytes, are already written.
unfoldable pub encode_directory : DirectoryV1 → Result (Bytes × ℕ)
encode_directory dir = do
  guard (dir.flags == 0) invalid_dir
  let entries = sort_entries dir.entries
  body ← write_entries entries
  let head = directory_head (length entries) dir.build_unix body
  let crc = checksum head
  let blob = head ++ directory_footer crc (length head + 8 + 8)
  guard (leb dir_footer_size (length blob)) invalid_dir
  ok (blob, crc)

-- The loop of `DecodeDirectory` with the number of entries left.
unfoldable pub read_entries : ℕ → Bytes → Result (List EntryV1 × Bytes)
read_entries zero r = ok ([], r)
read_entries (suc n) r = do (e, r1) ← read_entry r; (es, r2) ← read_entries n r1; ok (e ∷ es, r2)

-- What `DecodeDirectory` does behind the tests of the footer.
unfoldable pub read_directory : Bytes → Result DirectoryV1
read_directory blob = do
  (magic, r1) ← need invalid_dir (read_bytes 4 blob)
  (entry_count, r2) ← need invalid_dir (read_uint 4 r1)
  (flags, r3) ← need invalid_dir (read_uint 4 r2)
  (build_unix, r4) ← need invalid_dir (read_uint 8 r3)
  guard (equal magic magic_dir) invalid_dir
  guard (flags == 0) invalid_dir
  guard (leb entry_count max_int) invalid_dir
  guard (leb entry_count ((length blob - dir_header_size - dir_footer_size) / dir_entry_head_size))
      invalid_dir
  (entries, r5) ← read_entries entry_count r4
  guard (length r5 == dir_footer_size) invalid_dir
  ok (record {
    entry_count = entry_count;
    flags = flags;
    build_unix = build_unix;
    entries = entries;
  })

-- `DecodeDirectory`
unfoldable pub decode_directory : Bytes → ℕ → ℕ → Result DirectoryV1
unfolding read_directory
decode_directory blob expected_crc expected_size = do
  guard (leb (dir_header_size + dir_footer_size) (length blob)) invalid_dir
  guard (length blob == expected_size) invalid_dir
  guard (equal (take 4 blob) magic_dir) invalid_dir
  let footer = drop (length blob - dir_footer_size) blob
  guard (equal (take 4 footer) magic_end) invalid_dir
  let crc = uint (slice 4 8 footer)
  let total = uint (slice 8 16 footer)
  guard (total == expected_size && crc == expected_crc) invalid_dir
  guard (checksum (take (length blob - dir_footer_size) blob) == crc) format_crc_mismatch
  read_directory blob
