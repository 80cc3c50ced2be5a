-- ===== src/Fbx/Region.antt =====
-- fbx/container.go: the place of the directory in the file, read with its bounds tested.
use go_fbx.Base.{
  ℕ, ◌+◌, ◌-◌, ◌^◌, ◌<◌, ◌≤◌, ◌≡◌, ◌↔◌, true, Bool, not, ◌&&◌, ◌||◌, ltb, leb, ◌==◌, length,
  length-append, ◌++◌, arith,
}
use go_fbx.Base.{Bytes, Result, ok, ◌>>=◌, ◌>>◌, guard, invalid_format, limit_exceeded}
use go_fbx.File.{read_at, read_at-middle}
use go_fbx.Format.Header.{HeaderV1}
use go_fbx.Format.Directory.{decode_directory}
use go_fbx.Format.Directory.Entry.{max_int}

-- `regionWithinFile`
unfoldable pub region_within_file : ℕ → ℕ → ℕ → Bool
region_within_file offset size file_size =
    not (ltb file_size offset) && leb size (file_size - offset)

-- `maxDirectoryBlobSize`
abbrev pub max_directory_blob_size : ℕ
max_directory_blob_size = 2 ^ 30

-- `readDirectoryBlobByHeader`
unfoldable pub read_directory_blob_by_header : Bytes → HeaderV1 → Result Bytes
unfolding region_within_file
read_directory_blob_by_header f h = do
  guard (not (h.dir_offset == 0 || h.dir_size == 0)) invalid_format
  guard (region_within_file h.dir_offset h.dir_size (length f)) invalid_format
  guard (leb h.dir_size max_directory_blob_size) limit_exceeded
  guard (leb h.dir_size max_int) limit_exceeded
  read_at f h.dir_offset h.dir_size

-- `validateHeaderDirectory`
unfoldable pub validate_header_directory : Bytes → HeaderV1 → Result (Unit {0})
validate_header_directory f h = do
  blob ← read_directory_blob_by_header f h
  _ ← decode_directory blob h.dir_crc32 h.dir_size
  ok tt

-- `regionWithinFile`, which subtracts and cannot overflow, tests that the region ends within the
-- file.
pub region_within_file_iff :
    (offset size file_size : ℕ)
    → (region_within_file offset size file_size ≡ true) ↔ (offset + size ≤ file_size)
unfolding region_within_file
region_within_file_iff offset size file_size = ground arith

-- `readDirectoryBlobByHeader` returns a directory of 1 byte to 1 GiB that stands in the file at the
-- place that the header names, which is not 0 and an int64.
pub read_directory_blob_by_header-middle :
    (front blob back : Bytes) (h : HeaderV1)
    → h.dir_offset ≡ length front
    → h.dir_size ≡ length blob
    → 0 < length front
    → length front < 2 ^ 63
    → 0 < length blob
    → length blob ≤ max_directory_blob_size
    → read_directory_blob_by_header (front ++ (blob ++ back)) h ≡ ok blob
unfolding read_directory_blob_by_header
read_directory_blob_by_header-middle front blob back h ho hs front_pos front_small pos small =
    let room : length (front ++ (blob ++ back)) ≡ length front + (length blob + length back) =
      rw (length-append, length-append) in
    ground (arith, read_at-middle front blob back h.dir_offset h.dir_size)
