-- ===== src/Format/Header.antt =====
-- internal/format/header.go: the 128-byte header. A Go array is a byte list whose length a valid
-- header fixes; the reads of `binary.Read` are those of a byte reader that the code threads.
pub mod RoundTrip
use go_fbx.Base.{ℕ, ◌<◌, ◌≡◌, Bool, true, ◌&&◌, List, [], ◌∷◌, ◌++◌, ◌==◌, length}
use go_fbx.Base.{Bytes, IsBytes, IsUint, put_uint, read_uint, read_bytes, equal}
use go_fbx.Base.{Result, ok, err, ◌>>=◌, ◌>>◌, guard, need, invalid_header}

abbrev pub header_size : ℕ
header_size = 128

abbrev pub version_v1 : ℕ
version_v1 = 1

-- 'F', 'B', 'X', 'C'
abbrev pub magic_header : Bytes
magic_header = 0x46 ∷ 0x42 ∷ 0x58 ∷ 0x43 ∷ []

-- 'D', 'I', 'R', '1'
abbrev pub magic_dir : Bytes
magic_dir = 0x44 ∷ 0x49 ∷ 0x52 ∷ 0x31 ∷ []

-- 'E', 'N', 'D', '1'
abbrev pub magic_end : Bytes
magic_end = 0x45 ∷ 0x4e ∷ 0x44 ∷ 0x31 ∷ []

-- 'C', 'K'
abbrev pub magic_chunk : Bytes
magic_chunk = 0x43 ∷ 0x4b ∷ []

abbrev pub flag_has_journal : ℕ
flag_has_journal = 1

abbrev pub flag_has_backup : ℕ
flag_has_backup = 2

abbrev pub flag_has_dir_index : ℕ
flag_has_dir_index = 4

abbrev pub flag_has_required_features : ℕ
flag_has_required_features = 8

pub record HeaderV1 : Type 0 where
  pub magic : Bytes
  pub version : ℕ
  pub header_size : ℕ
  pub flags : ℕ
  pub uuid : Bytes
  pub created_unix : ℕ
  pub dir_offset : ℕ
  pub dir_size : ℕ
  pub dir_crc32 : ℕ
  pub journal_offset : ℕ
  pub journal_size : ℕ
  pub reserved : Bytes

-- What Go's types say of a header: the widths of its integers and the lengths of its arrays.
pub record IsTyped (h : HeaderV1) : Type 0 where
  pub magic_length : length h.magic ≡ 4
  pub version_u16 : IsUint 2 h.version
  pub header_size_u16 : IsUint 2 h.header_size
  pub flags_u32 : IsUint 4 h.flags
  pub uuid_length : length h.uuid ≡ 16
  pub created_u64 : IsUint 8 h.created_unix
  pub dir_offset_u64 : IsUint 8 h.dir_offset
  pub dir_size_u64 : IsUint 8 h.dir_size
  pub dir_crc32_u32 : IsUint 4 h.dir_crc32
  pub journal_offset_u64 : IsUint 8 h.journal_offset
  pub journal_size_u64 : IsUint 8 h.journal_size
  pub reserved_length : length h.reserved ≡ 56

-- What `UnmarshalHeaderV1` tests of a header that it has read.
pub record IsV1 (h : HeaderV1) : Type 0 where
  pub magic_ok : h.magic ≡ magic_header
  pub version_ok : h.version ≡ version_v1
  pub header_size_ok : h.header_size ≡ header_size

-- The buffer after the twelve writes of `MarshalBinary`.
unfoldable pub header_bytes : HeaderV1 → Bytes
header_bytes h =
    h.magic
    ++ (put_uint 2 h.version
        ++ (put_uint 2 h.header_size
            ++ (put_uint 4 h.flags
                ++ (h.uuid
                    ++ (put_uint 8 h.created_unix
                        ++ (put_uint 8 h.dir_offset
                            ++ (put_uint 8 h.dir_size
                                ++ (put_uint 4 h.dir_crc32
                                    ++ (put_uint 8 h.journal_offset
                                        ++ (put_uint 8 h.journal_size ++ h.reserved))))))))))

-- `MarshalBinary`
unfoldable pub marshal : HeaderV1 → Result Bytes
unfolding header_bytes
marshal h = do guard (length (header_bytes h) == header_size) invalid_header; ok (header_bytes h)

-- The test at the end of `UnmarshalHeaderV1`.
unfoldable pub is_v1 : HeaderV1 → Bool
is_v1 h = equal h.magic magic_header && h.version == version_v1 && h.header_size == header_size

-- `UnmarshalHeaderV1`
unfoldable pub unmarshal : Bytes → Result HeaderV1
unfolding is_v1
unmarshal b = do
  guard (length b == header_size) invalid_header
  (magic, r1) ← need invalid_header (read_bytes 4 b)
  (version, r2) ← need invalid_header (read_uint 2 r1)
  (size, r3) ← need invalid_header (read_uint 2 r2)
  (flags, r4) ← need invalid_header (read_uint 4 r3)
  (uuid, r5) ← need invalid_header (read_bytes 16 r4)
  (created_unix, r6) ← need invalid_header (read_uint 8 r5)
  (dir_offset, r7) ← need invalid_header (read_uint 8 r6)
  (dir_size, r8) ← need invalid_header (read_uint 8 r7)
  (dir_crc32, r9) ← need invalid_header (read_uint 4 r8)
  (journal_offset, r10) ← need invalid_header (read_uint 8 r9)
  (journal_size, r11) ← need invalid_header (read_uint 8 r10)
  (reserved, _) ← need invalid_header (read_bytes 56 r11)
  let h : HeaderV1 = record {
    magic = magic;
    version = version;
    header_size = size;
    flags = flags;
    uuid = uuid;
    created_unix = created_unix;
    dir_offset = dir_offset;
    dir_size = dir_size;
    dir_crc32 = dir_crc32;
    journal_offset = journal_offset;
    journal_size = journal_size;
    reserved = reserved;
  }
  guard (is_v1 h) invalid_header
  ok h
