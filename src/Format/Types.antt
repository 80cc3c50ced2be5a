-- ===== src/Format/Types.antt =====
-- internal/format/types.go: the records of a directory. Strings are their bytes.
use go_fbx.Base.{ℕ, List, Bytes}

-- A `Codec` is a byte; these three are known.
abbrev pub Codec : Type 0
Codec = ℕ

abbrev pub codec_store : Codec
codec_store = 0

abbrev pub codec_zstd : Codec
codec_zstd = 1

abbrev pub codec_lz4 : Codec
codec_lz4 = 2

pub record ChunkRefV1 : Type 0 where
  pub chunk_offset : ℕ
  pub raw_offset : ℕ
  pub raw_size : ℕ
  pub comp_size : ℕ
  pub crc32_raw : ℕ
  pub reserved : ℕ

pub record EntryV1 : Type 0 where
  pub path_hash64 : ℕ
  pub mtime_unix : ℕ
  pub mode : ℕ
  pub entry_flags : ℕ
  pub file_size : ℕ
  pub chunk_count : ℕ
  pub meta_size : ℕ
  pub path_size : ℕ
  pub chunks : List ChunkRefV1
  pub meta : Bytes
  pub path : Bytes

pub record DirectoryV1 : Type 0 where
  pub entry_count : ℕ
  pub flags : ℕ
  pub build_unix : ℕ
  pub entries : List EntryV1
