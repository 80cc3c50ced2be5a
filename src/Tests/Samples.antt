-- ===== src/Tests/Samples.antt =====
-- A small container: a header, a directory, and an instance of the compressors.
use go_fbx.Base.{
  ℕ, ◌+◌, [], ◌∷◌, replicate, Bytes, Result, ok, err, codec_failed, length, leb, if◌then◌else◌,
}
use go_fbx.Format.Header.{HeaderV1, magic_header}
use go_fbx.Format.Types.{ChunkRefV1, EntryV1, DirectoryV1}
use go_fbx.Format.Codec.{Compressors}
use go_fbx.Fbx.Seal.{Pieces}

-- A header as `Create` makes it, with the directory right behind it.
abbrev pub fresh_header : HeaderV1
fresh_header = record {
  magic = magic_header;
  version = 1;
  header_size = 128;
  flags = 0;
  uuid = replicate {A = ℕ} 16 7;
  created_unix = 1700000000;
  dir_offset = 128;
  dir_size = 36;
  dir_crc32 = 0;
  journal_offset = 0;
  journal_size = 0;
  reserved = replicate {A = ℕ} 56 0;
}

abbrev pub first_chunk : ChunkRefV1
first_chunk = record {
  chunk_offset = 128;
  raw_offset = 0;
  raw_size = 5;
  comp_size = 5;
  crc32_raw = 77;
  reserved = 0;
}

abbrev pub second_chunk : ChunkRefV1
second_chunk = record {
  chunk_offset = 149;
  raw_offset = 5;
  raw_size = 2;
  comp_size = 2;
  crc32_raw = 78;
  reserved = 0;
}

-- "b", in two chunks
abbrev pub entry_b : EntryV1
entry_b = record {
  path_hash64 = 0;
  mtime_unix = 1700000001;
  mode = 420;
  entry_flags = 0;
  file_size = 7;
  chunk_count = 0;
  meta_size = 0;
  path_size = 0;
  chunks = first_chunk ∷ second_chunk ∷ [];
  meta = 123 ∷ 125 ∷ [];
  path = 98 ∷ [];
}

-- "a", empty
abbrev pub entry_a : EntryV1
entry_a = record entry_b { file_size = 0; chunks = []; path = 97 ∷ [] }

abbrev pub two_entries : DirectoryV1
two_entries = record {
  entry_count = 0;
  flags = 0;
  build_unix = 1700000002;
  entries = entry_b ∷ entry_a ∷ [];
}

abbrev pub no_entries : DirectoryV1
no_entries = record { entry_count = 0; flags = 0; build_unix = 9; entries = [] }

-- Compressors that put a byte in front.
abbrev pub framed : Bytes → Result Bytes
framed raw = ok (255 ∷ raw)

abbrev pub unframed : ℕ → Bytes → Result Bytes
unframed limit [] = err codec_failed
unframed limit (b ∷ raw) = if leb (length raw) limit then ok raw else err codec_failed

abbrev pub framing : Compressors
framing = record {
  encode_all = λ level raw. framed raw;
  decode_all = unframed;
  compress_block_bound = λ n. n + 1;
  compress_block = λ raw cap. framed raw;
  compress_block_hc = λ level raw cap. framed raw;
  uncompress_block = λ c n. unframed n c;
}

abbrev pub committed : Pieces
committed = record {
  dir_offset = 200;
  dir_size = 36;
  dir_crc = 99;
  index = record { offset = 236; size = 40; crc32 = 5 };
  journal_offset = 276;
}
