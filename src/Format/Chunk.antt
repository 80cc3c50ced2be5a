-- ===== src/Format/Chunk.antt =====
-- internal/format/chunk.go: chunk records, written and read back at an offset of the file.
pub mod RoundTrip
use go_fbx.Base.{
  ℕ, ◌+◌, ◌^◌, ◌%◌, Bool, not, ◌&&◌, ◌||◌, [], ◌∷◌, ◌++◌, ltb, leb, ◌==◌, length, slice,
}
use go_fbx.Base.{Bytes, put_uint, uint, equal, get_or, checksum}
use go_fbx.Base.{Result, ok, err, ◌>>=◌, ◌>>◌, guard, invalid_chunk, format_crc_mismatch}
use go_fbx.Base.{format_limit_exceeded}
use go_fbx.File.{read_at}
use go_fbx.Format.Types.{Codec}
use go_fbx.Format.Header.{magic_chunk}
use go_fbx.Format.Directory.Entry.{max_int}
use go_fbx.Format.Codec.{Compressors, compress_payload, decompress_payload}

abbrev pub chunk_header_size : ℕ
chunk_header_size = 16

pub record ChunkRecordV1 : Type 0 where
  pub codec : Codec
  pub level : ℕ
  pub raw_size : ℕ
  pub comp_size : ℕ
  pub crc32_raw : ℕ
  pub payload : Bytes

pub record ChunkHeaderV1 : Type 0 where
  pub codec : Codec
  pub level : ℕ
  pub raw_size : ℕ
  pub comp_size : ℕ
  pub crc32_raw : ℕ

-- The record that `EncodeChunkRecord` fills in; `uint32(len)` keeps 32 bits.
unfoldable pub chunk_bytes : Codec → ℕ → ℕ → ℕ → Bytes → Bytes
chunk_bytes codec level raw_size crc comp =
    magic_chunk
    ++ (codec % 256
        ∷ level % 256
        ∷ (put_uint 4 raw_size ++ (put_uint 4 (length comp) ++ (put_uint 4 crc ++ comp))))

-- `ReadChunkHeaderAt`
unfoldable pub read_chunk_header_at : Bytes → ℕ → Result ChunkHeaderV1
read_chunk_header_at f offset = do
  head ← read_at f offset chunk_header_size
  guard (equal (slice 0 2 head) magic_chunk) invalid_chunk
  ok (record {
    codec = get_or head 2 0;
    level = get_or head 3 0;
    raw_size = uint (slice 4 8 head);
    comp_size = uint (slice 8 12 head);
    crc32_raw = uint (slice 12 16 head);
  })

module _ (lib : Compressors) where
  -- `EncodeChunkRecord`: the record and the checksum of the raw bytes.
  unfoldable pub encode_chunk_record : Bytes → Codec → ℕ → Result (Bytes × ℕ)
  encode_chunk_record raw codec level = do
    guard (not (length raw == 0)) invalid_chunk
    comp ← compress_payload lib raw codec level
    let crc = checksum raw
    ok (chunk_bytes codec level (length raw) crc comp, crc)

  -- `ReadChunkRecordAtOptLimited`; a maximum of 0 is no limit. The test of `len(payload)` is that of
  -- `ReadAt`, which fills the buffer or fails.
  unfoldable pub read_chunk_record_at_opt_limited : Bytes → ℕ → Bool → ℕ → ℕ → Result ChunkRecordV1
  read_chunk_record_at_opt_limited f offset verify_crc max_raw_size max_comp_size = do
    head ← read_chunk_header_at f offset
    guard (not (head.raw_size == 0 || head.comp_size == 0)) invalid_chunk
    guard (not (ltb 0 max_raw_size && ltb max_raw_size head.raw_size)) format_limit_exceeded
    guard (not (ltb 0 max_comp_size && ltb max_comp_size head.comp_size)) format_limit_exceeded
    guard (leb head.comp_size max_int) format_limit_exceeded
    payload ← read_at f (offset + chunk_header_size) head.comp_size
    guard (length payload % 2 ^ 32 == head.comp_size) invalid_chunk
    raw ← decompress_payload lib payload head.codec head.raw_size
    guard (length raw % 2 ^ 32 == head.raw_size) invalid_chunk
    guard (not (verify_crc && not (checksum raw == head.crc32_raw))) format_crc_mismatch
    ok (record {
      codec = head.codec;
      level = head.level;
      raw_size = head.raw_size;
      comp_size = head.comp_size;
      crc32_raw = head.crc32_raw;
      payload = raw;
    })
