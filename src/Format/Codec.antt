-- ===== src/Format/Codec.antt =====
-- internal/format/codec.go, codec_zstd.go and codec_lz4.go. The packages klauspost/compress/zstd and
-- pierrec/lz4 are not part of the repository: what the code calls of them is the record
-- `Compressors`, a parameter. The pools of encoders and decoders, which only save their set-up, are
-- not modelled. `int` is 64 bits wide.
pub mod RoundTrip
use go_fbx.Base.{
  ℕ, zero, suc, ◌+◌, ◌*◌, ◌^◌, ◌%◌, ◌<◌, ◌≤◌, ◌≡◌, Bool, ◌&&◌, ◌||◌, ltb, leb, ◌==◌, if◌then◌else◌,
}
use go_fbx.Base.{length, Bytes, Result, ok, err, ◌>>=◌, ◌>>◌, guard, not}
use go_fbx.Base.{invalid_chunk, bad_codec, codec_failed, format_limit_exceeded}
use go_fbx.Format.Types.{Codec, codec_store, codec_zstd, codec_lz4}
use go_fbx.Format.Directory.Entry.{max_int}

-- The calls of the two packages.
pub record Compressors : Type 0 where
  -- `EncodeAll` of the encoder for a level, or the error of `NewWriter`
  pub encode_all : ℕ → Bytes → Result Bytes
  -- `DecodeAll` of a decoder with a limit of memory, or the error of `NewReader`
  pub decode_all : ℕ → Bytes → Result Bytes
  -- `CompressBlockBound`
  pub compress_block_bound : ℕ → ℕ
  -- `CompressBlock` and `CompressBlockHC` into a buffer of the size given: the bytes written
  pub compress_block : Bytes → ℕ → Result Bytes
  pub compress_block_hc : ℕ → Bytes → ℕ → Result Bytes
  -- `UncompressBlock` into a buffer of the size given: the bytes written
  pub uncompress_block : Bytes → ℕ → Result Bytes

-- An error of a package is wrapped in a text of its own.
abbrev wrap {ℓ} : {A : Type ℓ} → Result A → Result A
wrap (ok a) = ok a
wrap (err e) = err codec_failed

abbrev pub zstd_min_decode_limit : ℕ
zstd_min_decode_limit = 2 ^ 23

abbrev pub zstd_max_decode_limit : ℕ
zstd_max_decode_limit = 2 ^ 33

-- `zstdDecodeMemoryLimit`
unfoldable pub zstd_decode_memory_limit : ℕ → ℕ
zstd_decode_memory_limit expected =
    let limit = expected * 4 % 2 ^ 64 in
    if ltb limit zstd_min_decode_limit
    then zstd_min_decode_limit
    else if ltb zstd_max_decode_limit limit
    then zstd_max_decode_limit
    else limit

-- The loop that doubles `b`, on fuel.
unfoldable pub bucket_loop : ℕ → ℕ → ℕ → ℕ
bucket_loop zero b limit = b
bucket_loop (suc fuel) b limit =
    let more = bucket_loop fuel (b * 2 % 2 ^ 64) limit in
    if ltb b limit && ltb b zstd_max_decode_limit then more else b

-- `zstdDecoderLimitBucket`. From 2^23 ten doublings reach 2^33, where the loop ends.
unfoldable pub zstd_decoder_limit_bucket : ℕ → ℕ
unfolding bucket_loop
zstd_decoder_limit_bucket limit =
    if leb limit zstd_min_decode_limit
    then zstd_min_decode_limit
    else if leb zstd_max_decode_limit limit
    then zstd_max_decode_limit
    else let b = bucket_loop 11 zstd_min_decode_limit limit in
      if ltb zstd_max_decode_limit b then zstd_max_decode_limit else b

-- `mapLZ4Level`, by the number of the level
unfoldable pub map_lz4_level : ℕ → ℕ
map_lz4_level level = if ltb 8 level then 9 else level

module _ (lib : Compressors) where
  -- `zstdCompress`
  unfoldable pub zstd_compress : Bytes → ℕ → Result Bytes
  zstd_compress src level = do
    guard (not (length src == 0)) invalid_chunk
    wrap (lib.encode_all level src)

  -- `zstdDecompress`
  unfoldable pub zstd_decompress : Bytes → ℕ → Result Bytes
  zstd_decompress src expected = do
    guard (not (length src == 0 || expected == 0)) invalid_chunk
    out ← wrap (lib.decode_all (zstd_decoder_limit_bucket (zstd_decode_memory_limit expected)) src)
    guard (length out == expected) invalid_chunk
    ok out

  -- `lz4Compress` and `lz4CompressWithLevel`
  unfoldable pub lz4_compress : Bytes → ℕ → Result Bytes
  lz4_compress src level = do
    guard (not (length src == 0)) invalid_chunk
    let bound = lib.compress_block_bound (length src)
    guard (not (bound == 0)) bad_codec
    out ← wrap (
        if level == 0
        then lib.compress_block src bound
        else lib.compress_block_hc (map_lz4_level level) src bound)
    guard (not (length out == 0)) codec_failed
    ok out

  -- `lz4Decompress`
  unfoldable pub lz4_decompress : Bytes → ℕ → Result Bytes
  lz4_decompress src expected = do
    guard (not (length src == 0 || expected == 0)) invalid_chunk
    out ← wrap (lib.uncompress_block src expected)
    guard (length out == expected) invalid_chunk
    ok out

  -- `compressPayload`
  unfoldable pub compress_payload : Bytes → Codec → ℕ → Result Bytes
  compress_payload raw codec level =
      if codec == codec_store
      then ok raw
      else if codec == codec_zstd
      then zstd_compress raw level
      else if codec == codec_lz4
      then lz4_compress raw level
      else err bad_codec

  -- `decompressPayload`
  unfoldable pub decompress_payload : Bytes → Codec → ℕ → Result Bytes
  decompress_payload comp codec expected_raw_size = do
    guard (leb expected_raw_size max_int) format_limit_exceeded
    if codec == codec_store
        then ok comp
        else if codec == codec_zstd
        then zstd_decompress comp expected_raw_size
        else if codec == codec_lz4
        then lz4_decompress comp expected_raw_size
        else err bad_codec
