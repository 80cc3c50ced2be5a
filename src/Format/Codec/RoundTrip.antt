-- ===== src/Format/Codec/RoundTrip.antt =====
-- Every codec gives back what it compressed, as far as the packages do.
use go_fbx.Base.{ℕ, zero, suc, ◌*◌, ◌^◌, ◌<◌, ◌≤◌, ◌≡◌, ◌≢◌, ap, arith, length, Bytes}
use go_fbx.Base.{ok}
use Prim.Native.Nat.{min, max}
use native.Mathlib.Nat.{pow-suc, pow-zero}
use go_fbx.Format.Types.{Codec}
use go_fbx.Format.Codec.{
  Compressors, zstd_min_decode_limit, zstd_decode_memory_limit, bucket_loop,
  zstd_decoder_limit_bucket, zstd_compress, zstd_decompress, lz4_compress, lz4_decompress,
  compress_payload, decompress_payload, map_lz4_level,
}

-- What the packages document: a frame is not empty; the frame of a content that the format can hold
-- is decoded under a limit of memory and window of at least 8 MiB that is four times the content, or
-- 8 GiB; a block is decoded into a buffer of the size of its content.
pub record IsLossless (lib : Compressors) : Type 0 where
  pub frame_nonempty : (level : ℕ) (raw c : Bytes) → lib.encode_all level raw ≡ ok c → length c ≢ 0
  pub frame :
      (level limit : ℕ) (raw c : Bytes)
      → lib.encode_all level raw ≡ ok c
      → length raw < 2 ^ 32
      → 2 ^ 23 ≤ limit
      → min (length raw * 4) (2 ^ 33) ≤ limit
      → lib.decode_all limit c ≡ ok raw
  pub block :
      (raw c : Bytes) (cap : ℕ)
      → lib.compress_block raw cap ≡ ok c
      → length c ≢ 0
      → lib.uncompress_block c (length raw) ≡ ok raw
  pub block_hc :
      (level : ℕ) (raw c : Bytes) (cap : ℕ)
      → lib.compress_block_hc level raw cap ≡ ok c
      → length c ≢ 0
      → lib.uncompress_block c (length raw) ≡ ok raw

-- The limit of memory is four times the size asked for, within the floor and the cap.
pub zstd_decode_memory_limit_exact :
    (n : ℕ) → n < 2 ^ 32 → zstd_decode_memory_limit n ≡ max (2 ^ 23) (min (n * 4) (2 ^ 33))
unfolding zstd_decode_memory_limit
zstd_decode_memory_limit_exact n h = ground arith

-- With fuel for the doublings that are left the loop ends by its test.
bucket_loop-ge :
    (fuel b limit : ℕ)
    → limit < 2 ^ 33
    → 2 ^ 33 ≤ b * 2 ^ fuel
    → b < 2 ^ 34
    → limit ≤ bucket_loop fuel b limit
unfolding bucket_loop
bucket_loop-ge zero b limit h k s = omega (arith, pow-zero 2)
bucket_loop-ge (suc fuel) b limit h k s =
    let half = pow-suc 2 fuel in
    let doubled : 2 ^ 33 ≤ b * 2 * 2 ^ fuel = omega (arith, ap (λ (t : ℕ). b * t) half) in
    ground (arith, bucket_loop-ge fuel (b * 2) limit h doubled)

-- The bucket of `zstdDecoderLimitBucket` is at least the limit asked for, for every limit up to the
-- hard cap of 8 GiB.
pub zstd_decoder_limit_bucket-ge :
    (limit : ℕ) → limit ≤ 2 ^ 33 → limit ≤ zstd_decoder_limit_bucket limit
unfolding zstd_decoder_limit_bucket
zstd_decoder_limit_bucket-ge limit h = ground (arith, bucket_loop-ge 11 zstd_min_decode_limit limit)

pub zstd_decoder_limit_bucket-le : (limit : ℕ) → zstd_decoder_limit_bucket limit ≤ 2 ^ 33
unfolding zstd_decoder_limit_bucket
zstd_decoder_limit_bucket-le limit = ground arith

-- The limit that a decoder is made with for `n` bytes.
abbrev pub decoder_limit : ℕ → ℕ
decoder_limit n = zstd_decoder_limit_bucket (zstd_decode_memory_limit n)

-- It has the headroom of the content four times, up to the cap.
abbrev pub HasHeadroom : ℕ → ℕ → Type 0
HasHeadroom n limit = (2 ^ 23 ≤ limit) × (min (n * 4) (2 ^ 33) ≤ limit) × (limit ≤ 2 ^ 33)

decoder_limit-HasHeadroom : (n : ℕ) → n < 2 ^ 32 → HasHeadroom n (decoder_limit n)
decoder_limit-HasHeadroom n h =
    let memory = zstd_decode_memory_limit n in
    let exact = zstd_decode_memory_limit_exact n h in
    let enough = zstd_decoder_limit_bucket-ge memory (omega arith) in
    (omega arith, omega arith, zstd_decoder_limit_bucket-le memory)

module _ (lib : Compressors) (law : IsLossless lib) where
  zstd_back :
      (raw c : Bytes) (level : ℕ)
      → length raw < 2 ^ 32
      → zstd_compress lib raw level ≡ ok c
      → zstd_decompress lib c (length raw) ≡ ok raw
  unfolding zstd_compress zstd_decompress
  zstd_back raw c level small h =
      let (floor, room, cap) = decoder_limit-HasHeadroom (length raw) small in
      ground
        (arith, law.frame_nonempty level raw c, law.frame level (decoder_limit (length raw)) raw c)

  lz4_back :
      (raw c : Bytes) (level : ℕ)
      → lz4_compress lib raw level ≡ ok c
      → lz4_decompress lib c (length raw) ≡ ok raw
  unfolding lz4_compress lz4_decompress
  lz4_back raw c level h =
      let bound = lib.compress_block_bound (length raw) in
      ground (arith, law.block raw c bound, law.block_hc (map_lz4_level level) raw c bound)

  -- What `compressPayload` makes of at most 2^32 - 1 bytes, `decompressPayload` turns back into the
  -- same bytes when it is given their number, with compressors that are lossless; and the limit of
  -- memory and window that the decoder for them is made with is 8 MiB at least, 8 GiB at most, and
  -- four times their number where that is not more than 8 GiB.
  pub decompress_payload-compress_payload :
      (raw c : Bytes) (codec : Codec) (level : ℕ)
      → length raw < 2 ^ 32
      → compress_payload lib raw codec level ≡ ok c
      → (decompress_payload lib c codec (length raw) ≡ ok raw)
        × HasHeadroom (length raw) (decoder_limit (length raw))
  unfolding compress_payload decompress_payload
  decompress_payload-compress_payload raw c codec level small h = (
    ground (arith, zstd_back raw c level small, lz4_back raw c level),
    decoder_limit-HasHeadroom (length raw) small,
  )

  -- What a codec makes of some bytes is not empty.
  pub compress_payload_nonempty :
      (raw c : Bytes) (codec : Codec) (level : ℕ)
      → length raw ≢ 0
      → compress_payload lib raw codec level ≡ ok c
      → length c ≢ 0
  unfolding compress_payload zstd_compress lz4_compress
  compress_payload_nonempty raw c codec level some h =
      ground (arith, law.frame_nonempty level raw c)
