-- ===== src/Format/Chunk/RoundTrip.antt =====
-- A chunk that was written anywhere in the file is read back.
use go_fbx.Base.{
  ℕ, ◌+◌, ◌-◌, ◌^◌, ◌%◌, ◌<◌, ◌≤◌, ◌≡◌, ◌≢◌, refl, sym, Bool, not, arith, ◌∷◌, ◌++◌, append_assoc,
  ◌==◌, length, length-append, length-put_uint,
}
use go_fbx.Base.{Bytes, put_uint, uint, equal, checksum, checksum-IsUint}
use go_fbx.Base.{ok, ap, ok-injective, ok-then, guard-then, invalid_chunk}
use go_fbx.File.{read_at, read_at-middle}
use go_fbx.Format.Types.{Codec}
use go_fbx.Format.Header.{magic_chunk}
use go_fbx.Format.Codec.{Compressors, compress_payload, decompress_payload}
use go_fbx.Format.Codec.RoundTrip.{
  IsLossless, compress_payload_nonempty, decompress_payload-compress_payload,
}
use go_fbx.Format.Chunk.{
  chunk_bytes, read_chunk_header_at, encode_chunk_record, read_chunk_record_at_opt_limited,
}

-- The header of a record, in front of its payload.
abbrev head_bytes : Codec → ℕ → ℕ → ℕ → ℕ → Bytes
head_bytes codec level raw_size comp_size crc =
    magic_chunk
    ++ (codec % 256
        ∷ level % 256
        ∷ (put_uint 4 raw_size ++ (put_uint 4 comp_size ++ put_uint 4 crc)))

chunk_bytes-parts :
    (codec level raw_size crc : ℕ) (comp : Bytes)
    → chunk_bytes codec level raw_size crc comp
      ≡ head_bytes codec level raw_size (length comp) crc ++ comp
unfolding chunk_bytes
chunk_bytes-parts codec level raw_size crc comp =
    rw (append_assoc (put_uint 4 raw_size), append_assoc (put_uint 4 (length comp)))

pub length-chunk_bytes :
    (codec level raw_size crc : ℕ) (comp : Bytes)
    → length (chunk_bytes codec level raw_size crc comp) ≡ length comp + 16
unfolding chunk_bytes
length-chunk_bytes codec level raw_size crc comp =
    simp (length-append, length-put_uint) (omega arith)

length-head_bytes :
    (codec level raw_size comp_size crc : ℕ)
    → length (head_bytes codec level raw_size comp_size crc) ≡ 16
length-head_bytes codec level raw_size comp_size crc = simp (length-append, length-put_uint)

read_chunk_header_at-head_bytes :
    (codec level raw_size comp_size crc : ℕ) (front back : Bytes)
    → codec < 256
    → level < 256
    → raw_size < 2 ^ 32
    → comp_size < 2 ^ 32
    → crc < 2 ^ 32
    → length front < 2 ^ 63
    → read_chunk_header_at
        (front ++ (head_bytes codec level raw_size comp_size crc ++ back))
        (length front)
      ≡ ok (record {
        codec = codec;
        level = level;
        raw_size = raw_size;
        comp_size = comp_size;
        crc32_raw = crc;
      })
unfolding read_chunk_header_at
read_chunk_header_at-head_bytes codec level raw_size comp_size crc front back hc hl hr hp hk small =
    rw
      (read_at-middle front (head_bytes codec level raw_size comp_size crc) back (length front) 16
        refl (sym (length-head_bytes codec level raw_size comp_size crc)) (omega arith) small)
      (unfold put_uint uint equal in ground arith)

read_payload :
    (front head comp back : Bytes)
    → length head ≡ 16
    → length comp ≢ 0
    → length front + 16 < 2 ^ 63
    → read_at (front ++ (head ++ (comp ++ back))) (length front + 16) (length comp) ≡ ok comp
read_payload front head comp back hh some small = rw (← append_assoc front head (comp ++ back)) (
    read_at-middle (front ++ head) comp back (length front + 16) (length comp)
      (rw length-append (omega arith)) refl (omega arith) small)

module _ (lib : Compressors) (law : IsLossless lib) where
  read_back :
      (raw comp front back : Bytes) (codec : Codec) (level max_raw max_comp : ℕ) (verify : Bool)
      → codec < 256
      → level < 256
      → length raw < 2 ^ 32
      → length comp < 2 ^ 32
      → length front + 16 < 2 ^ 63
      → length raw ≢ 0
      → length comp ≢ 0
      → decompress_payload lib comp codec (length raw) ≡ ok raw
      → (max_raw ≢ 0 → length raw ≤ max_raw)
      → (max_comp ≢ 0 → length comp ≤ max_comp)
      → read_chunk_record_at_opt_limited lib
          (front ++ (chunk_bytes codec level (length raw) (checksum raw) comp ++ back))
          (length front)
          verify
          max_raw
          max_comp
        ≡ ok (record {
          codec = codec;
          level = level;
          raw_size = length raw;
          comp_size = length comp;
          crc32_raw = checksum raw;
          payload = raw;
        })
  unfolding read_chunk_record_at_opt_limited
  read_back raw comp front back codec level max_raw max_comp verify hc hl hr hp small some_raw
        some_comp d lr lc =
      let crc = checksum raw in
      let head = head_bytes codec level (length raw) (length comp) crc in
      rw
        (
          chunk_bytes-parts codec level (length raw) crc comp,
          append_assoc head comp back,
          read_chunk_header_at-head_bytes codec level (length raw) (length comp) crc front
              (comp ++ back) hc hl hr hp (checksum-IsUint raw) (omega arith),
          read_payload front head comp back
              (length-head_bytes codec level (length raw) (length comp) crc) some_comp small,
          d,
        )
        (ground (arith, lr, lc))

  -- The record that `EncodeChunkRecord` makes, at any place of a file, is read back by
  -- `ReadChunkRecordAtOptLimited`: the codec, the level, the sizes, the checksum and the raw bytes,
  -- with the checksum verified or not, under limits that the sizes keep. The compressors are
  -- lossless, the offset is an int64, and the codec, the level and the sizes fit their fields.
  pub read_chunk_record-encode_chunk_record :
      (raw rec front back : Bytes) (codec : Codec) (level crc max_raw max_comp : ℕ) (verify : Bool)
      → codec < 256
      → level < 256
      → length raw < 2 ^ 32
      → length rec < 2 ^ 32
      → length front + 16 < 2 ^ 63
      → encode_chunk_record lib raw codec level ≡ ok (rec, crc)
      → (max_raw ≢ 0 → length raw ≤ max_raw)
      → (max_comp ≢ 0 → length rec ≤ max_comp + 16)
      → read_chunk_record_at_opt_limited lib
          (front ++ (rec ++ back))
          (length front)
          verify
          max_raw
          max_comp
        ≡ ok (record {
          codec = codec;
          level = level;
          raw_size = length raw;
          comp_size = length rec - 16;
          crc32_raw = crc;
          payload = raw;
        })
  unfolding encode_chunk_record
  read_chunk_record-encode_chunk_record raw rec front back codec level crc max_raw max_comp verify
        hc hl hr hp small e limit_raw limit_comp =
      guard-then (not (length raw == 0)) invalid_chunk _ e λ nonempty e1.
        ok-then (compress_payload lib raw codec level) _ e1 λ comp done e2.
          let some_raw : length raw ≢ 0 = ground arith in
          let rec_is : chunk_bytes codec level (length raw) (checksum raw) comp ≡ rec =
            ap (λ p. p.0) (ok-injective e2) in
          let crc_is : checksum raw ≡ crc = ap (λ p. p.1) (ok-injective e2) in
          let size : length rec ≡ length comp + 16 =
            rw (← rec_is) (length-chunk_bytes codec level (length raw) (checksum raw) comp) in
          let comp_size : length rec - 16 ≡ length comp = omega arith in
          rw (comp_size, ← rec_is, ← crc_is)
            (read_back raw comp front back codec level max_raw max_comp verify hc hl hr
              (omega arith) small some_raw
              (compress_payload_nonempty lib law raw comp codec level some_raw done)
              (decompress_payload-compress_payload lib law raw comp codec level hr done).0 limit_raw
              (λ k. omega (arith, limit_comp k)))
