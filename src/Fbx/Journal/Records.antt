-- ===== src/Fbx/Journal/Records.antt =====
-- A record gives back the header and the time that were put in, under its own mark only.
use go_fbx.Base.{ℕ, ◌≡◌, arith}
use go_fbx.Base.{◌++◌, append_assoc, ==_refl, length, length-append, slice, take}
use go_fbx.Base.{take-append_front, drop-append_front, drop-append_back}
use go_fbx.Base.{Bytes, IsUint, put_uint, uint-put_uint, length-put_uint, equal}
use go_fbx.Base.{checksum, checksum-IsUint, ok, err, invalid_format, if◌then◌else◌}
use go_fbx.Format.Header.{header_size}
use go_fbx.Fbx.HeaderExt.{journal_record_size}
use go_fbx.Fbx.Journal.{record_body, build_header_record, parse_header_record}

-- The record in full.
abbrev pub record_bytes : Bytes → Bytes → ℕ → Bytes
record_bytes magic hb ts =
    record_body magic hb ts ++ put_uint 4 (checksum (record_body magic hb ts))

pub length-record_body :
    (magic hb : Bytes) (ts : ℕ)
    → length magic ≡ 4
    → length hb ≡ header_size
    → length (record_body magic hb ts) ≡ 144
unfolding record_body
length-record_body magic hb ts hm hh = simp (length-append, length-put_uint) (omega arith)

pub length-record_bytes :
    (magic hb : Bytes) (ts : ℕ)
    → length magic ≡ 4
    → length hb ≡ header_size
    → length (record_bytes magic hb ts) ≡ journal_record_size
length-record_bytes magic hb ts hm hh = rw length-append (
    omega (
      arith,
      length-record_body magic hb ts hm hh,
      length-put_uint 4 (checksum (record_body magic hb ts)),
    ))

pub build_header_record_ok :
    (magic hb : Bytes) (ts : ℕ)
    → length magic ≡ 4
    → length hb ≡ header_size
    → build_header_record magic hb ts ≡ ok (record_bytes magic hb ts)
unfolding build_header_record
build_header_record_ok magic hb ts hm hh =
    let body = record_body magic hb ts in
    let total : length (body ++ put_uint 4 0) ≡ 148 =
      rw length-append (omega (arith, length-record_body magic hb ts hm hh, length-put_uint 4 0)) in
    rw (hh, total, take-append_front 144 body (put_uint 4 0) (length-record_body magic hb ts hm hh))

-- The places of the parts.
module _ (magic hb : Bytes) (ts : ℕ) (rest : Bytes) (hm : length magic ≡ 4)
    (hh : length hb ≡ header_size) where
  abbrev tail : Bytes
  tail = put_uint 4 (checksum hb)

  split : record_body magic hb ts ++ rest ≡ magic ++ (put_uint 8 ts ++ (hb ++ (tail ++ rest)))
  unfolding record_body
  split = rw (append_assoc magic, append_assoc (put_uint 8 ts), append_assoc hb)

  mark_part : take 4 (record_body magic hb ts ++ rest) ≡ magic
  mark_part = rw split (take-append_front 4 magic _ hm)

  time_part : slice 4 12 (record_body magic hb ts ++ rest) ≡ put_uint 8 ts
  time_part =
      rw (split, drop-append_front 4 magic _ hm)
        (take-append_front 8 (put_uint 8 ts) _ (length-put_uint 8 ts))

  header_part : slice 12 140 (record_body magic hb ts ++ rest) ≡ hb
  header_part =
      rw
        (
          split,
          drop-append_back 12 magic (put_uint 8 ts ++ (hb ++ (tail ++ rest))) (omega arith),
          hm,
          drop-append_front 8 (put_uint 8 ts) (hb ++ (tail ++ rest)) (length-put_uint 8 ts),
        )
        (take-append_front 128 hb _ hh)

  crc_part : slice 140 144 (record_body magic hb ts ++ rest) ≡ tail
  crc_part =
      rw
        (
          split,
          drop-append_back 140 magic (put_uint 8 ts ++ (hb ++ (tail ++ rest))) (omega arith),
          hm,
          drop-append_back 136 (put_uint 8 ts) (hb ++ (tail ++ rest))
              (omega (arith, length-put_uint 8 ts)),
          length-put_uint 8 ts,
          drop-append_front 128 hb (tail ++ rest) hh,
        )
        (take-append_front 4 tail rest (length-put_uint 4 (checksum hb)))

-- With a mark of 4 bytes, a header of 128 and a time that is a uint64, `parseHeaderRecord` gives
-- back the header and the time of a record under the mark it was made with, and `ErrInvalidFormat`
-- under another mark.
pub parse_header_record-record_bytes :
    (magic mark hb : Bytes) (ts : ℕ)
    → length magic ≡ 4
    → length hb ≡ header_size
    → IsUint 8 ts
    → parse_header_record mark (record_bytes magic hb ts)
      ≡ (if equal magic mark then ok (hb, ts) else err invalid_format)
unfolding parse_header_record
parse_header_record-record_bytes magic mark hb ts hm hh ht =
    let body = record_body magic hb ts in
    let crc = put_uint 4 (checksum body) in
    let lb = length-record_body magic hb ts hm hh in
    rw
      (
        length-record_bytes magic hb ts hm hh,
        mark_part magic hb ts crc hm hh,
        drop-append_front 144 body crc lb,
        take-append_front 144 body crc lb,
        time_part magic hb ts crc hm hh,
        header_part magic hb ts crc hm hh,
        crc_part magic hb ts crc hm hh,
        uint-put_uint 4 (checksum body) (checksum-IsUint body),
        uint-put_uint 4 (checksum hb) (checksum-IsUint hb),
        uint-put_uint 8 ts ht,
        ==_refl (checksum body),
        ==_refl (checksum hb),
      )
      (ground arith)
