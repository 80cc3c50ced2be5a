-- ===== src/Fbx/Journal/Recovery.antt =====
-- The search finds the last valid record of the window, and every crash that leaves the records of a
-- commit at the end of the file leaves a header to recover.
use go_fbx.Base.{ℕ, zero, suc, ◌+◌, ◌-◌, ◌<◌, ◌≤◌, ◌≡◌, refl, false, ◌⊎◌, inl, inr, arith}
use go_fbx.Base.{
  ◌++◌, append_assoc, ltb, le→leb, if◌then◌else◌, length, length-append, slice, take, drop,
}
use go_fbx.Base.{take-append_front, take_all, drop-append_front, drop-append_within}
use go_fbx.Base.{Bytes, IsUint, equal_refl, Error, Result, ok, err, invalid_format}
use native.Mathlib.Decide.{dec_le}
use go_fbx.Format.Header.{HeaderV1, IsTyped, IsV1, header_bytes}
use go_fbx.Format.Header.RoundTrip.{unmarshal-header_bytes, length-header_bytes}
use go_fbx.Fbx.HeaderExt.{journal_record_size}
use go_fbx.Fbx.Region.{validate_header_directory}
use go_fbx.Fbx.Journal.{
  record_body, journal_magic, backup_magic, journal_search_bytes, record_at, scan_back,
  recover_header_by_magic, recover_best_header, better,
}
use go_fbx.Fbx.Journal.Records.{record_bytes, length-record_bytes, parse_header_record-record_bytes}

-- No position from `i + 1` to `n` holds a valid record.
abbrev pub NoneAfter : Bytes → Bytes → Bytes → ℕ → ℕ → Type 0
NoneAfter f magic buf i n =
    (j : ℕ) → i < j → j ≤ n → (e : Error) × (record_at f magic buf j ≡ err e)

-- The search answers the last position that holds a valid record, and fails only where none does.
abbrev pub ScanSpec : Bytes → Bytes → Bytes → ℕ → Result (HeaderV1 × ℕ) → Type 0
ScanSpec f magic buf n (ok r) =
    (i : ℕ) × (i ≤ n) × (record_at f magic buf i ≡ ok r) × NoneAfter f magic buf i n
ScanSpec f magic buf n (err e) =
    (e ≡ invalid_format) × ((j : ℕ) → j ≤ n → (e' : Error) × (record_at f magic buf j ≡ err e'))

-- What one round of the loop makes of the answer for the positions below.
round : Result (HeaderV1 × ℕ) → Result (HeaderV1 × ℕ) → Result (HeaderV1 × ℕ)
round (ok r) rest = ok r
round (err e) rest = rest

scan_back-zero :
    (f magic buf : Bytes)
    → scan_back f magic buf 0 ≡ round (record_at f magic buf 0) (err invalid_format)
unfolding scan_back round
scan_back-zero f magic buf = ground arith

scan_back-suc :
    (f magic buf : Bytes) (n : ℕ)
    → scan_back f magic buf (suc n)
      ≡ round (record_at f magic buf (suc n)) (scan_back f magic buf n)
unfolding scan_back round
scan_back-suc f magic buf n = ground arith

-- A valid record at the first position that is tried is the answer.
scan_back-hit :
    (f magic buf : Bytes) (n : ℕ) (r : HeaderV1 × ℕ)
    → record_at f magic buf n ≡ ok r
    → scan_back f magic buf n ≡ ok r
unfolding round
scan_back-hit f magic buf zero r q = rw (scan_back-zero, q)
scan_back-hit f magic buf (suc n) r q = rw (scan_back-suc, q)

module _ (f magic buf : Bytes) where
  last :
      (n j : ℕ) (r : Result (HeaderV1 × ℕ))
      → record_at f magic buf (suc n) ≡ r
      → n < j
      → j ≤ suc n
      → record_at f magic buf j ≡ r
  last n j r q lo hi = let same : j ≡ suc n = omega arith in rw same q

  after :
      (i n : ℕ) (e : Error)
      → record_at f magic buf (suc n) ≡ err e
      → NoneAfter f magic buf i n
      → NoneAfter f magic buf i (suc n)
  after i n e q nothing j lo hi = elim (dec_le j n) [
    | yes h ↦ nothing j lo h
    | no h ↦ (e, last n j (err e) q (omega arith) hi)
  ]

  first :
      (r : Result (HeaderV1 × ℕ))
      → record_at f magic buf 0 ≡ r
      → ScanSpec f magic buf 0 (round r (err invalid_format))
  unfolding round
  first (ok r) q = (0, omega arith, q, λ j lo hi. absurd (omega arith))
  first (err e) q = (refl, λ j hi. (e, let same : j ≡ 0 = omega arith in rw same q))

  more :
      (n : ℕ) (r : Result (HeaderV1 × ℕ))
      → record_at f magic buf (suc n) ≡ r
      → (rest : Result (HeaderV1 × ℕ)) → ScanSpec f magic buf n rest
      → ScanSpec f magic buf (suc n) (round r rest)
  unfolding round
  more n (ok r) q rest s = (suc n, omega arith, q, λ j lo hi. absurd (omega arith))
  more n (err e) q (ok r) (i, le, p, nothing) = (i, omega arith, p, after i n e q nothing)
  more n (err e) q (err x) (same, all) = (
    same,
    λ j hi. elim (dec_le j n) [ yes h ↦ all j h | no h ↦ (e, last n j (err e) q (omega arith) hi) ],
  )

-- The loop of `recoverHeaderByMagic`, from a position down to 0, answers the record at the last of
-- these positions that holds a valid one, and `ErrInvalidFormat` only where none holds one.
pub scan_back-ScanSpec :
    (f magic buf : Bytes) (n : ℕ) → ScanSpec f magic buf n (scan_back f magic buf n)
scan_back-ScanSpec f magic buf zero =
    rw scan_back-zero (first f magic buf (record_at f magic buf 0) refl)
scan_back-ScanSpec f magic buf (suc n) = rw scan_back-suc (
    more f magic buf n (record_at f magic buf (suc n)) refl (scan_back f magic buf n)
      (scan_back-ScanSpec f magic buf n))

record_mark :
    (magic hb : Bytes) (ts : ℕ) → length magic ≡ 4 → take 4 (record_bytes magic hb ts) ≡ magic
unfolding record_body
record_mark magic hb ts hm = rw (append_assoc magic) (take-append_front 4 magic _ hm)

-- A record of a header, at the end of the file.
module _ (front magic : Bytes) (h : HeaderV1) (ts : ℕ) (typed : IsTyped h) (v1 : IsV1 h)
    (hm : length magic ≡ 4) (ht : IsUint 8 ts) where
  abbrev file : Bytes
  file = front ++ record_bytes magic (header_bytes h) ts

  slice_end :
      (pad : Bytes) (i k : ℕ)
      → length pad ≡ i
      → slice i (i + k) (pad ++ record_bytes magic (header_bytes h) ts)
        ≡ take k (record_bytes magic (header_bytes h) ts)
  slice_end pad i k hi =
      let same : i + k - i ≡ k = omega arith in
      rw (drop-append_front i pad (record_bytes magic (header_bytes h) ts) hi, same)

  -- The search window ends with the record.
  record_at-end :
      (pad : Bytes) (i : ℕ)
      → length pad ≡ i
      → validate_header_directory file h ≡ ok tt
      → record_at file magic (pad ++ record_bytes magic (header_bytes h) ts) i ≡ ok (h, ts)
  unfolding record_at
  record_at-end pad i hi dir =
      let hb = header_bytes h in
      let hl = length-header_bytes h typed in
      rw (
        slice_end pad i 4 hi,
        slice_end pad i 148 hi,
        take_all 148 (record_bytes magic hb ts) (length-record_bytes magic hb ts hm hl),
        record_mark magic hb ts hm,
        equal_refl magic,
        parse_header_record-record_bytes magic magic hb ts hm hl ht,
        equal_refl magic,
        unmarshal-header_bytes h typed v1,
        dir,
      )

  -- With a record of a valid header at the end of the file, whose directory is valid in that file,
  -- `recoverHeaderByMagic` returns that header and its time, whatever stands in front of the
  -- record.
  pub recover_header_by_magic-end :
      validate_header_directory file h ≡ ok tt → recover_header_by_magic file magic ≡ ok (h, ts)
  unfolding recover_header_by_magic
  recover_header_by_magic-end dir =
      let rec = record_bytes magic (header_bytes h) ts in
      let total : length file ≡ length front + 148 = rw length-append (
        omega (
          arith,
          length-record_bytes magic (header_bytes h) ts hm (length-header_bytes h typed),
        )) in
      let window =
        if ltb (length file) journal_search_bytes then length file else journal_search_bytes in
      let k = length file - window in
      let inside : k ≤ length front = ground arith in
      let pad = drop k front in
      let cut : length (pad ++ rec) - 148 ≡ length pad = rw length-append (
        omega (
          arith,
          length-record_bytes magic (header_bytes h) ts hm (length-header_bytes h typed),
        )) in
      let long : ltb (length file) journal_record_size ≡ false = ground arith in
      rw (long, drop-append_within k front rec inside, cut)
        (scan_back-hit file magic (pad ++ rec) (length pad) (h, ts)
          (record_at-end pad (length pad) refl dir))

-- With a backup record of a valid header at the end of the file, whose directory is valid in that
-- file, `recoverBestHeader` succeeds: it returns that header, or the header of a journal record
-- that `recoverHeaderByMagic` finds with a later time.
pub recover_best_header-end :
    (front : Bytes) (h : HeaderV1) (ts : ℕ)
    → IsTyped h
    → IsV1 h
    → IsUint 8 ts
    → validate_header_directory (front ++ record_bytes backup_magic (header_bytes h) ts) h ≡ ok tt
    → (r : HeaderV1) × (recover_best_header (front ++ record_bytes backup_magic (header_bytes h) ts)
        ≡ ok r)
      × ((r ≡ h)
          ⊎ ((tj : ℕ) × (recover_header_by_magic
                  (front ++ record_bytes backup_magic (header_bytes h) ts)
                  journal_magic
                ≡ ok (r, tj))
              × (ts < tj)))
unfolding recover_best_header
recover_best_header-end front h ts typed v1 ht dir =
    let f = front ++ record_bytes backup_magic (header_bytes h) ts in
    choose f (recover_header_by_magic f journal_magic) refl
      (recover_header_by_magic-end front backup_magic h ts typed v1 refl ht dir)
  where
    choose :
        (f : Bytes) (j : Result (HeaderV1 × ℕ))
        → recover_header_by_magic f journal_magic ≡ j
        → recover_header_by_magic f backup_magic ≡ ok (h, ts)
        → (r : HeaderV1) × (better
              (recover_header_by_magic f journal_magic)
              (recover_header_by_magic f backup_magic)
            ≡ ok r)
          × ((r ≡ h)
              ⊎ ((tj : ℕ) × (recover_header_by_magic f journal_magic ≡ ok (r, tj)) × (ts < tj)))
    choose f (err e) q b = (h, rw (q, b), inl refl)
    choose f (ok (hj, tj)) q b = elim (dec_le tj ts) [
      | yes le ↦ (h, rw (q, b, le→leb tj ts le), inl refl)
      | no gt ↦ (hj, rw (q, b) (ground arith), inr (tj, q, omega arith))
    ]
