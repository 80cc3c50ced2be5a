-- ===== src/Fbx/Seal/Canonical.antt =====
-- The header of a commit: its fields, and that it passes the tests of the canonical layout.
use go_fbx.Base.{
  ℕ, ◌+◌, ◌%◌, ◌≡◌, refl, sym, ◌∙◌, ◌||◌, ◌==◌, if◌then◌else◌, ltb, Bytes, IsUint, uint, slice,
  get_or, [], ◌∷◌, arith, all_flags, bit_and, bit_and-flag, bit_and-fifteen,
}
use go_fbx.Base.{ok, err, invalid_format}
use go_fbx.Format.Header.{HeaderV1}
use go_fbx.Format.Checked.{max_uint64, saturating_add_uint64}
use go_fbx.Fbx.HeaderExt.{
  reserved_uint, read_header_generation, write_header_generation, read_header_dir_index_pointer,
  write_header_dir_index_pointer, read_header_required_features_low,
  write_header_required_features_low, mark_header_v1_extension_layout,
  read_compaction_stats_from_header, write_compaction_stats_to_header,
  validate_canonical_header_layout, validate_header_required_features,
}
use go_fbx.Fbx.HeaderExt.Fields.{Reserved, reserved_uint-reserve_self}
use go_fbx.Fbx.Seal.{Pieces, place, set_flags, next_generation, commit_header}
use go_fbx.Fbx.Seal.Reads.{
  with_features, features_read, crc_read, size_read, offset_read, generation_read, stats_read,
  marks_read, reserve_uint, keeps, before, after,
}

-- Go's types of the places.
pub record IsPieces (p : Pieces) : Type 0 where
  pub index_offset_u64 : IsUint 8 p.index.offset
  pub index_size_u64 : IsUint 8 p.index.size
  pub index_crc_u32 : IsUint 4 p.index.crc32

-- `place` on the reserved bytes is the row of writes.
pub place_reserved :
    (h : HeaderV1) (g : ℕ) (p : Pieces) (r : Reserved h)
    → (place h g p).reserved ≡ (with_features h r g p).reserved
unfolding place write_header_generation write_header_dir_index_pointer
    write_header_required_features_low mark_header_v1_extension_layout
place_reserved h g p r = refl

place_plain :
    (h : HeaderV1) (g : ℕ) (p : Pieces)
    → ((place h g p).flags ≡ set_flags h.flags)
      × ((place h g p).journal_offset ≡ p.journal_offset)
      × ((place h g p).journal_size ≡ 148)
unfolding place write_header_generation write_header_dir_index_pointer
    write_header_required_features_low mark_header_v1_extension_layout
place_plain h g p = (refl, refl, refl)

pub first_two :
    (r : Bytes) → (uint (slice 0 1 r) ≡ get_or r 0 0) × (uint (slice 1 2 r) ≡ get_or r 1 0)
unfolding uint
first_two [] = (refl, refl)
first_two (x ∷ []) = (omega arith, refl)
first_two (x ∷ y ∷ r) = (omega arith, omega arith)

-- Each of the four flags is found.
flags_found :
    (f : ℕ)
    → (bit_and (set_flags f) 1 ≡ 1)
      × (bit_and (set_flags f) 2 ≡ 2)
      × (bit_and (set_flags f) 4 ≡ 4)
      × (bit_and (set_flags f) 8 ≡ 8)
flags_found f =
    let w = set_flags f in
    let low : w % 16 ≡ 15 = sym (bit_and-fifteen w) ∙ all_flags f in
    let each = bit_and-flag w in (omega arith, omega arith, omega arith, omega arith)

-- With an index whose offset, size and checksum fit their fields, the header that Commit builds
-- passes `validateCanonicalHeaderLayout` exactly when the journal offset and the offset, the size
-- and the checksum of the index are not 0; otherwise it is refused with `ErrInvalidFormat`.
pub validate_canonical_header_layout-place :
    (h : HeaderV1) (g : ℕ) (p : Pieces)
    → Reserved h
    → IsPieces p
    → validate_canonical_header_layout (place h g p) ≡ (
        if p.journal_offset == 0
          || (p.index.offset == 0 || (p.index.size == 0 || p.index.crc32 == 0))
        then err invalid_format
        else ok tt)
unfolding validate_canonical_header_layout validate_header_required_features
    read_header_required_features_low read_header_dir_index_pointer
validate_canonical_header_layout-place h g p r u =
    let w = (with_features h r g p).reserved in
    let minor : get_or w 1 0 ≡ 0 = sym (first_two w).1 ∙ (marks_read h r g p).1 in
    let marker : get_or w 0 0 ≡ 2 = sym (first_two w).0 ∙ (marks_read h r g p).0 in
    let fl = place_plain h g p in
    rw
      (
        place_reserved h g p r,
        fl.0,
        fl.1,
        fl.2,
        all_flags h.flags,
        marker,
        minor,
        features_read h r g p,
        offset_read h r g p u.index_offset_u64,
        size_read h r g p u.index_size_u64,
        crc_read h r g p u.index_crc_u32,
      )
      (ground (arith, flags_found h.flags))

saturating_add_uint64-IsUint : (a b : ℕ) → IsUint 8 (saturating_add_uint64 a b)
unfolding saturating_add_uint64
saturating_add_uint64-IsUint a b = ground arith

-- The two writes of `add_stats`, on any values.
module _ (h : HeaderV1) (r : Reserved h) (dead churn : ℕ) (du : IsUint 8 dead)
    (cu : IsUint 8 churn) where
  abbrev counted : HeaderV1
  counted = reserve_uint 16 8 churn (reserve_uint 8 8 dead h)

  half-Reserved : Reserved (reserve_uint 8 8 dead h)
  half-Reserved = keeps h r 8 8 dead (omega arith)

  pub counted-Reserved : Reserved counted
  counted-Reserved = keeps (reserve_uint 8 8 dead h) half-Reserved 16 8 churn (omega arith)

  dead_read : reserved_uint 8 8 counted ≡ dead
  dead_read =
      before (reserve_uint 8 8 dead h) half-Reserved 8 8 16 8 churn (omega arith) (omega arith)
      ∙ reserved_uint-reserve_self h r 8 8 dead (omega arith) du

  churn_read : reserved_uint 16 8 counted ≡ churn
  churn_read =
      reserved_uint-reserve_self (reserve_uint 8 8 dead h) half-Reserved 16 8 churn (omega arith) cu

  generation_kept : reserved_uint 24 8 counted ≡ reserved_uint 24 8 h
  generation_kept =
      after (reserve_uint 8 8 dead h) half-Reserved 24 8 16 8 churn (omega arith) (omega arith)
      ∙ after h r 24 8 8 8 dead (omega arith) (omega arith)

next_generation-IsUint :
    (h : HeaderV1) → IsUint 8 (reserved_uint 24 8 h) → IsUint 8 (next_generation h)
unfolding next_generation read_header_generation
next_generation-IsUint h u = ground arith

-- With an index whose offset, size and checksum fit their fields, a reader of the header that
-- Commit builds finds the compaction counters with those of the transaction added by saturation,
-- the generation one higher unless it is the largest uint64, and the pointer to the new index.
pub commit_header_reads :
    (h : HeaderV1) (dead churn : ℕ) (p : Pieces)
    → Reserved h
    → IsUint 8 (read_header_generation h)
    → IsPieces p
    → (read_compaction_stats_from_header (commit_header h dead churn p) ≡ (
      saturating_add_uint64 (read_compaction_stats_from_header h).0 dead,
      saturating_add_uint64 (read_compaction_stats_from_header h).1 churn,
    ))
      × (read_header_generation (commit_header h dead churn p) ≡ (
          if ltb (read_header_generation h) max_uint64
          then read_header_generation h + 1
          else read_header_generation h))
      × (read_header_dir_index_pointer (commit_header h dead churn p) ≡ p.index)
unfolding commit_header read_compaction_stats_from_header write_compaction_stats_to_header
    read_header_generation next_generation read_header_dir_index_pointer
commit_header_reads h dead churn p r gu u =
    let d = saturating_add_uint64 (reserved_uint 8 8 h) dead in
    let c = saturating_add_uint64 (reserved_uint 16 8 h) churn in
    let du = saturating_add_uint64-IsUint (reserved_uint 8 8 h) dead in
    let cu = saturating_add_uint64-IsUint (reserved_uint 16 8 h) churn in
    let h1 = reserve_uint 16 8 c (reserve_uint 8 8 d h) in
    let r1 = counted-Reserved h r d c du cu in
    let g = next_generation h1 in
    let kept = generation_kept h r d c du cu in
    let next_u64 : IsUint 8 g = next_generation-IsUint h1 (rw kept gu) in
    rw
      (
        place_reserved h1 g p r1,
        stats_read h1 r1 g p 8 (omega arith) (omega arith),
        stats_read h1 r1 g p 16 (omega arith) (omega arith),
        dead_read h r d c du cu,
        churn_read h r d c du cu,
        offset_read h1 r1 g p u.index_offset_u64,
        size_read h1 r1 g p u.index_size_u64,
        crc_read h1 r1 g p u.index_crc_u32,
        generation_read h1 r1 g p next_u64,
        kept,
      )
      (refl, refl, refl)
