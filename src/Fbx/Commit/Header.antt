-- ===== src/Fbx/Commit/Header.antt =====
-- The fields of the header that `Tx.Commit` of fbx/tx.go builds.
use go_fbx.Base.{ℕ, ◌≡◌, refl, sym, ◌∙◌, true, get_or, IsUint, arith, bit_or, bit_or-flag}
use go_fbx.Format.Header.{HeaderV1, IsTyped, IsV1}
use go_fbx.Format.Checked.{saturating_add_uint64}
use go_fbx.Fbx.HeaderExt.{
  reserved_uint, write_header_generation, write_header_dir_index_pointer,
  write_header_required_features_low, mark_header_v1_extension_layout,
  read_compaction_stats_from_header, write_compaction_stats_to_header, header_has_fixed_backup_slot,
}
use go_fbx.Fbx.HeaderExt.Fields.{Reserved}
use go_fbx.Fbx.Seal.{Pieces, place, set_flags, next_generation, add_stats, commit_header}
use go_fbx.Fbx.Seal.Reads.{with_features, features-Reserved, marks_read, reserve_uint, keeps}
use go_fbx.Fbx.Seal.Canonical.{place_reserved, first_two}

-- Go's types of the places that are fields of the header.
pub record IsPlaces (p : Pieces) : Type 0 where
  pub dir_offset_u64 : IsUint 8 p.dir_offset
  pub dir_size_u64 : IsUint 8 p.dir_size
  pub dir_crc_u32 : IsUint 4 p.dir_crc
  pub journal_offset_u64 : IsUint 8 p.journal_offset

-- A header that a reader of the format accepts and that has the mark of the slot.
pub record IsSealed (h : HeaderV1) (p : Pieces) : Type 0 where
  pub typed : IsTyped h
  pub v1 : IsV1 h
  pub slot : header_has_fixed_backup_slot h ≡ true
  pub dir_offset_is : h.dir_offset ≡ p.dir_offset
  pub dir_size_is : h.dir_size ≡ p.dir_size
  pub dir_crc_is : h.dir_crc32 ≡ p.dir_crc

set_flags-IsUint : (f : ℕ) → IsUint 4 f → IsUint 4 (set_flags f)
set_flags-IsUint f u =
    let a = bit_or f 1 in
    let b = bit_or a 2 in
    let c = bit_or b 4 in
    omega (arith, (bit_or-flag f).0, (bit_or-flag a).1, (bit_or-flag b).2, (bit_or-flag c).3)

place-IsTyped : (h : HeaderV1) (g : ℕ) (p : Pieces) → IsTyped h → IsPlaces p → IsTyped (place h g p)
unfolding place write_header_generation write_header_dir_index_pointer
    write_header_required_features_low mark_header_v1_extension_layout
place-IsTyped h g p t u = record {
  magic_length = t.magic_length;
  version_u16 = t.version_u16;
  header_size_u16 = t.header_size_u16;
  flags_u32 = set_flags-IsUint h.flags t.flags_u32;
  uuid_length = t.uuid_length;
  created_u64 = t.created_u64;
  dir_offset_u64 = u.dir_offset_u64;
  dir_size_u64 = u.dir_size_u64;
  dir_crc32_u32 = u.dir_crc_u32;
  journal_offset_u64 = u.journal_offset_u64;
  journal_size_u64 = omega arith;
  reserved_length = features-Reserved h t.reserved_length g p;
}

place-slot :
    (h : HeaderV1) (g : ℕ) (p : Pieces)
    → Reserved h
    → header_has_fixed_backup_slot (place h g p) ≡ true
unfolding header_has_fixed_backup_slot
place-slot h g p r =
    let w = (with_features h r g p).reserved in
    let marker : get_or w 0 0 ≡ 2 = sym (first_two w).0 ∙ (marks_read h r g p).0 in
    rw (place_reserved h g p r, marker) refl

place-IsSealed :
    (h : HeaderV1) (g : ℕ) (p : Pieces) → IsTyped h → IsV1 h → IsPlaces p → IsSealed (place h g p) p
unfolding place write_header_generation write_header_dir_index_pointer
    write_header_required_features_low mark_header_v1_extension_layout
place-IsSealed h g p t v u = record {
  typed = place-IsTyped h g p t u;
  v1 = record {
    magic_ok = v.magic_ok;
    version_ok = v.version_ok;
    header_size_ok = v.header_size_ok;
  };
  slot = place-slot h g p t.reserved_length;
  dir_offset_is = refl;
  dir_size_is = refl;
  dir_crc_is = refl;
}

add_stats-IsTyped :
    (h : HeaderV1) (dead churn : ℕ)
    → IsTyped h
    → IsV1 h
    → IsTyped (add_stats h dead churn) × IsV1 (add_stats h dead churn)
unfolding add_stats write_compaction_stats_to_header read_compaction_stats_from_header
add_stats-IsTyped h dead churn t v =
    let d = saturating_add_uint64 (reserved_uint 8 8 h) dead in
    let c = saturating_add_uint64 (reserved_uint 16 8 h) churn in
    let r = keeps h t.reserved_length 8 8 d (omega arith) in
    (
      record {
        magic_length = t.magic_length;
        version_u16 = t.version_u16;
        header_size_u16 = t.header_size_u16;
        flags_u32 = t.flags_u32;
        uuid_length = t.uuid_length;
        created_u64 = t.created_u64;
        dir_offset_u64 = t.dir_offset_u64;
        dir_size_u64 = t.dir_size_u64;
        dir_crc32_u32 = t.dir_crc32_u32;
        journal_offset_u64 = t.journal_offset_u64;
        journal_size_u64 = t.journal_size_u64;
        reserved_length = keeps (reserve_uint 8 8 d h) r 16 8 c (omega arith);
      },
      record {
        magic_ok = v.magic_ok;
        version_ok = v.version_ok;
        header_size_ok = v.header_size_ok;
      },
    )

pub commit_header-IsSealed :
    (h : HeaderV1) (dead churn : ℕ) (p : Pieces)
    → IsTyped h
    → IsV1 h
    → IsPlaces p
    → IsSealed (commit_header h dead churn p) p
unfolding commit_header
commit_header-IsSealed h dead churn p t v u =
    let (t1, v1) = add_stats-IsTyped h dead churn t v in
    let h1 = add_stats h dead churn in place-IsSealed h1 (next_generation h1) p t1 v1 u

pub commit_header-dir_size :
    (h : HeaderV1) (dead churn : ℕ) (p : Pieces)
    → (commit_header h dead churn p).dir_size ≡ p.dir_size
unfolding commit_header place write_header_generation write_header_dir_index_pointer
    write_header_required_features_low mark_header_v1_extension_layout
commit_header-dir_size h dead churn p = refl
