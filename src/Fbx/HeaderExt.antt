-- ===== src/Fbx/HeaderExt.antt =====
-- fbx/header_ext.go and the header fields of fbx/compaction_stats.go: what the container keeps in the
-- reserved bytes of the header, and the tests of the canonical layout.
pub mod Fields
use go_fbx.Base.{
  ℕ, ◌+◌, ◌^◌, Bool, true, false, not, ◌&&◌, ◌||◌, ◌++◌, [], ◌∷◌, ◌==◌, if◌then◌else◌,
}
use go_fbx.Base.{slice, take, drop, length, get_or, bit_and, bit_or, Bytes, put_uint, uint}
use go_fbx.Base.{Result, ok, err, ◌>>=◌, ◌>>◌, guard, invalid_format, unsupported_feature}
use go_fbx.Format.Header.{
  HeaderV1, flag_has_journal, flag_has_backup, flag_has_dir_index, flag_has_required_features,
}

abbrev pub layout_marker_offset : ℕ
layout_marker_offset = 0

abbrev pub layout_minor_offset : ℕ
layout_minor_offset = 1

abbrev pub dead_bytes_offset : ℕ
dead_bytes_offset = 8

abbrev pub churn_ops_offset : ℕ
churn_ops_offset = 16

abbrev pub generation_offset : ℕ
generation_offset = 24

abbrev pub dir_index_offset : ℕ
dir_index_offset = 32

abbrev pub dir_index_size : ℕ
dir_index_size = 40

abbrev pub dir_index_crc : ℕ
dir_index_crc = 48

abbrev pub required_features_low : ℕ
required_features_low = 52

abbrev pub layout_marker_v1_extension : ℕ
layout_marker_v1_extension = 2

abbrev pub layout_minor_v1_extension : ℕ
layout_minor_v1_extension = 0

-- `requiredFeaturesSupported`: the four features 1, 2, 4 and 8
abbrev pub required_features_supported : ℕ
required_features_supported = 15

-- `journalRecordSize` of fbx/journal.go: 4 + 8 + 128 + 4 + 4
abbrev pub journal_record_size : ℕ
journal_record_size = 148

pub record DirIndexPointer : Type 0 where
  pub offset : ℕ
  pub size : ℕ
  pub crc32 : ℕ

-- `copy` into the reserved bytes at an offset
unfoldable pub overwrite : ℕ → Bytes → Bytes → Bytes
overwrite off bs r = take off r ++ (bs ++ drop (off + length bs) r)

abbrev pub reserve : ℕ → Bytes → HeaderV1 → HeaderV1
reserve off bs h = record h { reserved = overwrite off bs h.reserved }

abbrev pub reserved_uint : ℕ → ℕ → HeaderV1 → ℕ
reserved_uint off n h = uint (slice off (off + n) h.reserved)

unfoldable pub header_has_fixed_backup_slot : HeaderV1 → Bool
header_has_fixed_backup_slot h =
    get_or h.reserved layout_marker_offset 0 == layout_marker_v1_extension

unfoldable pub read_header_generation : HeaderV1 → ℕ
read_header_generation h = reserved_uint generation_offset 8 h

unfoldable pub write_header_generation : HeaderV1 → ℕ → HeaderV1
write_header_generation h generation = reserve generation_offset (put_uint 8 generation) h

unfoldable pub read_header_dir_index_pointer : HeaderV1 → DirIndexPointer
read_header_dir_index_pointer h = record {
  offset = reserved_uint dir_index_offset 8 h;
  size = reserved_uint dir_index_size 8 h;
  crc32 = reserved_uint dir_index_crc 4 h;
}

unfoldable pub write_header_dir_index_pointer : HeaderV1 → DirIndexPointer → HeaderV1
write_header_dir_index_pointer h p =
    reserve dir_index_crc (put_uint 4 p.crc32) (
      reserve dir_index_size (put_uint 8 p.size) (reserve dir_index_offset (put_uint 8 p.offset) h))

unfoldable pub read_header_required_features_low : HeaderV1 → ℕ
read_header_required_features_low h = reserved_uint required_features_low 4 h

unfoldable pub write_header_required_features_low : HeaderV1 → ℕ → HeaderV1
write_header_required_features_low h bits = reserve required_features_low (put_uint 4 bits) h

unfoldable pub mark_header_v1_extension_layout : HeaderV1 → HeaderV1
mark_header_v1_extension_layout h =
    reserve layout_minor_offset (layout_minor_v1_extension ∷ [])
      (reserve layout_marker_offset (layout_marker_v1_extension ∷ []) h)

-- `readCompactionStatsFromHeader`: the dead bytes and the churn operations
unfoldable pub read_compaction_stats_from_header : HeaderV1 → ℕ × ℕ
read_compaction_stats_from_header h =
    (reserved_uint dead_bytes_offset 8 h, reserved_uint churn_ops_offset 8 h)

unfoldable pub write_compaction_stats_to_header : HeaderV1 → ℕ → ℕ → HeaderV1
write_compaction_stats_to_header h dead_bytes churn_ops =
    reserve churn_ops_offset (put_uint 8 churn_ops)
      (reserve dead_bytes_offset (put_uint 8 dead_bytes) h)

-- `validateHeaderRequiredFeatures`. `required &^ supported` is zero where the supported bits are
-- all that `required` has.
unfoldable pub validate_header_required_features : HeaderV1 → Result (Unit {0})
validate_header_required_features h =
    let required = read_header_required_features_low h in
    if bit_and h.flags flag_has_required_features == 0 then ok tt else do
      guard (bit_and required required_features_supported == required) unsupported_feature
      guard (not (not (bit_and required 1 == 0) && bit_and h.flags flag_has_journal == 0))
          invalid_format
      guard (not (not (bit_and required 2 == 0) && bit_and h.flags flag_has_backup == 0))
          invalid_format
      guard (not (not (bit_and required 4 == 0) && bit_and h.flags flag_has_dir_index == 0))
          invalid_format
      ok tt

-- `validateCanonicalHeaderLayout`; 15 is the union of the four flags.
unfoldable pub validate_canonical_header_layout : HeaderV1 → Result (Unit {0})
validate_canonical_header_layout h = do
  guard (bit_and h.flags 15 == 15) invalid_format
  guard (get_or h.reserved layout_marker_offset 0 == layout_marker_v1_extension) invalid_format
  guard (get_or h.reserved layout_minor_offset 0 == layout_minor_v1_extension) invalid_format
  guard (not (h.journal_offset == 0 || not (h.journal_size == journal_record_size))) invalid_format
  let ptr = read_header_dir_index_pointer h
  guard (not (ptr.offset == 0 || (ptr.size == 0 || ptr.crc32 == 0))) invalid_format
  let required = read_header_required_features_low h
  guard (bit_and required required_features_supported == required_features_supported) invalid_format
  validate_header_required_features h
