-- ===== src/Fbx/Seal.antt =====
-- The header that `Tx.Commit` of fbx/tx.go builds, after the directory and its index are appended.
pub mod Reads
pub mod Canonical
use go_fbx.Base.{ℕ, ◌+◌, ltb, if◌then◌else◌, bit_or}
use go_fbx.Format.Header.{
  HeaderV1, flag_has_journal, flag_has_backup, flag_has_dir_index, flag_has_required_features,
}
use go_fbx.Format.Checked.{max_uint64, saturating_add_uint64}
use go_fbx.Fbx.HeaderExt.{
  DirIndexPointer, journal_record_size, required_features_supported, read_header_generation,
  write_header_generation, write_header_dir_index_pointer, write_header_required_features_low,
  mark_header_v1_extension_layout, read_compaction_stats_from_header,
  write_compaction_stats_to_header,
}

-- `h.Flags |= …`, four times
abbrev pub set_flags : ℕ → ℕ
set_flags f =
    bit_or (bit_or (bit_or (bit_or f flag_has_journal) flag_has_backup) flag_has_dir_index)
      flag_has_required_features

-- The counters of the transaction added to those of the header.
unfoldable pub add_stats : HeaderV1 → ℕ → ℕ → HeaderV1
add_stats h dead_bytes churn_ops =
    let (dead, churn) = read_compaction_stats_from_header h in
    write_compaction_stats_to_header h (saturating_add_uint64 dead dead_bytes)
      (saturating_add_uint64 churn churn_ops)

unfoldable pub next_generation : HeaderV1 → ℕ
next_generation h =
    let generation = read_header_generation h in
    if ltb generation max_uint64 then generation + 1 else generation

-- Where the appended pieces stand.
pub record Pieces : Type 0 where
  pub dir_offset : ℕ
  pub dir_size : ℕ
  pub dir_crc : ℕ
  pub index : DirIndexPointer
  pub journal_offset : ℕ

-- The flags, the places and the marks, on a header whose counters are already written.
unfoldable pub place : HeaderV1 → ℕ → Pieces → HeaderV1
place h generation p =
    let h1 : HeaderV1 = record h {
      dir_offset = p.dir_offset;
      dir_size = p.dir_size;
      dir_crc32 = p.dir_crc;
      flags = set_flags h.flags;
      journal_offset = p.journal_offset;
      journal_size = journal_record_size;
    } in
    write_header_required_features_low
      (write_header_dir_index_pointer
        (write_header_generation (mark_header_v1_extension_layout h1) generation) p.index)
      required_features_supported

unfoldable pub commit_header : HeaderV1 → ℕ → ℕ → Pieces → HeaderV1
unfolding add_stats
commit_header h dead_bytes churn_ops p =
    let h1 = add_stats h dead_bytes churn_ops in place h1 (next_generation h1) p
