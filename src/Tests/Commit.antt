-- ===== src/Tests/Commit.antt =====
-- Commits at concrete inputs.
use go_fbx.Base.{ℕ, ◌≡◌, refl, some, none, [], ◌∷◌, replicate, put_uint, checksum, equal, uint, ok}
use go_fbx.Format.Directory.{encode_directory, write_entries, directory_head, directory_footer}
use go_fbx.Format.Directory.Sort.{sort_entries, insert_entry, string_lt}
use go_fbx.Fbx.Write.{append_at, map_err}
use go_fbx.File.{write_at}
use go_fbx.Fbx.Index.{
  build_dir_index_blob, scan_directory_entries_for_index, build_dir_index_hash_ranges,
  validate_directory_blob_envelope, scan_rows, scan_row, group, sort_by_hash, insert_by_hash,
}
use go_fbx.Fbx.HeaderExt.{
  header_has_fixed_backup_slot, mark_header_v1_extension_layout, overwrite,
  read_compaction_stats_from_header, read_header_generation, write_compaction_stats_to_header,
  write_header_dir_index_pointer, write_header_generation, write_header_required_features_low,
}
use go_fbx.Fbx.Journal.{build_header_record, record_body}
use go_fbx.Fbx.Publish.{write_slot}
use go_fbx.Fbx.Seal.{add_stats, commit_header, next_generation, place}
use go_fbx.Format.Checked.{add_uint64, mul_uint64, saturating_add_uint64}
use go_fbx.Format.DirIndex.{marshal_index, index_head, index_size, rows_bytes, ranges_bytes}
use go_fbx.Format.Header.{marshal, header_bytes}
use go_fbx.Paths.{normalize}
use go_fbx.Fbx.Options.{default_options}
use go_fbx.Fbx.Tx.{Tx}
use go_fbx.Fbx.Container.{Container, stat, begin}
use go_fbx.Fbx.Commit.{Clock, commit, commit_index, commit_journal, commit_backup, commit_front}
use go_fbx.Fbx.Commit.{directory_of}
use go_fbx.Fbx.Commit.Reread.{IsReread, commit-read}
use go_fbx.Format.Directory.RoundTrip.{IsDirectory, stored}
use go_fbx.Tests.Fbx.{header, header-IsTyped, header-IsV1}
use go_fbx.Base.{arith}
use go_fbx.Fbx.Commit.Committed.{answer_of, fresh, commit-begin}
use go_fbx.Tests.Samples.{entry_b}

abbrev clock : Clock
clock = record { build = 9; journal = 5; backup = 6 }

abbrev emptied : Tx
emptied = fresh [] (replicate {A = ℕ} 256 1)

abbrev opened : Container
opened = record {
  file = some (replicate {A = ℕ} 256 1);
  opts = default_options 1;
  header = header;
  entries = some [];
  lazy_dir_blob = [];
  lazy_dir_index = none;
}

emptied-ok : (commit clock opened emptied).2 ≡ ok tt
unfolding commit commit_index commit_journal commit_backup commit_front put_uint equal uint checksum
    encode_directory write_entries directory_head directory_footer sort_entries insert_entry
    string_lt append_at map_err write_at build_dir_index_blob scan_directory_entries_for_index
    build_dir_index_hash_ranges validate_directory_blob_envelope scan_rows scan_row group
    sort_by_hash insert_by_hash header_has_fixed_backup_slot mark_header_v1_extension_layout
    overwrite read_compaction_stats_from_header read_header_generation
    write_compaction_stats_to_header write_header_dir_index_pointer write_header_generation
    write_header_required_features_low build_header_record record_body write_slot add_stats
    commit_header next_generation place add_uint64 mul_uint64 saturating_add_uint64 marshal_index
    index_head index_size rows_bytes ranges_bytes marshal header_bytes
emptied-ok = refl

emptied-left :
    ((commit clock opened emptied).1.header.dir_size ≡ 36)
    × ((commit clock opened emptied).0.writer.append_offset ≡ 652)
unfolding commit commit_index commit_journal commit_backup commit_front put_uint equal uint checksum
    encode_directory write_entries directory_head directory_footer sort_entries insert_entry
    string_lt append_at map_err write_at build_dir_index_blob scan_directory_entries_for_index
    build_dir_index_hash_ranges validate_directory_blob_envelope scan_rows scan_row group
    sort_by_hash insert_by_hash header_has_fixed_backup_slot mark_header_v1_extension_layout
    overwrite read_compaction_stats_from_header read_header_generation
    write_compaction_stats_to_header write_header_dir_index_pointer write_header_generation
    write_header_required_features_low build_header_record record_body write_slot add_stats
    commit_header next_generation place add_uint64 mul_uint64 saturating_add_uint64 marshal_index
    index_head index_size rows_bytes ranges_bytes marshal header_bytes
emptied-left = (refl, refl)

emptied-IsDirectory : IsDirectory (directory_of 9 [])
emptied-IsDirectory = record {
  flags_zero = refl;
  build_u64 = omega arith;
  count_u32 = omega arith;
  all_entries = tt;
  total_u64 = omega arith;
}

commit-read_example :
    ((commit clock opened emptied).1.file ≡ some (commit clock opened emptied).0.writer.file)
    × IsReread
        (commit clock opened emptied).1.header
        (commit clock opened emptied).0.writer
        (stored (directory_of 9 []))
commit-read_example =
    commit-read clock opened emptied header-IsTyped header-IsV1 emptied-IsDirectory refl
      (omega arith) emptied-ok (omega (arith, emptied-left.0)) (omega (arith, emptied-left.1))

commit-begin_example :
    (stat (commit clock opened emptied).1 entry_b.path ≡ answer_of [] (normalize entry_b.path))
    × (begin (commit clock opened emptied).1 ≡ (
      (commit clock opened emptied).1,
      ok (fresh [] (commit clock opened emptied).0.writer.file),
    ))
commit-begin_example = commit-begin clock opened emptied entry_b.path emptied-ok

-- Without a path.
abbrev broken : Tx
broken = fresh (([], record entry_b { path = [] }) ∷ []) (replicate {A = ℕ} 256 1)
