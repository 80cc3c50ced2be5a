-- ===== src/Tests/Fbx.antt =====
-- The container at concrete inputs.
use go_fbx.Base.{
  ℕ, ◌+◌, ◌<◌, ◌≡◌, ◌⊎◌, refl, [], ◌∷◌, ◌++◌, Bytes, IsUint, ltb, if◌then◌else◌, invalid_format,
  equal, read_uint, read_bytes, put_uint, uint, replicate, ok, err, checksum, arith,
}
use go_fbx.Format.Header.{HeaderV1, IsTyped, IsV1, header_bytes}
use go_fbx.Format.Directory.{
  encode_directory, decode_directory, directory_head, directory_footer, read_entries,
  read_directory, write_entries,
}
use go_fbx.Format.Directory.Sort.{sort_entries}
use go_fbx.Format.Checked.{saturating_add_uint64, max_uint64}
use go_fbx.Fbx.HeaderExt.{
  validate_canonical_header_layout, read_compaction_stats_from_header, read_header_generation,
  read_header_dir_index_pointer,
}
use go_fbx.Fbx.Seal.{place, commit_header}
use go_fbx.Fbx.Seal.Canonical.{
  IsPieces, validate_canonical_header_layout-place, commit_header_reads,
}
use go_fbx.Fbx.Region.{validate_header_directory, read_directory_blob_by_header-middle}
use go_fbx.Fbx.Journal.{
  journal_magic, backup_magic, scan_back, recover_header_by_magic, recover_best_header,
  parse_header_record,
}
use go_fbx.Fbx.Journal.Records.{record_bytes, parse_header_record-record_bytes}
use go_fbx.Fbx.Journal.Recovery.{
  ScanSpec, scan_back-ScanSpec, recover_header_by_magic-end, recover_best_header-end,
}
use go_fbx.Tests.Samples.{fresh_header, no_entries, committed}

-- A directory without entries, as `EncodeDirectory` writes it.
abbrev pub directory : Bytes
directory =
    68 ∷ 73 ∷ 82 ∷ 49 ∷ 0 ∷ 0 ∷ 0 ∷ 0 ∷ 0 ∷ 0 ∷ 0 ∷ 0 ∷ 9 ∷ 0 ∷ 0 ∷ 0 ∷ 0 ∷ 0 ∷ 0 ∷ 0 ∷ 69 ∷ 78 ∷ 68
    ∷ 49 ∷ 35 ∷ 157 ∷ 106 ∷ 215 ∷ 36 ∷ 0 ∷ 0 ∷ 0 ∷ 0 ∷ 0 ∷ 0 ∷ 0 ∷ []

directory_encoded : encode_directory no_entries ≡ ok (directory, 3614088483)
unfolding encode_directory write_entries sort_entries directory_head directory_footer checksum
    put_uint
directory_encoded = refl

-- The header, with the checksum of the directory.
abbrev pub header : HeaderV1
header = record fresh_header { dir_crc32 = 3614088483 }

pub header-IsTyped : IsTyped header
header-IsTyped = record {
  magic_length = refl;
  version_u16 = omega arith;
  header_size_u16 = omega arith;
  flags_u32 = omega arith;
  uuid_length = refl;
  created_u64 = omega arith;
  dir_offset_u64 = omega arith;
  dir_size_u64 = omega arith;
  dir_crc32_u32 = omega arith;
  journal_offset_u64 = omega arith;
  journal_size_u64 = omega arith;
  reserved_length = refl;
}

pub header-IsV1 : IsV1 header
header-IsV1 = record { magic_ok = refl; version_ok = refl; header_size_ok = refl }

-- The file up to a backup record.
abbrev front : Bytes
front = replicate {A = ℕ} 128 1 ++ directory

abbrev hb : Bytes
hb = header_bytes header

pub directory_decoded :
    decode_directory directory 3614088483 36
    ≡ ok (record { entry_count = 0; flags = 0; build_unix = 9; entries = [] })
unfolding decode_directory checksum read_directory read_entries equal uint read_uint read_bytes
directory_decoded = refl

directory_found : (rest : Bytes) → validate_header_directory (front ++ rest) header ≡ ok tt
unfolding validate_header_directory
directory_found rest =
    rw
      (
        read_directory_blob_by_header-middle (replicate {A = ℕ} 128 1) directory rest header refl
            refl (omega arith) (omega arith) (omega arith) (omega arith),
        directory_decoded,
      )
      refl

recover_best_header-end_example :
    (r : HeaderV1) × (recover_best_header (front ++ record_bytes backup_magic hb 5) ≡ ok r)
    × ((r ≡ header)
        ⊎ ((tj : ℕ) × (recover_header_by_magic
                (front ++ record_bytes backup_magic hb 5)
                journal_magic
              ≡ ok (r, tj))
            × (5 < tj)))
recover_best_header-end_example =
    recover_best_header-end front header 5 header-IsTyped header-IsV1 (omega arith)
      (directory_found (record_bytes backup_magic hb 5))

recover_header_by_magic-end_example :
    recover_header_by_magic (front ++ record_bytes journal_magic hb 5) journal_magic
    ≡ ok (header, 5)
recover_header_by_magic-end_example =
    recover_header_by_magic-end front journal_magic header 5 header-IsTyped header-IsV1 refl
      (omega arith) (directory_found (record_bytes journal_magic hb 5))

scan_back-ScanSpec_example :
    ScanSpec front backup_magic front 16 (scan_back front backup_magic front 16)
scan_back-ScanSpec_example = scan_back-ScanSpec front backup_magic front 16

parse_header_record-record_bytes_example :
    parse_header_record journal_magic (record_bytes backup_magic (replicate {A = ℕ} 128 3) 5)
    ≡ err invalid_format
unfolding equal
parse_header_record-record_bytes_example =
    parse_header_record-record_bytes backup_magic journal_magic (replicate {A = ℕ} 128 3) 5 refl
      refl (omega arith)

committed-IsPieces : IsPieces committed
committed-IsPieces = record {
  index_offset_u64 = omega arith;
  index_size_u64 = omega arith;
  index_crc_u32 = omega arith;
}

validate_canonical_header_layout-place_example :
    validate_canonical_header_layout (place fresh_header 1 committed) ≡ ok tt
validate_canonical_header_layout-place_example =
    validate_canonical_header_layout-place fresh_header 1 committed refl committed-IsPieces

fresh_generation : IsUint 8 (read_header_generation fresh_header)
unfolding read_header_generation uint
fresh_generation = omega arith

commit_header_reads_example :
    (read_compaction_stats_from_header (commit_header fresh_header 30 2 committed) ≡ (
      saturating_add_uint64 (read_compaction_stats_from_header fresh_header).0 30,
      saturating_add_uint64 (read_compaction_stats_from_header fresh_header).1 2,
    ))
    × (read_header_generation (commit_header fresh_header 30 2 committed) ≡ (
        if ltb (read_header_generation fresh_header) max_uint64
        then read_header_generation fresh_header + 1
        else read_header_generation fresh_header))
    × (read_header_dir_index_pointer (commit_header fresh_header 30 2 committed) ≡ committed.index)
commit_header_reads_example =
    commit_header_reads fresh_header 30 2 committed refl fresh_generation committed-IsPieces
