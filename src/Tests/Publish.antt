-- ===== src/Tests/Publish.antt =====
-- The end of a commit at a concrete input.
use go_fbx.Base.{
  ℕ, ◌<◌, ◌≡◌, refl, ◌⊎◌, [], ◌∷◌, ◌++◌, length, take, drop, replicate, true, ok, arith,
}
use go_fbx.Format.Header.{HeaderV1, IsTyped, IsV1, header_bytes, unmarshal}
use go_fbx.Fbx.HeaderExt.{header_has_fixed_backup_slot}
use go_fbx.Fbx.Region.{validate_header_directory}
use go_fbx.Fbx.Journal.{
  journal_magic, recover_header_by_magic, recover_best_header, recover_header_from_fixed_backup,
}
use go_fbx.Fbx.Write.{Writer}
use go_fbx.Fbx.Publish.{append_records, publish}
use go_fbx.Fbx.Publish.Crash.{Leads, append_records-crash, publish_lem}
use go_fbx.Tests.Fbx.{directory, directory_decoded, header}

-- The header of a commit, with the directory behind the backup slot.
abbrev built : HeaderV1
built = record header { dir_offset = 256; reserved = 2 ∷ replicate {A = ℕ} 55 0 }

built-IsTyped : IsTyped built
built-IsTyped = record {
  magic_length = refl;
  version_u16 = omega arith;
  header_size_u16 = omega arith;
  flags_u32 = omega arith;
  uuid_length = refl;
  created_u64 = omega arith;
  dir_offset_u64 = omega arith;
  dir_size_u64 = omega arith;
  dir_crc32_u32 = omega arith;
  journal_offset_u64 = omega arith;
  journal_size_u64 = omega arith;
  reserved_length = refl;
}

built-IsV1 : IsV1 built
built-IsV1 = record { magic_ok = refl; version_ok = refl; header_size_ok = refl }

abbrev before : Writer
before = record { file = replicate {A = ℕ} 256 1 ++ directory; append_offset = 292 }

built-Leads : Leads built before.file
built-Leads = record {
  front = replicate {A = ℕ} 256 1;
  blob = directory;
  back = [];
  dir = record { entry_count = 0; flags = 0; build_unix = 9; entries = [] };
  splits = refl;
  offset_is = refl;
  size_is = refl;
  decodes = directory_decoded;
  behind = omega arith;
  front_small = omega arith;
  blob_pos = omega arith;
  blob_small = omega arith;
}

append_records-crash_example :
    (w' : Writer) × (append_records built 5 6 before ≡ ok (header_bytes built, w'))
    × (r : HeaderV1) × (recover_best_header (replicate {A = ℕ} 256 0 ++ drop 256 w'.file) ≡ ok r)
    × ((r ≡ built)
        ⊎ ((t : ℕ) × (recover_header_by_magic
                (replicate {A = ℕ} 256 0 ++ drop 256 w'.file)
                journal_magic
              ≡ ok (r, t))
            × (6 < t)))
append_records-crash_example =
    append_records-crash built 5 6 before (replicate {A = ℕ} 256 0) built-IsTyped built-IsV1
      (omega arith) refl built-Leads refl

publish_lem_example :
    (w' : Writer) × (publish built 5 6 before ≡ ok w')
    × (w'.append_offset ≡ length w'.file)
    × (unmarshal (take 128 w'.file) ≡ ok built)
    × (recover_header_from_fixed_backup w'.file ≡ ok built)
    × (validate_header_directory w'.file built ≡ ok tt)
publish_lem_example = publish_lem built 5 6 before built-IsTyped built-IsV1 refl built-Leads slot
  where
    slot : header_has_fixed_backup_slot built ≡ true
    slot = unfold header_has_fixed_backup_slot in refl
