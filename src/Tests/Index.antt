-- ===== src/Tests/Index.antt =====
-- The index of a directory at concrete inputs.
use go_fbx.Base.{◌∷◌, refl, checksum, equal, uint, ℕ, ◌≡◌, some, [], List, Bytes, ok, length, arith}
use go_fbx.Format.Directory.{encode_directory}
use go_fbx.Format.Directory.RoundTrip.{stored}
use go_fbx.Format.DirIndex.{DirIndexEntryV1, DirIndexV1}
use go_fbx.Fbx.Index.{
  validate_directory_blob_envelope, scan_directory_entries_for_index, build_dir_index_hash_ranges,
}
use go_fbx.Fbx.Index.Lookup.{find_entry_by_path_from_dir_index}
use go_fbx.Fbx.Index.Directory.{FindsEntry, find_entry_by_path-encode_directory}
use go_fbx.Base.{none}
use go_fbx.Fbx.Options.{default_options}
use go_fbx.Fbx.Index.{read_entries_by_dir_index, read_rows_loop, validate_entries_chunk_offsets}
use go_fbx.Fbx.Container.{Container, with_entries, ensure_entries_loaded, stat, open_reader}
use go_fbx.Fbx.Container.Loaded.{IsLazy, stat-ensure_entries_loaded}
use go_fbx.Tests.Fbx.{directory}
use go_fbx.Tests.Samples.{fresh_header, two_entries, entry_b}
use go_fbx.Tests.Format.{two_entries-IsDirectory}

-- The first generation, of a directory at the offset 256.
abbrev idx : DirIndexV1
idx = record {
  flags = 0;
  generation = 1;
  dir_offset = 256;
  dir_size = 300;
  dir_crc32 = 7;
  entries = [];
  hash_ranges = [];
}

find_entry_by_path-encode_directory_example :
    (b : Bytes × ℕ) × (rows : List DirIndexEntryV1) × (encode_directory two_entries ≡ ok b)
    × (scan_directory_entries_for_index b.0 ≡ ok (rows, length (stored two_entries).entries))
    × FindsEntry (stored two_entries).entries entry_b.path (
        find_entry_by_path_from_dir_index b.0
          (some (record idx { entries = rows; hash_ranges = build_dir_index_hash_ranges rows }))
          entry_b.path)
find_entry_by_path-encode_directory_example =
    find_entry_by_path-encode_directory two_entries idx entry_b.path two_entries-IsDirectory
      (omega arith)

-- A container that was opened on a directory without entries.
abbrev lazily : Container
lazily = record {
  file = some (0 ∷ []);
  opts = default_options 1;
  header = record fresh_header { dir_size = 36; dir_crc32 = 3614088483 };
  entries = none;
  lazy_dir_blob = directory;
  lazy_dir_index = some idx;
}

lazily-IsLazy : IsLazy lazily (0 ∷ []) idx
lazily-IsLazy = record {
  file_is = refl;
  no_entries = refl;
  index_is = refl;
  ready = record {
    entries_u32 = omega arith;
    ascends = tt;
    spans = tt;
    covered = λ i row at. absurd (ground arith);
  };
  index_of = λ i row at. absurd (ground arith);
}

loads : ensure_entries_loaded lazily ≡ (with_entries lazily [], ok tt)
unfolding ensure_entries_loaded read_entries_by_dir_index read_rows_loop
    validate_directory_blob_envelope validate_entries_chunk_offsets checksum equal uint
loads = refl

stat-ensure_entries_loaded_example :
    (stat (with_entries lazily []) entry_b.path ≡ stat lazily entry_b.path)
    × (open_reader (with_entries lazily []) entry_b.path ≡ open_reader lazily entry_b.path)
stat-ensure_entries_loaded_example =
    stat-ensure_entries_loaded lazily (0 ∷ []) entry_b.path idx lazily-IsLazy loads
