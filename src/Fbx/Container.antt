-- ===== src/Fbx/Container.antt =====
-- fbx/container.go: an open container, whose entries are all there or are looked up in the index of
-- the directory until they are needed. A file that is closed is `none`; the locks in memory are not
-- modelled.
pub mod Loaded
use go_fbx.Base.{ℕ, ◌+◌, Bool, true, false, not, ◌&&◌, Option, none, some}
use go_fbx.Base.{List, [], ◌∷◌, map, length, ltb, ◌==◌, if◌then◌else◌}
use go_fbx.Base.{
  Bytes, Result, ok, err, ◌>>=◌, ◌>>◌, guard, invalid_format, crc_mismatch, path_invalid, not_found,
  limit_exceeded, container_closed, Error,
}
use go_fbx.Format.Types.{EntryV1, DirectoryV1}
use go_fbx.Format.Header.{HeaderV1}
use go_fbx.Format.Directory.{decode_directory}
use go_fbx.Format.Directory.Sort.{string_lt}
use go_fbx.Format.DirIndex.{DirIndexV1}
use go_fbx.Paths.{normalize}
use go_fbx.Fbx.HeaderExt.{validate_canonical_header_layout}
use go_fbx.Fbx.Region.{read_directory_blob_by_header}
use go_fbx.Fbx.Iter.{SliceIterator, new_slice_iterator}
use go_fbx.Fbx.Options.{Options}
use go_fbx.Fbx.Write.{Writer, mapped}
use go_fbx.Fbx.Reader.{EntryReader, open_entry}
use go_fbx.Fbx.Tx.{Entries, Tx, EntryInfo, entry_info, lookup, assign}
use go_fbx.Fbx.Index.{
  validate_directory_blob_envelope, maybe_read_dir_index_by_header, read_entries_by_dir_index,
  validate_entries_chunk_offsets,
}
use go_fbx.Fbx.Index.Lookup.{find_entry_by_path_from_dir_index}

-- What is known of the entries: all of them, or the directory and its index.
pub record Snapshot : Type 0 where
  pub entries : Option Entries
  pub dir_blob : Bytes
  pub dir_index : Option DirIndexV1

pub record Container : Type 0 where
  pub file : Option Bytes
  pub opts : Options
  pub header : HeaderV1
  pub entries : Option Entries
  pub lazy_dir_blob : Bytes
  pub lazy_dir_index : Option DirIndexV1

-- The loop that puts the entries of a directory into a map; `cloneEntry` copies what is not changed.
unfoldable pub collect_entries : List EntryV1 → Entries → Result Entries
collect_entries [] entries = ok entries
collect_entries (e ∷ es) entries = elim (lookup e.path entries) [
  | some _ ↦ err invalid_format
  | none ↦ collect_entries es (assign e.path e entries)
]

-- The entries without an index.
unfoldable pub read_entries_by_directory : Bytes → HeaderV1 → Result Entries
read_entries_by_directory dir_blob h = do
  dir ← mapped (decode_directory dir_blob h.dir_crc32 h.dir_size)
  collect_entries dir.entries []

-- All entries, with their chunks tested against the size of the file.
abbrev pub checked : ℕ → Result Entries → Result Snapshot
checked file_size entries = do
  es ← entries
  validate_entries_chunk_offsets es file_size
  ok (record { entries = some es; dir_blob = []; dir_index = none })

-- The directory and its index, not read yet.
abbrev pub lazy_snapshot : Bytes → HeaderV1 → DirIndexV1 → Result Snapshot
lazy_snapshot dir_blob h idx = do
  entry_count ← validate_directory_blob_envelope dir_blob h.dir_crc32 h.dir_size
  guard (entry_count == length idx.entries) invalid_format
  ok (record { entries = none; dir_blob = dir_blob; dir_index = some idx })

-- `loadSnapshotByHeader`
unfoldable pub load_snapshot_by_header : Bytes → HeaderV1 → Bool → Result Snapshot
load_snapshot_by_header f h prefer_lazy = do
  validate_canonical_header_layout h
  dir_blob ← read_directory_blob_by_header f h
  found ← maybe_read_dir_index_by_header f h (length f)
  elim found [
    | none ↦ checked (length f) (read_entries_by_directory dir_blob h)
    | some idx ↦
        if prefer_lazy
        then lazy_snapshot dir_blob h idx
        else checked (length f) (read_entries_by_dir_index dir_blob h idx)
  ]

-- `readEntriesByHeader`; a snapshot that is not lazy has its entries.
unfoldable pub read_entries_by_header : Bytes → HeaderV1 → Result Entries
read_entries_by_header f h = do
  snap ← load_snapshot_by_header f h false
  elim snap.entries [ some es ↦ ok es | none ↦ ok [] ]

-- `loadSnapshotFromDirectoryRecovery`
unfoldable pub load_snapshot_from_directory_recovery : Bytes → HeaderV1 → Result Snapshot
load_snapshot_from_directory_recovery f h = do
  dir_blob ← read_directory_blob_by_header f h
  checked (length f) (read_entries_by_directory dir_blob h)

-- `buildContainerFromSnapshot`
abbrev pub build_container_from_snapshot : Bytes → Options → HeaderV1 → Snapshot → Container
build_container_from_snapshot f opts h snap = record {
  file = some f;
  opts = opts;
  header = h;
  entries = snap.entries;
  lazy_dir_blob = snap.dir_blob;
  lazy_dir_index = snap.dir_index;
}

-- `shouldAttemptOpenRecovery`
abbrev pub should_attempt_open_recovery : Error → Bool
should_attempt_open_recovery invalid_format = true
should_attempt_open_recovery crc_mismatch = true
should_attempt_open_recovery _ = false

-- The container with its entries, which the lookups then use.
abbrev pub with_entries : Container → Entries → Container
with_entries c es = record c { entries = some es; lazy_dir_blob = []; lazy_dir_index = none }

-- The entries of the index, with their chunks tested.
abbrev pub indexed_entries : Bytes → Container → DirIndexV1 → Result Entries
indexed_entries f c idx = do
  es ← read_entries_by_dir_index c.lazy_dir_blob c.header idx
  validate_entries_chunk_offsets es (length f)
  ok es

-- `ensureEntriesLoadedLocked`
unfoldable pub ensure_entries_loaded : Container → Container × Result (Unit {0})
ensure_entries_loaded c = elim c.entries [
  | some _ ↦ (c, ok tt)
  | none ↦ elim c.file [
    | none ↦ (c, err container_closed)
    | some f ↦ elim c.lazy_dir_index [
      | some idx ↦ elim (indexed_entries f c idx) [
        | err e ↦ (c, err e)
        | ok es ↦ (with_entries c es, ok tt)
      ]
      | none ↦ elim (read_entries_by_header f c.header) [
        | err e ↦ (c, err e)
        | ok es ↦ (record c { entries = some es }, ok tt)
      ]
    ]
  ]
]

-- A range over the entries, which a nil map has none of.
abbrev pub known : Option Entries → Entries
known none = []
known (some es) = es

-- The entry of a path, in the map or by the index; `none` is a path that is not there.
unfoldable pub find_entry : Container → Bytes → Result (Option EntryV1)
find_entry c norm = elim c.entries [
  | some es ↦ ok (lookup norm es)
  | none ↦ elim c.lazy_dir_index [
    | some idx ↦ find_entry_by_path_from_dir_index c.lazy_dir_blob (some idx) norm
    | none ↦ err invalid_format
  ]
]

-- `Stat` behind the normal form of the path: with the file, and what is found
abbrev pub stat_found : Option Bytes → Result (Option EntryV1) → Result EntryInfo
stat_found none found = err container_closed
stat_found (some f) (err e) = err e
stat_found (some f) (ok none) = err not_found
stat_found (some f) (ok (some e)) = ok (entry_info e)

-- `Stat`
unfoldable pub stat : Container → Bytes → Result EntryInfo
stat c path = elim (normalize path) [
  | err _ ↦ err path_invalid
  | ok norm ↦ stat_found c.file (find_entry c norm)
]

-- `OpenReader` behind the normal form of the path
abbrev pub reader_found : Options → Option Bytes → Result (Option EntryV1) → Result EntryReader
reader_found opts none found = err container_closed
reader_found opts (some f) (err e) = err e
reader_found opts (some f) (ok none) = err not_found
reader_found opts (some f) (ok (some e)) = do
  guard (not (ltb 0 opts.max_entry_size && ltb opts.max_entry_size e.file_size)) limit_exceeded
  ok (open_entry f e.chunks opts.strict_verify opts.max_entry_size opts.max_chunk_size)

-- `OpenReader`
unfoldable pub open_reader : Container → Bytes → Result EntryReader
open_reader c path = elim (normalize path) [
  | err _ ↦ err path_invalid
  | ok norm ↦ reader_found c.opts c.file (find_entry c norm)
]

-- `sort.Slice` of the infos by path
unfoldable pub insert_info : EntryInfo → List EntryInfo → List EntryInfo
insert_info a [] = a ∷ []
insert_info a (b ∷ bs) = if string_lt b.path a.path then b ∷ insert_info a bs else a ∷ b ∷ bs

unfoldable pub sort_infos : List EntryInfo → List EntryInfo
sort_infos [] = []
sort_infos (a ∷ rest) = insert_info a (sort_infos rest)

-- `List`
unfoldable pub list : Container → Container × SliceIterator EntryInfo
list c = elim c.file [
  | none ↦ (c, new_slice_iterator [] (some container_closed))
  | some _ ↦
      let (c', answer) = ensure_entries_loaded c in
      elim answer [
        | err e ↦ (c', new_slice_iterator [] (some e))
        | ok _ ↦ (
          c',
          new_slice_iterator (sort_infos (map (λ x. entry_info x.1) (known c'.entries))) none,
        )
      ]
]

-- `Begin`, once it has the locks. The format version of a container is VersionV1 wherever one is made,
-- so that the test of it does not fail and is left out.
unfoldable pub begin : Container → Container × Result Tx
begin c = elim c.file [
  | none ↦ (c, err container_closed)
  | some f ↦
      let (c', answer) = ensure_entries_loaded c in
      elim answer [
        | err e ↦ (c', err e)
        | ok _ ↦ (
          c',
          ok (record {
            entries = known c'.entries;
            writer = record { file = f; append_offset = length f };
            dead_bytes = 0;
            churn_ops = 0;
            closed = false;
          }),
        )
      ]
]
