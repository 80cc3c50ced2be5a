-- ===== src/Fbx/Index/Lookup.antt =====
-- fbx/container.go, `findEntryByPathFromDirIndex`: an entry looked up by the hash of its path, without
-- the other entries read.
pub mod Ranges
pub mod Loops
pub mod Found
use go_fbx.Base.{ℕ, ◌+◌, ◌-◌, ◌%◌, ◌^◌, Bool, true, false, not, Option, none, some}
use go_fbx.Base.{List, [], ◌∷◌, length, take, drop, get_elem?, leb, ◌==◌, if◌then◌else◌}
use go_fbx.Base.{Bytes, equal, Result, ok, err, ◌>>=◌, ◌>>◌, guard, need, invalid_format}
use go_fbx.Format.Types.{EntryV1}
use go_fbx.Format.Hash.{fnv1a64}
use go_fbx.Format.Checked.{add_uint64}
use go_fbx.Format.Directory.Entry.{decode_directory_entry_at}
use go_fbx.Format.DirIndex.{DirIndexEntryV1, DirIndexHashRangeV1, DirIndexV1}
use go_fbx.Fbx.Write.{mapped}
use go_fbx.Fbx.Index.Search.{search}

-- The inner loop, over the rows of a range: the first entry with the path.
unfoldable pub find_row : Bytes → Bytes → List DirIndexEntryV1 → Result (Option EntryV1)
find_row blob path [] = ok none
find_row blob path (row ∷ rows) = do
  e ← mapped (decode_directory_entry_at blob row.dir_entry_offset row.dir_entry_size)
  elim (equal e.path path) [ true ↦ ok (some e) | false ↦ find_row blob path rows ]

-- The outer loop, over the ranges from the place that the search found.
unfoldable pub find_range :
    Bytes → List DirIndexEntryV1 → Bytes → ℕ → List DirIndexHashRangeV1 → Result (Option EntryV1)
find_range blob entries path hash [] = ok none
find_range blob entries path hash (range ∷ ranges) = elim (range.path_hash64 == hash) [
  | false ↦ ok none
  | true ↦ do
    end ← need invalid_format (add_uint64 range.first_entry_index range.entry_span)
    guard (leb end (length entries)) invalid_format
    found ←
        find_row blob path
          (take (end % 2 ^ 32 - range.first_entry_index) (drop range.first_entry_index entries))
    elim found [ some e ↦ ok (some e) | none ↦ find_range blob entries path hash ranges ]
]

-- `ranges[i].PathHash64 >= hash`, for an index within the ranges
abbrev pub hash_from : List DirIndexHashRangeV1 → ℕ → ℕ → Bool
hash_from ranges hash i = elim (get_elem? ranges i) [
  | none ↦ true
  | some range ↦ leb hash range.path_hash64
]

-- `findEntryByPathFromDirIndex`; `none` is an index that is nil.
unfoldable pub find_entry_by_path_from_dir_index :
    Bytes → Option DirIndexV1 → Bytes → Result (Option EntryV1)
find_entry_by_path_from_dir_index blob none path = ok none
find_entry_by_path_from_dir_index blob (some idx) path =
    let hash = fnv1a64 path in
    let pos = search (length idx.hash_ranges) (hash_from idx.hash_ranges hash) in
    find_range blob idx.entries path hash (drop pos idx.hash_ranges)
