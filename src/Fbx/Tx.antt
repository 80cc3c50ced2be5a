-- ===== src/Fbx/Tx.antt =====
-- fbx/tx.go: the state of a transaction, and the operations that remove entries or change their
-- metadata. The map of
-- the entries is a list of pairs; a range over it visits them in the order of the list, which stands
-- for any order. The locks that a transaction holds are not modelled.
pub mod Removal
pub mod Many
pub mod Insert
pub mod Sound
pub mod Steps
pub mod Failed
use go_fbx.Base.{ℕ, ◌+◌, Bool, true, false, not, ◌&&◌, ◌||◌, Option, none, some}
use go_fbx.Base.{List, [], ◌∷◌, ◌++◌, length, take, ◌==◌, if◌then◌else◌, Bytes, equal}
use go_fbx.Base.{
  Error, Result, ok, err, closed_pipe, path_invalid, not_found, invalid_path, ◌>>=◌, ◌>>◌, guard,
}
use go_fbx.Format.Types.{ChunkRefV1, EntryV1}
use go_fbx.Format.Checked.{saturating_add_uint64}
use go_fbx.Fbx.Write.{Writer}
use go_fbx.Paths.{slash, backslash, dot, dot_dot, replace_all, clean, starts_with_slash, normalize}

abbrev pub Entries : Type 0
Entries = List (Bytes × EntryV1)

-- `m[k]`
unfoldable pub lookup : Bytes → Entries → Option EntryV1
lookup k [] = none
lookup k (x ∷ xs) = if equal k x.0 then some x.1 else lookup k xs

-- `m[k] = e`
unfoldable pub assign : Bytes → EntryV1 → Entries → Entries
assign k e [] = (k, e) ∷ []
assign k e (x ∷ xs) = if equal k x.0 then (k, e) ∷ xs else x ∷ assign k e xs

-- `delete(m, k)`
unfoldable pub erase : Bytes → Entries → Entries
erase k [] = []
erase k (x ∷ xs) = let rest = erase k xs in if equal k x.0 then rest else x ∷ rest

pub record Tx : Type 0 where
  pub entries : Entries
  pub writer : Writer
  pub dead_bytes : ℕ
  pub churn_ops : ℕ
  pub closed : Bool

-- The loop of `entryStoredBytes`, from the total so far.
stored_loop : ℕ → List ChunkRefV1 → ℕ
stored_loop total [] = total
stored_loop total (c ∷ cs) = stored_loop (saturating_add_uint64 total (c.comp_size + 16)) cs

-- `entryStoredBytes`
unfoldable pub entry_stored_bytes : EntryV1 → ℕ
unfolding stored_loop
entry_stored_bytes e = stored_loop 0 e.chunks

-- `markObsolete`
unfoldable pub mark_obsolete : Tx → EntryV1 → Tx
mark_obsolete tx e = record tx {
  dead_bytes = saturating_add_uint64 tx.dead_bytes (entry_stored_bytes e);
  churn_ops = saturating_add_uint64 tx.churn_ops 1;
}

-- `tx.markObsolete(old)` and `delete(tx.entries, norm)`
unfoldable pub drop_entry : Tx → Bytes → EntryV1 → Tx
drop_entry tx norm old = let t = mark_obsolete tx old in record t { entries = erase norm t.entries }

-- `Remove`
unfoldable pub remove : Tx → Bytes → Tx × Result (Unit {0})
remove tx path = if tx.closed then (tx, err closed_pipe) else elim (normalize path) [
  | err _ ↦ (tx, err path_invalid)
  | ok norm ↦ elim (lookup norm tx.entries) [
    | none ↦ (tx, err not_found)
    | some old ↦ (drop_entry tx norm old, ok tt)
  ]
]

-- The loop of `RemoveMany`: the count, and the error that ended it.
unfoldable pub remove_many_loop : List Bytes → Tx → ℕ → Tx × ℕ × Option Error
remove_many_loop [] tx removed = (tx, removed, none)
remove_many_loop (p ∷ ps) tx removed = elim (normalize p) [
  | err _ ↦ (tx, removed, some path_invalid)
  | ok norm ↦ elim (lookup norm tx.entries) [
    | none ↦ remove_many_loop ps tx removed
    | some old ↦ remove_many_loop ps (drop_entry tx norm old) (removed + 1)
  ]
]

-- `RemoveMany`
unfoldable pub remove_many : Tx → List Bytes → Tx × ℕ × Option Error
remove_many tx paths = if tx.closed then (tx, 0, some closed_pipe) else remove_many_loop paths tx 0

-- The loop of `RemoveWhere` and of `RemovePrefix`, over the pairs left to visit.
unfoldable pub remove_loop : (Bytes × EntryV1 → Bool) → Entries → Tx → ℕ → Tx × ℕ
remove_loop test [] tx removed = (tx, removed)
remove_loop test (x ∷ xs) tx removed = elim (test x) [
  | true ↦ remove_loop test xs (drop_entry tx x.0 x.1) (removed + 1)
  | false ↦ remove_loop test xs tx removed
]

pub record EntryInfo : Type 0 where
  pub path : Bytes
  pub size : ℕ
  pub mtime_unix : ℕ
  pub mode : ℕ
  pub flags : ℕ
  pub meta : Bytes

-- `entryInfo`
abbrev pub entry_info : EntryV1 → EntryInfo
entry_info e = record {
  path = e.path;
  size = e.file_size;
  mtime_unix = e.mtime_unix;
  mode = e.mode;
  flags = e.entry_flags;
  meta = e.meta;
}

abbrev pub shown : (EntryInfo → Bool) → Bytes × EntryV1 → Bool
shown predicate x = predicate (entry_info x.1)

-- `RemoveWhere`, with a predicate that is not nil
unfoldable pub remove_where : Tx → (EntryInfo → Bool) → Tx × ℕ × Option Error
remove_where tx predicate =
    if tx.closed
    then (tx, 0, some closed_pipe)
    else let (t, n) = remove_loop (shown predicate) tx.entries tx 0 in (t, n, none)

-- `strings.TrimLeft` of "/"
unfoldable pub trim_left : Bytes → Bytes
trim_left [] = []
trim_left (b ∷ bs) = let rest = trim_left bs in if b == slash then rest else b ∷ bs

-- `strings.TrimSuffix` of "/"
unfoldable pub trim_suffix : Bytes → Bytes
trim_suffix [] = []
trim_suffix (b ∷ []) = if b == slash then [] else b ∷ []
trim_suffix (b ∷ c ∷ bs) = b ∷ trim_suffix (c ∷ bs)

-- `strings.HasPrefix`
abbrev pub has_prefix : Bytes → Bytes → Bool
has_prefix p prefix = equal (take (length prefix) p) prefix

-- `strings.Contains` of ".."
unfoldable pub contains_dot_dot : Bytes → Bool
contains_dot_dot [] = false
contains_dot_dot (b ∷ bs) = has_prefix (b ∷ bs) dot_dot || contains_dot_dot bs

-- `normalizePrefix`
unfoldable pub normalize_prefix : Bytes → Result Bytes
normalize_prefix prefix = do
  let p = trim_suffix (trim_left (replace_all backslash slash prefix))
  guard (not (equal p [])) invalid_path
  let q = clean p
  guard (not (equal q dot || (equal q [] || (starts_with_slash q || contains_dot_dot q))))
      invalid_path
  ok q

-- `p == norm || strings.HasPrefix(p, fullPrefix)`
abbrev pub below : Bytes → Bytes × EntryV1 → Bool
below norm x = equal x.0 norm || has_prefix x.0 (norm ++ slash ∷ [])

-- `RemovePrefix`
unfoldable pub remove_prefix : Tx → Bytes → Tx × ℕ × Option Error
remove_prefix tx prefix =
    if tx.closed then (tx, 0, some closed_pipe) else elim (normalize_prefix prefix) [
      | err _ ↦ (tx, 0, some path_invalid)
      | ok norm ↦ let (t, n) = remove_loop (below norm) tx.entries tx 0 in (t, n, none)
    ]

-- `SetMeta`
unfoldable pub set_meta : Tx → Bytes → Bytes → Tx × Result (Unit {0})
set_meta tx path meta = if tx.closed then (tx, err closed_pipe) else elim (normalize path) [
  | err _ ↦ (tx, err path_invalid)
  | ok norm ↦ elim (lookup norm tx.entries) [
    | none ↦ (tx, err not_found)
    | some e ↦ (record tx { entries = assign norm (record e { meta = meta }) tx.entries }, ok tt)
  ]
]

-- The loop of `SetMetaMany` over the pairs of its map: the updated, the missing, and the error.
unfoldable pub set_meta_loop : Bool → List (Bytes × Bytes) → Tx → ℕ → ℕ → Tx × ℕ × ℕ × Option Error
set_meta_loop ignore_missing [] tx updated missing = (tx, updated, missing, none)
set_meta_loop ignore_missing (x ∷ xs) tx updated missing = elim (normalize x.0) [
  | err _ ↦ (tx, updated, missing, some path_invalid)
  | ok norm ↦ elim (lookup norm tx.entries) [
    | none ↦ elim ignore_missing [
      | true ↦ set_meta_loop true xs tx updated (missing + 1)
      | false ↦ (tx, updated, missing, some not_found)
    ]
    | some e ↦
        set_meta_loop ignore_missing xs
          (record tx { entries = assign norm (record e { meta = x.1 }) tx.entries }) (updated + 1)
          missing
  ]
]

-- `SetMetaMany`
unfoldable pub set_meta_many : Tx → List (Bytes × Bytes) → Bool → Tx × ℕ × ℕ × Option Error
set_meta_many tx meta_by_path ignore_missing =
    if tx.closed
    then (tx, 0, 0, some closed_pipe)
    else set_meta_loop ignore_missing meta_by_path tx 0 0
