-- ===== src/Fbx/Tx/Many.antt =====
-- The operations of a transaction on paths: what is stored under them, and what they cost.
use go_fbx.Base.{
  member, ℕ, ◌+◌, ◌-◌, ◌≤◌, ◌≡◌, refl, false, Option-cases, inl, inr, Option, none, some, arith,
}
use go_fbx.Base.{List, [], ◌∷◌, if◌then◌else◌, Bytes, equal, equal_iff}
use go_fbx.Base.{Error, ok, err, path_invalid, Result-cases}
use Prim.Native.Nat.{min}
use go_fbx.Format.Types.{ChunkRefV1, EntryV1}
use go_fbx.Format.Checked.{max_uint64, saturating_add_uint64}
use go_fbx.Paths.{normalize}
use go_fbx.Fbx.Tx.{
  Entries, lookup, assign, erase, Tx, stored_loop, entry_stored_bytes, mark_obsolete, drop_entry,
  remove, remove_many_loop, remove_many, set_meta,
}
use go_fbx.Fbx.Tx.Removal.{lookup-erase, saturating-min}

pub lookup-assign :
    (k p : Bytes) (e : EntryV1) (es : Entries)
    → lookup k (assign p e es) ≡ (if equal k p then some e else lookup k es)
unfolding lookup assign
lookup-assign k p e [] = refl
lookup-assign k p e (x ∷ xs) =
    ground (arith, lookup-assign k p e xs, equal_iff k p, equal_iff p x.0, equal_iff k x.0)

-- The records of the chunks, with their headers.
abbrev pub records_size : List ChunkRefV1 → ℕ
records_size [] = 0
records_size (c ∷ cs) = c.comp_size + 16 + records_size cs

stored_loop-min :
    (total : ℕ) (cs : List ChunkRefV1)
    → total ≤ max_uint64
    → stored_loop total cs ≡ min (total + records_size cs) max_uint64
unfolding stored_loop
stored_loop-min total [] h = omega arith
stored_loop-min total (c ∷ cs) h =
    let next = saturating-min total (c.comp_size + 16) h in
    let rest = stored_loop-min (saturating_add_uint64 total (c.comp_size + 16)) cs (omega arith) in
    omega arith

-- `entryStoredBytes` is the sum of the sizes of the records of the chunks, each with its header of
-- 16 bytes, or the largest uint64 where the sum is larger.
pub entry_stored_bytes_exact :
    (e : EntryV1) → entry_stored_bytes e ≡ min (records_size e.chunks) max_uint64
unfolding entry_stored_bytes
entry_stored_bytes_exact e = omega (arith, stored_loop-min 0 e.chunks (omega arith))

-- On an open transaction, for a path whose normal form has an entry, Remove succeeds, removes this
-- entry and no other, adds its stored bytes to the dead bytes and one to the churn counter, by
-- saturation.
pub remove_lem :
    (tx : Tx) (path : Bytes) {norm : Bytes} {old : EntryV1}
    → tx.closed ≡ false
    → normalize path ≡ ok norm
    → lookup norm tx.entries ≡ some old
    → ((k : Bytes)
        → lookup k (remove tx path).0.entries
          ≡ (if equal k norm then none else lookup k tx.entries))
      × ((remove tx path).1 ≡ ok tt)
      × ((remove tx path).0.dead_bytes
          ≡ saturating_add_uint64 tx.dead_bytes (entry_stored_bytes old))
      × ((remove tx path).0.churn_ops ≡ saturating_add_uint64 tx.churn_ops 1)
unfolding drop_entry mark_obsolete
remove_lem tx path {norm} {old} active valid found =
    rw (run tx path active valid found) (λ k. lookup-erase k norm tx.entries, refl, refl, refl)
  where
    run :
        (tx : Tx) (path : Bytes) {norm : Bytes} {old : EntryV1}
        → tx.closed ≡ false
        → normalize path ≡ ok norm
        → lookup norm tx.entries ≡ some old
        → remove tx path ≡ (drop_entry tx norm old, ok tt)
    run tx path active valid found = unfold remove in ground arith

-- On an open transaction, for a path whose normal form has an entry, `SetMeta` succeeds, replaces
-- the metadata of this entry and nothing else of it, leaves the other entries and both counters as
-- they are.
pub set_meta_lem :
    (tx : Tx) (path meta : Bytes) {norm : Bytes} {e : EntryV1}
    → tx.closed ≡ false
    → normalize path ≡ ok norm
    → lookup norm tx.entries ≡ some e
    → ((k : Bytes)
        → lookup k (set_meta tx path meta).0.entries
          ≡ (if equal k norm then some (record e { meta = meta }) else lookup k tx.entries))
      × ((set_meta tx path meta).1 ≡ ok tt)
      × ((set_meta tx path meta).0.dead_bytes ≡ tx.dead_bytes)
      × ((set_meta tx path meta).0.churn_ops ≡ tx.churn_ops)
set_meta_lem tx path meta {norm} {e} active valid found =
    rw (run tx path meta active valid found)
      (λ k. lookup-assign k norm (record e { meta = meta }) tx.entries, refl, refl, refl)
  where
    run :
        (tx : Tx) (path meta : Bytes) {norm : Bytes} {e : EntryV1}
        → tx.closed ≡ false
        → normalize path ≡ ok norm
        → lookup norm tx.entries ≡ some e
        → set_meta tx path meta
          ≡ (record tx { entries = assign norm (record e { meta = meta }) tx.entries }, ok tt)
    run tx path meta active valid found = unfold set_meta in ground arith

-- The paths in front of the first one that is refused, in their normal form.
abbrev pub normal_paths : List Bytes → List Bytes
normal_paths [] = []
normal_paths (p ∷ ps) =
    let rest = normal_paths ps in elim (normalize p) [ ok norm ↦ norm ∷ rest | err _ ↦ [] ]

-- The counters and the entries after the loop, as one statement for the induction.
abbrev Removed : List Bytes → Tx → ℕ → Tx × ℕ × Option Error → Type 0
Removed ps tx n a =
    ((k : Bytes)
      → lookup k a.0.entries ≡ (if member k (normal_paths ps) then none else lookup k tx.entries))
    × (n ≤ a.1)
    × (a.0.churn_ops ≡ min (tx.churn_ops + (a.1 - n)) max_uint64)

normal_paths-cons :
    (p : Bytes) (ps : List Bytes) {norm : Bytes}
    → normalize p ≡ ok norm
    → normal_paths (p ∷ ps) ≡ norm ∷ normal_paths ps
normal_paths-cons p ps q = ground arith

normal_paths-refused :
    (p : Bytes) (ps : List Bytes) {e : Error} → normalize p ≡ err e → normal_paths (p ∷ ps) ≡ []
normal_paths-refused p ps q = ground arith

loop-refused :
    (p : Bytes) (ps : List Bytes) (tx : Tx) (n : ℕ) {e : Error}
    → normalize p ≡ err e
    → remove_many_loop (p ∷ ps) tx n ≡ (tx, n, some path_invalid)
unfolding remove_many_loop
loop-refused p ps tx n q = ground arith

loop-missing :
    (p : Bytes) (ps : List Bytes) (tx : Tx) (n : ℕ) {norm : Bytes}
    → normalize p ≡ ok norm
    → lookup norm tx.entries ≡ none
    → remove_many_loop (p ∷ ps) tx n ≡ remove_many_loop ps tx n
unfolding remove_many_loop
loop-missing p ps tx n q found = ground arith

loop-found :
    (p : Bytes) (ps : List Bytes) (tx : Tx) (n : ℕ) {norm : Bytes} {old : EntryV1}
    → normalize p ≡ ok norm
    → lookup norm tx.entries ≡ some old
    → remove_many_loop (p ∷ ps) tx n ≡ remove_many_loop ps (drop_entry tx norm old) (n + 1)
unfolding remove_many_loop
loop-found p ps tx n q found = ground arith

remove_many_loop-Removed :
    (ps : List Bytes) (tx : Tx) (n : ℕ)
    → tx.churn_ops ≤ max_uint64
    → Removed ps tx n (remove_many_loop ps tx n)
remove_many_loop-Removed [] tx n h =
    unfold remove_many_loop in (λ k. refl, omega arith, omega arith)
remove_many_loop-Removed (p ∷ ps) tx n h = elim (Result-cases (normalize p)) [
  | inr (e, q) ↦
      rw (loop-refused p ps tx n q)
        (λ k. rw (normal_paths-refused p ps q) refl, omega arith, omega arith)
  | inl (norm, q) ↦ elim (Option-cases (lookup norm tx.entries)) [
    | inl missing ↦
        let (a, b, c) = remove_many_loop-Removed ps tx n h in
        rw (loop-missing p ps tx n q missing)
          (λ k. rw (normal_paths-cons p ps q) (ground (arith, a k, equal_iff k norm)), b, c)
    | inr (old, found) ↦
        let one = saturating-min tx.churn_ops 1 h in
        let t = drop_entry tx norm old in
        let churned : t.churn_ops ≡ saturating_add_uint64 tx.churn_ops 1 =
          unfold drop_entry mark_obsolete in refl in
        let erased : t.entries ≡ erase norm tx.entries = unfold drop_entry mark_obsolete in refl in
        let (a, b, c) = remove_many_loop-Removed ps t (n + 1) (omega arith) in
        rw (loop-found p ps tx n q found) (
          (λ k.
              rw (normal_paths-cons p ps q)
                (ground (arith, a k, erased, lookup-erase k norm tx.entries))),
          omega arith,
          omega arith,
        )
  ]
]

-- On an open transaction with a churn counter that is a uint64, `RemoveMany` removes just the
-- entries at the normal forms of the paths in front of the first path that is refused, leaves the
-- others as they are, and adds the number it returns to the churn counter by saturation.
pub remove_many_lem :
    (tx : Tx) (paths : List Bytes)
    → tx.closed ≡ false
    → tx.churn_ops ≤ max_uint64
    → ((k : Bytes)
        → lookup k (remove_many tx paths).0.entries
          ≡ (if member k (normal_paths paths) then none else lookup k tx.entries))
      × ((remove_many tx paths).0.churn_ops
          ≡ min (tx.churn_ops + (remove_many tx paths).1) max_uint64)
remove_many_lem tx paths active small =
    let (a, b, c) = remove_many_loop-Removed paths tx 0 small in
    rw (run tx paths active) (a, omega arith)
  where
    run :
        (tx : Tx) (paths : List Bytes)
        → tx.closed ≡ false
        → remove_many tx paths ≡ remove_many_loop paths tx 0
    run tx paths active = unfold remove_many in ground arith
