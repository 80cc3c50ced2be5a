-- ===== src/Fbx/Tx/Removal.antt =====
-- What a transaction holds and counts after a removal.
use go_fbx.Base.{
  ℕ, ◌+◌, ◌≤◌, ◌≡◌, refl, Bool, false, ◌&&◌, ◌||◌, Bool-cases, inl, inr, ◌⊎◌, ◌≢◌, ◌++◌, Option,
  none, arith,
}
use go_fbx.Base.{[], ◌∷◌, if◌then◌else◌, Bytes, equal, equal_iff}
use go_fbx.Base.{Error}
use Prim.Native.Nat.{min}
use go_fbx.Format.Types.{EntryV1}
use go_fbx.Format.Checked.{max_uint64, saturating_add_uint64}
use go_fbx.Paths.{slash, dot, dot_dot}
use go_fbx.Fbx.Tx.{
  Entries, lookup, erase, Tx, mark_obsolete, drop_entry, remove_loop, remove_where, EntryInfo,
  shown,
}

pub lookup-erase :
    (k p : Bytes) (es : Entries) → lookup k (erase p es) ≡ (if equal k p then none else lookup k es)
unfolding lookup erase
lookup-erase k p [] = ground arith
lookup-erase k p (x ∷ xs) =
    ground (arith, lookup-erase k p xs, equal_iff k p, equal_iff p x.0, equal_iff k x.0)

-- Some pair with the path passes the test.
abbrev pub selected : (Bytes × EntryV1 → Bool) → Bytes → Entries → Bool
selected test k [] = false
selected test k (x ∷ xs) = (equal k x.0 && test x) || selected test k xs

-- How many pairs pass the test.
abbrev pub count : (Bytes × EntryV1 → Bool) → Entries → ℕ
count test [] = 0
count test (x ∷ xs) = (if test x then 1 else 0) + count test xs

lookup-remove_loop :
    (test : Bytes × EntryV1 → Bool) (k : Bytes) (xs : Entries) (tx : Tx) (n : ℕ)
    → lookup k (remove_loop test xs tx n).0.entries
      ≡ (if selected test k xs then none else lookup k tx.entries)
unfolding remove_loop drop_entry mark_obsolete
lookup-remove_loop test k [] tx n = refl
lookup-remove_loop test k (x ∷ xs) tx n = elim (Bool-cases (test x)) [
  | inl t ↦ rw t (
      ground (
        arith,
        lookup-remove_loop test k xs (drop_entry tx x.0 x.1) (n + 1),
        lookup-erase k x.0 tx.entries,
      ))
  | inr f ↦ rw f (ground (arith, lookup-remove_loop test k xs tx n))
]

pub saturating-min : (a b : ℕ) → a ≤ max_uint64 → saturating_add_uint64 a b ≡ min (a + b) max_uint64
unfolding saturating_add_uint64
saturating-min a b h = ground arith

-- The loop counts the pairs that pass, in its answer and in the transaction.
counters-remove_loop :
    (test : Bytes × EntryV1 → Bool) (xs : Entries) (tx : Tx) (n : ℕ)
    → tx.churn_ops ≤ max_uint64
    → ((remove_loop test xs tx n).1 ≡ n + count test xs)
      × ((remove_loop test xs tx n).0.churn_ops ≡ min (tx.churn_ops + count test xs) max_uint64)
unfolding remove_loop drop_entry mark_obsolete
counters-remove_loop test [] tx n h = (omega arith, omega arith)
counters-remove_loop test (x ∷ xs) tx n h = elim (Bool-cases (test x)) [
  | inr f ↦ let (a, b) = counters-remove_loop test xs tx n h in (ground arith, ground arith)
  | inl t ↦
      let one = saturating-min tx.churn_ops 1 h in
      let (a, b) = counters-remove_loop test xs (drop_entry tx x.0 x.1) (n + 1) (omega arith) in
      (ground arith, ground arith)
]

-- The answer of a loop over all entries.
abbrev whole : (Bytes × EntryV1 → Bool) → Tx → Tx × ℕ × Option Error
whole test tx = ((remove_loop test tx.entries tx 0).0, (remove_loop test tx.entries tx 0).1, none)

loop_facts :
    (tx : Tx) (test : Bytes × EntryV1 → Bool)
    → tx.churn_ops ≤ max_uint64
    → ((k : Bytes)
        → lookup k (whole test tx).0.entries
          ≡ (if selected test k tx.entries then none else lookup k tx.entries))
      × ((whole test tx).1 ≡ count test tx.entries)
      × ((whole test tx).0.churn_ops ≡ min (tx.churn_ops + (whole test tx).1) max_uint64)
loop_facts tx test small =
    let (a, b) = counters-remove_loop test tx.entries tx 0 small in
    (λ k. lookup-remove_loop test k tx.entries tx 0, omega arith, omega arith)

remove_where-active :
    (tx : Tx) (predicate : EntryInfo → Bool)
    → tx.closed ≡ false
    → remove_where tx predicate ≡ whole (shown predicate) tx
unfolding remove_where
remove_where-active tx predicate active = ground arith

-- On an open transaction with a churn counter that is a uint64, `RemoveWhere` removes just the
-- paths with an entry that the predicate accepts, leaves the others as they are, returns the number
-- of accepted entries, and adds it to the churn counter by saturation.
pub remove_where_lem :
    (tx : Tx) (predicate : EntryInfo → Bool)
    → tx.closed ≡ false
    → tx.churn_ops ≤ max_uint64
    → ((k : Bytes)
        → lookup k (remove_where tx predicate).0.entries
          ≡ (if selected (shown predicate) k tx.entries then none else lookup k tx.entries))
      × ((remove_where tx predicate).1 ≡ count (shown predicate) tx.entries)
      × ((remove_where tx predicate).0.churn_ops
          ≡ min (tx.churn_ops + (remove_where tx predicate).1) max_uint64)
remove_where_lem tx predicate active small =
    rw (remove_where-active tx predicate active) (loop_facts tx (shown predicate) small)

-- A path that is a prefix, or a slash and more behind it.
abbrev pub IsBelow : Bytes → Bytes → Type 0
IsBelow norm p = (p ≡ norm) ⊎ ((rest : Bytes) × (p ≡ norm ++ slash ∷ rest))

-- A prefix that names a place in the container: not empty, not ".", relative, without "..".
pub record IsPrefix (norm : Bytes) : Type 0 where
  pub some_bytes : norm ≢ []
  pub not_dot : norm ≢ dot
  pub relative : (rest : Bytes) → norm ≢ slash ∷ rest
  pub no_dot_dot : (a b : Bytes) → norm ≢ a ++ (dot_dot ++ b)
