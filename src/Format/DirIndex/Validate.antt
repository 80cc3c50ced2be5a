-- ===== src/Format/DirIndex/Validate.antt =====
-- What `validateDirIndexV1` guarantees to a lookup.
use go_fbx.Base.{ℕ, ◌+◌, ◌-◌, ◌^◌, ◌%◌, ◌<◌, ◌≤◌, ◌≡◌, subst, Bool, true, false, not, ◌||◌, arith}
use go_fbx.Base.{List, [], ◌∷◌, length, All, take, drop, leb, ◌==◌}
use go_fbx.Base.{IsUint, ok, invalid_dir, guard-then, ok-then, need-then}
use go_fbx.Format.Checked.{add_uint64, add_uint64-inv}
use go_fbx.Format.DirIndex.{
  DirIndexEntryV1, DirIndexHashRangeV1, DirIndexV1, all_hash, validate_rows, validate_ranges,
  validate_index,
}
use go_fbx.Format.DirIndex.RoundTrip.{IsRange, IsIndex}

-- The rows that a range names exist and have its hash.
abbrev pub Covers : List DirIndexEntryV1 → DirIndexHashRangeV1 → Type 0
Covers entries range =
    (0 < range.entry_span)
    × (range.first_entry_index + range.entry_span ≤ length entries)
    × All (λ e. e.path_hash64 ≡ range.path_hash64)
        (take range.entry_span (drop range.first_entry_index entries))

all_hash-All :
    (hash : ℕ) (rows : List DirIndexEntryV1)
    → all_hash hash rows ≡ true
    → All (λ e. e.path_hash64 ≡ hash) rows
unfolding all_hash
all_hash-All hash [] h = tt
all_hash-All hash (row ∷ rows) h = (ground arith, all_hash-All hash rows (ground arith))

validate_ranges-Covers :
    (entries : List DirIndexEntryV1) (ranges : List DirIndexHashRangeV1) (first : Bool) (prev : ℕ)
    {used : List (ℕ × ℕ)}
    → IsUint 4 (length entries)
    → All IsRange ranges
    → validate_ranges entries first prev ranges ≡ ok used
    → All (Covers entries) ranges
unfolding validate_ranges
validate_ranges-Covers entries [] first prev small ts h = tt
validate_ranges-Covers entries (r ∷ rs) first prev small (t, ts) h =
    let first_u32 = t.first_u32 in
    let span_u32 = t.span_u32 in
    guard-then (not (r.entry_span == 0)) invalid_dir _ h λ some_span h1.
      need-then invalid_dir (add_uint64 r.first_entry_index r.entry_span) _ h1 λ end e h2.
        guard-then (leb end (length entries)) invalid_dir _ h2 λ inside h3.
          guard-then (first || leb prev r.path_hash64) invalid_dir _ h3 λ _ h4.
            guard-then
              (all_hash r.path_hash64
                (take (end % 2 ^ 32 - r.first_entry_index) (drop r.first_entry_index entries)))
              invalid_dir _ h4
              λ same h5. ok-then (validate_ranges entries false r.path_hash64 rs) _ h5 λ later h6 _.
                let sum =
                  add_uint64-inv r.first_entry_index r.entry_span (omega arith) (omega arith) e in
                let bound : end ≤ length entries = ground arith in
                let count : end % 2 ^ 32 - r.first_entry_index ≡ r.entry_span = omega arith in
                (
                  (
                    ground arith,
                    omega arith,
                    subst
                        (λ n.
                          All (λ e. e.path_hash64 ≡ r.path_hash64)
                            (take n (drop r.first_entry_index entries)))
                        count (all_hash-All r.path_hash64 _ same),
                  ),
                  validate_ranges-Covers entries rs false r.path_hash64 small ts h6,
                )

-- In an index whose fields fit their types and that `validateDirIndexV1` accepts, every range spans
-- at least one entry, ends within the entries, and all its entries have its hash: a lookup by hash
-- cannot read out of bounds.
pub validate_index-Covers :
    (idx : DirIndexV1)
    → IsIndex idx
    → validate_index idx ≡ ok tt
    → All (Covers idx.entries) idx.hash_ranges
unfolding validate_index
validate_index-Covers idx t h = ok-then (validate_rows true 0 idx.entries) _ h λ _ _ h1.
    ok-then (validate_ranges idx.entries true 0 idx.hash_ranges) _ h1 λ used h2 _.
      validate_ranges-Covers idx.entries idx.hash_ranges true 0 t.entries_u32 t.ranges h2
