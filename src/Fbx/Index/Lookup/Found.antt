-- ===== src/Fbx/Index/Lookup/Found.antt =====
-- The lookup by hash finds what a search through all rows of the index finds.
use go_fbx.Base.{
  ℕ, zero, suc, ◌+◌, ◌-◌, ◌^◌, ◌<◌, ◌≤◌, ◌≡◌, sym, ◌∙◌, ap, subst, inl, inr, Bool-cases, some,
  arith,
}
use go_fbx.Base.{List, [], ◌∷◌, length, take, drop, drop-at, get_elem?, ltb, ltb→lt, All}
use go_fbx.Base.{Bytes, ok-injective, ok}
use go_fbx.Format.Types.{EntryV1}
use go_fbx.Format.Hash.{fnv1a64}
use go_fbx.Format.Directory.Entry.{decode_directory_entry_at}
use go_fbx.Format.DirIndex.{DirIndexEntryV1, DirIndexHashRangeV1, DirIndexV1, validate_index}
use go_fbx.Format.DirIndex.RoundTrip.{IsIndex}
use go_fbx.Format.DirIndex.Validate.{Covers, validate_index-Covers}
use go_fbx.Fbx.Index.Search.{search, IsBoundary, IsUpward, search-IsBoundary}
use go_fbx.Fbx.Index.Lookup.{hash_from, find_entry_by_path_from_dir_index}
use go_fbx.Fbx.Index.Lookup.Ranges.{
  Spans, Ascends, All-get, get_elem?-drop, get_elem?-take, validate_index-Ascends, Ascends-get,
  Ascends-drop,
}
use go_fbx.Fbx.Index.Lookup.Loops.{Decodes, Finds, find_range-RangesFind}

Ascends-le :
    (lo : ℕ) (rs : List DirIndexHashRangeV1) (a b : ℕ) {x y : DirIndexHashRangeV1}
    → Ascends lo rs
    → get_elem? rs a ≡ some x
    → get_elem? rs b ≡ some y
    → a ≤ b
    → x.path_hash64 ≤ y.path_hash64
Ascends-le lo [] a b h p q k = absurd (ground arith)
Ascends-le lo (r ∷ rs) zero zero {x} {y} h p q k =
    let same : x ≡ y = ground arith in subst (λ t. x.path_hash64 ≤ t.path_hash64) same (omega arith)
Ascends-le lo (r ∷ rs) zero (suc b) {x} {y} h p q k =
    let same : r ≡ x = ground arith in
    subst (λ t. t.path_hash64 ≤ y.path_hash64) same (Ascends-get r.path_hash64 rs b h.1 q)
Ascends-le lo (r ∷ rs) (suc a) zero h p q k = absurd (omega arith)
Ascends-le lo (r ∷ rs) (suc a) (suc b) h p q k =
    Ascends-le r.path_hash64 rs a b h.1 p q (omega arith)

All-drop :
    (P : DirIndexHashRangeV1 → Type 0) (n : ℕ) (rs : List DirIndexHashRangeV1)
    → All P rs
    → All P (drop n rs)
All-drop P zero rs h = h
All-drop P (suc n) [] h = tt
All-drop P (suc n) (r ∷ rs) (a, h) = All-drop P n rs h

hash_from-IsUpward :
    (rs : List DirIndexHashRangeV1) (hash : ℕ)
    → Ascends 0 rs
    → IsUpward (length rs) (hash_from rs hash)
hash_from-IsUpward rs hash h a b k inside holds = elim (drop-at a rs) [
  | inl (past, nothing) ↦ absurd (ground arith)
  | inr (x, p, at_a, dropped) ↦ elim (drop-at b rs) [
    | inl (past, nothing) ↦ absurd (ground arith)
    | inr (y, q, at_b, dropped_b) ↦ ground (arith, Ascends-le 0 rs a b h at_a at_b k)
  ]
]

-- From the boundary on, the ranges have at least the hash.
boundary-Ascends :
    (rs : List DirIndexHashRangeV1) (hash pos : ℕ)
    → Ascends 0 rs
    → IsBoundary (length rs) (hash_from rs hash) pos
    → Ascends hash (drop pos rs)
boundary-Ascends rs hash pos h (within, below, from) = elim (drop-at pos rs) [
  | inl (past, nothing) ↦ rw nothing tt
  | inr (x, inside, at, dropped) ↦
      let up = subst (λ t. Ascends 0 t) dropped (Ascends-drop 0 pos rs h) in
      rw dropped (ground (arith, from pos (omega arith) (ltb→lt pos (length rs) inside)), up.1)
]

-- A range with the hash does not stand in front of the boundary.
boundary-le :
    (rs : List DirIndexHashRangeV1) (hash pos k : ℕ) {range : DirIndexHashRangeV1}
    → IsBoundary (length rs) (hash_from rs hash) pos
    → get_elem? rs k ≡ some range
    → range.path_hash64 ≡ hash
    → pos ≤ k
boundary-le rs hash pos k (within, below, from) at is = elim (Bool-cases (ltb k pos)) [
  | inr later ↦ ground arith
  | inl before ↦ absurd (ground (arith, below k (ltb→lt k pos before)))
]

Covers-hash :
    (entries : List DirIndexEntryV1) (range : DirIndexHashRangeV1) (i : ℕ) {row : DirIndexEntryV1}
    → Covers entries range
    → range.first_entry_index ≤ i
    → i < range.first_entry_index + range.entry_span
    → get_elem? entries i ≡ some row
    → row.path_hash64 ≡ range.path_hash64
Covers-hash entries range i (some_span, bound, same) lo hi q =
    All-get (λ e. e.path_hash64 ≡ range.path_hash64)
      (take range.entry_span (drop range.first_entry_index entries)) (i - range.first_entry_index)
      same
      (get_elem?-take range.entry_span (drop range.first_entry_index entries)
          (i - range.first_entry_index) (omega arith)
        ∙ (get_elem?-drop range.first_entry_index entries (i - range.first_entry_index)
            ∙ (let back : range.first_entry_index + (i - range.first_entry_index) ≡ i =
                  omega arith in
                ap (λ m. get_elem? entries m) back ∙ q)))

-- Every row is in a range.
abbrev pub IsCovered : DirIndexV1 → Type 0
IsCovered idx =
    (i : ℕ) (row : DirIndexEntryV1)
    → get_elem? idx.entries i ≡ some row
    → (k : ℕ) × (range : DirIndexHashRangeV1) × (get_elem? idx.hash_ranges k ≡ some range)
      × (range.first_entry_index ≤ i)
      × (i < range.first_entry_index + range.entry_span)

-- Every row is the place of an entry, and has the hash of its path.
abbrev pub IsIndexOf : Bytes → DirIndexV1 → Type 0
IsIndexOf blob idx =
    (i : ℕ) (row : DirIndexEntryV1)
    → get_elem? idx.entries i ≡ some row
    → (e : EntryV1) × (decode_directory_entry_at blob row.dir_entry_offset row.dir_entry_size
        ≡ ok e)
      × (row.path_hash64 ≡ fnv1a64 e.path)

-- What a lookup needs of an index.
pub record IsReady (idx : DirIndexV1) : Type 0 where
  pub entries_u32 : length idx.entries < 2 ^ 32
  pub ascends : Ascends 0 idx.hash_ranges
  pub spans : All (Spans idx.entries) idx.hash_ranges
  pub covered : IsCovered idx

-- find
pub find_entry_by_path-Finds :
    (blob : Bytes) (idx : DirIndexV1) (path : Bytes)
    → IsReady idx
    → IsIndexOf blob idx
    → Finds blob path idx.entries (find_entry_by_path_from_dir_index blob (some idx) path)
unfolding find_entry_by_path_from_dir_index
find_entry_by_path-Finds blob idx path t of =
    let hash = fnv1a64 path in
    let rs = idx.hash_ranges in
    let pos = search (length rs) (hash_from rs hash) in
    let boundary =
      search-IsBoundary (length rs) (hash_from rs hash) (hash_from-IsUpward rs hash t.ascends) in
    let decodes : Decodes blob path idx.entries =
      λ i row q. let (e, dec, h) = of i row q in (e, dec) in
    elim (find_range-RangesFind blob path idx.entries hash (drop pos rs) t.entries_u32 decodes
      (All-drop (Spans idx.entries) pos rs t.spans)
      (boundary-Ascends rs hash pos t.ascends boundary)) [
        | inr found ↦ inr found
        | inl (answer, without) ↦ inl (
          answer,
          λ i row e q dec has.
              let (k, range, at, lo, hi) = t.covered i row q in
              let (e', dec', row_hash) = of i row q in
              let same : e' ≡ e = ok-injective (sym dec' ∙ dec) in
              let is : range.path_hash64 ≡ hash =
                sym ((All-get (Spans idx.entries) rs k t.spans at).2 i row lo hi q)
                ∙ (row_hash ∙ ap fnv1a64 (ap (λ z. z.path) same ∙ has)) in
              let behind = boundary-le rs hash pos k boundary at is in
              without (k - pos) range
                (get_elem?-drop pos rs (k - pos)
                  ∙ (let back : pos + (k - pos) ≡ k = omega arith in
                      ap (λ m. get_elem? rs m) back ∙ at))
                is i row e (lo, hi) q dec has,
        )
      ]

Covers-Spans :
    (entries : List DirIndexEntryV1) (ranges : List DirIndexHashRangeV1)
    → All (Covers entries) ranges
    → All (Spans entries) ranges
Covers-Spans entries [] h = tt
Covers-Spans entries (r ∷ rs) (c, cs) =
    ((c.0, c.1, λ i row lo hi q. Covers-hash entries r i c lo hi q), Covers-Spans entries rs cs)

-- An index that is accepted and covers its rows is ready.
pub validate_index-IsReady :
    (idx : DirIndexV1) → IsIndex idx → validate_index idx ≡ ok tt → IsCovered idx → IsReady idx
validate_index-IsReady idx t valid covered = record {
  entries_u32 = t.entries_u32;
  ascends = validate_index-Ascends idx valid;
  spans = Covers-Spans idx.entries idx.hash_ranges (validate_index-Covers idx t valid);
  covered = covered;
}
