-- ===== src/Fbx/Index/Build.antt =====
-- The ranges that `buildDirIndexHashRanges` makes are what a lookup needs.
use go_fbx.Base.{
  ℕ, suc, ◌+◌, ◌%◌, ◌^◌, ◌<◌, ◌≤◌, ◌≡◌, refl, sym, ◌∙◌, ap, subst, inl, inr, ◌⊎◌, Bool-cases, Bool,
  ◌&&◌, ◌||◌, some, arith,
}
use go_fbx.Base.{
  List, [], ◌∷◌, ◌++◌, append_assoc, length, length-append, get_elem?, get_elem?-past, ltb, ◌==◌,
  ==_iff, All,
}
use go_fbx.Base.{Bytes}
use go_fbx.Format.DirIndex.{DirIndexEntryV1, DirIndexHashRangeV1, DirIndexV1}
use go_fbx.Fbx.Index.{
  numbered, insert_by_hash, sort_by_hash, group, groups, build_dir_index_hash_ranges,
}
use go_fbx.Fbx.Index.Lookup.Ranges.{Spans, Ascends}
use go_fbx.Fbx.Index.Lookup.Found.{IsReady, IsIndexOf, find_entry_by_path-Finds}
use go_fbx.Fbx.Index.Lookup.Loops.{Finds}
use go_fbx.Fbx.Index.Lookup.{find_entry_by_path_from_dir_index}

-- A hash with the index of a row that has it.
abbrev IsAt : List DirIndexEntryV1 → ℕ × ℕ → Type 0
IsAt rows a = (row : DirIndexEntryV1) × (get_elem? rows a.1 ≡ some row) × (row.path_hash64 ≡ a.0)

abbrev Occurs : ℕ → List (ℕ × ℕ) → Type 0
Occurs i [] = ⊥
Occurs i (a ∷ rest) = (a.1 ≡ i) ⊎ Occurs i rest

abbrev Rises : ℕ → List (ℕ × ℕ) → Type 0
Rises lo [] = Unit
Rises lo (a ∷ rest) = (lo ≤ a.0) × Rises a.0 rest

get_elem?-at_end :
    (xs : List DirIndexEntryV1) (x : DirIndexEntryV1) (ys : List DirIndexEntryV1)
    → get_elem? (xs ++ x ∷ ys) (length xs) ≡ some x
get_elem?-at_end [] x ys = refl
get_elem?-at_end (y ∷ xs) x ys = get_elem?-at_end xs x ys

numbered-IsAt :
    (front rows : List DirIndexEntryV1) (n : ℕ)
    → n ≡ length front
    → All (IsAt (front ++ rows)) (numbered n rows)
numbered-IsAt front [] n e = tt
numbered-IsAt front (row ∷ rows) n e = (
  (row, ap (λ k. get_elem? (front ++ row ∷ rows) k) e ∙ get_elem?-at_end front row rows, refl),
  subst (λ t. All (IsAt t) (numbered (n + 1) rows)) (append_assoc front (row ∷ []) rows)
      (numbered-IsAt (front ++ row ∷ []) rows (n + 1)
        (omega (arith, length-append front (row ∷ [])))),
)

numbered-Occurs :
    (rows : List DirIndexEntryV1) (n i : ℕ)
    → n ≤ i
    → i < n + length rows
    → Occurs i (numbered n rows)
numbered-Occurs [] n i h k = absurd (omega arith)
numbered-Occurs (row ∷ rows) n i h k = elim (Bool-cases (n == i)) [
  | inl same ↦ inl ((==_iff n i).0 same)
  | inr other ↦ inr (numbered-Occurs rows (n + 1) i (ground arith) (omega arith))
]

-- The order of the sort.
abbrev precedes : ℕ × ℕ → ℕ × ℕ → Bool
precedes b a = ltb b.0 a.0 || b.0 == a.0 && ltb b.1 a.1

insert_by_hash-All :
    (P : ℕ × ℕ → Type 0) (a : ℕ × ℕ) (l : List (ℕ × ℕ)) → P a → All P l → All P (insert_by_hash a l)
unfolding insert_by_hash
insert_by_hash-All P a [] h hs = (h, tt)
insert_by_hash-All P a (b ∷ l) h (k, ks) = elim (Bool-cases (precedes b a)) [
  | inl first ↦ rw (first, insert_by_hash) (k, insert_by_hash-All P a l h ks)
  | inr last ↦ rw (last, insert_by_hash) (h, (k, ks))
]

Occurs-behind :
    (i : ℕ) (a b : ℕ × ℕ) (l inserted : List (ℕ × ℕ))
    → (Occurs i (a ∷ l) → Occurs i inserted)
    → Occurs i (a ∷ b ∷ l)
    → Occurs i (b ∷ inserted)
Occurs-behind i a b l inserted f (inl e) = inr (f (inl e))
Occurs-behind i a b l inserted f (inr (inl e)) = inl e
Occurs-behind i a b l inserted f (inr (inr o)) = inr (f (inr o))

insert_by_hash-Occurs :
    (i : ℕ) (a : ℕ × ℕ) (l : List (ℕ × ℕ)) → Occurs i (a ∷ l) → Occurs i (insert_by_hash a l)
unfolding insert_by_hash
insert_by_hash-Occurs i a [] h = h
insert_by_hash-Occurs i a (b ∷ l) h = elim (Bool-cases (precedes b a)) [
  | inr last ↦ rw (last, insert_by_hash) h
  | inl first ↦
      rw (first, insert_by_hash)
        (Occurs-behind i a b l (insert_by_hash a l) (insert_by_hash-Occurs i a l) h)
]

insert_by_hash-Rises :
    (lo : ℕ) (a : ℕ × ℕ) (l : List (ℕ × ℕ)) → lo ≤ a.0 → Rises lo l → Rises lo (insert_by_hash a l)
unfolding insert_by_hash
insert_by_hash-Rises lo a [] h k = (h, tt)
insert_by_hash-Rises lo a (b ∷ l) h (k, ks) = elim (Bool-cases (precedes b a)) [
  | inl first ↦ rw (first, insert_by_hash) (k, insert_by_hash-Rises b.0 a l (ground arith) ks)
  | inr last ↦ rw (last, insert_by_hash) (h, (ground arith, ks))
]

sort_by_hash-All : (P : ℕ × ℕ → Type 0) (l : List (ℕ × ℕ)) → All P l → All P (sort_by_hash l)
unfolding sort_by_hash
sort_by_hash-All P [] h = tt
sort_by_hash-All P (a ∷ l) (h, hs) =
    insert_by_hash-All P a (sort_by_hash l) h (sort_by_hash-All P l hs)

sort_by_hash-Rises : (l : List (ℕ × ℕ)) → Rises 0 (sort_by_hash l)
unfolding sort_by_hash
sort_by_hash-Rises [] = tt
sort_by_hash-Rises (a ∷ l) =
    insert_by_hash-Rises 0 a (sort_by_hash l) (omega arith) (sort_by_hash-Rises l)

sort_by_hash-Occurs : (i : ℕ) (l : List (ℕ × ℕ)) → Occurs i l → Occurs i (sort_by_hash l)
unfolding sort_by_hash
sort_by_hash-Occurs i [] o = elim o [ ]
sort_by_hash-Occurs i (a ∷ l) (inl e) = insert_by_hash-Occurs i a (sort_by_hash l) (inl e)
sort_by_hash-Occurs i (a ∷ l) (inr o) =
    insert_by_hash-Occurs i a (sort_by_hash l) (inr (sort_by_hash-Occurs i l o))

module _ (rows : List DirIndexEntryV1) (small : length rows < 2 ^ 32) where
  -- A row is in one of the ranges.
  abbrev InSome : List DirIndexHashRangeV1 → ℕ → Type 0
  InSome ranges i =
      (k : ℕ) × (range : DirIndexHashRangeV1) × (get_elem? ranges k ≡ some range)
      × (range.first_entry_index ≤ i)
      × (i < range.first_entry_index + range.entry_span)

  InSome-later :
      (r : DirIndexHashRangeV1) (rs : List DirIndexHashRangeV1) (i : ℕ)
      → InSome rs i
      → InSome (r ∷ rs) i
  InSome-later r rs i (k, range, at, lo, hi) = (suc k, range, at, lo, hi)

  -- What the grouping of the rows behind a range makes.
  record Grouped (lo : ℕ) (r : DirIndexHashRangeV1) (rest : List (ℕ × ℕ))
      (ranges : List DirIndexHashRangeV1) : Type 0 where
    spans : All (Spans rows) ranges
    ascends : Ascends lo ranges
    keeps :
        (i : ℕ) → r.first_entry_index ≤ i → i < r.first_entry_index + r.entry_span → InSome ranges i
    adds : (i : ℕ) → Occurs i rest → InSome ranges i

  IsAt-inside : (i : ℕ) {row : DirIndexEntryV1} → get_elem? rows i ≡ some row → i < length rows
  IsAt-inside i at = elim (Bool-cases (ltb i (length rows))) [
    | inl inside ↦ ground arith
    | inr past ↦ absurd (ground (arith, get_elem?-past i rows past))
  ]

  abbrev single : ℕ × ℕ → DirIndexHashRangeV1
  single a = record { path_hash64 = a.0; first_entry_index = a.1 % 2 ^ 32; entry_span = 1 }

  single-Spans : (a : ℕ × ℕ) → IsAt rows a → Spans rows (single a)
  single-Spans a (row, at, hash) =
      let inside = IsAt-inside a.1 at in
      (
        omega arith,
        omega arith,
        λ i row' lo hi q.
            let same : a.1 ≡ i = omega arith in
            let is : row ≡ row' = ground (arith, ap (λ m. get_elem? rows m) same) in
            ap (λ z. z.path_hash64) (sym is) ∙ hash,
      )

  joined-Spans :
      (r : DirIndexHashRangeV1) (a : ℕ × ℕ)
      → Spans rows r
      → IsAt rows a
      → a.0 ≡ r.path_hash64
      → a.1 ≡ r.first_entry_index + r.entry_span
      → Spans rows (record r { entry_span = (r.entry_span + 1) % 2 ^ 32 })
  joined-Spans r a (some_span, bound, hashes) (row, at, hash) e next =
      let inside = IsAt-inside a.1 at in
      (
        omega arith,
        omega arith,
        λ i row' lo hi q. elim (Bool-cases (ltb i (r.first_entry_index + r.entry_span))) [
          | inl old ↦ hashes i row' lo (ground arith) q
          | inr new ↦
              let same : a.1 ≡ i = ground arith in
              let is : row ≡ row' = ground (arith, ap (λ m. get_elem? rows m) same) in
              ap (λ z. z.path_hash64) (sym is) ∙ (hash ∙ e)
        ],
      )

  group-Grouped :
      (lo : ℕ) (r : DirIndexHashRangeV1) (rest : List (ℕ × ℕ))
      → lo ≤ r.path_hash64
      → Spans rows r
      → All (IsAt rows) rest
      → Rises r.path_hash64 rest
      → Grouped lo r rest (group r rest)
  unfolding group
  group-Grouped lo r [] h s ats up = record {
    spans = (s, tt);
    ascends = (h, tt);
    keeps = λ i a b. (0, r, refl, a, b);
    adds = λ i o. elim o [ ];
  }
  group-Grouped lo r (a ∷ rest) h s (at, ats) (u, up) =
      let inside = IsAt-inside a.1 at.1 in
      let bound = s.1 in
      elim (Bool-cases
        (a.0 == r.path_hash64 && a.1 % 2 ^ 32 == (r.first_entry_index + r.entry_span) % 2 ^ 32)) [
          | inl joins ↦
              let e : a.0 ≡ r.path_hash64 = ground arith in
              let next : a.1 ≡ r.first_entry_index + r.entry_span = ground arith in
              let r' : DirIndexHashRangeV1 = record r {
                entry_span = (r.entry_span + 1) % 2 ^ 32;
              } in
              let g =
                group-Grouped lo r' rest h (joined-Spans r a s at e next) ats
                  (subst (λ n. Rises n rest) e up) in
              rw (joins, group)
                (record {
                  spans = g.spans;
                  ascends = g.ascends;
                  keeps = λ i p q. g.keeps i p (omega arith);
                  adds = λ i o. elim o [
                    | inl is ↦ g.keeps i (omega arith) (omega arith)
                    | inr later ↦ g.adds i later
                  ];
                })
          | inr starts ↦
              let g = group-Grouped r.path_hash64 (single a) rest u (single-Spans a at) ats up in
              rw (starts, group)
                (record {
                  spans = (s, g.spans);
                  ascends = (h, g.ascends);
                  keeps = λ i p q. (0, r, refl, p, q);
                  adds = λ i o. elim o [
                    | inl is ↦
                        InSome-later r (group (single a) rest) i
                          (g.keeps i (omega arith) (omega arith))
                    | inr later ↦ InSome-later r (group (single a) rest) i (g.adds i later)
                  ];
                })
        ]

  record Covering (ranges : List DirIndexHashRangeV1) : Type 0 where
    spans : All (Spans rows) ranges
    ascends : Ascends 0 ranges
    covers : (i : ℕ) → i < length rows → InSome ranges i

  groups-Covering :
      (l : List (ℕ × ℕ))
      → All (IsAt rows) l
      → Rises 0 l
      → ((i : ℕ) → i < length rows → Occurs i l)
      → Covering (groups l)
  groups-Covering [] ats up all = record {
    spans = tt;
    ascends = tt;
    covers = λ i h. elim (all i h) [ ];
  }
  groups-Covering (a ∷ rest) (at, ats) (u, up) all =
      let g = group-Grouped 0 (single a) rest (omega arith) (single-Spans a at) ats up in
      let inside = IsAt-inside a.1 at.1 in
      record {
        spans = g.spans;
        ascends = g.ascends;
        covers = λ i h. elim (all i h) [
          | inl is ↦ g.keeps i (omega arith) (omega arith)
          | inr later ↦ g.adds i later
        ];
      }

-- ready
pub build_dir_index_hash_ranges-IsReady :
    (rows : List DirIndexEntryV1) (idx : DirIndexV1)
    → length rows < 2 ^ 32
    → IsReady (record idx { entries = rows; hash_ranges = build_dir_index_hash_ranges rows })
unfolding build_dir_index_hash_ranges
build_dir_index_hash_ranges-IsReady rows idx small =
    let l = sort_by_hash (numbered 0 rows) in
    let c =
      groups-Covering rows small l
        (sort_by_hash-All (IsAt rows) (numbered 0 rows) (numbered-IsAt [] rows 0 refl))
        (sort_by_hash-Rises (numbered 0 rows))
        (λ i h.
          sort_by_hash-Occurs i (numbered 0 rows)
            (numbered-Occurs rows 0 i (omega arith) (omega arith))) in
    record {
      entries_u32 = small;
      ascends = c.ascends;
      spans = c.spans;
      covered = λ i row at. c.covers i (IsAt-inside rows small i at);
    }

-- built
pub find_entry_by_path-build :
    (blob path : Bytes) (rows : List DirIndexEntryV1) (idx : DirIndexV1)
    → length rows < 2 ^ 32
    → (let built : DirIndexV1 = record idx {
      entries = rows;
      hash_ranges = build_dir_index_hash_ranges rows;
    } in
        IsIndexOf blob built
        → Finds blob path rows (find_entry_by_path_from_dir_index blob (some built) path))
find_entry_by_path-build blob path rows idx small of =
    find_entry_by_path-Finds blob
      (record idx { entries = rows; hash_ranges = build_dir_index_hash_ranges rows }) path
      (build_dir_index_hash_ranges-IsReady rows idx small) of
