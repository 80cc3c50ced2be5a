-- ===== src/Fbx/Index/Lookup/Loops.antt =====
-- The two loops of the lookup, over the ranges from a place on.
use go_fbx.Base.{
  ℕ, zero, suc, ◌+◌, ◌-◌, ◌%◌, ◌^◌, ◌<◌, ◌≤◌, ◌≡◌, ◌≢◌, refl, sym, ◌∙◌, ap, subst, inl, inr, ◌⊎◌,
  Bool-cases, true, false, Option, none, some, arith,
}
use go_fbx.Base.{List, [], ◌∷◌, length, take, drop, get_elem?, le→leb, ◌==◌, ==_iff, All}
use go_fbx.Base.{Bytes, equal, equal_iff, ok-injective, Result, ok}
use go_fbx.Format.Types.{EntryV1}
use go_fbx.Format.Checked.{add_uint64-fits}
use go_fbx.Format.Directory.Entry.{decode_directory_entry_at}
use go_fbx.Format.DirIndex.{DirIndexEntryV1, DirIndexHashRangeV1}
use go_fbx.Fbx.Index.Lookup.{find_row, find_range}
use go_fbx.Fbx.Index.Lookup.Ranges.{
  Spans, Ascends, get_elem?-drop, get_elem?-take, get_elem?-take_inside, Ascends-get, Ascends-lower,
}

module _ (blob : Bytes) (path : Bytes) where
  -- The entry at the place of a row has the path.
  abbrev pub Has : DirIndexEntryV1 → EntryV1 → Type 0
  Has row e =
      (decode_directory_entry_at blob row.dir_entry_offset row.dir_entry_size ≡ ok e)
      × (e.path ≡ path)

  -- Every row is the place of an entry.
  abbrev pub Decodes : List DirIndexEntryV1 → Type 0
  Decodes rows =
      (i : ℕ) (row : DirIndexEntryV1)
      → get_elem? rows i ≡ some row
      → (e : EntryV1) × (decode_directory_entry_at blob row.dir_entry_offset row.dir_entry_size
          ≡ ok e)

  abbrev pub NoneIn : List DirIndexEntryV1 → Type 0
  NoneIn rows =
      (i : ℕ) (row : DirIndexEntryV1) (e : EntryV1)
      → get_elem? rows i ≡ some row
      → decode_directory_entry_at blob row.dir_entry_offset row.dir_entry_size ≡ ok e
      → e.path ≢ path

  pub NoneIn-cons :
      (row : DirIndexEntryV1) (rows : List DirIndexEntryV1) (e : EntryV1)
      → decode_directory_entry_at blob row.dir_entry_offset row.dir_entry_size ≡ ok e
      → equal e.path path ≡ false
      → NoneIn rows
      → NoneIn (row ∷ rows)
  NoneIn-cons row rows e decoded other h zero r e' q dec has =
      let same_row : row ≡ r = ground arith in
      let same : ok e ≡ ok e' =
        sym decoded
        ∙ ap (λ t. decode_directory_entry_at blob t.dir_entry_offset t.dir_entry_size) same_row
        ∙ dec in
      let found : equal e.path path ≡ true =
        (equal_iff e.path path).1 (ap (λ t. t.path) (ok-injective same) ∙ has) in
      ground arith
  NoneIn-cons row rows e decoded other h (suc i) r e' q dec has = h i r e' q dec has

  -- The answer `none` means that no row has the path, an entry is that of a row with the path.
  abbrev pub Finds : List DirIndexEntryV1 → Result (Option EntryV1) → Type 0
  Finds rows answer =
      ((answer ≡ ok none) × NoneIn rows)
      ⊎ ((e : EntryV1) × (i : ℕ) × (row : DirIndexEntryV1) × (answer ≡ ok (some e))
          × (get_elem? rows i ≡ some row)
          × Has row e)

  pub find_row-Finds :
      (rows : List DirIndexEntryV1) → Decodes rows → Finds rows (find_row blob path rows)
  unfolding find_row
  find_row-Finds [] d = inl (refl, λ i row e q. absurd (ground arith))
  find_row-Finds (row ∷ rows) d =
      let (e, decoded) = d 0 row refl in
      elim (Bool-cases (equal e.path path)) [
        | inl same ↦ inr (e, 0, row, ground arith, refl, (decoded, (equal_iff e.path path).0 same))
        | inr other ↦ elim (find_row-Finds rows (λ i r q. d (suc i) r q)) [
          | inl (answer, without) ↦ inl (ground arith, NoneIn-cons row rows e decoded other without)
          | inr (found, i, r, answer, at, has) ↦ inr (found, suc i, r, ground arith, at, has)
        ]
      ]

  -- A row that a range names.
  abbrev pub InRange : DirIndexHashRangeV1 → ℕ → Type 0
  InRange range i = (range.first_entry_index ≤ i) × (i < range.first_entry_index + range.entry_span)

  pub find_row-InRange :
      (entries : List DirIndexEntryV1) (range : DirIndexHashRangeV1)
      → Decodes entries
      → (let answer =
            find_row blob path (take range.entry_span (drop range.first_entry_index entries)) in
          ((answer ≡ ok none)
            × ((i : ℕ) (row : DirIndexEntryV1) (e : EntryV1)
                → InRange range i
                → get_elem? entries i ≡ some row
                → decode_directory_entry_at blob row.dir_entry_offset row.dir_entry_size ≡ ok e
                → e.path ≢ path))
          ⊎ ((e : EntryV1) × (i : ℕ) × (row : DirIndexEntryV1) × (answer ≡ ok (some e))
              × (get_elem? entries i ≡ some row)
              × Has row e))
  find_row-InRange entries range d =
      let rows = take range.entry_span (drop range.first_entry_index entries) in
      let places : (j : ℕ) (row : DirIndexEntryV1)
          → get_elem? rows j ≡ some row
          → get_elem? entries (range.first_entry_index + j) ≡ some row =
        λ j row q.
          sym (get_elem?-drop range.first_entry_index entries j)
          ∙ (sym (
                get_elem?-take range.entry_span (drop range.first_entry_index entries) j (
                  get_elem?-take_inside range.entry_span (drop range.first_entry_index entries) j
                    q))
              ∙ q) in
      elim (find_row-Finds rows (λ j row q. d (range.first_entry_index + j) row (places j row q))) [
        | inr (e, j, row, answer, at, has) ↦
            inr (e, range.first_entry_index + j, row, answer, places j row at, has)
        | inl (answer, without) ↦ inl (
          answer,
          λ i row e (lo, hi) q dec.
              without (i - range.first_entry_index) row e
                (get_elem?-take range.entry_span (drop range.first_entry_index entries)
                    (i - range.first_entry_index) (omega arith)
                  ∙ (get_elem?-drop range.first_entry_index entries (i - range.first_entry_index)
                      ∙ (let back : range.first_entry_index + (i - range.first_entry_index) ≡ i =
                            omega arith in
                          ap (λ m. get_elem? entries m) back ∙ q)))
                dec,
        )
      ]

  abbrev pub NoneInRange : List DirIndexEntryV1 → DirIndexHashRangeV1 → Type 0
  NoneInRange entries range =
      (i : ℕ) (row : DirIndexEntryV1) (e : EntryV1)
      → InRange range i
      → get_elem? entries i ≡ some row
      → decode_directory_entry_at blob row.dir_entry_offset row.dir_entry_size ≡ ok e
      → e.path ≢ path

  pub find_range_step :
      (entries : List DirIndexEntryV1) (hash : ℕ) (r : DirIndexHashRangeV1)
      (rs : List DirIndexHashRangeV1) (found : Option EntryV1)
      → length entries < 2 ^ 32
      → Spans entries r
      → r.path_hash64 ≡ hash
      → find_row blob path (take r.entry_span (drop r.first_entry_index entries)) ≡ ok found
      → find_range blob entries path hash (r ∷ rs)
        ≡ (elim found [ some e ↦ ok (some e) | none ↦ find_range blob entries path hash rs ])
  unfolding find_range
  find_range_step entries hash r rs found small (some_span, bound, same) is answer =
      let count : (r.first_entry_index + r.entry_span) % 2 ^ 32 - r.first_entry_index
          ≡ r.entry_span =
        omega arith in
      rw
        (
          (==_iff r.path_hash64 hash).1 is,
          add_uint64-fits r.first_entry_index r.entry_span (omega arith),
          le→leb (r.first_entry_index + r.entry_span) (length entries) bound,
          count,
          answer,
          find_range,
        )
        refl

  -- An answer for the ranges from a place on.
  abbrev pub RangesFind :
      List DirIndexEntryV1 → ℕ → List DirIndexHashRangeV1 → Result (Option EntryV1) → Type 0
  RangesFind entries hash rs answer =
      ((answer ≡ ok none)
        × ((k : ℕ) (range : DirIndexHashRangeV1)
            → get_elem? rs k ≡ some range
            → range.path_hash64 ≡ hash
            → NoneInRange entries range))
      ⊎ ((e : EntryV1) × (i : ℕ) × (row : DirIndexEntryV1) × (answer ≡ ok (some e))
          × (get_elem? entries i ≡ some row)
          × Has row e)

  pub without-cons :
      (entries : List DirIndexEntryV1) (hash : ℕ) (r : DirIndexHashRangeV1)
      (rs : List DirIndexHashRangeV1)
      → (r.path_hash64 ≡ hash → NoneInRange entries r)
      → ((k : ℕ) (range : DirIndexHashRangeV1)
          → get_elem? rs k ≡ some range
          → range.path_hash64 ≡ hash
          → NoneInRange entries range)
      → (k : ℕ) (range : DirIndexHashRangeV1) → get_elem? (r ∷ rs) k ≡ some range
      → range.path_hash64 ≡ hash
      → NoneInRange entries range
  without-cons entries hash r rs here later zero range q is =
      let same : r ≡ range = ground arith in
      subst (λ t. NoneInRange entries t) same (here (ap (λ t. t.path_hash64) same ∙ is))
  without-cons entries hash r rs here later (suc k) range q is = later k range q is

  pub find_range-RangesFind :
      (entries : List DirIndexEntryV1) (hash : ℕ) (rs : List DirIndexHashRangeV1)
      → length entries < 2 ^ 32
      → Decodes entries
      → All (Spans entries) rs
      → Ascends hash rs
      → RangesFind entries hash rs (find_range blob entries path hash rs)
  find_range-RangesFind entries hash [] small d c a =
      inl (unfold find_range in refl, λ k range q. absurd (ground arith))
  find_range-RangesFind entries hash (r ∷ rs) small d (c, cs) (a, as') =
      elim (Bool-cases (r.path_hash64 == hash)) [
        | inr other ↦ inl (
          unfold find_range in rw (other, find_range) refl,
          without-cons entries hash r rs (λ is. absurd (ground arith))
              (λ k range q is. absurd (ground (arith, Ascends-get r.path_hash64 rs k as' q))),
        )
        | inl same ↦
            let is = (==_iff r.path_hash64 hash).0 same in
            elim (find_row-InRange entries r d) [
              | inr (e, i, row, answer, at, has) ↦
                  inr (
                    e,
                    i,
                    row,
                    find_range_step entries hash r rs (some e) small c is answer,
                    at,
                    has,
                  )
              | inl (answer, without) ↦
                  let step = find_range_step entries hash r rs none small c is answer in
                  elim (find_range-RangesFind entries hash rs small d cs
                    (Ascends-lower hash r.path_hash64 rs a as')) [
                      | inr (e, i, row, later, at, has) ↦ inr (e, i, row, step ∙ later, at, has)
                      | inl (later, none_later) ↦
                          inl
                            (step ∙ later, without-cons entries hash r rs (λ _. without) none_later)
                    ]
            ]
      ]
