-- ===== src/Fbx/Index/Eager.antt =====
-- The entries that `readEntriesByDirIndex` reads are those that the lookup by hash finds.
use go_fbx.Base.{
  ℕ, zero, suc, ◌≡◌, ◌≢◌, refl, sym, ◌∙◌, ap, subst, inl, inr, Option-cases, none, some, arith,
}
use go_fbx.Base.{List, [], ◌∷◌, get_elem?, Bytes, equal_iff, Result, ok, ok-injective, Result-cases}
use go_fbx.Format.Types.{EntryV1}
use go_fbx.Format.Directory.Entry.{decode_directory_entry_at}
use go_fbx.Format.DirIndex.{DirIndexEntryV1, DirIndexV1}
use go_fbx.Format.Header.{HeaderV1}
use go_fbx.Fbx.Tx.{Entries, lookup, assign}
use go_fbx.Fbx.Tx.Many.{lookup-assign}
use go_fbx.Fbx.Index.{
  read_row, read_rows_loop, read_entries_by_dir_index, validate_directory_blob_envelope,
}
use go_fbx.Fbx.Index.Lookup.{find_entry_by_path_from_dir_index}
use go_fbx.Fbx.Index.Lookup.Found.{IsReady, IsIndexOf, find_entry_by_path-Finds}

module _ (blob : Bytes) where
  abbrev decoded : DirIndexEntryV1 → Result EntryV1
  decoded row = decode_directory_entry_at blob row.dir_entry_offset row.dir_entry_size

  read_row-decode :
      (row : DirIndexEntryV1) {e : EntryV1} → read_row blob row ≡ ok e → decoded row ≡ ok e
  unfolding read_row
  read_row-decode row h = elim (Result-cases (decoded row)) [
    | inr (x, q) ↦ absurd (ground arith)
    | inl (e0, q) ↦ ground arith
  ]

  -- What a loop over the rows adds to a map.
  record Adds (rows : List DirIndexEntryV1) (es es' : Entries) : Type 0 where
    keeps : (k : Bytes) (e : EntryV1) → lookup k es ≡ some e → lookup k es' ≡ some e
    has :
        (i : ℕ) (row : DirIndexEntryV1) (e : EntryV1)
        → get_elem? rows i ≡ some row
        → decoded row ≡ ok e
        → lookup e.path es' ≡ some e
    only :
        (k : Bytes)
        → lookup k es ≡ none
        → ((i : ℕ) (row : DirIndexEntryV1) (e : EntryV1)
            → get_elem? rows i ≡ some row
            → decoded row ≡ ok e
            → e.path ≢ k)
        → lookup k es' ≡ none

  has-cons :
      (row : DirIndexEntryV1) (rows : List DirIndexEntryV1) (es es' : Entries) (e : EntryV1)
      → decoded row ≡ ok e
      → Adds rows (assign e.path e es) es'
      → (i : ℕ) (r : DirIndexEntryV1) (e' : EntryV1) → get_elem? (row ∷ rows) i ≡ some r
      → decoded r ≡ ok e'
      → lookup e'.path es' ≡ some e'
  has-cons row rows es es' e dec a zero r e' at dec' =
      let same_row : row ≡ r = ground arith in
      let same : e ≡ e' = ok-injective (sym dec ∙ ap (λ t. decoded t) same_row ∙ dec') in
      subst (λ t. lookup t.path es' ≡ some t) same
        (a.keeps e.path e
          (ground (arith, lookup-assign e.path e.path e es, equal_iff e.path e.path)))
  has-cons row rows es es' e dec a (suc i) r e' at dec' = a.has i r e' at dec'

  Adds-cons :
      (row : DirIndexEntryV1) (rows : List DirIndexEntryV1) (es es' : Entries) (e : EntryV1)
      → decoded row ≡ ok e
      → lookup e.path es ≡ none
      → Adds rows (assign e.path e es) es'
      → Adds (row ∷ rows) es es'
  Adds-cons row rows es es' e dec fresh a = record {
    keeps =
        λ k e' q. a.keeps k e' (ground (arith, lookup-assign k e.path e es, equal_iff k e.path));
    has = λ i r e' at dec'. has-cons row rows es es' e dec a i r e' at dec';
    only = λ k q without.
        a.only k
          (ground
            (arith, lookup-assign k e.path e es, equal_iff k e.path, without 0 row e refl dec))
          (λ i r e' at. without (suc i) r e' at);
  }

  read_rows_loop-Adds :
      (rows : List DirIndexEntryV1) (es es' : Entries)
      → read_rows_loop blob rows es ≡ ok es'
      → Adds rows es es'
  unfolding read_rows_loop
  read_rows_loop-Adds [] es es' h =
      let same : es ≡ es' = ground arith in
      record {
        keeps = λ k e q. subst (λ t. lookup k t ≡ some e) same q;
        has = λ i row e at. absurd (ground arith);
        only = λ k q without. subst (λ t. lookup k t ≡ none) same q;
      }
  read_rows_loop-Adds (row ∷ rows) es es' h = elim (Result-cases (read_row blob row)) [
    | inr (x, q) ↦ absurd (ground arith)
    | inl (e, q) ↦ elim (Option-cases (lookup e.path es)) [
      | inr (old, p) ↦ absurd (ground arith)
      | inl fresh ↦
          let rest : read_rows_loop blob rows (assign e.path e es) ≡ ok es' = ground arith in
          Adds-cons row rows es es' e (read_row-decode row q) fresh
            (read_rows_loop-Adds rows (assign e.path e es) es' rest)
    ]
  ]

  read_entries-loop :
      (h : HeaderV1) (idx : DirIndexV1) {es : Entries}
      → read_entries_by_dir_index blob h idx ≡ ok es
      → read_rows_loop blob idx.entries [] ≡ ok es
  unfolding read_entries_by_dir_index
  read_entries-loop h idx e =
      elim (Result-cases (validate_directory_blob_envelope blob h.dir_crc32 h.dir_size)) [
        | inr (x, q) ↦ absurd (ground arith)
        | inl (n, q) ↦ ground arith
      ]

  -- eager
  pub find_entry_by_path-read_entries :
      (h : HeaderV1) (idx : DirIndexV1) (path : Bytes) {es : Entries}
      → IsReady idx
      → IsIndexOf blob idx
      → read_entries_by_dir_index blob h idx ≡ ok es
      → find_entry_by_path_from_dir_index blob (some idx) path ≡ ok (lookup path es)
  unfolding lookup
  find_entry_by_path-read_entries h idx path {es} ready of e =
      let a = read_rows_loop-Adds idx.entries [] es (read_entries-loop h idx e) in
      elim (find_entry_by_path-Finds blob idx path ready of) [
        | inl (answer, without) ↦ answer ∙ ap (λ t. ok t) (sym (a.only path refl without))
        | inr (e', i, row, answer, at, (dec, has)) ↦
            answer ∙ ap (λ t. ok t) (sym (ap (λ t. lookup t es) (sym has) ∙ a.has i row e' at dec))
      ]
