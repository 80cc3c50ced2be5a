-- ===== src/Fbx/Container/Loaded.antt =====
-- A container answers the same before and after its entries are loaded.
use go_fbx.Base.{◌≡◌, refl, sym, ◌∙◌, ap, ap₂, inl, inr, none, some, arith}
use go_fbx.Base.{length, Bytes, ok, Result-cases}
use go_fbx.Format.DirIndex.{DirIndexV1}
use go_fbx.Paths.{normalize}
use go_fbx.Fbx.Tx.{Entries, lookup}
use go_fbx.Fbx.Index.{read_entries_by_dir_index, validate_entries_chunk_offsets}
use go_fbx.Fbx.Index.Lookup.{find_entry_by_path_from_dir_index}
use go_fbx.Fbx.Index.Lookup.Found.{IsReady, IsIndexOf}
use go_fbx.Fbx.Index.Eager.{find_entry_by_path-read_entries}
use go_fbx.Fbx.Container.{
  Container, with_entries, indexed_entries, ensure_entries_loaded, find_entry, stat_found,
  reader_found, stat, open_reader,
}

-- A container that still looks its entries up.
pub record IsLazy (c : Container) (f : Bytes) (idx : DirIndexV1) : Type 0 where
  pub file_is : c.file ≡ some f
  pub no_entries : c.entries ≡ none
  pub index_is : c.lazy_dir_index ≡ some idx
  pub ready : IsReady idx
  pub index_of : IsIndexOf c.lazy_dir_blob idx

indexed_entries-read :
    (f : Bytes) (c : Container) (idx : DirIndexV1) {es : Entries}
    → indexed_entries f c idx ≡ ok es
    → read_entries_by_dir_index c.lazy_dir_blob c.header idx ≡ ok es
indexed_entries-read f c idx h =
    elim (Result-cases (read_entries_by_dir_index c.lazy_dir_blob c.header idx)) [
      | inr (x, q) ↦ absurd (ground arith)
      | inl (es0, q) ↦ elim (Result-cases (validate_entries_chunk_offsets es0 (length f))) [
        | inr (x, p) ↦ absurd (ground arith)
        | inl (u, p) ↦ ground arith
      ]
    ]

-- Loading keeps everything but the entries, which are those of the index.
loaded :
    (c : Container) (f : Bytes) (idx : DirIndexV1) {c' : Container}
    → IsLazy c f idx
    → ensure_entries_loaded c ≡ (c', ok tt)
    → (es : Entries) × (read_entries_by_dir_index c.lazy_dir_blob c.header idx ≡ ok es)
      × (c' ≡ with_entries c es)
unfolding ensure_entries_loaded
loaded c f idx l h =
    let file_is = l.file_is in
    let no_entries = l.no_entries in
    let index_is = l.index_is in
    elim (Result-cases (indexed_entries f c idx)) [
      | inr (x, q) ↦ absurd (ground arith)
      | inl (es, q) ↦ (es, indexed_entries-read f c idx q, ground arith)
    ]

find_entry-lazy :
    (c : Container) (idx : DirIndexV1) (norm : Bytes)
    → c.entries ≡ none
    → c.lazy_dir_index ≡ some idx
    → find_entry c norm ≡ find_entry_by_path_from_dir_index c.lazy_dir_blob (some idx) norm
unfolding find_entry
find_entry-lazy c idx norm e i = ground arith

find_entry-with_entries :
    (c : Container) (es : Entries) (norm : Bytes)
    → find_entry (with_entries c es) norm ≡ ok (lookup norm es)
unfolding find_entry
find_entry-with_entries c es norm = refl

-- Containers with the same file and options that find the same entries answer the same.
same_answers :
    (c c' : Container) (path : Bytes)
    → c'.file ≡ c.file
    → c'.opts ≡ c.opts
    → ((norm : Bytes) → find_entry c' norm ≡ find_entry c norm)
    → (stat c' path ≡ stat c path) × (open_reader c' path ≡ open_reader c path)
unfolding stat open_reader
same_answers c c' path file_is opts_is found = elim (Result-cases (normalize path)) [
  | inr (x, p) ↦ (rw (p, stat) refl, rw (p, open_reader) refl)
  | inl (norm, p) ↦ (
    rw (p, stat) (ap₂ stat_found file_is (found norm)),
    rw (p, open_reader)
        (ap (λ o. reader_found o c'.file (find_entry c' norm)) opts_is
          ∙ ap₂ (λ a b. reader_found c.opts a b) file_is (found norm)),
  )
]

-- Of an open container that looks its entries up in an index whose ranges ascend, span rows with
-- their hash and cover all rows, and whose rows are the places of entries with their hash: once
-- `ensureEntriesLoadedLocked` has loaded the entries without an error, Stat and `OpenReader` answer
-- for every path what they answered before.
pub stat-ensure_entries_loaded :
    (c : Container) (f path : Bytes) (idx : DirIndexV1) {c' : Container}
    → IsLazy c f idx
    → ensure_entries_loaded c ≡ (c', ok tt)
    → (stat c' path ≡ stat c path) × (open_reader c' path ≡ open_reader c path)
stat-ensure_entries_loaded c f path idx l h =
    let (es, read, is) = loaded c f idx l h in
    same_answers c _ path (ap (λ t. t.file) is) (ap (λ t. t.opts) is) (λ norm.
      ap (λ t. find_entry t norm) is
      ∙ find_entry-with_entries c es norm
      ∙ sym (
          find_entry-lazy c idx norm l.no_entries l.index_is
          ∙ find_entry_by_path-read_entries c.lazy_dir_blob c.header idx norm l.ready l.index_of
              read))
