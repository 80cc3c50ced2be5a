-- ===== src/Fbx/Commit/Committed.antt =====
-- What a container answers after a commit.
use go_fbx.Base.{
  refl, ◌≡◌, inl, inr, false, Option, none, some, arith, length, Bytes, Result, ok, err,
  Result-cases, Option-cases, path_invalid, not_found,
}
use go_fbx.Format.Types.{EntryV1}
use go_fbx.Paths.{normalize}
use go_fbx.Fbx.Tx.{Entries, Tx, EntryInfo, entry_info, lookup}
use go_fbx.Fbx.Container.{Container, with_entries, ensure_entries_loaded, find_entry, stat, begin}
use go_fbx.Fbx.Commit.{Clock, commit}
use go_fbx.Fbx.Commit.Parts.{commit-committed}

-- What a map holds at a path.
abbrev pub info_of : Option EntryV1 → Result EntryInfo
info_of none = err not_found
info_of (some e) = ok (entry_info e)

-- What a container with these entries says of a path.
abbrev pub answer_of : Entries → Result Bytes → Result EntryInfo
answer_of entries (err _) = err path_invalid
answer_of entries (ok norm) = info_of (lookup norm entries)

-- A transaction on a file that nothing was done to yet.
abbrev pub fresh : Entries → Bytes → Tx
fresh entries f = record {
  entries = entries;
  writer = record { file = f; append_offset = length f };
  dead_bytes = 0;
  churn_ops = 0;
  closed = false;
}

stat-entries :
    (c : Container) (path f : Bytes) (es : Entries)
    → c.file ≡ some f
    → c.entries ≡ some es
    → stat c path ≡ answer_of es (normalize path)
unfolding stat find_entry
stat-entries c path f es hf he = elim (Result-cases (normalize path)) [
  | inr (x, n) ↦ ground arith
  | inl (norm, n) ↦ elim (Option-cases (lookup norm es)) [
    | inl l ↦ ground arith
    | inr (e, l) ↦ ground arith
  ]
]

begin-entries :
    (c : Container) (f : Bytes) (es : Entries)
    → c.file ≡ some f
    → c.entries ≡ some es
    → begin c ≡ (c, ok (fresh es f))
unfolding begin ensure_entries_loaded
begin-entries c f es hf he = ground arith

-- Where Commit answers without an error, Stat of any path answers from then on what the entries of
-- the transaction hold at its normal form, `ErrPathInvalid` where it has none and `ErrNotFound`
-- where they hold nothing; and Begin answers a transaction with these entries, nothing dead and no
-- churn, that appends at the end of the file which the commit left.
pub commit-begin :
    (clock : Clock) (c : Container) (tx : Tx) (path : Bytes)
    → (commit clock c tx).2 ≡ ok tt
    → (stat (commit clock c tx).1 path ≡ answer_of tx.entries (normalize path))
      × (begin (commit clock c tx).1
          ≡ ((commit clock c tx).1, ok (fresh tx.entries (commit clock c tx).0.writer.file)))
commit-begin clock c tx path e =
    let (h, w, is) = commit-committed clock c tx e in
    let after : Container = record (with_entries c tx.entries) { file = some w.file; header = h } in
    rw is (
      stat-entries after path w.file tx.entries refl refl,
      begin-entries after w.file tx.entries refl refl,
    )
