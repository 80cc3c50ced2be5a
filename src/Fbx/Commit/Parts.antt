-- ===== src/Fbx/Commit/Parts.antt =====
-- The stages of `Tx.Commit` of fbx/tx.go that a commit without an error went through.
use go_fbx.Base.{ℕ, ◌≡◌, ◌∙◌, sym, ap, inl, inr, some, arith, Bytes, ok, Bool-cases, Result-cases}
use go_fbx.Format.Header.{HeaderV1, marshal}
use go_fbx.Format.Directory.{encode_directory}
use go_fbx.Fbx.Journal.{build_journal_record, build_backup_record}
use go_fbx.Fbx.Write.{Writer, append_at}
use go_fbx.Fbx.Tx.{Tx}
use go_fbx.Fbx.Index.{build_dir_index_blob}
use go_fbx.Fbx.Seal.{next_generation, add_stats, commit_header}
use go_fbx.File.{write_at}
use go_fbx.Fbx.Publish.{append_records, publish, write_slot}
use go_fbx.Fbx.Container.{Container, with_entries}
use go_fbx.Fbx.Commit.{
  Clock, Outcome, directory_of, release, moved, pieces, commit_front, commit_backup, commit_journal,
  commit_index, commit,
}

-- What a commit without an error leaves, by its header and its writer.
abbrev pub committed : Container → Tx → HeaderV1 → Writer → Outcome
committed c tx h w = (
  release (record tx { writer = w }),
  record (with_entries c tx.entries) { file = some w.file; header = h },
  ok tt,
)

pub commit_journal-publish :
    (clock : Clock) (c : Container) (tx : Tx) (h : HeaderV1)
    → (commit_journal clock c tx h).2 ≡ ok tt
    → (w : Writer) × (publish h clock.journal clock.backup tx.writer ≡ ok w)
      × (commit_journal clock c tx h ≡ committed c tx h w)
unfolding commit_journal commit_backup commit_front publish append_records
commit_journal-publish clock c tx h e = elim (Result-cases (marshal h)) [
  | inr (x, q) ↦ absurd (ground arith)
  | inl (hb, q) ↦ elim (Result-cases (build_journal_record hb clock.journal)) [
    | inr (x, r) ↦ absurd (ground arith)
    | inl (jr, r) ↦ elim (Result-cases (append_at tx.writer.file tx.writer.append_offset jr)) [
      | inr (x, s) ↦ absurd (ground arith)
      | inl ((file, off), s) ↦ elim (Result-cases (build_backup_record hb clock.backup)) [
        | inr (x, t) ↦ absurd (ground arith)
        | inl (br, t) ↦ elim (Result-cases (append_at file off br)) [
          | inr (x, u) ↦ absurd (ground arith)
          | inl ((file', off'), u) ↦
              let w : Writer = record {
                file = write_at (write_slot h hb file') 0 hb;
                append_offset = off';
              } in
              (w, ground arith, ground arith)
        ]
      ]
    ]
  ]
]

-- The index that was appended, and the rest of the commit.
pub commit_index-parts :
    (clock : Clock) (c : Container) (tx : Tx) (dir_offset : ℕ) (blob : Bytes) (crc : ℕ)
    → (commit_index clock c tx dir_offset blob crc).2 ≡ ok tt
    → (idx : Bytes) × (file : Bytes) × (off : ℕ) × (append_at tx.writer.file tx.writer.append_offset
          idx
        ≡ ok (file, off))
      × (commit_index clock c tx dir_offset blob crc
          ≡ commit_journal clock c (moved tx file off) (
              commit_header c.header tx.dead_bytes tx.churn_ops
                (pieces dir_offset blob crc tx.writer.append_offset idx off)))
unfolding commit_index
commit_index-parts clock c tx dir_offset blob crc e =
    let generation = next_generation (add_stats c.header tx.dead_bytes tx.churn_ops) in
    elim (Result-cases (build_dir_index_blob blob dir_offset crc generation)) [
      | inr (x, q) ↦ absurd (ground arith)
      | inl (idx, q) ↦ elim (Result-cases (append_at tx.writer.file tx.writer.append_offset idx)) [
        | inr (x, r) ↦ absurd (ground arith)
        | inl ((file, off), r) ↦ (idx, file, off, r, ground arith)
      ]
    ]

-- The directory that was appended, and the rest of the commit.
pub commit-parts :
    (clock : Clock) (c : Container) (tx : Tx)
    → (commit clock c tx).2 ≡ ok tt
    → (b : Bytes × ℕ) × (file : Bytes) × (off : ℕ) × (encode_directory
          (directory_of clock.build tx.entries)
        ≡ ok b)
      × (append_at tx.writer.file tx.writer.append_offset b.0 ≡ ok (file, off))
      × (commit clock c tx
          ≡ commit_index clock c (moved tx file off) tx.writer.append_offset b.0 b.1)
unfolding commit
commit-parts clock c tx e = elim (Bool-cases tx.closed) [
  | inl t ↦ absurd (ground arith)
  | inr t ↦ elim (Result-cases (encode_directory (directory_of clock.build tx.entries))) [
    | inr (x, q) ↦ absurd (ground arith)
    | inl (b, q) ↦ elim (Result-cases (append_at tx.writer.file tx.writer.append_offset b.0)) [
      | inr (x, r) ↦ absurd (ground arith)
      | inl ((file, off), r) ↦ (b, file, off, q, r, ground arith)
    ]
  ]
]

-- The whole row of stages: the commit leaves a header and a writer.
pub commit-committed :
    (clock : Clock) (c : Container) (tx : Tx)
    → (commit clock c tx).2 ≡ ok tt
    → (h : HeaderV1) × (w : Writer) × (commit clock c tx ≡ committed c tx h w)
commit-committed clock c tx e =
    let (b, file, off, enc, app, is) = commit-parts clock c tx e in
    let t1 = moved tx file off in
    let e1 = sym (ap (λ z. z.2) is) ∙ e in
    let (idx, file', off', app', is') =
      commit_index-parts clock c t1 tx.writer.append_offset b.0 b.1 e1 in
    let h =
      commit_header c.header tx.dead_bytes tx.churn_ops
        (pieces tx.writer.append_offset b.0 b.1 off idx off') in
    let t2 = moved tx file' off' in
    let e2 = sym (ap (λ z. z.2) is') ∙ e1 in
    let (w, done, is'') = commit_journal-publish clock c t2 h e2 in (h, w, is ∙ is' ∙ is'')
