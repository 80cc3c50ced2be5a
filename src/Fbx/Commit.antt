-- ===== src/Fbx/Commit.antt =====
-- fbx/tx.go: `Tx.Commit` as a whole, with each of its exits, and `Rollback`. The three times are
-- read from the clock. The locks that `release` gives back are not modelled, nor errors of the
-- device: the errors that are left are those of the encoders and of `appendAt` of no bytes.
pub mod Committed
pub mod Failed
pub mod Header
pub mod Appended
pub mod Parts
pub mod Reread
use go_fbx.Base.{ℕ, Bool, true, false, Option, none, some, map, length, checksum}
use go_fbx.Base.{Bytes, Error, Result, ok, err, closed_pipe}
use go_fbx.File.{write_at}
use go_fbx.Format.Types.{DirectoryV1}
use go_fbx.Format.Header.{HeaderV1, marshal}
use go_fbx.Format.Directory.{encode_directory}
use go_fbx.Fbx.HeaderExt.{DirIndexPointer}
use go_fbx.Fbx.Journal.{build_journal_record, build_backup_record}
use go_fbx.Fbx.Write.{Writer, mapped, append_at}
use go_fbx.Fbx.Tx.{Entries, Tx}
use go_fbx.Fbx.Index.{build_dir_index_blob}
use go_fbx.Fbx.Seal.{Pieces, add_stats, next_generation, commit_header}
use go_fbx.Fbx.Publish.{write_slot}
use go_fbx.Fbx.Container.{Container, with_entries}

pub record Clock : Type 0 where
  pub build : ℕ
  pub journal : ℕ
  pub backup : ℕ

-- The directory of the entries of a map, in whatever order a range visits them.
abbrev pub directory_of : ℕ → Entries → DirectoryV1
directory_of build entries = record {
  entry_count = 0;
  flags = 0;
  build_unix = build;
  entries = map (λ x. x.1) entries;
}

-- `release`, without the locks
abbrev pub release : Tx → Tx
release tx = record tx { closed = true }

-- The transaction behind bytes that it appended.
abbrev pub moved : Tx → Bytes → ℕ → Tx
moved tx file off = record tx { writer = record { file = file; append_offset = off } }

abbrev pub Outcome : Type 0
Outcome = Tx × Container × Result (Unit {0})

-- A return with an error. The container and the transaction share the file.
abbrev pub leave : Container → Tx → Error → Outcome
leave c tx e = (tx, record c { file = some tx.writer.file }, err e)

-- From the writes of the header on: the slot, the front, and what the container then holds.
unfoldable pub commit_front : Container → Tx → HeaderV1 → Bytes → Outcome
commit_front c tx h head_buf =
    let file = write_at (write_slot h head_buf tx.writer.file) 0 head_buf in
    let t = moved tx file tx.writer.append_offset in
    (release t, record (with_entries c t.entries) { file = some file; header = h }, ok tt)

-- From the backup record on.
unfoldable pub commit_backup : Clock → Container → Tx → HeaderV1 → Bytes → Outcome
commit_backup clock c tx h head_buf = elim (mapped (build_backup_record head_buf clock.backup)) [
  | err e ↦ leave c (release tx) e
  | ok backup_rec ↦ elim (append_at tx.writer.file tx.writer.append_offset backup_rec) [
    | err e ↦ leave c (release tx) e
    | ok (file, off) ↦ commit_front c (moved tx file off) h head_buf
  ]
]

-- From the bytes of the header on.
unfoldable pub commit_journal : Clock → Container → Tx → HeaderV1 → Outcome
commit_journal clock c tx h = elim (mapped (marshal h)) [
  | err e ↦ leave c (release tx) e
  | ok head_buf ↦ elim (mapped (build_journal_record head_buf clock.journal)) [
    | err e ↦ leave c (release tx) e
    | ok journal_rec ↦ elim (append_at tx.writer.file tx.writer.append_offset journal_rec) [
      | err e ↦ leave c (release tx) e
      | ok (file, off) ↦ commit_backup clock c (moved tx file off) h head_buf
    ]
  ]
]

-- Where the directory and the index stand, for the header.
abbrev pub pieces : ℕ → Bytes → ℕ → ℕ → Bytes → ℕ → Pieces
pieces dir_offset dir_blob crc idx_offset idx_blob journal_offset = record {
  dir_offset = dir_offset;
  dir_size = length dir_blob;
  dir_crc = crc;
  index = record { offset = idx_offset; size = length idx_blob; crc32 = checksum idx_blob };
  journal_offset = journal_offset;
}

-- From the index on, behind the directory.
unfoldable pub commit_index : Clock → Container → Tx → ℕ → Bytes → ℕ → Outcome
commit_index clock c tx dir_offset dir_blob crc =
    let generation = next_generation (add_stats c.header tx.dead_bytes tx.churn_ops) in
    elim (build_dir_index_blob dir_blob dir_offset crc generation) [
      | err e ↦ leave c (release tx) e
      | ok idx_blob ↦ elim (append_at tx.writer.file tx.writer.append_offset idx_blob) [
        | err e ↦ leave c (release tx) e
        | ok (file, off) ↦
            let p = pieces dir_offset dir_blob crc tx.writer.append_offset idx_blob off in
            commit_journal clock c (moved tx file off)
              (commit_header c.header tx.dead_bytes tx.churn_ops p)
      ]
    ]

-- `Commit`
unfoldable pub commit : Clock → Container → Tx → Outcome
commit clock c tx = elim tx.closed [
  | true ↦ (tx, c, err closed_pipe)
  | false ↦ elim (mapped (encode_directory (directory_of clock.build tx.entries))) [
    | err e ↦ leave c (release tx) e
    | ok (dir_blob, crc) ↦ elim (append_at tx.writer.file tx.writer.append_offset dir_blob) [
      | err e ↦ leave c (release tx) e
      | ok (file, off) ↦
          commit_index clock c (moved tx file off) tx.writer.append_offset dir_blob crc
    ]
  ]
]

-- `Rollback`
unfoldable pub rollback : Tx → Tx
rollback tx = elim tx.closed [ true ↦ tx | false ↦ release tx ]
