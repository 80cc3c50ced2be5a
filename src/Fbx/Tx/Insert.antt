-- ===== src/Fbx/Tx/Insert.antt =====
-- fbx/tx.go: the operations of a transaction that write an entry.
pub mod Answers
pub mod Added
use go_fbx.Base.{ℕ, List, Option, none, some, if◌then◌else◌, Bytes, Result, ok, err}
use go_fbx.Base.{closed_pipe, path_invalid, not_found, already_exists}
use go_fbx.Format.Types.{EntryV1}
use go_fbx.Format.Codec.{Compressors}
use go_fbx.Paths.{normalize}
use go_fbx.Fbx.Options.{Options}
use go_fbx.Fbx.Write.{Writer, Source}
use go_fbx.Fbx.Write.Parallel.{ChunkResult}
use go_fbx.Fbx.Entry.{WriteOptions, write_entry}
use go_fbx.Fbx.Tx.{Tx, lookup, assign, mark_obsolete}

-- What the operations do with the answer of `writeEntry`: the chunks of one that failed stay in the
-- file, and the next append goes behind them.
abbrev pub settle : Tx → Bytes → Writer × Result EntryV1 → Tx × Result (Unit {0})
settle tx norm (w, err e) = (record tx { writer = w }, err e)
settle tx norm (w, ok entry) =
    (record tx { writer = w; entries = assign norm entry tx.entries }, ok tt)

module _ (lib : Compressors) (opts : Options) (now : ℕ)
    (arrive : List ChunkResult → List ChunkResult) where
  -- `tx.writeEntry(…)` and, without an error, `tx.entries[norm] = e`
  unfoldable pub put :
      Tx → Bytes → Option Source → Bytes → Option WriteOptions → Option (Tx × Result (Unit {0}))
  put tx norm r meta wopts = elim (write_entry lib opts now arrive tx.writer norm r meta wopts) [
    | none ↦ none
    | some a ↦ some (settle tx norm a)
  ]

  -- `Add`
  unfoldable pub add :
      Tx → Bytes → Option Source → Bytes → Option WriteOptions → Option (Tx × Result (Unit {0}))
  add tx path r meta wopts =
      if tx.closed then some (tx, err closed_pipe) else elim (normalize path) [
        | err _ ↦ some (tx, err path_invalid)
        | ok norm ↦ elim (lookup norm tx.entries) [
          | some _ ↦ some (tx, err already_exists)
          | none ↦ put tx norm r meta wopts
        ]
      ]

  -- `Upsert`
  unfoldable pub upsert :
      Tx → Bytes → Option Source → Bytes → Option WriteOptions → Option (Tx × Result (Unit {0}))
  upsert tx path r meta wopts =
      if tx.closed then some (tx, err closed_pipe) else elim (normalize path) [
        | err _ ↦ some (tx, err path_invalid)
        | ok norm ↦ elim (lookup norm tx.entries) [
          | some old ↦ put (mark_obsolete tx old) norm r meta wopts
          | none ↦ put tx norm r meta wopts
        ]
      ]

  -- `Replace`
  unfoldable pub replace :
      Tx → Bytes → Option Source → Bytes → Option WriteOptions → Option (Tx × Result (Unit {0}))
  replace tx path r meta wopts =
      if tx.closed then some (tx, err closed_pipe) else elim (normalize path) [
        | err _ ↦ some (tx, err path_invalid)
        | ok norm ↦ elim (lookup norm tx.entries) [
          | some old ↦ put (mark_obsolete tx old) norm r meta wopts
          | none ↦ some (tx, err not_found)
        ]
      ]
