-- ===== src/Fbx/Tx/Failed.antt =====
-- What Add, Upsert and Replace leave when they fail.
use go_fbx.Base.{ℕ, ◌≡◌, sym, ◌∙◌, ap, subst, inl, inr, ◌⊎◌, false, Option, some, arith}
use go_fbx.Base.{List, length, Bytes, Error, Result, ok, err}
use go_fbx.Format.Types.{EntryV1}
use go_fbx.Format.Checked.{saturating_add_uint64}
use go_fbx.Format.Codec.{Compressors}
use go_fbx.Paths.{normalize}
use go_fbx.Fbx.Options.{Options}
use go_fbx.Fbx.Write.{Source}
use go_fbx.Fbx.Write.Parallel.{ChunkResult}
use go_fbx.Fbx.Write.Appends.{Appends, Appends-refl}
use go_fbx.Fbx.Entry.{WriteOptions}
use go_fbx.Fbx.Tx.{Tx, lookup, mark_obsolete, entry_stored_bytes}
use go_fbx.Fbx.Tx.Insert.{put, add, upsert, replace}
use go_fbx.Fbx.Tx.Insert.Answers.{put-Stored}
use go_fbx.Fbx.Tx.Steps.{Attempt, add-Attempt, upsert-Attempt, replace-Attempt}

marked :
    (tx t : Tx)
    → ((t ≡ tx) ⊎ ((old : EntryV1) × (t ≡ mark_obsolete tx old)))
    → (t.entries ≡ tx.entries) × (t.writer ≡ tx.writer)
unfolding mark_obsolete
marked tx t (inl same) = (ap (λ z. z.entries) same, ap (λ z. z.writer) same)
marked tx t (inr (old, m)) = (ap (λ z. z.entries) m, ap (λ z. z.writer) m)

module _ (lib : Compressors) (opts : Options) (now : ℕ)
    (arrive : List ChunkResult → List ChunkResult) where
  -- One of the three operations answers.
  abbrev pub Answers :
      Tx → Bytes → Option Source → Bytes → Option WriteOptions → Tx → Result (Unit {0}) → Type 0
  Answers tx path r meta wopts tx' a =
      (add lib opts now arrive tx path r meta wopts ≡ some (tx', a))
      ⊎ ((upsert lib opts now arrive tx path r meta wopts ≡ some (tx', a))
          ⊎ (replace lib opts now arrive tx path r meta wopts ≡ some (tx', a)))

  Answers-Attempt :
      (tx : Tx) (path : Bytes) (r : Option Source) (meta : Bytes) (wopts : Option WriteOptions)
      {tx' : Tx} {a : Result (Unit {0})}
      → Answers tx path r meta wopts tx' a
      → Attempt lib opts now arrive tx path r meta wopts tx' a
  Answers-Attempt tx path r meta wopts (inl e) =
      add-Attempt lib opts now arrive tx path r meta wopts e
  Answers-Attempt tx path r meta wopts (inr (inl e)) =
      upsert-Attempt lib opts now arrive tx path r meta wopts e
  Answers-Attempt tx path r meta wopts (inr (inr e)) =
      replace-Attempt lib opts now arrive tx path r meta wopts e

  Attempt-failed :
      (tx : Tx) (path : Bytes) (r : Option Source) (meta : Bytes) (wopts : Option WriteOptions)
      {tx' : Tx} {x : Error}
      → tx.writer.append_offset ≡ length tx.writer.file
      → Attempt lib opts now arrive tx path r meta wopts tx' (err x)
      → (tx'.entries ≡ tx.entries) × Appends tx.writer tx'.writer
  Attempt-failed tx path r meta wopts hw (inl same) = (
    ap (λ z. z.entries) same,
    subst (λ z. Appends tx.writer z.writer) (sym same) (Appends-refl tx.writer hw),
  )
  Attempt-failed tx path r meta wopts {tx'} {x} hw (inr (norm, t, valid, from, e)) =
      let (entries_same, writer_same) = marked tx t from in
      let ht : t.writer.append_offset ≡ length t.writer.file =
        subst (λ w. w.append_offset ≡ length w.file) (sym writer_same) hw in
      let s = put-Stored lib opts now arrive t norm r meta wopts {a = err x} ht e in
      (
        elim s.entries_are [
          | inl (y, p, same) ↦ same ∙ entries_same
          | inr (entry, p, path_is, assigned) ↦ absurd (ground arith)
        ],
        subst (λ w. Appends w tx'.writer) writer_same s.appends,
      )

  -- When Add, Upsert or Replace fail on a transaction whose append offset is the end of the file,
  -- all entries are as they were, and the file has at most grown at its end.
  pub failed-entries :
      (tx : Tx) (path : Bytes) (r : Option Source) (meta : Bytes) (wopts : Option WriteOptions)
      {tx' : Tx} {x : Error}
      → tx.writer.append_offset ≡ length tx.writer.file
      → Answers tx path r meta wopts tx' (err x)
      → (tx'.entries ≡ tx.entries) × Appends tx.writer tx'.writer
  failed-entries tx path r meta wopts hw e =
      Attempt-failed tx path r meta wopts hw (Answers-Attempt tx path r meta wopts e)

  counted :
      (tx : Tx) (old : EntryV1) (norm : Bytes) (r : Option Source) (meta : Bytes)
      (wopts : Option WriteOptions) {tx' : Tx} {a : Result (Unit {0})}
      → tx.writer.append_offset ≡ length tx.writer.file
      → put lib opts now arrive (mark_obsolete tx old) norm r meta wopts ≡ some (tx', a)
      → (tx'.dead_bytes ≡ saturating_add_uint64 tx.dead_bytes (entry_stored_bytes old))
        × (tx'.churn_ops ≡ saturating_add_uint64 tx.churn_ops 1)
  unfolding mark_obsolete
  counted tx old norm r meta wopts {tx'} {a} hw e =
      let s =
        put-Stored lib opts now arrive (mark_obsolete tx old) norm r meta wopts {a = a} hw e in
      (s.dead_bytes_is, s.churn_ops_is)

  -- On an open transaction whose append offset is the end of the file, an Upsert or a Replace of a
  -- path that has an entry adds the stored bytes of this entry to the dead bytes and one to the
  -- churn counter, by saturation, whether it succeeds or fails.
  pub upsert-replace-dead_bytes :
      (tx : Tx) (path : Bytes) (r : Option Source) (meta : Bytes) (wopts : Option WriteOptions)
      {norm : Bytes} {old : EntryV1} {tx' : Tx} {a : Result (Unit {0})}
      → tx.closed ≡ false
      → normalize path ≡ ok norm
      → lookup norm tx.entries ≡ some old
      → tx.writer.append_offset ≡ length tx.writer.file
      → (upsert lib opts now arrive tx path r meta wopts ≡ some (tx', a))
        ⊎ (replace lib opts now arrive tx path r meta wopts ≡ some (tx', a))
      → (tx'.dead_bytes ≡ saturating_add_uint64 tx.dead_bytes (entry_stored_bytes old))
        × (tx'.churn_ops ≡ saturating_add_uint64 tx.churn_ops 1)
  unfolding upsert replace
  upsert-replace-dead_bytes tx path r meta wopts {norm} {old} {tx'} {a} active valid found hw e =
      let stored : put lib opts now arrive (mark_obsolete tx old) norm r meta wopts
          ≡ some (tx', a) =
        ground arith in
      counted tx old norm r meta wopts {a = a} hw stored
