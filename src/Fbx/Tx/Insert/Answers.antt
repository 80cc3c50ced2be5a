-- ===== src/Fbx/Tx/Insert/Answers.antt =====
-- What Add, Upsert and Replace answer, on every branch.
use go_fbx.Base.{ℕ, ◌≡◌, ◌≢◌, subst, inl, inr, ◌⊎◌, Option-cases, Option, none, some, arith}
use go_fbx.Base.{List, length, Bytes, Error, Result, ok, err, Result-cases}
use go_fbx.Format.Types.{EntryV1}
use go_fbx.Format.Codec.{Compressors}
use go_fbx.Fbx.Options.{Options}
use go_fbx.Fbx.Write.{Source}
use go_fbx.Fbx.Write.Parallel.{ChunkResult}
use go_fbx.Fbx.Write.Appends.{Appends}
use go_fbx.Fbx.Entry.{WriteOptions, write_entry}
use go_fbx.Fbx.Entry.Answers.{write_entry-ne-none, write_entry-Outcome}
use go_fbx.Fbx.Tx.{Tx, assign}
use go_fbx.Fbx.Tx.Insert.{put}

-- What comes of an attempt to store an entry under a path.
pub record Stored (tx : Tx) (norm : Bytes) (tx' : Tx) (a : Result (Unit {0})) : Type 0 where
  pub appends : Appends tx.writer tx'.writer
  pub closed_is : tx'.closed ≡ tx.closed
  pub dead_bytes_is : tx'.dead_bytes ≡ tx.dead_bytes
  pub churn_ops_is : tx'.churn_ops ≡ tx.churn_ops
  pub entries_are :
      ((x : Error) × (a ≡ err x) × (tx'.entries ≡ tx.entries))
      ⊎ ((e : EntryV1) × (a ≡ ok tt) × (e.path ≡ norm) × (tx'.entries ≡ assign norm e tx.entries))

module _ (lib : Compressors) (opts : Options) (now : ℕ)
    (arrive : List ChunkResult → List ChunkResult) where
  pub put-ne-none :
      (tx : Tx) (norm : Bytes) (r : Option Source) (meta : Bytes) (wopts : Option WriteOptions)
      → put lib opts now arrive tx norm r meta wopts ≢ none
  unfolding put
  put-ne-none tx norm r meta wopts e =
      ground (arith, write_entry-ne-none lib opts now arrive tx.writer norm r meta wopts)

  pub put-Stored :
      (tx : Tx) (norm : Bytes) (r : Option Source) (meta : Bytes) (wopts : Option WriteOptions)
      {tx' : Tx} {a : Result (Unit {0})}
      → tx.writer.append_offset ≡ length tx.writer.file
      → put lib opts now arrive tx norm r meta wopts ≡ some (tx', a)
      → Stored tx norm tx' a
  unfolding put
  put-Stored tx norm r meta wopts {tx'} {a} hw e =
      elim (Option-cases (write_entry lib opts now arrive tx.writer norm r meta wopts)) [
        | inl n ↦ absurd (ground arith)
        | inr ((w, answer), p) ↦
            let o = write_entry-Outcome lib opts now arrive tx.writer norm r meta wopts hw p in
            elim (Result-cases answer) [
              | inr (x, q) ↦ record {
                appends = subst (λ v. Appends tx.writer v) (ground arith) o.appends;
                closed_is = ground arith;
                dead_bytes_is = ground arith;
                churn_ops_is = ground arith;
                entries_are = inl (x, ground arith, ground arith);
              }
              | inl (entry, q) ↦ record {
                appends = subst (λ v. Appends tx.writer v) (ground arith) o.appends;
                closed_is = ground arith;
                dead_bytes_is = ground arith;
                churn_ops_is = ground arith;
                entries_are = inr (entry, ground arith, (o.path_is entry q).0, ground arith);
              }
            ]
      ]
