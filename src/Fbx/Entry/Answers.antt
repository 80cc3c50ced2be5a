-- ===== src/Fbx/Entry/Answers.antt =====
-- What `writeEntry` answers: it ends, in parallel as well; it appends; and its entry has the path.
use go_fbx.Base.{
  subst, Bool, Error, Result, ok, Result-cases, ℕ, zero, suc, ◌+◌, ◌<◌, ◌≡◌, ◌≢◌, inl, inr,
  Option-cases, none, some, Option, arith,
}
use go_fbx.Base.{List, length, length-drop, take, drop, Bytes}
use go_fbx.Format.Checked.{add_uint64}
use go_fbx.Format.Codec.{Compressors}
use go_fbx.Fbx.Options.{ℤ, Options}
use go_fbx.Fbx.Write.{Writer, Source, Settings}
use go_fbx.Format.Types.{EntryV1}
use go_fbx.Fbx.Write.Appends.{Appends, Appends-refl, write_chunks-Appends}
use go_fbx.Fbx.Write.Steps.{write_chunks_sequential-ne-none}
use go_fbx.Fbx.Write.Parallel.{
  ChunkJob, ChunkResult, prepend, produce, write_chunks_parallel, write_chunks,
}
use go_fbx.Fbx.Entry.{
  asked_chunk_size, WriteOptions, Plan, plan, text_flags, limited_chunk_size, settings, write_entry,
}

module _ (lib : Compressors) (s : Settings) where
  prepend-ne-none :
      (job : ChunkJob) (o : Option (List ChunkJob × ℕ × Option Error))
      → o ≢ none
      → prepend job o ≢ none
  prepend-ne-none job o h e = ground arith

  -- The producer ends before its fuel does.
  produce-ne-none :
      (fuel : ℕ) (r : Source) (idx raw_off : ℕ)
      → 0 < s.chunk_size
      → length r.unread < fuel
      → produce lib s fuel r idx raw_off ≢ none
  unfolding produce
  produce-ne-none zero r idx raw_off pos h e = absurd (omega arith)
  produce-ne-none (suc fuel) r idx raw_off pos h e =
      let later : Source = record r { unread = drop s.chunk_size r.unread } in
      elim (Option-cases (add_uint64 raw_off (length (take s.chunk_size r.unread)))) [
        | inl n ↦ ground arith
        | inr (after, q) ↦ ground (
          arith,
          length-drop s.chunk_size r.unread,
          produce-ne-none fuel later (idx + 1) after pos,
        )
      ]

  pub write_chunks-ne-none :
      (workers : ℕ) (arrive : List ChunkResult → List ChunkResult) (w : Writer) (r : Source)
      → 0 < s.chunk_size
      → write_chunks lib s workers arrive w r ≢ none
  unfolding write_chunks write_chunks_parallel
  write_chunks-ne-none workers arrive w r pos e = ground (
    arith,
    write_chunks_sequential-ne-none lib s w r pos,
    produce-ne-none (suc (length r.unread)) r 0 0 pos (omega arith),
  )

pub limited_chunk_size-pos :
    (opts : Options) (asked : ℤ) {n : ℕ} → limited_chunk_size opts asked ≡ some n → 0 < n
unfolding limited_chunk_size
limited_chunk_size-pos opts asked e = ground arith

pub settings-pos :
    (opts : Options) (p : Plan) (is_text : Bool) (path probe : Bytes) {s : Settings} {workers : ℕ}
    → settings opts p is_text path probe ≡ some (s, workers)
    → 0 < s.chunk_size
unfolding settings
settings-pos opts p is_text path probe e =
    let asked = asked_chunk_size opts p is_text in
    elim (Option-cases (limited_chunk_size opts asked)) [
      | inl n ↦ absurd (ground arith)
      | inr (n, q) ↦ ground (arith, limited_chunk_size-pos opts asked q)
    ]

module _ (lib : Compressors) (opts : Options) (now : ℕ)
    (arrive : List ChunkResult → List ChunkResult) where
  -- writeEntry
  pub write_entry-ne-none :
      (w : Writer) (path : Bytes) (r : Option Source) (meta : Bytes) (wopts : Option WriteOptions)
      → write_entry lib opts now arrive w path r meta wopts ≢ none
  unfolding write_entry
  write_entry-ne-none w path none meta wopts e = cc
  write_entry-ne-none w path (some r) meta wopts e =
      let probe = take 4096 r.unread in
      let p = plan opts now wopts in
      let t = text_flags opts p.flags path probe in
      elim (Option-cases (settings opts p t.0 path probe)) [
        | inl n ↦ ground arith
        | inr ((s, workers), q) ↦ ground (
          arith,
          write_chunks-ne-none lib s workers arrive w r (settings-pos opts p t.0 path probe q),
        )
      ]

  -- What an answer of writeEntry is.
  pub record Outcome (w : Writer) (path meta : Bytes) (w' : Writer) (a : Result EntryV1)
      : Type 0 where
    pub appends : Appends w w'
    pub path_is : (e : EntryV1) → a ≡ ok e → (e.path ≡ path) × (e.meta ≡ meta)

  pub write_entry-Outcome :
      (w : Writer) (path : Bytes) (r : Option Source) (meta : Bytes) (wopts : Option WriteOptions)
      {w' : Writer} {a : Result EntryV1}
      → w.append_offset ≡ length w.file
      → write_entry lib opts now arrive w path r meta wopts ≡ some (w', a)
      → Outcome w path meta w' a
  unfolding write_entry
  write_entry-Outcome w path none meta wopts hw e = record {
    appends = subst (λ v. Appends w v) (ground arith) (Appends-refl w hw);
    path_is = λ entry q. absurd (ground arith);
  }
  write_entry-Outcome w path (some r) meta wopts {w'} {a} hw e =
      let probe = take 4096 r.unread in
      let p = plan opts now wopts in
      let t = text_flags opts p.flags path probe in
      elim (Option-cases (settings opts p t.0 path probe)) [
        | inl n ↦ record {
          appends = subst (λ v. Appends w v) (ground arith) (Appends-refl w hw);
          path_is = λ entry q. absurd (ground arith);
        }
        | inr ((s, workers), q) ↦ elim (Option-cases (write_chunks lib s workers arrive w r)) [
          | inl n ↦ absurd (ground arith)
          | inr ((w1, answer), k) ↦ elim (Result-cases answer) [
            | inr (x, z) ↦ record {
              appends =
                  write_chunks-Appends lib s workers arrive w r {w' = w'} {a = answer} hw
                    (ground arith);
              path_is = λ entry y. absurd (ground arith);
            }
            | inl ((chunks, size), z) ↦ record {
              appends =
                  write_chunks-Appends lib s workers arrive w r {w' = w'} {a = answer} hw
                    (ground arith);
              path_is = λ entry y. (ground arith, ground arith);
            }
          ]
        ]
      ]
