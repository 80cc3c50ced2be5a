-- ===== src/Fbx/Write/Parallel/Jobs.antt =====
-- The jobs of the producer against the rounds of `writeChunksSequential`.
use go_fbx.Base.{
  ℕ, zero, suc, ◌+◌, ◌%◌, ◌^◌, ◌≡◌, refl, sym, ap, inl, inr, Bool-cases, Option-cases, false, ◌&&◌,
  none, some, arith,
}
use go_fbx.Base.{List, [], ◌∷◌, ◌++◌, map, length, take, drop, ltb, ◌==◌}
use go_fbx.Base.{Bytes, ok, Result-cases}
use go_fbx.Format.Types.{ChunkRefV1}
use go_fbx.Format.Checked.{add_uint64}
use go_fbx.Format.Codec.{Compressors}
use go_fbx.Format.Chunk.{encode_chunk_record}
use go_fbx.Fbx.Write.{Writer, Source, Settings, append_at, write_chunk, write_loop}
use go_fbx.Fbx.Write.Parallel.{ChunkJob, ChunkResult, reference, produce, run_job}

-- The results written one behind the other, none of them an error: from a writer and the
-- references so far to those at the end.
abbrev pub Writes : List ChunkResult → Writer → List ChunkRefV1 → Writer → List ChunkRefV1 → Type 0
Writes [] w chunks w' chunks' = (w' ≡ w) × (chunks' ≡ chunks)
Writes (cur ∷ rest) w chunks w' chunks' =
    (w1 : Writer) × (cur.error ≡ none)
    × (append_at w.file w.append_offset cur.rec ≡ ok (w1.file, w1.append_offset))
    × Writes rest w1 (chunks ++ reference w.append_offset cur ∷ []) w' chunks'

-- The indices count up from a number.
abbrev pub Counts : ℕ → List ChunkResult → Type 0
Counts i [] = Unit
Counts i (cur ∷ rest) = (cur.index ≡ i) × Counts (i + 1) rest

abbrev job_at : ℕ → ℕ → Bytes → ChunkJob
job_at idx raw_off raw = record { index = idx; raw_off = raw_off; raw = raw }

module _ (lib : Compressors) (s : Settings) where
  run_job_ok :
      (idx raw_off : ℕ) (raw : Bytes) {rec : Bytes} {crc : ℕ}
      → encode_chunk_record lib raw s.codec s.level ≡ ok (rec, crc)
      → run_job lib s (job_at idx raw_off raw) ≡ record {
        index = idx;
        raw_off = raw_off;
        raw_sz = length raw % 2 ^ 32;
        rec = rec;
        crc = crc;
        error = none;
      }
  unfolding run_job
  run_job_ok idx raw_off raw q = rw (q, run_job) refl

  -- What a chunk that was written says of the result of its job.
  record IsJob (w : Writer) (idx raw_off : ℕ) (raw : Bytes) (w1 : Writer) (c : ChunkRefV1)
      (next : ℕ) : Type 0 where
    fine : (run_job lib s (job_at idx raw_off raw)).error ≡ none
    index_is : (run_job lib s (job_at idx raw_off raw)).index ≡ idx
    appended :
        append_at w.file w.append_offset (run_job lib s (job_at idx raw_off raw)).rec
        ≡ ok (w1.file, w1.append_offset)
    chunk_is : c ≡ reference w.append_offset (run_job lib s (job_at idx raw_off raw))
    next_is : add_uint64 raw_off (length raw) ≡ some next
    under_limit : (ltb 0 s.max_entry && ltb s.max_entry next) ≡ false

  write_chunk-IsJob :
      (w : Writer) (idx raw_off : ℕ) (raw : Bytes) {w1 : Writer} {c : ChunkRefV1} {next : ℕ}
      → write_chunk lib s w raw_off raw ≡ (w1, ok (c, next))
      → IsJob w idx raw_off raw w1 c next
  unfolding write_chunk
  write_chunk-IsJob w idx raw_off raw e = elim (Option-cases (add_uint64 raw_off (length raw))) [
    | inl n ↦ absurd (ground arith)
    | inr (n, p) ↦ elim (Result-cases (encode_chunk_record lib raw s.codec s.level)) [
      | inr (x, q) ↦ absurd (ground arith)
      | inl ((rec, crc), q) ↦ record {
        fine = rw (run_job_ok idx raw_off raw q) refl;
        index_is = rw (run_job_ok idx raw_off raw q) refl;
        appended = rw (run_job_ok idx raw_off raw q) (ground arith);
        chunk_is = rw (run_job_ok idx raw_off raw q) (ground arith);
        next_is = ground arith;
        under_limit = ground arith;
      }
    ]
  ]

  -- The rounds of the loop make jobs whose results, in order, are what it wrote.
  pub record Produces (fuel : ℕ) (w : Writer) (r : Source) (idx raw_off : ℕ)
      (chunks : List ChunkRefV1) (w' : Writer) (chunks' : List ChunkRefV1) (size : ℕ) : Type 0 where
    pub jobs : List ChunkJob
    pub produced : produce lib s fuel r idx raw_off ≡ some (jobs, size, none)
    pub written : Writes (map (run_job lib s) jobs) w chunks w' chunks'
    pub counts : Counts idx (map (run_job lib s) jobs)

  pub write_loop-Produces :
      (fuel : ℕ) (w : Writer) (r : Source) (idx raw_off : ℕ) (chunks : List ChunkRefV1)
      {w' : Writer} {chunks' : List ChunkRefV1} {size : ℕ}
      → write_loop lib s fuel w r raw_off chunks ≡ some (w', ok (chunks', size))
      → Produces fuel w r idx raw_off chunks w' chunks' size
  unfolding write_loop produce
  write_loop-Produces zero w r idx raw_off chunks e = absurd (ground arith)
  write_loop-Produces (suc fuel) w r idx raw_off chunks {w'} {chunks'} {size} e =
      let raw = take s.chunk_size r.unread in
      let later : Source = record r { unread = drop s.chunk_size r.unread } in
      elim (Bool-cases (ltb (length r.unread) s.chunk_size && r.fails)) [
        | inl broken ↦ absurd (ground arith)
        | inr sound ↦ elim (Bool-cases (length r.unread == 0)) [
          | inl empty ↦ record {
            jobs = [];
            produced = ground arith;
            written = (ground arith, ground arith);
            counts = tt;
          }
          | inr some_left ↦
              let answer = write_chunk lib s w raw_off raw in
              let w1 = answer.0 in
              elim (Result-cases answer.1) [
                | inr (x, q) ↦ absurd (ground arith)
                | inl ((c, next), q) ↦
                    let j = write_chunk-IsJob w idx raw_off raw (ap (λ t. (answer.0, t)) q) in
                    elim (Bool-cases (ltb (length r.unread) s.chunk_size)) [
                      | inl short ↦ record {
                        jobs = job_at idx raw_off raw ∷ [];
                        produced = ground (arith, j.next_is, j.under_limit);
                        written = (
                          w1,
                          j.fine,
                          j.appended,
                          (ground arith, rw (sym j.chunk_is) (ground arith)),
                        );
                        counts = (j.index_is, tt);
                      }
                      | inr full ↦
                          let more : Produces fuel w1 later (idx + 1) next (chunks ++ c ∷ []) w'
                              chunks' size =
                            write_loop-Produces fuel w1 later (idx + 1) next (chunks ++ c ∷ [])
                              (ground arith) in
                          record {
                            jobs = job_at idx raw_off raw ∷ more.jobs;
                            produced = ground (arith, j.next_is, j.under_limit, more.produced);
                            written = (w1, j.fine, j.appended, rw (sym j.chunk_is) more.written);
                            counts = (j.index_is, more.counts);
                          }
                    ]
              ]
        ]
      ]
