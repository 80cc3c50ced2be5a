-- ===== src/Fbx/Write/Parallel.antt =====
-- fbx/tx.go, `writeChunksParallel`: a producer cuts the content into jobs, workers encode them, and
-- the results arrive in any order. What the goroutines and channels leave open is that order, a
-- parameter here.
pub mod Jobs
pub mod Collect
pub mod Order
use go_fbx.Base.{ℕ, zero, suc, ◌+◌, ◌-◌, ◌^◌, ◌%◌, Bool, true, false, not, ◌&&◌, Option, none, some}
use go_fbx.Base.{List, [], ◌∷◌, ◌++◌, map, length, take, drop, ltb, leb, ◌==◌, if◌then◌else◌}
use go_fbx.Base.{Bytes, Error, Result, ok, err, limit_exceeded, read_error}
use go_fbx.Format.Types.{ChunkRefV1}
use go_fbx.Format.Checked.{add_uint64}
use go_fbx.Format.Codec.{Compressors}
use go_fbx.Format.Chunk.{encode_chunk_record}
use go_fbx.Fbx.Write.{map_err, Writer, Source, Settings, append_at, write_chunks_sequential}

pub record ChunkJob : Type 0 where
  pub index : ℕ
  pub raw_off : ℕ
  pub raw : Bytes

pub record ChunkResult : Type 0 where
  pub index : ℕ
  pub raw_off : ℕ
  pub raw_sz : ℕ
  pub rec : Bytes
  pub crc : ℕ
  pub error : Option Error

-- What the main goroutine holds: the results that wait for one in front of them, by index.
pub record Collector : Type 0 where
  pub pending : ℕ → Option ChunkResult
  pub next : ℕ
  pub writer : Writer
  pub chunks : List ChunkRefV1
  pub out_err : Option Error

-- `if outErr == nil { outErr = … }`
abbrev pub first_error : Option Error → Option Error → Option Error
first_error (some e) later = some e
first_error none later = later

-- The reference to a result that is appended at an offset.
abbrev pub reference : ℕ → ChunkResult → ChunkRefV1
reference offset cur = record {
  chunk_offset = offset;
  raw_offset = cur.raw_off;
  raw_size = cur.raw_sz;
  comp_size = (length cur.rec - 16) % 2 ^ 32;
  crc32_raw = cur.crc;
  reserved = 0;
}

-- One result taken from those that wait.
unfoldable pub write_result : Collector → ChunkResult → Collector
write_result c cur = elim cur.error [
  | some e ↦ record c { out_err = first_error c.out_err (some e) }
  | none ↦ elim c.out_err [
    | some e ↦ c
    | none ↦ elim (append_at c.writer.file c.writer.append_offset cur.rec) [
      | err e ↦ record c { out_err = some e }
      | ok p ↦ record c {
        writer = record { file = p.0; append_offset = p.1 };
        chunks = c.chunks ++ reference c.writer.append_offset cur ∷ [];
      }
    ]
  ]
]

-- The inner loop, on fuel: it goes on while the next result is there.
unfoldable pub drain : ℕ → Collector → Collector
drain zero c = c
drain (suc fuel) c = elim (c.pending c.next) [
  | none ↦ c
  | some cur ↦ drain fuel (
      write_result
        (record c { pending = λ i. if i == c.next then none else c.pending i; next = c.next + 1 })
        cur)
]

-- The body of the loop over the results. The inner loop takes each result at most once, so fuel for
-- all of them is enough.
unfoldable pub receive : ℕ → Collector → ChunkResult → Collector
receive fuel c res = drain fuel (record c {
  pending = λ i. if i == res.index then some res else c.pending i;
  out_err = first_error c.out_err res.error;
})

unfoldable pub collect : ℕ → Collector → List ChunkResult → Collector
collect fuel c [] = c
collect fuel c (res ∷ results) = collect fuel (receive fuel c res) results

abbrev pub prepend :
    ChunkJob → Option (List ChunkJob × ℕ × Option Error) → Option (List ChunkJob × ℕ × Option Error)
prepend job none = none
prepend job (some (jobs, total, e)) = some (job ∷ jobs, total, e)

module _ (lib : Compressors) (s : Settings) where
  -- The loop of the producer, on fuel: the jobs, the bytes they hold, and its error.
  unfoldable pub produce : ℕ → Source → ℕ → ℕ → Option (List ChunkJob × ℕ × Option Error)
  produce zero r idx raw_off = none
  produce (suc fuel) r idx raw_off =
      let raw = take s.chunk_size r.unread in
      let later : Source = record r { unread = drop s.chunk_size r.unread } in
      let more = λ (job : ChunkJob) (after : ℕ). prepend job (produce fuel later (idx + 1) after) in
      if ltb (length r.unread) s.chunk_size && r.fails
      then some ([], raw_off, some read_error)
      else if length r.unread == 0
      then some ([], raw_off, none)
      else elim (add_uint64 raw_off (length raw)) [
        | none ↦ some ([], raw_off, some limit_exceeded)
        | some after ↦
            if ltb 0 s.max_entry && ltb s.max_entry after
            then some ([], raw_off, some limit_exceeded)
            else let job : ChunkJob = record { index = idx; raw_off = raw_off; raw = raw } in
              elim (ltb (length r.unread) s.chunk_size) [
                | true ↦ some (job ∷ [], after, none)
                | false ↦ more job after
              ]
      ]

  -- What a worker makes of a job.
  unfoldable pub run_job : ChunkJob → ChunkResult
  run_job j = elim (encode_chunk_record lib j.raw s.codec s.level) [
    | err e ↦ record {
      index = j.index;
      raw_off = j.raw_off;
      raw_sz = 0;
      rec = [];
      crc = 0;
      error = some (map_err e);
    }
    | ok p ↦ record {
      index = j.index;
      raw_off = j.raw_off;
      raw_sz = length j.raw % 2 ^ 32;
      rec = p.0;
      crc = p.1;
      error = none;
    }
  ]

  -- The answer when the producer and the workers are done.
  abbrev pub answer : Collector → ℕ → Option Error → Writer × Result (List ChunkRefV1 × ℕ)
  answer c raw_total produce_err = elim (first_error c.out_err produce_err) [
    | some e ↦ (c.writer, err e)
    | none ↦ (c.writer, ok (c.chunks, raw_total))
  ]

  -- `writeChunksParallel`, with the order in which the results arrive.
  unfoldable pub write_chunks_parallel :
      (List ChunkResult → List ChunkResult)
      → Writer
      → Source
      → Option (Writer × Result (List ChunkRefV1 × ℕ))
  write_chunks_parallel arrive w r = elim (produce (suc (length r.unread)) r 0 0) [
    | none ↦ none
    | some p ↦
        let c : Collector = record {
          pending = λ i. none;
          next = 0;
          writer = w;
          chunks = [];
          out_err = none;
        } in
        some (answer (collect (suc (length p.0)) c (arrive (map run_job p.0))) p.1 p.2)
  ]

  -- `writeChunks`, with the number of workers
  unfoldable pub write_chunks :
      ℕ
      → (List ChunkResult → List ChunkResult)
      → Writer
      → Source
      → Option (Writer × Result (List ChunkRefV1 × ℕ))
  write_chunks workers arrive w r =
      if leb workers 1 then write_chunks_sequential lib s w r else write_chunks_parallel arrive w r
