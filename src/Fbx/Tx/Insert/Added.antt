-- ===== src/Fbx/Tx/Insert/Added.antt =====
-- What Add stores is what a reader then gives.
use go_fbx.Base.{
  ℕ, ◌+◌, ◌<◌, ◌≡◌, refl, sym, ◌∙◌, ltb, ltb→lt, inl, inr, Option-cases, Bool-cases, Bool, false,
  Option, none, some, arith, ◌^◌,
}
use go_fbx.Base.{List, [], length, take, leb, if◌then◌else◌, Bytes, equal, ok, All}
use mathlib.Core.List.{Permᴰ}
use go_fbx.Format.Types.{EntryV1, ChunkRefV1}
use go_fbx.Format.Codec.{Compressors}
use go_fbx.Format.Codec.RoundTrip.{IsLossless}
use go_fbx.Paths.{normalize}
use go_fbx.Fbx.Options.{Options}
use go_fbx.Fbx.Write.{Writer, Source, Settings, write_chunks_sequential}
use go_fbx.Fbx.Write.ReadBack.{IsBounded, write_chunks_sequential-Adds}
use go_fbx.Fbx.Write.Parallel.{ChunkResult, write_chunks}
use go_fbx.Fbx.Write.Parallel.Order.{write_chunks_parallel_lem}
use go_fbx.Fbx.Reader.{open_entry, over_limit, read}
use go_fbx.Fbx.Reader.Refine.{Answers}
use go_fbx.Fbx.Reader.Extract.{read-write_chunks_sequential}
use go_fbx.Fbx.Entry.{
  WriteOptions, Plan, limited_chunk_size, asked_chunk_size, uint8-small, plan, text_flags, settings,
  new_entry, write_entry,
}
use go_fbx.Fbx.Tx.{Tx, lookup, assign}
use go_fbx.Fbx.Tx.Many.{lookup-assign}
use go_fbx.Fbx.Tx.Insert.{put, add}

module _ (lib : Compressors) (s : Settings) where
  -- The answer of writeChunksSequential is that of writeChunks for any number of workers.
  write_chunks_lem :
      (workers : ℕ) (arrive : List ChunkResult → List ChunkResult) (w : Writer) (r : Source)
      {w' : Writer} {chunks : List ChunkRefV1} {size : ℕ}
      → ((results : List ChunkResult) → Permᴰ results (arrive results))
      → write_chunks_sequential lib s w r ≡ some (w', ok (chunks, size))
      → write_chunks lib s workers arrive w r ≡ some (w', ok (chunks, size))
  unfolding write_chunks
  write_chunks_lem workers arrive w r perm e = elim (Bool-cases (leb workers 1)) [
    | inl few ↦ ground arith
    | inr many ↦ ground (arith, write_chunks_parallel_lem lib s arrive w r perm e)
  ]

settings-limits :
    (opts : Options) (p : Plan) (is_text : Bool) (path probe : Bytes) {s : Settings} {workers : ℕ}
    → settings opts p is_text path probe ≡ some (s, workers)
    → (s.max_entry ≡ opts.max_entry_size) × (s.level < 256)
unfolding settings
settings-limits opts p is_text path probe e =
    elim (Option-cases (limited_chunk_size opts (asked_chunk_size opts p is_text))) [
      | inl n ↦ absurd (ground arith)
      | inr (n, q) ↦ (ground arith, ground (arith, uint8-small p.level))
    ]

module _ (lib : Compressors) (opts : Options) (now : ℕ)
    (arrive : List ChunkResult → List ChunkResult) where
  add_run :
      (tx : Tx) (path : Bytes) (r : Source) (meta : Bytes) (wopts : Option WriteOptions)
      {norm : Bytes} {s : Settings} {workers : ℕ} {w' : Writer} {chunks : List ChunkRefV1}
      {size : ℕ}
      → tx.closed ≡ false
      → normalize path ≡ ok norm
      → lookup norm tx.entries ≡ none
      → (let p = plan opts now wopts in
          settings opts p
            (text_flags opts p.flags norm (take 4096 r.unread)).0
            norm
            (take 4096 r.unread)
          ≡ some (s, workers))
      → write_chunks lib s workers arrive tx.writer r ≡ some (w', ok (chunks, size))
      → let p = plan opts now wopts in
        let flags = (text_flags opts p.flags norm (take 4096 r.unread)).1 in
        add lib opts now arrive tx path (some r) meta wopts
        ≡ some (
          record tx {
            writer = w';
            entries = assign norm (new_entry norm p flags meta chunks size) tx.entries;
          },
          ok tt,
        )
  unfolding add put write_entry
  add_run tx path r meta wopts active valid absent settled written = ground arith

  -- Add, then reading: on an open transaction whose append offset is the end of the file, for a
  -- path whose normal form has no entry, with lossless compressors, a codec that is a byte and
  -- sizes that fit their fields: when `writeChunksSequential` writes the content without an error
  -- under the settings that `writeEntry` chooses, then Add succeeds for any number of workers and
  -- any order in which their results arrive; the path then has an entry with the size of the
  -- content and the given metadata, the other paths keep theirs, the dead bytes stay, and a reader
  -- opened on the entry answers a call of Read with the first bytes of the content, as long as no
  -- chunk is over the limit of a chunk.
  pub add-read :
      (tx : Tx) (path : Bytes) (r : Source) (meta : Bytes) (wopts : Option WriteOptions)
      (verify : Bool) (want : ℕ) {norm : Bytes} {s : Settings} {workers : ℕ} {w' : Writer}
      {chunks : List ChunkRefV1} {size : ℕ}
      → IsLossless lib
      → ((results : List ChunkResult) → Permᴰ results (arrive results))
      → tx.closed ≡ false
      → normalize path ≡ ok norm
      → lookup norm tx.entries ≡ none
      → (let p = plan opts now wopts in
          settings opts p
            (text_flags opts p.flags norm (take 4096 r.unread)).0
            norm
            (take 4096 r.unread)
          ≡ some (s, workers))
      → s.codec < 256
      → IsBounded lib s
      → tx.writer.append_offset ≡ length tx.writer.file
      → write_chunks_sequential lib s tx.writer r ≡ some (w', ok (chunks, size))
      → length w'.file + 16 < 2 ^ 63
      → All (λ c. over_limit opts.max_chunk_size c ≡ false) chunks
      → (tx' : Tx) × (e : EntryV1) × (add lib opts now arrive tx path (some r) meta wopts
          ≡ some (tx', ok tt))
        × ((k : Bytes)
            → lookup k tx'.entries ≡ (if equal k norm then some e else lookup k tx.entries))
        × (e.file_size ≡ length r.unread)
        × (e.meta ≡ meta)
        × (tx'.dead_bytes ≡ tx.dead_bytes)
        × Answers lib [] want r.unread (
            read lib
              (open_entry tx'.writer.file e.chunks verify opts.max_entry_size opts.max_chunk_size)
              want)
  add-read tx path r meta wopts verify want {norm} {s} {workers} {w'} {chunks} {size} law perm
        active valid absent settled byte b hw e small ts =
      let p = plan opts now wopts in
      let probe = take 4096 r.unread in
      let t = text_flags opts p.flags norm probe in
      let entry = new_entry norm p t.1 meta chunks size in
      let a = write_chunks_sequential-Adds lib s tx.writer r b hw e in
      let (max_is, level_small) = settings-limits opts p t.0 norm probe settled in
      (
        record tx { writer = w'; entries = assign norm entry tx.entries },
        entry,
        add_run tx path r meta wopts active valid absent settled
            (write_chunks_lem lib s workers arrive tx.writer r perm e),
        λ k. lookup-assign k norm entry tx.entries,
        omega (arith, a.size_is),
        refl,
        refl,
        read-write_chunks_sequential lib s law byte level_small tx.writer r verify
            opts.max_entry_size opts.max_chunk_size want b hw e small
            (λ set. elim (Bool-cases (ltb 0 (length r.unread))) [
              | inl pos ↦
                  let l =
                    a.under_limit (λ z. set (sym max_is ∙ z)) (ltb→lt 0 (length r.unread) pos) in
                  omega (arith, max_is)
              | inr none_left ↦ ground (arith, a.size_is)
            ])
            ts,
      )
