-- ===== src/Fbx/Reader/Extract.antt =====
-- What `writeChunksSequential` wrote is what a reader of the references gives.
use go_fbx.Base.{
  ℕ, ◌+◌, ◌-◌, ◌^◌, ◌<◌, ◌≤◌, ◌≡◌, ◌≢◌, refl, sym, ◌∙◌, ap, subst, Bool, true, false, not, some,
  arith,
}
use go_fbx.Base.{List, [], ◌∷◌, ◌++◌, length, length-append, All, ◌==◌}
use go_fbx.Base.{Bytes, ok, invalid_chunk, guard-then}
use go_fbx.Format.Types.{ChunkRefV1}
use go_fbx.Format.Codec.{Compressors}
use go_fbx.Format.Codec.RoundTrip.{IsLossless}
use go_fbx.Format.Chunk.{ChunkRecordV1, encode_chunk_record, read_chunk_record_at_opt_limited}
use go_fbx.Format.Chunk.RoundTrip.{read_chunk_record-encode_chunk_record}
use go_fbx.Fbx.Write.{Writer, Source, Settings, write_chunks_sequential}
use go_fbx.Fbx.Write.ReadBack.{Placed, Holds, done, piece, IsBounded, write_chunks_sequential-Adds}
use go_fbx.Fbx.Reader.{open_entry, over_limit, same_record, read}
use go_fbx.Fbx.Reader.Refine.{Loads, Answers, read-Answers}

-- Only bytes are encoded.
encoded_nonempty :
    (lib : Compressors) (raw : Bytes) (codec level : ℕ) {rec : Bytes} {crc : ℕ}
    → encode_chunk_record lib raw codec level ≡ ok (rec, crc)
    → 0 < length raw
unfolding encode_chunk_record
encoded_nonempty lib raw codec level e =
    guard-then (not (length raw == 0)) invalid_chunk _ e λ some_bytes _. ground arith

module _ (lib : Compressors) (s : Settings) (law : IsLossless lib) (hc : s.codec < 256)
    (hl : s.level < 256) where
  Placed-read :
      (file : Bytes) (c : ChunkRefV1) (raw : Bytes) (verify : Bool)
      → length file + 16 < 2 ^ 63
      → Placed lib s file c raw
      → (rec : ChunkRecordV1) × (read_chunk_record_at_opt_limited lib file c.chunk_offset verify
            c.raw_size c.comp_size
          ≡ ok rec)
        × (same_record rec c ≡ true)
        × (rec.payload ≡ raw)
  unfolding same_record
  Placed-read file c raw verify small p =
      let total = ap length p.splits ∙ length-append p.front (p.rec ++ p.back) in
      let rec : ChunkRecordV1 = record {
        codec = s.codec;
        level = s.level;
        raw_size = length raw;
        comp_size = length p.rec - 16;
        crc32_raw = c.crc32_raw;
        payload = raw;
      } in
      (
        rec,
        rw (p.splits, p.offset_is, p.raw_size_is, p.comp_size_is)
            (read_chunk_record-encode_chunk_record lib law raw p.rec p.front p.back s.codec s.level
              c.crc32_raw (length raw) (length p.rec - 16) verify hc hl p.raw_small p.rec_small
              (omega arith) p.encoded (λ k. omega arith) (λ k. omega arith)),
        rw (p.raw_size_is, p.comp_size_is) (ground arith),
        refl,
      )

  Holds-Loads :
      (file : Bytes) (verify : Bool) (max_chunk : ℕ) {off : ℕ} {cs : List ChunkRefV1}
      {content : Bytes}
      → length file + 16 < 2 ^ 63
      → Holds lib s file off cs content
      → All (λ c. over_limit max_chunk c ≡ false) cs
      → Loads lib file verify max_chunk cs content
  Holds-Loads file verify max_chunk small done ts = refl
  Holds-Loads file verify max_chunk {cs = c ∷ cs} small (piece raw rest content p o e h) (t, ts) =
      let (rec, read, same, payload) = Placed-read file c raw verify small p in
      (
        rec,
        rest,
        read,
        same,
        t,
        e ∙ ap (λ b. b ++ rest) (sym payload),
        rw payload (encoded_nonempty lib raw s.codec s.level p.encoded),
        Holds-Loads file verify max_chunk small h ts,
      )

  -- What `writeChunksSequential` wrote without an error is what a reader gives: with lossless
  -- compressors, an append offset at the end of the file, sizes that fit their fields and limits
  -- that the sizes keep, a reader opened on the file and the references answers a call of Read for
  -- any number of bytes with that many of the first bytes of the content, or all if there are
  -- fewer, with EOF just where bytes are asked for and there are none, and still has the rest to
  -- give.
  pub read-write_chunks_sequential :
      (w : Writer) (r : Source) (verify : Bool) (max_entry max_chunk want : ℕ) {w' : Writer}
      {chunks : List ChunkRefV1} {size : ℕ}
      → IsBounded lib s
      → w.append_offset ≡ length w.file
      → write_chunks_sequential lib s w r ≡ some (w', ok (chunks, size))
      → length w'.file + 16 < 2 ^ 63
      → (max_entry ≢ 0 → size ≤ max_entry)
      → All (λ c. over_limit max_chunk c ≡ false) chunks
      → Answers lib [] want r.unread
          (read lib (open_entry w'.file chunks verify max_entry max_chunk) want)
  read-write_chunks_sequential w r verify max_entry max_chunk want {w'} {chunks} {size} b hw e small
        limit ts =
      let a = write_chunks_sequential-Adds lib s w r b hw e in
      let holds : Holds lib s w'.file 0 chunks r.unread =
        subst (λ cs. Holds lib s w'.file 0 cs r.unread) (sym a.chunks_are) a.holds in
      let size_is = a.size_is in
      let size_u64 = a.size_u64 in
      read-Answers lib (open_entry w'.file chunks verify max_entry max_chunk) want (record {
        unread = r.unread;
        content_is = refl;
        loads = Holds-Loads w'.file verify max_chunk small holds ts;
        in_limit = λ set. let l = limit set in omega arith;
        total_u64 = omega arith;
      })
