-- ===== src/Fbx/Write/Steps.antt =====
-- One chunk written, and the end of the loop.
use go_fbx.Base.{
  ℕ, zero, suc, ◌+◌, ◌-◌, ◌^◌, ◌%◌, ◌<◌, ◌≤◌, ◌≡◌, ◌≢◌, inl, inr, Option-cases, none, some, arith,
}
use go_fbx.Base.{List, [], ◌∷◌, ◌++◌, length, length-append, length-drop, take, drop}
use go_fbx.Base.{Bytes, ok, Result-cases}
use go_fbx.File.{write_at-end}
use go_fbx.Format.Types.{ChunkRefV1}
use go_fbx.Format.Checked.{add_uint64}
use go_fbx.Format.Codec.{Compressors}
use go_fbx.Format.Chunk.{encode_chunk_record}
use go_fbx.Fbx.Write.{
  Writer, Source, Settings, append_at, write_chunk, write_loop, write_chunks_sequential,
}

pub add_uint64-value :
    (a b : ℕ) {n : ℕ} → add_uint64 a b ≡ some n → a < 2 ^ 64 → b < 2 ^ 64 → n ≡ a + b
unfolding add_uint64
add_uint64-value a b h p q = ground arith

module _ (lib : Compressors) (s : Settings) where
  -- What a chunk that was written without an error leaves: its record at the end of the file, and
  -- the reference to it.
  pub record Written (w : Writer) (raw_off : ℕ) (raw : Bytes) (w' : Writer) (c : ChunkRefV1)
      (next : ℕ) : Type 0 where
    pub rec : Bytes
    pub encoded : encode_chunk_record lib raw s.codec s.level ≡ ok (rec, c.crc32_raw)
    pub file_is : w'.file ≡ w.file ++ rec
    pub offset_is : w'.append_offset ≡ length w'.file
    pub chunk_offset_is : c.chunk_offset ≡ length w.file
    pub raw_offset_is : c.raw_offset ≡ raw_off
    pub raw_size_is : c.raw_size ≡ length raw % 2 ^ 32
    pub comp_size_is : c.comp_size ≡ (length rec - 16) % 2 ^ 32
    pub reserved_is : c.reserved ≡ 0
    pub next_is : add_uint64 raw_off (length raw) ≡ some next
    pub under_limit : s.max_entry ≢ 0 → next ≤ s.max_entry

  pub write_chunk-Written :
      (w : Writer) (raw_off : ℕ) (raw : Bytes) {w' : Writer} {c : ChunkRefV1} {next : ℕ}
      → w.append_offset ≡ length w.file
      → write_chunk lib s w raw_off raw ≡ (w', ok (c, next))
      → Written w raw_off raw w' c next
  unfolding write_chunk append_at
  write_chunk-Written w raw_off raw {w'} {c} {next} hw e =
      elim (Option-cases (add_uint64 raw_off (length raw))) [
        | inl n ↦ absurd (ground arith)
        | inr (n, p) ↦ elim (Result-cases (encode_chunk_record lib raw s.codec s.level)) [
          | inr (x, q) ↦ absurd (ground arith)
          | inl ((rec, crc), q) ↦ record {
            rec = rec;
            encoded = ground arith;
            file_is = ground (arith, write_at-end w.file rec w.append_offset hw);
            offset_is =
                ground
                  (arith, write_at-end w.file rec w.append_offset hw, length-append w.file rec);
            chunk_offset_is = ground arith;
            raw_offset_is = ground arith;
            raw_size_is = ground arith;
            comp_size_is = ground arith;
            reserved_is = ground arith;
            next_is = ground arith;
            under_limit = ground arith;
          }
        ]
      ]

  -- With a chunk size that is not 0 the loop ends before its fuel does.
  write_loop-ne-none :
      (fuel : ℕ) (w : Writer) (r : Source) (raw_off : ℕ) (chunks : List ChunkRefV1)
      → 0 < s.chunk_size
      → length r.unread < fuel
      → write_loop lib s fuel w r raw_off chunks ≢ none
  unfolding write_loop
  write_loop-ne-none zero w r raw_off chunks pos h e = absurd (omega arith)
  write_loop-ne-none (suc fuel) w r raw_off chunks pos h e =
      let (w', answer) = write_chunk lib s w raw_off (take s.chunk_size r.unread) in
      let later : Source = record r { unread = drop s.chunk_size r.unread } in
      elim (Result-cases answer) [
        | inr (x, q) ↦ ground arith
        | inl ((c, next), q) ↦ ground (
          arith,
          length-drop s.chunk_size r.unread,
          write_loop-ne-none fuel w' later next (chunks ++ c ∷ []) pos,
        )
      ]

  -- With a chunk size that is not 0 `writeChunksSequential` ends on every source, within one round
  -- more than the source has bytes.
  pub write_chunks_sequential-ne-none :
      (w : Writer) (r : Source) → 0 < s.chunk_size → write_chunks_sequential lib s w r ≢ none
  unfolding write_chunks_sequential
  write_chunks_sequential-ne-none w r pos =
      write_loop-ne-none (suc (length r.unread)) w r 0 [] pos (omega arith)
