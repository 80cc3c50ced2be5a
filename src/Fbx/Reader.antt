-- ===== src/Fbx/Reader.antt =====
-- fbx/container.go, `entryReader`: the content of an entry, read chunk by chunk into buffers of any
-- size.
pub mod Refine
pub mod Extract
use go_fbx.Base.{ℕ, zero, suc, ◌+◌, ◌-◌, ◌^◌, ◌%◌, Bool, not, ◌&&◌, ◌||◌, Option, none, some}
use go_fbx.Base.{List, [], ◌∷◌, ◌++◌, length, take, drop, get_elem?, ltb, leb, ◌==◌, if◌then◌else◌}
use go_fbx.Base.{
  Bytes, Error, Result, ok, err, ◌>>=◌, ◌>>◌, guard, invalid_format, limit_exceeded, eof,
}
use go_fbx.Format.Types.{ChunkRefV1}
use go_fbx.Format.Codec.{Compressors}
use go_fbx.Format.Chunk.{ChunkRecordV1, read_chunk_record_at_opt_limited}
use go_fbx.Fbx.Write.{mapped}

pub record EntryReader : Type 0 where
  pub f : Bytes
  pub chunks : List ChunkRefV1
  pub idx : ℕ
  pub cur : Bytes
  pub cur_read : ℕ
  pub verify_crc : Bool
  pub max_entry : ℕ
  pub max_chunk : ℕ
  pub read_total : ℕ

-- The reader that `OpenReader` makes for the chunks of an entry.
abbrev pub open_entry : Bytes → List ChunkRefV1 → Bool → ℕ → ℕ → EntryReader
open_entry f chunks verify_crc max_entry max_chunk = record {
  f = f;
  chunks = chunks;
  idx = 0;
  cur = [];
  cur_read = 0;
  verify_crc = verify_crc;
  max_entry = max_entry;
  max_chunk = max_chunk;
  read_total = 0;
}

-- `ref.RawSize > max || ref.CompSize > max` under a limit that is set
abbrev pub over_limit : ℕ → ChunkRefV1 → Bool
over_limit max c = ltb 0 max && (ltb max c.raw_size || ltb max c.comp_size)

-- The record is the one that the reference describes.
unfoldable pub same_record : ChunkRecordV1 → ChunkRefV1 → Bool
same_record rec c =
    rec.raw_size == c.raw_size && (rec.comp_size == c.comp_size && rec.crc32_raw == c.crc32_raw)

-- An end of the loop before the buffer is full: the error is kept for the next call if there are
-- bytes to return.
abbrev stop : EntryReader → Bytes → Error → EntryReader × Bytes × Option Error
stop r [] e = (r, [], some e)
stop r (b ∷ out) e = (r, b ∷ out, none)

-- `copy(p[n:], r.cur[r.curRead:])`, with `want` bytes of the buffer left
abbrev pub copied : EntryReader → ℕ → Bytes
copied r want = take want (drop r.cur_read r.cur)

abbrev pub advance : EntryReader → ℕ → EntryReader
advance r n = record r { cur_read = r.cur_read + n; read_total = (r.read_total + n) % 2 ^ 64 }

module _ (lib : Compressors) where
  -- The next chunk, with every test of it.
  unfoldable pub load : EntryReader → ChunkRefV1 → Result EntryReader
  load r c = do
    guard (not (over_limit r.max_chunk c)) limit_exceeded
    rec ← mapped (
        read_chunk_record_at_opt_limited lib r.f c.chunk_offset r.verify_crc c.raw_size c.comp_size)
    guard (same_record rec c) invalid_format
    guard
        (not (ltb 0 r.max_entry && ltb r.max_entry ((r.read_total + length rec.payload) % 2 ^ 64)))
        limit_exceeded
    ok (record r { idx = r.idx + 1; cur = rec.payload; cur_read = 0 })

  -- The loop of `Read`, on fuel; `none` is no answer of the code.
  unfoldable pub read_loop :
      ℕ → EntryReader → ℕ → Bytes → Option (EntryReader × Bytes × Option Error)
  read_loop zero r want out = none
  read_loop (suc fuel) r want out =
      let go = λ (q : EntryReader).
        read_loop fuel (advance q (length (copied q want))) (want - length (copied q want))
          (out ++ copied q want) in
      if want == 0
      then some (r, out, none)
      else if leb (length r.cur) r.cur_read
      then elim (get_elem? r.chunks r.idx) [
        | none ↦ some (stop r out eof)
        | some c ↦ elim (load r c) [ err e ↦ some (stop r out e) | ok q ↦ go q ]
      ]
      else go r

  -- `Read` into a buffer of `want` bytes. Every round copies a byte at least, so a round for each
  -- byte, and one to end, are enough.
  unfoldable pub read : EntryReader → ℕ → Option (EntryReader × Bytes × Option Error)
  read r want = read_loop (suc want) r want []
