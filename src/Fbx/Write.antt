-- ===== src/Fbx/Write.antt =====
-- fbx/tx.go, `writeChunksSequential`: the content of an entry cut into chunks, each appended to the
-- file. What was appended before an error stays in the file.
pub mod Steps
pub mod Parallel
pub mod Appends
pub mod ReadBack
use go_fbx.Base.{ℕ, zero, suc, ◌+◌, ◌-◌, ◌^◌, ◌%◌, Bool, true, false, not, ◌&&◌, Option, none, some}
use go_fbx.Base.{List, [], ◌∷◌, ◌++◌, length, take, drop, ltb, leb, ◌==◌, if◌then◌else◌}
use go_fbx.Base.{Bytes, Error, Result, ok, err, limit_exceeded, append_zero, read_error}
use go_fbx.Base.{invalid_header, invalid_dir, invalid_chunk, bad_codec, format_limit_exceeded}
use go_fbx.Base.{format_crc_mismatch, invalid_path, invalid_format, unsupported_codec, crc_mismatch}
use go_fbx.Base.{path_invalid}
use go_fbx.File.{write_at}
use go_fbx.Format.Types.{Codec, ChunkRefV1}
use go_fbx.Format.Checked.{add_uint64}
use go_fbx.Format.Codec.{Compressors}
use go_fbx.Format.Chunk.{encode_chunk_record}

-- `mapErr` of fbx/container.go
unfoldable pub map_err : Error → Error
map_err invalid_header = invalid_format
map_err invalid_dir = invalid_format
map_err invalid_chunk = invalid_format
map_err bad_codec = unsupported_codec
map_err format_limit_exceeded = limit_exceeded
map_err format_crc_mismatch = crc_mismatch
map_err invalid_path = path_invalid
map_err e = e

-- `mapErr` on the error of an answer
abbrev pub mapped {ℓ} : {A : Type ℓ} → Result A → Result A
mapped (ok a) = ok a
mapped (err e) = err (map_err e)

-- What a transaction writes to: the file, and the place where it appends.
pub record Writer : Type 0 where
  pub file : Bytes
  pub append_offset : ℕ

-- `appendAt`
unfoldable pub append_at : Bytes → ℕ → Bytes → Result (Bytes × ℕ)
append_at file off bytes =
    if length bytes == 0 then err append_zero else ok (write_at file off bytes, off + length bytes)

-- An `io.Reader` of finitely many bytes: those that it still gives, and whether it then fails or
-- ends. A reader that fails with `io.ErrUnexpectedEOF` is one that ends: the code takes that error
-- for the end.
pub record Source : Type 0 where
  pub unread : Bytes
  pub fails : Bool

-- The settings of one call.
pub record Settings : Type 0 where
  pub codec : Codec
  pub level : ℕ
  pub chunk_size : ℕ
  pub max_entry : ℕ

module _ (lib : Compressors) (s : Settings) where
  -- One full or last chunk of the loop: the limits, the record, the append. It answers the
  -- reference and the raw offset behind it.
  unfoldable pub write_chunk : Writer → ℕ → Bytes → Writer × Result (ChunkRefV1 × ℕ)
  write_chunk w raw_off raw = elim (add_uint64 raw_off (length raw)) [
    | none ↦ (w, err limit_exceeded)
    | some next_raw_off ↦
        if ltb 0 s.max_entry && ltb s.max_entry next_raw_off
        then (w, err limit_exceeded)
        else elim (encode_chunk_record lib raw s.codec s.level) [
          | err e ↦ (w, err (map_err e))
          | ok (rec, crc) ↦ elim (append_at w.file w.append_offset rec) [
            | err e ↦ (w, err e)
            | ok (file, off) ↦ (
              record { file = file; append_offset = off },
              ok (
                record {
                  chunk_offset = w.append_offset;
                  raw_offset = raw_off;
                  raw_size = length raw % 2 ^ 32;
                  comp_size = (length rec - 16) % 2 ^ 32;
                  crc32_raw = crc;
                  reserved = 0;
                },
                next_raw_off,
              ),
            )
          ]
        ]
  ]

  -- The loop, on fuel: `none` is no answer of the code. `io.ReadFull` fills the buffer, or gives the
  -- last bytes with `ErrUnexpectedEOF`, or nothing with `EOF`, or fails.
  unfoldable pub write_loop :
      ℕ → Writer → Source → ℕ → List ChunkRefV1 → Option (Writer × Result (List ChunkRefV1 × ℕ))
  write_loop zero w r raw_off chunks = none
  write_loop (suc fuel) w r raw_off chunks =
      let raw = take s.chunk_size r.unread in
      let later : Source = record r { unread = drop s.chunk_size r.unread } in
      let (w', answer) = write_chunk w raw_off raw in
      let more = λ (c : ChunkRefV1) (next : ℕ). write_loop fuel w' later next (chunks ++ c ∷ []) in
      if ltb (length r.unread) s.chunk_size && r.fails
      then some (w, err read_error)
      else if length r.unread == 0
      then some (w, ok (chunks, raw_off))
      else elim answer [
        | err e ↦ some (w', err e)
        | ok (c, next) ↦ elim (ltb (length r.unread) s.chunk_size) [
          | true ↦ some (w', ok (chunks ++ c ∷ [], next))
          | false ↦ more c next
        ]
      ]

  -- `writeChunksSequential`. A round takes a byte at least, so one round more than there are bytes
  -- is enough.
  unfoldable pub write_chunks_sequential :
      Writer → Source → Option (Writer × Result (List ChunkRefV1 × ℕ))
  write_chunks_sequential w r = write_loop (suc (length r.unread)) w r 0 []
