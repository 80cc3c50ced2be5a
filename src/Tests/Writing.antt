-- ===== src/Tests/Writing.antt =====
-- The content of an entry, written and read, at concrete inputs.
use go_fbx.Base.{
  ℕ, ◌^◌, ◌<◌, ◌≤◌, ◌≡◌, ◌≢◌, refl, [], ◌∷◌, List, true, false, none, some, Bytes, guard-then,
  ok-injective, ap, not, ◌==◌, invalid_chunk, put_uint, length, ok, checksum, arith,
}
use go_fbx.File.{write_at}
use go_fbx.Format.Types.{ChunkRefV1, codec_store}
use go_fbx.Format.Codec.{compress_payload}
use go_fbx.Format.Chunk.{encode_chunk_record, chunk_bytes}
use go_fbx.Format.Checked.{add_uint64}
use go_fbx.Format.Chunk.RoundTrip.{length-chunk_bytes}
use go_fbx.Fbx.Write.{
  Writer, Source, Settings, append_at, write_chunk, write_loop, write_chunks_sequential,
}
use go_fbx.Fbx.Write.Steps.{write_chunks_sequential-ne-none}
use go_fbx.Fbx.Write.ReadBack.{IsBounded, Adds, write_chunks_sequential-Adds}
use go_fbx.Fbx.Reader.{EntryReader, open_entry, read}
use go_fbx.Fbx.Reader.Refine.{Pending, Answers, read-Answers}
use go_fbx.Fbx.Reader.Extract.{read-write_chunks_sequential}
use go_fbx.Tests.Format.{framing-IsLossless}
use go_fbx.Tests.Samples.{framing}

-- Chunks of two bytes, stored.
abbrev pub settings : Settings
settings = record { codec = codec_store; level = 0; chunk_size = 2; max_entry = 10 }

abbrev pub writer : Writer
writer = record { file = 1 ∷ 2 ∷ []; append_offset = 2 }

abbrev pub source : Source
source = record { unread = 10 ∷ 11 ∷ 12 ∷ []; fails = false }

write_chunks_sequential-ne-none_example :
    write_chunks_sequential framing settings writer source ≢ none
write_chunks_sequential-ne-none_example =
    write_chunks_sequential-ne-none framing settings writer source (omega arith)

store_small :
    (raw rec : Bytes) (crc : ℕ)
    → length raw ≤ 2
    → encode_chunk_record framing raw codec_store 0 ≡ ok (rec, crc)
    → length rec < 2 ^ 32
unfolding encode_chunk_record compress_payload
store_small raw rec crc h e = guard-then (not (length raw == 0)) invalid_chunk _ e λ nonempty e1.
    let rec_is : chunk_bytes codec_store 0 (length raw) (checksum raw) raw ≡ rec =
      ap (λ p. p.0) (ok-injective e1) in
    rw (← rec_is) (omega (arith, length-chunk_bytes codec_store 0 (length raw) (checksum raw) raw))

pub settings-IsBounded : IsBounded framing settings
settings-IsBounded = record {
  chunk_pos = omega arith;
  chunk_small = omega arith;
  records_small = store_small;
}

abbrev pub written : Writer
written = record {
  file =
      1 ∷ 2 ∷ 67 ∷ 75 ∷ 0 ∷ 0 ∷ 2 ∷ 0 ∷ 0 ∷ 0 ∷ 2 ∷ 0 ∷ 0 ∷ 0 ∷ 253 ∷ 35 ∷ 228 ∷ 44 ∷ 10 ∷ 11 ∷ 67
      ∷ 75 ∷ 0 ∷ 0 ∷ 1 ∷ 0 ∷ 0 ∷ 0 ∷ 1 ∷ 0 ∷ 0 ∷ 0 ∷ 166 ∷ 163 ∷ 180 ∷ 219 ∷ 12 ∷ [];
  append_offset = 37;
}

abbrev pub references : List ChunkRefV1
references =
    record {
      chunk_offset = 2;
      raw_offset = 0;
      raw_size = 2;
      comp_size = 2;
      crc32_raw = 753148925;
      reserved = 0;
    }
    ∷ record {
      chunk_offset = 20;
      raw_offset = 2;
      raw_size = 1;
      comp_size = 1;
      crc32_raw = 3686048678;
      reserved = 0;
    }
    ∷ []

pub sequential_run :
    write_chunks_sequential framing settings writer source ≡ some (written, ok (references, 3))
unfolding write_chunks_sequential write_loop write_chunk append_at write_at encode_chunk_record
    compress_payload checksum chunk_bytes add_uint64 put_uint
sequential_run = refl

write_chunks_sequential-Adds_example :
    Adds framing settings writer (10 ∷ 11 ∷ 12 ∷ []) 0 [] written references 3
write_chunks_sequential-Adds_example =
    write_chunks_sequential-Adds framing settings writer source settings-IsBounded refl
      sequential_run

read-write_chunks_sequential_example :
    Answers framing [] 2
      (10 ∷ 11 ∷ 12 ∷ [])
      (read framing (open_entry written.file references true 10 0) 2)
read-write_chunks_sequential_example =
    read-write_chunks_sequential framing settings framing-IsLossless (omega arith) (omega arith)
      writer source true 10 0 2 settings-IsBounded refl sequential_run (omega arith)
      (λ set. omega arith) (refl, (refl, tt))

-- The last chunk is loaded, and nothing of it is read.
abbrev at_last : EntryReader
at_last = record (open_entry written.file references true 10 0) {
  idx = 2;
  cur = 12 ∷ [];
  read_total = 2;
}

at_last-Pending : Pending framing at_last (12 ∷ [])
at_last-Pending = record {
  unread = [];
  content_is = refl;
  loads = refl;
  in_limit = λ set. omega arith;
  total_u64 = omega arith;
}

read-Answers_example : Answers framing [] 5 (12 ∷ []) (read framing at_last 5)
read-Answers_example = read-Answers framing at_last 5 at_last-Pending
