-- ===== src/Tests/Insert.antt =====
-- The operations that store an entry, at concrete inputs.
use go_fbx.Base.{
  ◌≡◌, inl, inr, refl, true, false, Option, none, some, [], ◌∷◌, List, Bytes, equal, ok, err,
  if◌then◌else◌, arith, checksum, put_uint,
}
use go_fbx.Base.{take}
use go_fbx.Format.Types.{EntryV1}
use go_fbx.Format.Checked.{saturating_add_uint64}
use go_fbx.Paths.{
  valid_utf8, contains, replace_all, split, join, clean_parts, starts_with_slash, clean, all_named,
  normalize,
}
use go_fbx.Fbx.Entry.{write_entry, plan, text_flags, limited_chunk_size}
use go_fbx.Fbx.Entry as Entry
use go_fbx.Fbx.Reader.{open_entry, read}
use go_fbx.Fbx.Reader.Refine as Refine
use go_fbx.Fbx.Tx.{Tx, lookup, mark_obsolete, remove, entry_stored_bytes}
use go_fbx.Fbx.Tx.Insert.{put, add, upsert}
use go_fbx.Fbx.Tx.Insert.Added.{add-read}
use go_fbx.Fbx.Tx.Sound.{IsSound}
use go_fbx.Fbx.Tx.Steps.{Steps, none_yet, one_more, upserting, removing, Steps-IsSound}
use go_fbx.Fbx.Write.Appends.{Appends, Appends-refl}
use go_fbx.Fbx.Tx.Failed.{failed-entries, upsert-replace-dead_bytes}
use mathlib.Core.List.{Permᴰ}
use go_fbx.File.{write_at}
use go_fbx.Format.Types.{codec_store}
use go_fbx.Format.Checked.{add_uint64}
use go_fbx.Format.Codec.{compress_payload}
use go_fbx.Format.Chunk.{encode_chunk_record, chunk_bytes}
use go_fbx.Fbx.Options.{Options, default_options, pos}
use go_fbx.Fbx.Write.Parallel.{
  ChunkResult, write_chunks, write_chunks_parallel, produce, run_job, collect, receive, drain,
  write_result,
}
use go_fbx.Fbx.Write.{append_at}
use go_fbx.Fbx.Write.Parallel.Order.{write_chunks_parallel_lem}
use go_fbx.Fbx.Entry.{WriteOptions}
use go_fbx.Tests.Format.{framing-IsLossless}
use go_fbx.Tests.Samples.{framing, entry_b}
use go_fbx.Base.{read_error}
use go_fbx.Fbx.Write.{Source}
use go_fbx.Paths.Normal.{normalize-clean}
use go_fbx.Tests.Writing.{
  settings, writer, source, written, references, settings-IsBounded, sequential_run,
}

-- The second result arrives first.
abbrev swapped : List ChunkResult → List ChunkResult
swapped [] = []
swapped (a ∷ []) = a ∷ []
swapped (a ∷ b ∷ rest) = b ∷ a ∷ rest

swapped-Permᴰ : (results : List ChunkResult) → Permᴰ results (swapped results)
swapped-Permᴰ [] = Permᴰ.nil
swapped-Permᴰ (a ∷ []) = Permᴰ.cons refl Permᴰ.nil
swapped-Permᴰ (a ∷ b ∷ rest) = Permᴰ.swap refl refl

write_chunks_parallel_lem_example :
    write_chunks_parallel framing settings swapped writer source
    ≡ some (written, ok (references, 3))
write_chunks_parallel_lem_example =
    write_chunks_parallel_lem framing settings swapped writer source swapped-Permᴰ sequential_run

-- Stored chunks of two bytes, by two workers.
abbrev opts : Options
opts = record (default_options 2) { max_entry_size = 10 }

abbrev wopts : Option WriteOptions
wopts = some (record {
  codec = codec_store;
  level = pos 0;
  chunk_size = pos 2;
  mtime_unix = 0;
  mode = 0;
  flags = 0;
})

-- "b"
abbrev name : Bytes
name = 98 ∷ []

abbrev empty_tx : Tx
empty_tx = record { entries = []; writer = writer; dead_bytes = 0; churn_ops = 0; closed = false }

name_normal : normalize name ≡ ok name
unfolding normalize clean clean_parts join replace_all valid_utf8 contains starts_with_slash
    all_named split equal
name_normal = refl

settled :
    (let p = plan opts 7 wopts in
      Entry.settings opts p
        (text_flags opts p.flags name (take 4096 source.unread)).0
        name
        (take 4096 source.unread))
    ≡ some (settings, 2)
unfolding plan Entry.settings text_flags limited_chunk_size default_options
settled = refl

absent : lookup name empty_tx.entries ≡ none
unfolding lookup
absent = refl

add-read_example :
    (tx' : Tx) × (e : EntryV1) × (add framing opts 7 swapped empty_tx name (some source) [] wopts
      ≡ some (tx', ok tt))
    × ((k : Bytes) → lookup k tx'.entries ≡ (if equal k name then some e else none))
    × (e.file_size ≡ 3)
    × (e.meta ≡ [])
    × (tx'.dead_bytes ≡ 0)
    × Refine.Answers framing [] 2
        (10 ∷ 11 ∷ 12 ∷ [])
        (read framing (open_entry tx'.writer.file e.chunks true 10 0) 2)
unfolding lookup default_options
add-read_example =
    add-read framing opts 7 swapped empty_tx name source [] wopts true 2 framing-IsLossless
      swapped-Permᴰ refl name_normal absent settled (omega arith) settings-IsBounded refl
      sequential_run (omega arith) (refl, (refl, tt))

-- An entry is there, and the source of the new one fails behind its first chunk.
abbrev old_entry : EntryV1
old_entry = record entry_b { path = name }

abbrev stocked : Tx
stocked = record empty_tx { entries = (name, old_entry) ∷ [] }

abbrev broken : Source
broken = record source { fails = true }

abbrev after_failure : Tx
after_failure = record {
  entries = (name, old_entry) ∷ [];
  writer = record { file = take 20 written.file; append_offset = 20 };
  dead_bytes = 39;
  churn_ops = 1;
  closed = false;
}

upsert_fails :
    upsert framing opts 7 swapped stocked name (some broken) [] wopts
    ≡ some (after_failure, err read_error)
unfolding upsert put write_entry Entry.settings plan text_flags limited_chunk_size default_options
    normalize clean clean_parts join replace_all valid_utf8 contains starts_with_slash all_named
    split equal lookup mark_obsolete entry_stored_bytes saturating_add_uint64 write_chunks
    write_chunks_parallel produce run_job encode_chunk_record compress_payload chunk_bytes checksum
    put_uint add_uint64 collect receive drain write_result append_at write_at
upsert_fails = refl

found : lookup name stocked.entries ≡ some old_entry
unfolding lookup equal
found = refl

failed-entries_example :
    (after_failure.entries ≡ (name, old_entry) ∷ []) × Appends writer after_failure.writer
failed-entries_example =
    failed-entries framing opts 7 swapped stocked name (some broken) [] wopts refl
      (inr (inl upsert_fails))

upsert-replace-dead_bytes_example :
    (39 ≡ saturating_add_uint64 0 (entry_stored_bytes old_entry)) × (1 ≡ saturating_add_uint64 0 1)
upsert-replace-dead_bytes_example =
    upsert-replace-dead_bytes framing opts 7 swapped stocked name (some broken) [] wopts refl
      name_normal found refl (inl upsert_fails)

stocked-IsSound : IsSound writer stocked
unfolding lookup
stocked-IsSound = record {
  appends = Appends-refl writer refl;
  is_map = (normalize-clean name name_normal, refl, refl, tt);
  dead_u64 = omega arith;
  churn_u64 = omega arith;
}

-- The failed call, then the entry removed.
two-Steps : Steps framing opts stocked (remove after_failure name).0
two-Steps =
    one_more stocked after_failure (remove after_failure name).0
      (one_more stocked stocked after_failure (none_yet stocked) (
        upserting 7 swapped stocked after_failure name (some broken) [] wopts (err read_error)
          upsert_fails))
      (removing after_failure name)

Steps-IsSound_example : IsSound writer (remove after_failure name).0
Steps-IsSound_example =
    Steps-IsSound framing opts writer stocked (remove after_failure name).0 stocked-IsSound
      two-Steps
