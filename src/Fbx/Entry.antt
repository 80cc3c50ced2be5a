-- ===== src/Fbx/Entry.antt =====
-- fbx/tx.go, `writeEntry`: the options of one call settled, and the content written. What the code
-- takes from outside is a parameter: the time, and the order in which the encoded chunks arrive.
pub mod Answers
use go_fbx.Base.{
  ℕ, ◌-◌, ◌*◌, ◌^◌, ◌%◌, ◌<◌, arith, Bool, true, false, not, ◌&&◌, ◌||◌, Option, none, some,
}
use go_fbx.Base.{List, take, ltb, leb, ◌==◌, if◌then◌else◌, bit_and, bit_or}
use go_fbx.Base.{Bytes, Result, ok, err, invalid_format, limit_exceeded}
use go_fbx.Format.Types.{Codec, EntryV1, ChunkRefV1, codec_store, codec_zstd, codec_lz4}
use go_fbx.Format.Codec.{Compressors}
use go_fbx.Fbx.Options.{ℤ, pos, negsuc, positive, nonzero, Options}
use go_fbx.Fbx.Write.{Writer, Source, Settings}
use go_fbx.Fbx.Write.Parallel.{ChunkResult, write_chunks}
use go_fbx.Fbx.Detect.{detect_text, looks_compressed}

pub record WriteOptions : Type 0 where
  pub codec : Codec
  pub level : ℤ
  pub chunk_size : ℤ
  pub mtime_unix : ℕ
  pub mode : ℕ
  pub flags : ℕ

abbrev pub entry_flag_is_binary : ℕ
entry_flag_is_binary = 1

abbrev pub entry_flag_is_text : ℕ
entry_flag_is_text = 2

-- The variables that `wopts` settles.
pub record Plan : Type 0 where
  pub chunk_size : ℤ
  pub codec : Codec
  pub level : ℤ
  pub mtime : ℕ
  pub mode : ℕ
  pub flags : ℕ
  pub explicit_chunk_size : Bool
  pub explicit_codec : Bool

unfoldable pub plan : Options → ℕ → Option WriteOptions → Plan
plan opts now none = record {
  chunk_size = opts.chunk_size_bin;
  codec = opts.default_codec;
  level = opts.default_level;
  mtime = now;
  mode = 0;
  flags = 0;
  explicit_chunk_size = false;
  explicit_codec = false;
}
plan opts now (some wopts) =
    let explicit = wopts.codec == codec_zstd || wopts.codec == codec_lz4 in
    record {
      chunk_size = if positive wopts.chunk_size then wopts.chunk_size else opts.chunk_size_bin;
      codec =
          if explicit
          then wopts.codec
          else if wopts.codec == codec_store
          then codec_store
          else opts.default_codec;
      level = if nonzero wopts.level then wopts.level else opts.default_level;
      mtime = if wopts.mtime_unix == 0 then now else wopts.mtime_unix;
      mode = wopts.mode;
      flags = wopts.flags;
      explicit_chunk_size = positive wopts.chunk_size;
      explicit_codec = explicit;
    }

-- `isText`, and the flags with what was detected.
unfoldable pub text_flags : Options → ℕ → Bytes → Bytes → Bool × ℕ
text_flags opts flags path probe =
    if not (bit_and flags entry_flag_is_text == 0)
    then (true, flags)
    else if not (bit_and flags entry_flag_is_binary == 0)
    then (false, flags)
    else if opts.detect_text
    then (if detect_text path probe
        then (true, bit_or flags entry_flag_is_text)
        else (false, bit_or flags entry_flag_is_binary))
    else (false, flags)

-- The size of a chunk where `wopts` gives none.
unfoldable pub default_chunk_size : Options → Bool → ℤ → ℤ
default_chunk_size opts is_text chunk_size =
    if is_text && positive opts.chunk_size_text
    then opts.chunk_size_text
    else if positive opts.chunk_size_bin
    then opts.chunk_size_bin
    else chunk_size

abbrev pub asked_chunk_size : Options → Plan → Bool → ℤ
asked_chunk_size opts p is_text =
    if p.explicit_chunk_size then p.chunk_size else default_chunk_size opts is_text p.chunk_size

abbrev to_nat : ℤ → ℕ
to_nat (pos n) = n
to_nat (negsuc n) = 0

-- The size of a chunk under the limit; `none` is the error.
unfoldable pub limited_chunk_size : Options → ℤ → Option ℕ
limited_chunk_size opts asked =
    let size = if positive asked then to_nat asked else 2 ^ 22 in
    if ltb 0 opts.max_chunk_size
    then (let limited = if ltb opts.max_chunk_size size then opts.max_chunk_size else size in
        if leb limited 0 then none else some limited)
    else some size

-- `uint8` of an `int`
abbrev pub uint8 : ℤ → ℕ
uint8 (pos n) = n % 2 ^ 8
uint8 (negsuc n) = 2 ^ 8 - 1 - n % 2 ^ 8

pub uint8-small : (n : ℤ) → uint8 n < 256
uint8-small (pos n) = omega arith
uint8-small (negsuc n) = omega arith

-- What `writeEntry` hands to `writeChunks`, and the number of workers.
unfoldable pub settings : Options → Plan → Bool → Bytes → Bytes → Option (Settings × ℕ)
settings opts p is_text path probe =
    let store =
      opts.store_if_already_compressed
      && (not p.explicit_codec && (not (p.codec == codec_store) && looks_compressed path probe)) in
    elim (limited_chunk_size opts (asked_chunk_size opts p is_text)) [
      | none ↦ none
      | some chunk_size ↦ some (
        record {
          codec = if store then codec_store else p.codec;
          level = uint8 p.level;
          chunk_size = chunk_size;
          max_entry = opts.max_entry_size;
        },
        if positive opts.max_workers then to_nat opts.max_workers else 1,
      )
    ]

-- The entry for what was written.
abbrev pub new_entry : Bytes → Plan → ℕ → Bytes → List ChunkRefV1 → ℕ → EntryV1
new_entry path p flags meta chunks file_size = record {
  path_hash64 = 0;
  chunk_count = 0;
  meta_size = 0;
  path_size = 0;
  path = path;
  mtime_unix = p.mtime;
  mode = p.mode;
  entry_flags = flags;
  file_size = file_size;
  chunks = chunks;
  meta = meta;
}

abbrev pub entry_of :
    (List ChunkRefV1 → ℕ → EntryV1)
    → Writer × Result (List ChunkRefV1 × ℕ)
    → Writer × Result EntryV1
entry_of make (w, err e) = (w, err e)
entry_of make (w, ok (chunks, size)) = (w, ok (make chunks size))

module _ (lib : Compressors) (opts : Options) (now : ℕ)
    (arrive : List ChunkResult → List ChunkResult) where
  -- `writeEntry`; `none` as a source is the nil reader.
  unfoldable pub write_entry :
      Writer
      → Bytes
      → Option Source
      → Bytes
      → Option WriteOptions
      → Option (Writer × Result EntryV1)
  write_entry w path none meta wopts = some (w, err invalid_format)
  write_entry w path (some r) meta wopts =
      let probe = take 4096 r.unread in
      let p = plan opts now wopts in
      let t = text_flags opts p.flags path probe in
      elim (settings opts p t.0 path probe) [
        | none ↦ some (w, err limit_exceeded)
        | some s ↦ elim (write_chunks lib s.0 s.1 arrive w r) [
          | none ↦ none
          | some a ↦ some (entry_of (new_entry path p t.1 meta) a)
        ]
      ]
