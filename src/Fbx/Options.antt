-- ===== src/Fbx/Options.antt =====
-- The options of fbx/options.go and `mergeOptions` of fbx/container.go.
use go_fbx.Base.{ℕ, ◌^◌, Bool, true, false, ◌||◌, ltb, ◌==◌, if◌then◌else◌}
use go_fbx.Format.Types.{Codec, codec_store, codec_zstd, codec_lz4}

-- Go's `int`: `pos n` is n, `negsuc n` is -n - 1.
pub data ℤ : Type 0 where
  pos negsuc : ℕ → ℤ

abbrev pub positive : ℤ → Bool
positive (pos n) = ltb 0 n
positive (negsuc n) = false

abbrev pub nonzero : ℤ → Bool
nonzero (pos n) = ltb 0 n
nonzero (negsuc n) = true

pub record Options : Type 0 where
  pub chunk_size_text : ℤ
  pub chunk_size_bin : ℤ
  pub default_codec : Codec
  pub default_level : ℤ
  pub max_workers : ℤ
  pub max_entry_size : ℕ
  pub max_chunk_size : ℕ
  pub detect_text : Bool
  pub store_if_already_compressed : Bool
  pub sync_on_commit : Bool
  pub strict_verify : Bool
  pub no_strict_verify : Bool
  pub no_sync_on_commit : Bool
  pub no_detect_text : Bool
  pub no_store_if_already_compressed : Bool

-- `defaultOptions`, with the number of `runtime.GOMAXPROCS`
unfoldable pub default_options : ℕ → Options
default_options processors = record {
  chunk_size_text = pos (2 ^ 20);
  chunk_size_bin = pos (2 ^ 22);
  default_codec = codec_store;
  default_level = pos 0;
  max_workers = pos processors;
  max_entry_size = 0;
  max_chunk_size = 0;
  detect_text = true;
  store_if_already_compressed = true;
  sync_on_commit = true;
  strict_verify = true;
  no_strict_verify = false;
  no_sync_on_commit = false;
  no_detect_text = false;
  no_store_if_already_compressed = false;
}

-- `mergeOptions`
unfoldable pub merge_options : Options → Options → Options
merge_options base asked = record base {
  chunk_size_text =
      if positive asked.chunk_size_text then asked.chunk_size_text else base.chunk_size_text;
  chunk_size_bin =
      if positive asked.chunk_size_bin then asked.chunk_size_bin else base.chunk_size_bin;
  default_codec =
      if asked.default_codec == codec_store
        || (asked.default_codec == codec_zstd || asked.default_codec == codec_lz4)
      then asked.default_codec
      else base.default_codec;
  default_level = if nonzero asked.default_level then asked.default_level else base.default_level;
  max_workers = if positive asked.max_workers then asked.max_workers else base.max_workers;
  max_entry_size = if ltb 0 asked.max_entry_size then asked.max_entry_size else base.max_entry_size;
  max_chunk_size = if ltb 0 asked.max_chunk_size then asked.max_chunk_size else base.max_chunk_size;
  detect_text = if asked.no_detect_text then false else base.detect_text;
  store_if_already_compressed =
      if asked.no_store_if_already_compressed then false else base.store_if_already_compressed;
  sync_on_commit = if asked.no_sync_on_commit then false else base.sync_on_commit;
  strict_verify = if asked.no_strict_verify then false else base.strict_verify;
}
