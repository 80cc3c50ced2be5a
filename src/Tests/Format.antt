-- ===== src/Tests/Format.antt =====
-- The encodings of internal/format.
use go_fbx.Base.{
  All, ℕ, zero, suc, IsBytes, put_uint-IsBytes, ◌-◌, ◌^◌, ◌<◌, ◌≡◌, refl, [], ◌∷◌, ◌++◌, true,
  Bytes, put_uint, length, replicate, ok, checksum, arith, ◌>>=◌,
}
use go_fbx.Format.Types.{codec_lz4}
use go_fbx.Format.Checked.{add_uint64}
use go_fbx.Format.Header.{IsTyped, IsV1, marshal, unmarshal, header_bytes}
use go_fbx.Format.Header.RoundTrip.{unmarshal-marshal, unmarshal-header_bytes, unmarshal-inv}
use go_fbx.Format.Directory.{encode_directory, decode_directory}
use go_fbx.Format.Directory.Chunks.{IsChunkRef, last_end_ok}
use go_fbx.Format.Directory.Entry.{with_sizes, entry_bytes, decode_directory_entry_at}
use go_fbx.Format.Directory.Entry.RoundTrip.{
  IsEntry, entry_size, decode_directory_entry_at-entry_bytes,
}
use go_fbx.Format.Directory.RoundTrip.{IsDirectory, stored, decode_directory-encode_directory}
use go_fbx.Format.Codec.{compress_payload, decompress_payload, zstd_decoder_limit_bucket}
use mathlib.Core.List.{Permᴰ}
use go_fbx.Format.Directory.Sort.{sort_entries}
use go_fbx.Format.Directory.Sort.Order.{IsAscending, sort_entries-IsAscending}
use go_fbx.Format.Codec.RoundTrip.{
  IsLossless, HasHeadroom, decoder_limit, decompress_payload-compress_payload,
}
use go_fbx.Format.Chunk.{encode_chunk_record, read_chunk_record_at_opt_limited, chunk_bytes}
use go_fbx.Format.Chunk.RoundTrip.{length-chunk_bytes, read_chunk_record-encode_chunk_record}
use go_fbx.Format.DirIndex.{
  DirIndexV1, marshal_index, decode_index, validate_index, validate_rows, validate_ranges, all_hash,
  sort_intervals, disjoint,
}
use go_fbx.Format.DirIndex.RoundTrip.{IsIndex, decode_index-marshal_index}
use go_fbx.Format.DirIndex.Validate.{Covers, validate_index-Covers}
use go_fbx.Tests.Samples.{
  fresh_header, first_chunk, second_chunk, entry_a, entry_b, two_entries, framing,
}

pub fresh_header-IsTyped : IsTyped fresh_header
fresh_header-IsTyped = record {
  magic_length = refl;
  version_u16 = omega arith;
  header_size_u16 = omega arith;
  flags_u32 = omega arith;
  uuid_length = refl;
  created_u64 = omega arith;
  dir_offset_u64 = omega arith;
  dir_size_u64 = omega arith;
  dir_crc32_u32 = omega arith;
  journal_offset_u64 = omega arith;
  journal_size_u64 = omega arith;
  reserved_length = refl;
}

pub fresh_header-IsV1 : IsV1 fresh_header
fresh_header-IsV1 = record { magic_ok = refl; version_ok = refl; header_size_ok = refl }

unmarshal-marshal_example : (marshal fresh_header >>= unmarshal) ≡ ok fresh_header
unmarshal-marshal_example = unmarshal-marshal fresh_header fresh_header-IsTyped fresh_header-IsV1

IsBytes-append : (a b : Bytes) → IsBytes a → IsBytes b → IsBytes (a ++ b)
IsBytes-append [] b p q = q
IsBytes-append (x ∷ a) b (p, ps) q = (p, IsBytes-append a b ps q)

IsBytes-replicate : (n : ℕ) (x : ℕ) → x < 256 → IsBytes (replicate n x)
IsBytes-replicate zero x h = tt
IsBytes-replicate (suc n) x h = (h, IsBytes-replicate n x h)

fresh_header-IsBytes : IsBytes (header_bytes fresh_header)
unfolding header_bytes
fresh_header-IsBytes =
    let h = fresh_header in
    IsBytes-append h.magic _ (omega arith, (omega arith, (omega arith, (omega arith, tt))))
      (IsBytes-append (put_uint 2 h.version) _ (put_uint-IsBytes 2 h.version) (
        IsBytes-append (put_uint 2 h.header_size) _ (put_uint-IsBytes 2 h.header_size) (
          IsBytes-append (put_uint 4 h.flags) _ (put_uint-IsBytes 4 h.flags) (
            IsBytes-append h.uuid _ (IsBytes-replicate 16 7 (omega arith)) (
              IsBytes-append (put_uint 8 h.created_unix) _ (put_uint-IsBytes 8 h.created_unix) (
                IsBytes-append (put_uint 8 h.dir_offset) _ (put_uint-IsBytes 8 h.dir_offset) (
                  IsBytes-append (put_uint 8 h.dir_size) _ (put_uint-IsBytes 8 h.dir_size) (
                    IsBytes-append (put_uint 4 h.dir_crc32) _ (put_uint-IsBytes 4 h.dir_crc32) (
                      IsBytes-append (put_uint 8 h.journal_offset) _
                        (put_uint-IsBytes 8 h.journal_offset)
                        (IsBytes-append (put_uint 8 h.journal_size) _
                          (put_uint-IsBytes 8 h.journal_size)
                          (IsBytes-replicate 56 0 (omega arith))))))))))))

unmarshal-inv_example :
    (header_bytes fresh_header ≡ header_bytes fresh_header)
    × IsTyped fresh_header
    × IsV1 fresh_header
unmarshal-inv_example =
    unmarshal-inv (header_bytes fresh_header) fresh_header-IsBytes
      (unmarshal-header_bytes fresh_header fresh_header-IsTyped fresh_header-IsV1)

first_chunk-IsChunkRef : IsChunkRef first_chunk
first_chunk-IsChunkRef = record {
  chunk_offset_u64 = omega arith;
  raw_offset_u64 = omega arith;
  raw_size_u32 = omega arith;
  comp_size_u32 = omega arith;
  crc32_raw_u32 = omega arith;
  reserved_zero = refl;
}

second_chunk-IsChunkRef : IsChunkRef second_chunk
second_chunk-IsChunkRef = record {
  chunk_offset_u64 = omega arith;
  raw_offset_u64 = omega arith;
  raw_size_u32 = omega arith;
  comp_size_u32 = omega arith;
  crc32_raw_u32 = omega arith;
  reserved_zero = refl;
}

entry_b-IsEntry : IsEntry entry_b
unfolding last_end_ok add_uint64
entry_b-IsEntry = record {
  mtime_u64 = omega arith;
  mode_u32 = omega arith;
  flags_u32 = omega arith;
  size_u64 = omega arith;
  chunks_u32 = omega arith;
  meta_u32 = omega arith;
  path_u32 = omega arith;
  path_named = λ e. ground arith;
  refs = (first_chunk-IsChunkRef, (second_chunk-IsChunkRef, tt));
  chain = (omega arith, omega arith, (omega arith, omega arith, tt));
  no_chunks = λ e. absurd (omega arith);
  covered = refl;
}

entry_a-IsEntry : IsEntry entry_a
unfolding last_end_ok
entry_a-IsEntry = record {
  mtime_u64 = omega arith;
  mode_u32 = omega arith;
  flags_u32 = omega arith;
  size_u64 = omega arith;
  chunks_u32 = omega arith;
  meta_u32 = omega arith;
  path_u32 = omega arith;
  path_named = λ e. ground arith;
  refs = tt;
  chain = tt;
  no_chunks = λ e. refl;
  covered = refl;
}

pub two_entries-IsDirectory : IsDirectory two_entries
two_entries-IsDirectory = record {
  flags_zero = refl;
  build_u64 = omega arith;
  count_u32 = omega arith;
  all_entries = (entry_b-IsEntry, (entry_a-IsEntry, tt));
  total_u64 = omega arith;
}

decode_directory-encode_directory_example :
    (b : Bytes × ℕ) × (encode_directory two_entries ≡ ok b)
    × (decode_directory b.0 b.1 (length b.0) ≡ ok (stored two_entries))
decode_directory-encode_directory_example =
    decode_directory-encode_directory two_entries two_entries-IsDirectory

decode_directory_entry_at-entry_bytes_example :
    decode_directory_entry_at
      (replicate {A = ℕ} 20 1 ++ (entry_bytes entry_b ++ replicate {A = ℕ} 16 2))
      20
      (entry_size entry_b)
    ≡ ok (with_sizes entry_b)
decode_directory_entry_at-entry_bytes_example =
    decode_directory_entry_at-entry_bytes entry_b (replicate {A = ℕ} 20 1) (replicate {A = ℕ} 16 2)
      entry_b-IsEntry (omega arith) (omega arith) (omega arith)

pub framing-IsLossless : IsLossless framing
framing-IsLossless = record {
  frame_nonempty = λ level raw c e. ground arith;
  frame = λ level limit raw c e small floor room. ground arith;
  block = λ raw c cap e pos. ground arith;
  block_hc = λ level raw c cap e pos. ground arith;
}

abbrev hello : Bytes
hello = 104 ∷ 101 ∷ 108 ∷ 108 ∷ 111 ∷ []

abbrev framed_hello : Bytes
framed_hello = 255 ∷ hello

hello_compressed : compress_payload framing hello codec_lz4 3 ≡ ok framed_hello
unfolding compress_payload go_fbx.Format.Codec.lz4_compress
hello_compressed = refl

decompress_payload-compress_payload_example :
    (decompress_payload framing framed_hello codec_lz4 5 ≡ ok hello)
    × HasHeadroom 5 (decoder_limit 5)
decompress_payload-compress_payload_example =
    decompress_payload-compress_payload framing framing-IsLossless hello framed_hello codec_lz4 3
      (omega arith) hello_compressed

hello_record : Bytes
hello_record = chunk_bytes codec_lz4 3 5 (checksum hello) framed_hello

hello_encoded : encode_chunk_record framing hello codec_lz4 3 ≡ ok (hello_record, checksum hello)
unfolding encode_chunk_record hello_record
hello_encoded = rw hello_compressed refl

hello_small : length hello_record < 2 ^ 32
unfolding hello_record
hello_small = omega (arith, length-chunk_bytes codec_lz4 3 5 (checksum hello) framed_hello)

read_chunk_record-encode_chunk_record_example :
    read_chunk_record_at_opt_limited framing
      (replicate {A = ℕ} 128 0 ++ (hello_record ++ (1 ∷ 2 ∷ [])))
      128
      true
      5
      0
    ≡ ok (record {
      codec = codec_lz4;
      level = 3;
      raw_size = 5;
      comp_size = length hello_record - 16;
      crc32_raw = checksum hello;
      payload = hello;
    })
read_chunk_record-encode_chunk_record_example =
    read_chunk_record-encode_chunk_record framing framing-IsLossless hello hello_record
      (replicate {A = ℕ} 128 0) (1 ∷ 2 ∷ []) codec_lz4 3 (checksum hello) 5 0 true (omega arith)
      (omega arith) (omega arith) hello_small (omega arith) hello_encoded (λ k. omega arith)
      (λ k. absurd (k refl))

-- Two entries with different hashes, the second first by hash.
abbrev two_rows : DirIndexV1
two_rows = record {
  flags = 0;
  generation = 3;
  dir_offset = 200;
  dir_size = 126;
  dir_crc32 = 99;
  entries =
      record {
        dir_entry_offset = 20;
        dir_entry_size = 45;
        path_hash64 = 9;
        path_offset = 64;
        path_size = 1;
      }
      ∷ record {
        dir_entry_offset = 65;
        dir_entry_size = 45;
        path_hash64 = 4;
        path_offset = 109;
        path_size = 1;
      }
      ∷ [];
  hash_ranges =
      record { path_hash64 = 4; first_entry_index = 1; entry_span = 1 }
      ∷ record { path_hash64 = 9; first_entry_index = 0; entry_span = 1 }
      ∷ [];
}

two_rows-IsIndex : IsIndex two_rows
two_rows-IsIndex = record {
  flags_u32 = omega arith;
  generation_u64 = omega arith;
  dir_offset_u64 = omega arith;
  dir_size_u64 = omega arith;
  dir_crc32_u32 = omega arith;
  entries_u32 = omega arith;
  ranges_u32 = omega arith;
  rows = (
    record {
      offset_u32 = omega arith;
      size_u32 = omega arith;
      hash_u64 = omega arith;
      path_offset_u32 = omega arith;
      path_size_u32 = omega arith;
    },
    (
      record {
        offset_u32 = omega arith;
        size_u32 = omega arith;
        hash_u64 = omega arith;
        path_offset_u32 = omega arith;
        path_size_u32 = omega arith;
      },
      tt,
    ),
  );
  ranges = (
    record { hash_u64 = omega arith; first_u32 = omega arith; span_u32 = omega arith },
    (record { hash_u64 = omega arith; first_u32 = omega arith; span_u32 = omega arith }, tt),
  );
}

two_rows_valid : validate_index two_rows ≡ ok tt
unfolding validate_index validate_rows validate_ranges all_hash sort_intervals disjoint add_uint64
two_rows_valid = refl

decode_index-marshal_index_example :
    (b : Bytes) × (marshal_index two_rows ≡ ok b) × (decode_index b (checksum b) ≡ ok two_rows)
decode_index-marshal_index_example =
    decode_index-marshal_index two_rows two_rows-IsIndex two_rows_valid

validate_index-Covers_example : All (Covers two_rows.entries) two_rows.hash_ranges
validate_index-Covers_example = validate_index-Covers two_rows two_rows-IsIndex two_rows_valid

sort_entries-IsAscending_example :
    IsAscending (sort_entries two_entries.entries)
    × Permᴰ two_entries.entries (sort_entries two_entries.entries)
sort_entries-IsAscending_example = sort_entries-IsAscending two_entries.entries
