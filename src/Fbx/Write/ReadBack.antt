-- ===== src/Fbx/Write/ReadBack.antt =====
-- What `writeChunksSequential` wrote is there to be read: the references point at the records of the
-- pieces of the content, in order and without gaps.
use go_fbx.Base.{
  ℕ, zero, suc, ◌+◌, ◌-◌, ◌^◌, ◌<◌, ◌≤◌, ◌≡◌, ◌≢◌, refl, sym, ◌∙◌, ap, subst, inl, inr, Bool-cases,
  some, arith,
}
use go_fbx.Base.{
  List, [], ◌∷◌, ◌++◌, append_assoc, append-nil, length, length-append, length-take, take, drop,
  take-append-drop, take_past, ltb, ◌==◌, ==_iff,
}
use go_fbx.Base.{Bytes, ok, Result-cases}
use native.Mathlib.Decide.{dec_lt}
use go_fbx.Format.Types.{ChunkRefV1}
use go_fbx.Format.Checked.{add_uint64}
use go_fbx.Format.Codec.{Compressors}
use go_fbx.Format.Chunk.{encode_chunk_record}
use go_fbx.Fbx.Write.{Writer, Source, Settings, write_chunk, write_loop, write_chunks_sequential}
use go_fbx.Fbx.Write.Steps.{add_uint64-value, Written, write_chunk-Written}

next_small : (a b n : ℕ) → add_uint64 a b ≡ some n → n < 2 ^ 64
unfolding add_uint64
next_small a b n h = ground arith

module _ (lib : Compressors) (s : Settings) where
  -- The record of `raw`, somewhere in the file, with a reference that fits it.
  pub record Placed (file : Bytes) (c : ChunkRefV1) (raw : Bytes) : Type 0 where
    pub front : Bytes
    pub rec : Bytes
    pub back : Bytes
    pub splits : file ≡ front ++ (rec ++ back)
    pub encoded : encode_chunk_record lib raw s.codec s.level ≡ ok (rec, c.crc32_raw)
    pub offset_is : c.chunk_offset ≡ length front
    pub raw_size_is : c.raw_size ≡ length raw
    pub comp_size_is : c.comp_size ≡ length rec - 16
    pub raw_small : length raw < 2 ^ 32
    pub rec_small : length rec < 2 ^ 32

  -- Growth of the file at its end keeps a record in its place.
  Placed-grow :
      {file : Bytes} {c : ChunkRefV1} {raw : Bytes} (more : Bytes)
      → Placed file c raw
      → Placed (file ++ more) c raw
  Placed-grow more p = record {
    front = p.front;
    rec = p.rec;
    back = p.back ++ more;
    splits = rw p.splits (
        append_assoc p.front (p.rec ++ p.back) more
        ∙ ap (λ t. p.front ++ t) (append_assoc p.rec p.back more));
    encoded = p.encoded;
    offset_is = p.offset_is;
    raw_size_is = p.raw_size_is;
    comp_size_is = p.comp_size_is;
    raw_small = p.raw_small;
    rec_small = p.rec_small;
  }

  -- The references hold the content from a raw offset on, piece by piece.
  pub data Holds (file : Bytes) : ℕ → List ChunkRefV1 → Bytes → Type 0 where
    done : {off : ℕ} → Holds file off [] []
    piece :
        {off : ℕ} {c : ChunkRefV1} {cs : List ChunkRefV1} (raw rest content : Bytes)
        → Placed file c raw
        → c.raw_offset ≡ off
        → content ≡ raw ++ rest
        → Holds file (off + length raw) cs rest
        → Holds file off (c ∷ cs) content

  Holds-grow :
      {file : Bytes} {off : ℕ} {cs : List ChunkRefV1} {content : Bytes} (more : Bytes)
      → Holds file off cs content
      → Holds (file ++ more) off cs content
  Holds-grow more done = done
  Holds-grow more (piece raw rest content p o e h) =
      piece raw rest content (Placed-grow more p) o e (Holds-grow more h)

  -- The limits under which the sizes of the references are those of the records.
  pub record IsBounded : Type 0 where
    pub chunk_pos : 0 < s.chunk_size
    pub chunk_small : s.chunk_size < 2 ^ 32
    pub records_small :
        (raw rec : Bytes) (crc : ℕ)
        → length raw ≤ s.chunk_size
        → encode_chunk_record lib raw s.codec s.level ≡ ok (rec, crc)
        → length rec < 2 ^ 32

  Written-Placed :
      {w w' : Writer} {raw_off next : ℕ} {raw : Bytes} {c : ChunkRefV1}
      → IsBounded
      → length raw ≤ s.chunk_size
      → Written lib s w raw_off raw w' c next
      → Placed w'.file c raw
  Written-Placed {w} {w'} {raw_off} {next} {raw} {c} b h t =
      let small = b.records_small raw t.rec c.crc32_raw h t.encoded in
      let chunk_small = b.chunk_small in
      record {
        front = w.file;
        rec = t.rec;
        back = [];
        splits = rw append-nil t.file_is;
        encoded = t.encoded;
        offset_is = t.chunk_offset_is;
        raw_size_is = omega (arith, t.raw_size_is);
        comp_size_is = omega (arith, t.comp_size_is);
        raw_small = omega arith;
        rec_small = small;
      }

  -- What a run of the loop adds: references that hold what the source still gave.
  pub record Adds (w : Writer) (content : Bytes) (raw_off : ℕ) (chunks : List ChunkRefV1)
      (w' : Writer) (chunks' : List ChunkRefV1) (size : ℕ) : Type 0 where
    pub added : List ChunkRefV1
    pub appended : Bytes
    pub chunks_are : chunks' ≡ chunks ++ added
    pub file_is : w'.file ≡ w.file ++ appended
    pub offset_is : w'.append_offset ≡ length w'.file
    pub holds : Holds w'.file raw_off added content
    pub size_is : size ≡ raw_off + length content
    pub under_limit : s.max_entry ≢ 0 → 0 < length content → size ≤ s.max_entry
    pub size_u64 : size < 2 ^ 64

  -- How a round of a run without an error goes.
  data Round (fuel : ℕ) (w : Writer) (r : Source) (raw_off : ℕ) (chunks : List ChunkRefV1)
      (w' : Writer) (chunks' : List ChunkRefV1) (size : ℕ) : Type 0 where
    at_end :
        length r.unread ≡ 0
        → w' ≡ w
        → chunks' ≡ chunks
        → size ≡ raw_off
        → Round fuel w r raw_off chunks w' chunks' size
    last_chunk :
        (c : ChunkRefV1)
        → 0 < length r.unread
        → length r.unread < s.chunk_size
        → write_chunk lib s w raw_off (take s.chunk_size r.unread) ≡ (w', ok (c, size))
        → chunks' ≡ chunks ++ (c ∷ [])
        → Round fuel w r raw_off chunks w' chunks' size
    full_chunk :
        (w1 : Writer) (c : ChunkRefV1) (next : ℕ)
        → 0 < length r.unread
        → s.chunk_size ≤ length r.unread
        → write_chunk lib s w raw_off (take s.chunk_size r.unread) ≡ (w1, ok (c, next))
        → write_loop lib s fuel w1
            (record r { unread = drop s.chunk_size r.unread })
            next
            (chunks ++ (c ∷ []))
          ≡ some (w', ok (chunks', size))
        → Round fuel w r raw_off chunks w' chunks' size

  write_loop-Round :
      (fuel : ℕ) (w : Writer) (r : Source) (raw_off : ℕ) (chunks : List ChunkRefV1) {w' : Writer}
      {chunks' : List ChunkRefV1} {size : ℕ}
      → write_loop lib s (suc fuel) w r raw_off chunks ≡ some (w', ok (chunks', size))
      → Round fuel w r raw_off chunks w' chunks' size
  unfolding write_loop
  write_loop-Round fuel w r raw_off chunks e = elim (Bool-cases (length r.unread == 0)) [
    | inl empty ↦ at_end ((==_iff _ 0).0 empty) (ground arith) (ground arith) (ground arith)
    | inr some_left ↦
        let (w1, answer) = write_chunk lib s w raw_off (take s.chunk_size r.unread) in
        elim (Result-cases answer) [
          | inr (x, q) ↦ absurd (ground arith)
          | inl ((c, next), q) ↦ elim (Bool-cases (ltb (length r.unread) s.chunk_size)) [
            | inl short ↦ last_chunk c (ground arith) (ground arith) (ground arith) (ground arith)
            | inr full ↦
                full_chunk w1 c next (ground arith) (ground arith) (ground arith) (ground arith)
          ]
        ]
  ]

  -- The claim of the induction, for the runs of one fuel.
  abbrev Claim : ℕ → Type 0
  Claim fuel =
      (w : Writer) (r : Source) (raw_off : ℕ) (chunks : List ChunkRefV1) (w' : Writer)
      (chunks' : List ChunkRefV1) (size : ℕ)
      → w.append_offset ≡ length w.file
      → raw_off < 2 ^ 64
      → write_loop lib s fuel w r raw_off chunks ≡ some (w', ok (chunks', size))
      → Adds w r.unread raw_off chunks w' chunks' size

  Adds-nothing :
      (w : Writer) (content : Bytes) (raw_off : ℕ) (chunks : List ChunkRefV1)
      → w.append_offset ≡ length w.file
      → raw_off < 2 ^ 64
      → length content ≡ 0
      → Adds w content raw_off chunks w chunks raw_off
  Adds-nothing w [] raw_off chunks hw hr e = record {
    added = [];
    appended = [];
    chunks_are = sym (append-nil chunks);
    file_is = sym (append-nil w.file);
    offset_is = hw;
    holds = done;
    size_is = omega arith;
    under_limit = λ k pos. absurd (omega arith);
    size_u64 = hr;
  }
  Adds-nothing w (x ∷ content) raw_off chunks hw hr e = absurd (omega arith)

  Adds-last :
      {w w' : Writer} {raw_off next : ℕ} {raw : Bytes} {c : ChunkRefV1} (chunks : List ChunkRefV1)
      → IsBounded
      → raw_off < 2 ^ 64
      → length raw ≤ s.chunk_size
      → Written lib s w raw_off raw w' c next
      → Adds w raw raw_off chunks w' (chunks ++ (c ∷ [])) next
  Adds-last {w} {w'} {raw_off} {next} {raw} {c} chunks b hr h t =
      let small = b.chunk_small in
      let next_is = add_uint64-value raw_off (length raw) t.next_is hr (omega arith) in
      record {
        added = c ∷ [];
        appended = t.rec;
        chunks_are = refl;
        file_is = t.file_is;
        offset_is = t.offset_is;
        holds = piece raw [] raw (Written-Placed b h t) t.raw_offset_is (sym (append-nil raw)) done;
        size_is = next_is;
        under_limit = λ k pos. t.under_limit k;
        size_u64 = next_small raw_off (length raw) next t.next_is;
      }

  Adds-more :
      {w w1 w' : Writer} {raw_off next size : ℕ} {raw rest : Bytes} {c : ChunkRefV1}
      {chunks chunks' : List ChunkRefV1}
      → IsBounded
      → raw_off < 2 ^ 64
      → length raw ≤ s.chunk_size
      → Written lib s w raw_off raw w1 c next
      → Adds w1 rest next (chunks ++ (c ∷ [])) w' chunks' size
      → Adds w (raw ++ rest) raw_off chunks w' chunks' size
  Adds-more {w} {w1} {w'} {raw_off} {next} {size} {raw} {rest} {c} {chunks} b hr h t a =
      let small = b.chunk_small in
      let next_is = add_uint64-value raw_off (length raw) t.next_is hr (omega arith) in
      record {
        added = c ∷ a.added;
        appended = t.rec ++ a.appended;
        chunks_are = a.chunks_are ∙ append_assoc chunks (c ∷ []) a.added;
        file_is =
            a.file_is ∙ ap (λ f. f ++ a.appended) t.file_is ∙ append_assoc w.file t.rec a.appended;
        offset_is = a.offset_is;
        holds =
            piece raw rest (raw ++ rest)
              (subst (λ f. Placed f c raw) (sym a.file_is)
                (Placed-grow a.appended (Written-Placed b h t)))
              t.raw_offset_is refl (subst (λ n. Holds w'.file n a.added rest) next_is a.holds);
        size_is = rw length-append (omega (arith, a.size_is));
        under_limit = λ k pos. elim (dec_lt 0 (length rest)) [
          | yes p ↦ a.under_limit k p
          | no p ↦ omega (arith, a.size_is, t.under_limit k)
        ];
        size_u64 = a.size_u64;
      }

  Round-Adds :
      (fuel : ℕ) (w : Writer) (r : Source) (raw_off : ℕ) (chunks : List ChunkRefV1) (w' : Writer)
      (chunks' : List ChunkRefV1) (size : ℕ)
      → IsBounded
      → Claim fuel
      → w.append_offset ≡ length w.file
      → raw_off < 2 ^ 64
      → Round fuel w r raw_off chunks w' chunks' size
      → Adds w r.unread raw_off chunks w' chunks' size
  Round-Adds fuel w r raw_off chunks w' chunks' size b ih hw hr (at_end e same_w same_c same_s) =
      rw (same_w, same_c, same_s) (Adds-nothing w r.unread raw_off chunks hw hr e)
  Round-Adds fuel w r raw_off chunks w' chunks' size b ih hw hr (last_chunk c pos short q same) =
      let whole = take_past s.chunk_size r.unread (omega arith) in
      rw same (
        Adds-last chunks b hr (omega arith)
          (write_chunk-Written lib s w raw_off r.unread hw (rw whole at q)))
  Round-Adds fuel w r raw_off chunks w' chunks' size b ih hw hr
        (full_chunk w1 c next pos full q e) =
      let raw = take s.chunk_size r.unread in
      let rest = drop s.chunk_size r.unread in
      let t = write_chunk-Written lib s w raw_off raw hw q in
      subst (λ u. Adds w u raw_off chunks w' chunks' size) (take-append-drop s.chunk_size r.unread)
        (Adds-more b hr (omega (arith, length-take s.chunk_size r.unread)) t (
          ih w1 (record r { unread = rest }) next (chunks ++ (c ∷ [])) w' chunks' size t.offset_is
            (next_small raw_off (length raw) next t.next_is) e))

  write_loop-Adds : IsBounded → (fuel : ℕ) → Claim fuel
  write_loop-Adds b zero w r raw_off chunks w' chunks' size hw hr e =
      absurd (unfold write_loop in ground arith)
  write_loop-Adds b (suc fuel) w r raw_off chunks w' chunks' size hw hr e =
      Round-Adds fuel w r raw_off chunks w' chunks' size b (write_loop-Adds b fuel) hw hr
        (write_loop-Round fuel w r raw_off chunks e)

  -- With an append offset at the end of the file, a chunk size from 1 to 2^32 - 1 and records below
  -- 2^32 bytes: when `writeChunksSequential` returns without an error, the file has grown at its
  -- end only, the append offset is again the end of the file, the size is the length of the content
  -- and keeps the limit of an entry, and the references point, in order and without gaps, at the
  -- records of the pieces of the content.
  pub write_chunks_sequential-Adds :
      (w : Writer) (r : Source) {w' : Writer} {chunks : List ChunkRefV1} {size : ℕ}
      → IsBounded
      → w.append_offset ≡ length w.file
      → write_chunks_sequential lib s w r ≡ some (w', ok (chunks, size))
      → Adds w r.unread 0 [] w' chunks size
  unfolding write_chunks_sequential
  write_chunks_sequential-Adds w r {w'} {chunks} {size} b hw e =
      write_loop-Adds b (suc (length r.unread)) w r 0 [] w' chunks size hw (omega arith) e
