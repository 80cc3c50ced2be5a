-- ===== src/Fbx/Reader/Refine.antt =====
-- `Read` gives the content in order: it refines a reader that holds the bytes that are left.
use go_fbx.Base.{
  ℕ, zero, suc, ◌+◌, ◌-◌, ◌^◌, ◌%◌, ◌<◌, ◌≤◌, ◌≡◌, ◌≢◌, refl, sym, ◌∙◌, ap, subst, Bool, true,
  false, ◌&&◌, Bool-cases, inl, inr, Option-cases, Option, none, some, arith,
}
use Prim.Native.Nat.{min}
use go_fbx.Base.{
  List, [], ◌∷◌, ◌++◌, append_assoc, append-nil, length, length-append, length-take, length-drop,
  take, drop, drop_past, take_past, drop-append_within, drop-drop, get_elem?, ltb, leb, leb→le,
  ◌==◌, ==_iff, if◌then◌else◌,
}
use go_fbx.Base.{Bytes, Error, ok, eof}
use go_fbx.Format.Types.{ChunkRefV1}
use go_fbx.Format.Codec.{Compressors}
use go_fbx.Format.Chunk.{ChunkRecordV1, read_chunk_record_at_opt_limited}
use go_fbx.Fbx.Reader.{
  EntryReader, over_limit, same_record, load, copied, advance, stop, read_loop, read,
}

-- A prefix of two parts, cut where the first ends.
take-append-cut {ℓ} :
    {A : Type ℓ} (n : ℕ) (xs ys : List A)
    → take n (xs ++ ys)
      ≡ take n xs ++ take (n - length (take n xs)) (drop (length (take n xs)) (xs ++ ys))
take-append-cut zero xs ys = refl
take-append-cut (suc n) [] ys = let same : suc n - 0 ≡ suc n = omega arith in rw same refl
take-append-cut (suc n) (x ∷ xs) ys =
    let same : suc n - suc (length (take n xs)) ≡ n - length (take n xs) = omega arith in
    rw same (ap (λ t. x ∷ t) (take-append-cut n xs ys))

module _ (lib : Compressors) where
  -- Every reference of the list can be loaded, and the payloads make up the content.
  abbrev pub Loads : Bytes → Bool → ℕ → List ChunkRefV1 → Bytes → Type 0
  Loads f verify max_chunk [] content = content ≡ []
  Loads f verify max_chunk (c ∷ cs) content =
      (rec : ChunkRecordV1) × (rest : Bytes) × (read_chunk_record_at_opt_limited lib f
          c.chunk_offset verify c.raw_size c.comp_size
        ≡ ok rec)
      × (same_record rec c ≡ true)
      × (over_limit max_chunk c ≡ false)
      × (content ≡ rec.payload ++ rest)
      × (0 < length rec.payload)
      × Loads f verify max_chunk cs rest

  -- What the reader still has to give, within the limit of the entry.
  pub record Pending (r : EntryReader) (content : Bytes) : Type 0 where
    pub unread : Bytes
    pub content_is : content ≡ drop r.cur_read r.cur ++ unread
    pub loads : Loads r.f r.verify_crc r.max_chunk (drop r.idx r.chunks) unread
    pub in_limit : r.max_entry ≢ 0 → r.read_total + length content ≤ r.max_entry
    pub total_u64 : r.read_total + length content < 2 ^ 64

  -- The answer to a call for `want` bytes, after the bytes `out`.
  abbrev pub Answers : Bytes → ℕ → Bytes → Option (EntryReader × Bytes × Option Error) → Type 0
  Answers out want content none = ⊥
  Answers out want content (some (r, bytes, e)) =
      (bytes ≡ out ++ take want content)
      × (e ≡ (if length bytes == 0 && ltb 0 want then some eof else none))
      × Pending r (drop want content)

  -- The copy of one round.
  length-copied :
      (r : EntryReader) (want : ℕ) → length (copied r want) ≡ min want (length r.cur - r.cur_read)
  length-copied r want = rw (length-take, length-drop) refl

  advance-Pending :
      (r : EntryReader) (want : ℕ) {content : Bytes}
      → Pending r content
      → Pending (advance r (length (copied r want))) (drop (length (copied r want)) content)
  advance-Pending r want {content} p =
      let left = drop r.cur_read r.cur in
      let k = length (copied r want) in
      let within : k ≤ length left = omega (arith, length-take want left) in
      let total : length content ≡ length left + length p.unread =
        ap length p.content_is ∙ length-append left p.unread in
      let fewer = length-drop k content in
      let limit = p.in_limit in
      let total_u64 = p.total_u64 in
      record {
        unread = p.unread;
        content_is =
            ap (drop k) p.content_is
            ∙ drop-append_within k left p.unread within
            ∙ ap (λ t. t ++ p.unread) (drop-drop r.cur_read k r.cur);
        loads = p.loads;
        in_limit = λ set. let l = limit set in omega arith;
        total_u64 = omega arith;
      }

  copied-take :
      (r : EntryReader) (want : ℕ) {content : Bytes}
      → Pending r content
      → take want content
        ≡ copied r want
          ++ take (want - length (copied r want)) (drop (length (copied r want)) content)
  copied-take r want {content} p =
      subst
        (λ c.
          take want c
          ≡ copied r want ++ take (want - length (copied r want)) (drop (length (copied r want)) c))
        (sym p.content_is) (take-append-cut want (drop r.cur_read r.cur) p.unread)

  -- The rest of the content after the copies of two rounds.
  drop-rest :
      (r : EntryReader) (want : ℕ) (content : Bytes)
      → drop (want - length (copied r want)) (drop (length (copied r want)) content)
        ≡ drop want content
  drop-rest r want content =
      let fewer : length (copied r want) + (want - length (copied r want)) ≡ want =
        omega (arith, length-copied r want) in
      drop-drop (length (copied r want)) (want - length (copied r want)) content
      ∙ ap (λ n. drop n content) fewer

  drop-get_elem :
      (cs : List ChunkRefV1) (i : ℕ) {c : ChunkRefV1}
      → get_elem? cs i ≡ some c
      → drop i cs ≡ c ∷ drop (suc i) cs
  drop-get_elem [] i e = cc
  drop-get_elem (x ∷ cs) zero e = let same : x ≡ _ = ground arith in rw same refl
  drop-get_elem (x ∷ cs) (suc i) e = drop-get_elem cs i e

  drop-get_elem_none : (cs : List ChunkRefV1) (i : ℕ) → get_elem? cs i ≡ none → drop i cs ≡ []
  drop-get_elem_none [] zero e = refl
  drop-get_elem_none [] (suc i) e = refl
  drop-get_elem_none (x ∷ cs) zero e = cc
  drop-get_elem_none (x ∷ cs) (suc i) e = drop-get_elem_none cs i e

  -- A chunk that can be loaded is, when nothing of the last one is left.
  load-Pending :
      (r : EntryReader) (c : ChunkRefV1) {content : Bytes}
      → Pending r content
      → length r.cur ≤ r.cur_read
      → get_elem? r.chunks r.idx ≡ some c
      → (q : EntryReader) × (load lib r c ≡ ok q) × Pending q content × (q.cur_read < length q.cur)
  unfolding load
  load-Pending r c {content} p used e =
      let next : suc r.idx ≡ r.idx + 1 = omega arith in
      let spent : content ≡ p.unread =
        p.content_is ∙ ap (λ t. t ++ p.unread) (drop_past r.cur_read r.cur used) in
      let (rec, rest, read, same, limit, content_is, some_bytes, later) =
        subst (λ cs. Loads r.f r.verify_crc r.max_chunk cs p.unread)
          (drop-get_elem r.chunks r.idx e ∙ ap (λ n. c ∷ drop n r.chunks) next) p.loads in
      let total : length content ≡ length rec.payload + length rest =
        ap length (spent ∙ content_is) ∙ length-append rec.payload rest in
      let in_limit = p.in_limit in
      let total_u64 = p.total_u64 in
      let fits : (ltb 0 r.max_entry
            && ltb r.max_entry ((r.read_total + length rec.payload) % 2 ^ 64))
          ≡ false =
        ground (arith, in_limit) in
      (
        record r { idx = r.idx + 1; cur = rec.payload; cur_read = 0 },
        rw (limit, read, same, fits) refl,
        record {
          unread = rest;
          content_is = spent ∙ content_is;
          loads = later;
          in_limit = p.in_limit;
          total_u64 = p.total_u64;
        },
        some_bytes,
      )

  -- Nothing is left where no chunk is.
  spent :
      (r : EntryReader) {content : Bytes}
      → Pending r content
      → length r.cur ≤ r.cur_read
      → get_elem? r.chunks r.idx ≡ none
      → content ≡ []
  spent r p used e =
      p.content_is
      ∙ ap (λ t. t ++ p.unread) (drop_past r.cur_read r.cur used)
      ∙ subst (λ cs. Loads r.f r.verify_crc r.max_chunk cs p.unread)
          (drop-get_elem_none r.chunks r.idx e) p.loads

  -- An answer of the rest of the loop, after a copy of a byte at least, is one of the whole.
  later-Answers :
      (r : EntryReader) (want : ℕ) (out : Bytes) {content : Bytes}
      → Pending r content
      → 0 < want
      → r.cur_read < length r.cur
      → (a : Option (EntryReader × Bytes × Option Error))
      → Answers
          (out ++ copied r want)
          (want - length (copied r want))
          (drop (length (copied r want)) content)
          a
      → Answers out want content a
  later-Answers r want out p pos more none a = absurd a
  later-Answers r want out {content} p pos more (some (q, bytes, e)) (bytes_are, e_is, left) =
      let whole : bytes ≡ out ++ take want content =
        bytes_are
        ∙ append_assoc out (copied r want) _
        ∙ ap (λ t. out ++ t) (sym (copied-take r want p)) in
      let count = ap length bytes_are ∙ length-append (out ++ copied r want) _ in
      let some_bytes : 0 < length bytes =
        omega (arith, count, length-append out (copied r want), length-copied r want) in
      (whole, ground arith, subst (Pending q) (drop-rest r want content) left)

  -- The answer where there is nothing left to copy.
  end-Answers :
      (r : EntryReader) (want : ℕ) (out : Bytes) {content : Bytes}
      → Pending r content
      → 0 < want
      → content ≡ []
      → Answers out want content (some (stop r out eof))
  end-Answers r want out {content} p pos e =
      let empty : length content ≤ want = rw e (omega arith) in
      let nothing : take want content ≡ [] = take_past want content empty ∙ e in
      let left : Pending r (drop want content) =
        subst (Pending r) (e ∙ sym (drop_past want content empty)) p in
      by_out out nothing left
    where
      by_out :
          (out : Bytes)
          → take want content ≡ []
          → Pending r (drop want content)
          → Answers out want content (some (stop r out eof))
      by_out [] nothing left = (sym nothing, ground arith, left)
      by_out (b ∷ out) nothing left = (rw nothing (sym (append-nil (b ∷ out))), ground arith, left)

  full-Answers :
      (r : EntryReader) (want : ℕ) (out : Bytes) {content : Bytes}
      → Pending r content
      → want ≡ 0
      → Answers out want content (some (r, out, none))
  full-Answers r want out p e = rw e (sym (append-nil out), ground arith, p)

  -- The rest of a round, from the copy on.
  copy-Answers :
      (fuel : ℕ) (r : EntryReader) (want : ℕ) (out : Bytes) {content : Bytes}
      → ((r : EntryReader) (want : ℕ) (out : Bytes) (content : Bytes)
          → Pending r content
          → want < fuel
          → Answers out want content (read_loop lib fuel r want out))
      → Pending r content
      → 0 < want
      → want < suc fuel
      → r.cur_read < length r.cur
      → Answers out want content (
          read_loop lib fuel
            (advance r (length (copied r want)))
            (want - length (copied r want))
            (out ++ copied r want))
  copy-Answers fuel r want out {content} later p pos h more =
      later-Answers r want out p pos more _ (
        later (advance r (length (copied r want))) (want - length (copied r want))
          (out ++ copied r want) (drop (length (copied r want)) content) (advance-Pending r want p)
          (omega (arith, length-copied r want)))

  read_loop-Answers :
      (fuel : ℕ) (r : EntryReader) (want : ℕ) (out content : Bytes)
      → Pending r content
      → want < fuel
      → Answers out want content (read_loop lib fuel r want out)
  unfolding read_loop
  read_loop-Answers zero r want out content p h = absurd (omega arith)
  read_loop-Answers (suc fuel) r want out content p h = elim (Bool-cases (want == 0)) [
    | inl z ↦ rw z (full-Answers r want out p ((==_iff want 0).0 z))
    | inr nz ↦
        let pos : 0 < want = ground arith in
        elim (Bool-cases (leb (length r.cur) r.cur_read)) [
          | inr some_left ↦
              rw (nz, some_left)
                (copy-Answers fuel r want out (read_loop-Answers fuel) p pos h (ground arith))
          | inl used ↦ elim (Option-cases (get_elem? r.chunks r.idx)) [
            | inl e ↦
                rw (nz, used, e) (end-Answers r want out p pos (spent r p (leb→le _ _ used) e))
            | inr (c, e) ↦
                let (q, loaded, pq, more) = load-Pending r c p (leb→le _ _ used) e in
                rw (nz, used, e, loaded)
                  (copy-Answers fuel q want out (read_loop-Answers fuel) pq pos h more)
          ]
        ]
  ]

  -- `entryReader`.Read refines a reader that holds the bytes that are left: in every state whose
  -- chunks can be loaded, a call ends and gives the first bytes of what is left, as many as asked
  -- for or all, answers EOF just where bytes are asked for and none are left, and leaves the state
  -- with the rest.
  pub read-Answers :
      (r : EntryReader) (want : ℕ) {content : Bytes}
      → Pending r content
      → Answers [] want content (read lib r want)
  unfolding read
  read-Answers r want {content} p = read_loop-Answers (suc want) r want [] content p (omega arith)
