-- ===== src/Fbx/Write/Appends.antt =====
-- Writing the content of an entry appends, whatever comes of it: what was in the file stays.
use go_fbx.Base.{
  ℕ, zero, suc, ◌+◌, ◌≡◌, subst, sym, ◌⊎◌, ◌∙◌, ap, inl, inr, Bool-cases, Option-cases, ◌&&◌, none,
  some, arith,
}
use go_fbx.Base.{
  map, List, [], ◌∷◌, ◌++◌, append_assoc, append-nil, length, length-append, take, drop, ltb, leb,
  if◌then◌else◌, ◌==◌,
}
use go_fbx.Base.{Bytes, Error, Result, ok, err, Result-cases}
use go_fbx.File.{write_at-end}
use go_fbx.Format.Types.{ChunkRefV1}
use go_fbx.Format.Codec.{Compressors}
use go_fbx.Fbx.Write.{
  Writer, Source, Settings, append_at, write_chunk, write_loop, write_chunks_sequential,
}
use go_fbx.Fbx.Write.Steps.{write_chunk-Written}
use go_fbx.Fbx.Write.Parallel.{
  run_job, first_error, ChunkResult, Collector, write_result, drain, receive, collect, produce,
  write_chunks_parallel, write_chunks,
}

-- The file grew at its end, and the next append goes to its end.
pub record Appends (w w' : Writer) : Type 0 where
  pub appended : Bytes
  pub file_is : w'.file ≡ w.file ++ appended
  pub offset_is : w'.append_offset ≡ length w'.file

pub Appends-refl : (w : Writer) → w.append_offset ≡ length w.file → Appends w w
Appends-refl w h = record { appended = []; file_is = sym (append-nil w.file); offset_is = h }

pub Appends-trans : {u v w : Writer} → Appends u v → Appends v w → Appends u w
Appends-trans {u} {v} {w} a b = record {
  appended = a.appended ++ b.appended;
  file_is =
      b.file_is ∙ (ap (λ t. t ++ b.appended) a.file_is ∙ append_assoc u.file a.appended b.appended);
  offset_is = b.offset_is;
}

pub append_at-Appends :
    (w : Writer) (rec file : Bytes) (off : ℕ)
    → w.append_offset ≡ length w.file
    → append_at w.file w.append_offset rec ≡ ok (file, off)
    → Appends w (record { file = file; append_offset = off })
unfolding append_at
append_at-Appends w rec file off hw e = record {
  appended = rec;
  file_is = ground (arith, write_at-end w.file rec w.append_offset hw);
  offset_is = ground (arith, write_at-end w.file rec w.append_offset hw, length-append w.file rec);
}

module _ (lib : Compressors) (s : Settings) where
  write_chunk-error :
      (w : Writer) (raw_off : ℕ) (raw : Bytes) {x : Error}
      → (write_chunk lib s w raw_off raw).1 ≡ err x
      → (write_chunk lib s w raw_off raw).0 ≡ w
  unfolding write_chunk
  write_chunk-error w raw_off raw e = ground arith

  write_chunk-Appends :
      (w : Writer) (raw_off : ℕ) (raw : Bytes)
      → w.append_offset ≡ length w.file
      → Appends w (write_chunk lib s w raw_off raw).0
  write_chunk-Appends w raw_off raw hw =
      let p = write_chunk lib s w raw_off raw in
      elim (Result-cases p.1) [
        | inr (x, q) ↦
            subst (λ v. Appends w v) (sym (write_chunk-error w raw_off raw q)) (Appends-refl w hw)
        | inl ((c, next), q) ↦
            let t = write_chunk-Written lib s w raw_off raw hw (ap (λ t. (p.0, t)) q) in
            record { appended = t.rec; file_is = t.file_is; offset_is = t.offset_is }
      ]

  write_loop-Appends :
      (fuel : ℕ) (w : Writer) (r : Source) (raw_off : ℕ) (chunks : List ChunkRefV1) {w' : Writer}
      {a : Result (List ChunkRefV1 × ℕ)}
      → w.append_offset ≡ length w.file
      → write_loop lib s fuel w r raw_off chunks ≡ some (w', a)
      → Appends w w'
  unfolding write_loop
  write_loop-Appends zero w r raw_off chunks hw e = absurd (ground arith)
  write_loop-Appends (suc fuel) w r raw_off chunks {w'} {a} hw e =
      let raw = take s.chunk_size r.unread in
      let later : Source = record r { unread = drop s.chunk_size r.unread } in
      let p = write_chunk lib s w raw_off raw in
      let one = write_chunk-Appends w raw_off raw hw in
      let stays = λ (q : w' ≡ w). subst (λ v. Appends w v) (sym q) (Appends-refl w hw) in
      let grows = λ (q : w' ≡ p.0). subst (λ v. Appends w v) (sym q) one in
      elim (Bool-cases (ltb (length r.unread) s.chunk_size && r.fails)) [
        | inl broken ↦ stays (ground arith)
        | inr sound ↦ elim (Bool-cases (length r.unread == 0)) [
          | inl empty ↦ stays (ground arith)
          | inr some_left ↦ elim (Result-cases p.1) [
            | inr (x, q) ↦ grows (ground arith)
            | inl ((c, next), q) ↦ elim (Bool-cases (ltb (length r.unread) s.chunk_size)) [
              | inl short ↦ grows (ground arith)
              | inr full ↦
                  let rest : write_loop lib s fuel p.0 later next (chunks ++ c ∷ [])
                      ≡ some (w', a) =
                    ground arith in
                  Appends-trans one
                    (write_loop-Appends fuel p.0 later next (chunks ++ c ∷ []) one.offset_is rest)
            ]
          ]
        ]
      ]

write_result-writer :
    (c : Collector) (cur : ChunkResult)
    → ((write_result c cur).writer ≡ c.writer)
      ⊎ ((file : Bytes) × (off : ℕ) × (append_at c.writer.file c.writer.append_offset cur.rec
            ≡ ok (file, off))
          × ((write_result c cur).writer ≡ record { file = file; append_offset = off }))
unfolding write_result
write_result-writer c cur = elim (Option-cases cur.error) [
  | inr (x, p) ↦ inl (ground arith)
  | inl p ↦ elim (Option-cases c.out_err) [
    | inr (x, q) ↦ inl (ground arith)
    | inl q ↦ elim (Result-cases (append_at c.writer.file c.writer.append_offset cur.rec)) [
      | inr (x, t) ↦ inl (ground arith)
      | inl ((file, off), t) ↦ inr (file, off, t, ground arith)
    ]
  ]
]

write_result-Appends :
    (c : Collector) (cur : ChunkResult)
    → c.writer.append_offset ≡ length c.writer.file
    → Appends c.writer (write_result c cur).writer
write_result-Appends c cur hw = elim (write_result-writer c cur) [
  | inl same ↦ subst (λ v. Appends c.writer v) (sym same) (Appends-refl c.writer hw)
  | inr (file, off, appended, is) ↦
      subst (λ v. Appends c.writer v) (sym is)
        (append_at-Appends c.writer cur.rec file off hw appended)
]

drain-Appends :
    (fuel : ℕ) (c : Collector)
    → c.writer.append_offset ≡ length c.writer.file
    → Appends c.writer (drain fuel c).writer
unfolding drain
drain-Appends zero c hw = Appends-refl c.writer hw
drain-Appends (suc fuel) c hw = elim (Option-cases (c.pending c.next)) [
  | inl p ↦ rw (p, drain) (Appends-refl c.writer hw)
  | inr (cur, p) ↦
      let taken : Collector = record c {
        pending = λ i. if i == c.next then none else c.pending i;
        next = c.next + 1;
      } in
      let one = write_result-Appends taken cur hw in
      rw (p, drain) (Appends-trans one (drain-Appends fuel (write_result taken cur) one.offset_is))
]

collect-Appends :
    (fuel : ℕ) (c : Collector) (results : List ChunkResult)
    → c.writer.append_offset ≡ length c.writer.file
    → Appends c.writer (collect fuel c results).writer
unfolding collect receive
collect-Appends fuel c [] hw = Appends-refl c.writer hw
collect-Appends fuel c (res ∷ results) hw =
    let one =
      drain-Appends fuel
        (record c {
          pending = λ i. if i == res.index then some res else c.pending i;
          out_err = first_error c.out_err res.error;
        })
        hw in
    Appends-trans one (collect-Appends fuel (receive fuel c res) results one.offset_is)

module _ (lib : Compressors) (s : Settings) where
  -- Whatever the content, the errors and the order in which results arrive: writing only appends.
  pub write_chunks-Appends :
      (workers : ℕ) (arrive : List ChunkResult → List ChunkResult) (w : Writer) (r : Source)
      {w' : Writer} {a : Result (List ChunkRefV1 × ℕ)}
      → w.append_offset ≡ length w.file
      → write_chunks lib s workers arrive w r ≡ some (w', a)
      → Appends w w'
  unfolding write_chunks write_chunks_parallel write_chunks_sequential
  write_chunks-Appends workers arrive w r {w'} {a} hw e = elim (Bool-cases (leb workers 1)) [
    | inl few ↦ write_loop-Appends lib s (suc (length r.unread)) w r 0 [] {a = a} hw (ground arith)
    | inr many ↦ elim (Option-cases (produce lib s (suc (length r.unread)) r 0 0)) [
      | inl n ↦ absurd (ground arith)
      | inr (p, q) ↦
          let c : Collector = record {
            pending = λ i. none;
            next = 0;
            writer = w;
            chunks = [];
            out_err = none;
          } in
          let results = arrive (map (run_job lib s) p.0) in
          let same : w' ≡ (collect (suc (length p.0)) c results).writer = ground arith in
          subst (λ v. Appends w v) (sym same) (collect-Appends (suc (length p.0)) c results hw)
    ]
  ]
