-- ===== src/Fbx/Write/Parallel/Collect.antt =====
-- The loop of `writeChunksParallel` over the results, in whatever order they arrive.
use go_fbx.Base.{
  ℕ, zero, suc, ◌+◌, ◌<◌, ◌≤◌, ◌≡◌, refl, subst, sym, ◌∙◌, ap, inl, inr, Bool-cases, Option-cases,
  Bool, true, false, ◌||◌, none, some, arith,
}
use go_fbx.Base.{
  List, [], ◌∷◌, ◌++◌, length, get_elem?, drop, drop-at, get_elem?-past, ltb→lt, if◌then◌else◌,
  ◌==◌, All,
}
use go_fbx.Base.{ok}
use go_fbx.Format.Types.{ChunkRefV1}
use go_fbx.Fbx.Write.{Writer, append_at}
use go_fbx.Fbx.Write.Parallel.{
  ChunkResult, Collector, first_error, reference, write_result, drain, receive, collect,
}
use go_fbx.Fbx.Write.Parallel.Jobs.{Writes}

-- Whether a result with an index is among those that arrived.
abbrev pub arrived : List ChunkResult → ℕ → Bool
arrived [] i = false
arrived (a ∷ others) i = (i == a.index) || arrived others i

plus_one : (n : ℕ) → n + 1 ≡ suc n
plus_one n = omega arith

write_result_ok :
    (c : Collector) (cur : ChunkResult) (w : Writer)
    → cur.error ≡ none
    → c.out_err ≡ none
    → append_at c.writer.file c.writer.append_offset cur.rec ≡ ok (w.file, w.append_offset)
    → write_result c cur ≡ record {
      pending = c.pending;
      next = c.next;
      writer = w;
      chunks = c.chunks ++ reference c.writer.append_offset cur ∷ [];
      out_err = none;
    }
unfolding write_result
write_result_ok c cur w fine none_yet appended = ground arith

-- An arrival is one of the results, at its index, and no error.
abbrev pub IsResult : List ChunkResult → ChunkResult → Type 0
IsResult rs a = (get_elem? rs a.index ≡ some a) × (a.error ≡ none)

module _ (rs : List ChunkResult) (w' : Writer) (chunks' : List ChunkRefV1) where
  -- What the collector holds after the results that `seen` tells: those from `next` on wait, those
  -- in front are written, and what is left to write leads to the end.
  pub record Follows (seen : ℕ → Bool) (c : Collector) : Type 0 where
    pub no_error : c.out_err ≡ none
    pub left : Writes (drop c.next rs) c.writer c.chunks w' chunks'
    pub waits : (i : ℕ) → c.next ≤ i → seen i ≡ true → c.pending i ≡ get_elem? rs i
    pub free : (i : ℕ) → c.next ≤ i → seen i ≡ false → c.pending i ≡ none

  -- The collector from which a result that waits at `next` is taken.
  abbrev taken : Collector → Collector
  taken c = record c { pending = λ i. if i == c.next then none else c.pending i; next = c.next + 1 }

  -- A result that waits at `next` is written, and the next one is looked for.
  Follows-write :
      (seen : ℕ → Bool) (c : Collector) (cur : ChunkResult)
      → Follows seen c
      → c.pending c.next ≡ some cur
      → (c.next < length rs)
        × Follows seen (write_result (taken c) cur)
        × ((write_result (taken c) cur).next ≡ c.next + 1)
  Follows-write seen c cur f p = elim (Bool-cases (seen c.next)) [
    | inr not_seen ↦ absurd (ground (arith, f.free c.next (omega arith) not_seen))
    | inl is_seen ↦ elim (drop-at c.next rs) [
      | inl (past, nothing) ↦
          absurd
            (ground (arith, f.waits c.next (omega arith) is_seen, get_elem?-past c.next rs past))
      | inr (x, inside, got, dropped) ↦
          let same : x ≡ cur = ground (arith, f.waits c.next (omega arith) is_seen) in
          let (w1, fine, appended, more) =
            subst (λ t. Writes t c.writer c.chunks w' chunks')
              (dropped ∙ ap (λ t. t ∷ drop (suc c.next) rs) same) f.left in
          (
            ltb→lt c.next (length rs) inside,
            rw (write_result_ok (taken c) cur w1 fine f.no_error appended) (record {
              no_error = refl;
              left = rw (plus_one c.next) more;
              waits = λ i h k. ground (arith, f.waits i (omega arith) k);
              free = λ i h k. ground (arith, f.free i (omega arith) k);
            }),
            rw (write_result_ok (taken c) cur w1 fine f.no_error appended) refl,
          )
    ]
  ]

  drain_stop : (fuel : ℕ) (c : Collector) → c.pending c.next ≡ none → drain fuel c ≡ c
  unfolding drain
  drain_stop zero c p = refl
  drain_stop (suc fuel) c p = rw (p, drain) refl

  drain_go :
      (fuel : ℕ) (c : Collector) (cur : ChunkResult)
      → c.pending c.next ≡ some cur
      → drain (suc fuel) c ≡ drain fuel (write_result (taken c) cur)
  unfolding drain
  drain_go fuel c cur p = rw (p, drain) refl

  -- The inner loop ends where no result waits, within fuel for all of them.
  Follows-drain :
      (fuel : ℕ) (seen : ℕ → Bool) (c : Collector)
      → Follows seen c
      → length rs ≤ fuel + c.next
      → Follows seen (drain fuel c) × ((drain fuel c).pending (drain fuel c).next ≡ none)
  Follows-drain zero seen c f h = elim (Option-cases (c.pending c.next)) [
    | inl nothing ↦ rw (drain_stop 0 c nothing) (f, nothing)
    | inr (cur, p) ↦ let (inside, g, next_is) = Follows-write seen c cur f p in absurd (omega arith)
  ]
  Follows-drain (suc fuel) seen c f h = elim (Option-cases (c.pending c.next)) [
    | inl nothing ↦ rw (drain_stop (suc fuel) c nothing) (f, nothing)
    | inr (cur, p) ↦
        let (inside, g, next_is) = Follows-write seen c cur f p in
        rw (drain_go fuel c cur p)
          (Follows-drain fuel seen (write_result (taken c) cur) g (omega arith))
  ]

  Follows-receive :
      (fuel : ℕ) (seen : ℕ → Bool) (c : Collector) (a : ChunkResult)
      → length rs ≤ fuel
      → IsResult rs a
      → Follows seen c
      → Follows (λ i. (i == a.index) || seen i) (receive fuel c a)
        × ((receive fuel c a).pending (receive fuel c a).next ≡ none)
  unfolding receive
  Follows-receive fuel seen c a h (got, fine) f =
      Follows-drain fuel (λ i. (i == a.index) || seen i)
        (record c {
          pending = λ i. if i == a.index then some a else c.pending i;
          out_err = first_error c.out_err a.error;
        })
        (record {
          no_error = ground (arith, f.no_error);
          left = f.left;
          waits = λ i k t. ground (arith, got, f.waits i k);
          free = λ i k t. ground (arith, f.free i k);
        })
        (omega arith)

  -- Where no result waits at `next` and all have arrived, all are written.
  Follows-end :
      (seen : ℕ → Bool) (c : Collector)
      → ((i : ℕ) → i < length rs → seen i ≡ true)
      → Follows seen c
      → c.pending c.next ≡ none
      → (c.out_err ≡ none) × (c.writer ≡ w') × (c.chunks ≡ chunks')
  Follows-end seen c all f p = elim (drop-at c.next rs) [
    | inl (past, nothing) ↦
        let (w, cs) = subst (λ t. Writes t c.writer c.chunks w' chunks') nothing f.left in
        (f.no_error, sym w, sym cs)
    | inr (x, inside, got, dropped) ↦
        let is_seen = all c.next (ltb→lt c.next (length rs) inside) in
        absurd (ground (arith, f.waits c.next (omega arith) is_seen))
  ]

  pub Follows-collect :
      (fuel : ℕ) (seen : ℕ → Bool) (c : Collector) (results : List ChunkResult)
      → length rs ≤ fuel
      → All (IsResult rs) results
      → ((i : ℕ) → i < length rs → (arrived results i || seen i) ≡ true)
      → Follows seen c
      → c.pending c.next ≡ none
      → let c' = collect fuel c results in
        (c'.out_err ≡ none) × (c'.writer ≡ w') × (c'.chunks ≡ chunks')
  unfolding collect
  Follows-collect fuel seen c [] h good all f p = Follows-end seen c all f p
  Follows-collect fuel seen c (a ∷ results) h (fine, good) all f p =
      let (g, q) = Follows-receive fuel seen c a h fine f in
      Follows-collect fuel (λ i. (i == a.index) || seen i) (receive fuel c a) results h good
        (λ i k. ground (arith, all i k)) g q
