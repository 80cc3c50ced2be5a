-- ===== src/Fbx/Write/Parallel/Order.antt =====
-- The order in which the results of `writeChunksParallel` arrive makes no difference.
use go_fbx.Base.{
  ℕ, suc, ◌+◌, ◌<◌, ◌≤◌, ◌≡◌, refl, subst, sym, ◌∙◌, ap, true, false, none, some, arith,
}
use go_fbx.Base.{List, [], ◌∷◌, ◌++◌, append_assoc, map, length, length-append, get_elem?, All}
use go_fbx.Base.{ok}
use mathlib.Core.List.{Permᴰ}
use go_fbx.Format.Types.{ChunkRefV1}
use go_fbx.Format.Codec.{Compressors}
use go_fbx.Fbx.Write.{Writer, Source, Settings, write_chunks_sequential}
use go_fbx.Fbx.Write.Parallel.{
  ChunkJob, ChunkResult, Collector, reference, run_job, write_chunks_parallel,
}
use go_fbx.Fbx.Write.Parallel.Jobs.{Writes, Counts, write_loop-Produces}
use go_fbx.Fbx.Write.Parallel.Collect.{arrived, IsResult, Follows-collect}

-- A permutation brings the same results.
Permᴰ-All :
    (P : ChunkResult → Type 0) {xs ys : List ChunkResult} → Permᴰ xs ys → All P xs → All P ys
Permᴰ-All P Permᴰ.nil h = tt
Permᴰ-All P (Permᴰ.cons e p) (h, hs) = (subst P e h, Permᴰ-All P p hs)
Permᴰ-All P (Permᴰ.swap e1 e2) (h, (k, hs)) = (subst P e2 k, (subst P e1 h, hs))
Permᴰ-All P (Permᴰ.trans p q) h = Permᴰ-All P q (Permᴰ-All P p h)

Permᴰ-arrived :
    {xs ys : List ChunkResult} (i : ℕ) → Permᴰ xs ys → arrived xs i ≡ true → arrived ys i ≡ true
Permᴰ-arrived i Permᴰ.nil h = h
Permᴰ-arrived i (Permᴰ.cons e p) h = ground (arith, ap (λ t. t.index) e, Permᴰ-arrived i p)
Permᴰ-arrived i (Permᴰ.swap e1 e2) h = ground (arith, ap (λ t. t.index) e1, ap (λ t. t.index) e2)
Permᴰ-arrived i (Permᴰ.trans p q) h = Permᴰ-arrived i q (Permᴰ-arrived i p h)

-- Counted results stand at their indices.
Counts-arrived :
    (n : ℕ) (rs : List ChunkResult) (i : ℕ)
    → Counts n rs
    → n ≤ i
    → i < n + length rs
    → arrived rs i ≡ true
Counts-arrived n [] i c h k = absurd (omega arith)
Counts-arrived n (r ∷ rs) i (e, c) h k = ground (arith, Counts-arrived (n + 1) rs i c)

get_elem?-at_end :
    (xs : List ChunkResult) (x : ChunkResult) (ys : List ChunkResult)
    → get_elem? (xs ++ x ∷ ys) (length xs) ≡ some x
get_elem?-at_end [] x ys = refl
get_elem?-at_end (y ∷ xs) x ys = get_elem?-at_end xs x ys

-- Written results are no errors and stand at their indices.
Writes-All :
    (front rs : List ChunkResult) (w : Writer) (chunks : List ChunkRefV1) (w' : Writer)
    (chunks' : List ChunkRefV1)
    → Counts (length front) rs
    → Writes rs w chunks w' chunks'
    → All (IsResult (front ++ rs)) rs
Writes-All front [] w chunks w' chunks' c h = tt
Writes-All front (r ∷ rs) w chunks w' chunks' (e, c) (w1, fine, appended, h) =
    let one : length (front ++ r ∷ []) ≡ length front + 1 = length-append front (r ∷ []) in
    (
      (ap (λ n. get_elem? (front ++ r ∷ rs) n) e ∙ get_elem?-at_end front r rs, fine),
      subst (λ t. All (IsResult t) rs) (append_assoc front (r ∷ []) rs)
          (Writes-All (front ++ r ∷ []) rs w1 (chunks ++ reference w.append_offset r ∷ []) w'
            chunks' (subst (λ n. Counts n rs) (sym one) c) h),
    )

length-map : (f : ChunkJob → ChunkResult) (js : List ChunkJob) → length (map f js) ≡ length js
length-map f [] = refl
length-map f (j ∷ js) = ap suc (length-map f js)

module _ (lib : Compressors) (s : Settings) where
  -- When `writeChunksSequential` writes a content without an error, `writeChunksParallel` answers
  -- the same references and the same size and leaves the same file and append offset, for every
  -- order in which the results of the workers arrive.
  pub write_chunks_parallel_lem :
      (arrive : List ChunkResult → List ChunkResult) (w : Writer) (r : Source) {w' : Writer}
      {chunks : List ChunkRefV1} {size : ℕ}
      → ((results : List ChunkResult) → Permᴰ results (arrive results))
      → write_chunks_sequential lib s w r ≡ some (w', ok (chunks, size))
      → write_chunks_parallel lib s arrive w r ≡ some (w', ok (chunks, size))
  unfolding write_chunks_sequential write_chunks_parallel
  write_chunks_parallel_lem arrive w r {w'} {chunks} {size} perm e =
      let p = write_loop-Produces lib s (suc (length r.unread)) w r 0 0 [] e in
      let rs = map (run_job lib s) p.jobs in
      let c : Collector = record {
        pending = λ i. none;
        next = 0;
        writer = w;
        chunks = [];
        out_err = none;
      } in
      let (no_error, w_is, chunks_are) =
        Follows-collect rs w' chunks (suc (length p.jobs)) (λ i. false) c (arrive rs)
          (omega (arith, length-map (run_job lib s) p.jobs))
          (Permᴰ-All (IsResult rs) (perm rs) (Writes-All [] rs w [] w' chunks p.counts p.written))
          (λ i k. ground (
            arith,
            Permᴰ-arrived i (perm rs) (Counts-arrived 0 rs i p.counts (omega arith) (omega arith)),
          ))
          (record {
            no_error = refl;
            left = p.written;
            waits = λ i h t. absurd (ground arith);
            free = λ i h t. refl;
          })
          refl in
      rw (p.produced, write_chunks_parallel) (rw (no_error, w_is, chunks_are) refl)
