-- ===== src/Fbx/Index/Search.antt =====
-- `sort.Search` of the standard library, the binary search of the lookup in an index.
use go_fbx.Base.{
  ℕ, zero, suc, ◌+◌, ◌/◌, ◌<◌, ◌≤◌, ◌≡◌, inl, inr, Bool-cases, Bool, true, false, ltb, ltb→lt,
  arith,
}

-- The smallest index at which `test` holds, if it holds from some index on: the loop on the bounds
-- `i` and `j`, with fuel for as many rounds as lie between them.
unfoldable pub search_loop : ℕ → (ℕ → Bool) → ℕ → ℕ → ℕ
search_loop zero test i j = i
search_loop (suc fuel) test i j = elim (ltb i j) [
  | false ↦ i
  | true ↦ elim (test ((i + j) / 2)) [
    | true ↦ search_loop fuel test i ((i + j) / 2)
    | false ↦ search_loop fuel test ((i + j) / 2 + 1) j
  ]
]

unfoldable pub search : ℕ → (ℕ → Bool) → ℕ
search n test = search_loop n test 0 n

-- The test stays true where it is true once, up to a bound.
abbrev pub IsUpward : ℕ → (ℕ → Bool) → Type 0
IsUpward n test = (a b : ℕ) → a ≤ b → b < n → test a ≡ true → test b ≡ true

-- The test is false in front of an index and true from there on.
abbrev pub IsBoundary : ℕ → (ℕ → Bool) → ℕ → Type 0
IsBoundary n test r =
    (r ≤ n) × ((a : ℕ) → a < r → test a ≡ false) × ((b : ℕ) → r ≤ b → b < n → test b ≡ true)

search_loop-IsBoundary :
    (fuel n : ℕ) (test : ℕ → Bool) (i j : ℕ)
    → IsUpward n test
    → j ≤ i + fuel
    → i ≤ j
    → j ≤ n
    → ((a : ℕ) → a < i → test a ≡ false)
    → ((b : ℕ) → j ≤ b → b < n → test b ≡ true)
    → IsBoundary n test (search_loop fuel test i j)
unfolding search_loop
search_loop-IsBoundary zero n test i j up h k m below above =
    (omega arith, below, λ b p q. above b (omega arith) q)
search_loop-IsBoundary (suc fuel) n test i j up h k m below above = elim (Bool-cases (ltb i j)) [
  | inr met ↦ rw (met, search_loop) (omega arith, below, λ b p q. above b (ground arith) q)
  | inl apart ↦
      let less = ltb→lt i j apart in
      elim (Bool-cases (test ((i + j) / 2))) [
        | inl here ↦
            rw (apart, here, search_loop)
              (search_loop-IsBoundary fuel n test i ((i + j) / 2) up (omega arith) (omega arith)
                (omega arith) below (λ b p q. up ((i + j) / 2) b p q here))
        | inr there ↦
            rw (apart, there, search_loop)
              (search_loop-IsBoundary fuel n test ((i + j) / 2 + 1) j up (omega arith) (omega arith)
                m
                (λ a p. elim (Bool-cases (test a)) [
                  | inr fails ↦ fails
                  | inl holds ↦
                      absurd (ground (arith, up a ((i + j) / 2) (omega arith) (omega arith) holds))
                ])
                above)
      ]
]

-- The answer is the boundary.
pub search-IsBoundary :
    (n : ℕ) (test : ℕ → Bool) → IsUpward n test → IsBoundary n test (search n test)
unfolding search
search-IsBoundary n test up =
    search_loop-IsBoundary n n test 0 n up (omega arith) (omega arith) (omega arith)
      (λ a p. absurd (omega arith)) (λ b p q. absurd (omega arith))
