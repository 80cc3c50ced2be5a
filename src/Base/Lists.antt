-- ===== src/Base/Lists.antt =====
-- Lists measured and cut by native numbers, under the library's names, and Go's slices of them.
use Prim.Native.Nat.{ℕ, zero, suc, ◌+◌, ◌-◌, ◌≤◌, min}
use mathlib.Core.Path.{◌≡◌, refl, ap}
use mathlib.Core.Logic.{◌⊎◌, inl, inr}
use mathlib.Core.Bool.{true, false}
use mathlib.Core.List.{List, [], ◌∷◌, ◌++◌}
use mathlib.Core.Option.{Option, none, some}
use native.Mathlib.Nat.{zero-add, sub-zero}
use native.Mathlib.Omega.{arith}
use go_fbx.Base.Tests.{ltb}

suc-add : (n m : ℕ) → suc n + m ≡ suc (n + m)
suc-add n m = omega arith

sub-suc-suc : (n m : ℕ) → suc n - suc m ≡ n - m
sub-suc-suc n m = omega arith

module _ {ℓ} {A : Type ℓ} where
  abbrev pub length : List A → ℕ
  length [] = 0
  length (x ∷ xs) = suc (length xs)

  abbrev pub get_elem? : List A → ℕ → Option A
  get_elem? [] i = none
  get_elem? (x ∷ xs) zero = some x
  get_elem? (x ∷ xs) (suc i) = get_elem? xs i

  abbrev pub get_or : List A → ℕ → A → A
  get_or [] i d = d
  get_or (x ∷ xs) zero d = x
  get_or (x ∷ xs) (suc i) d = get_or xs i d

  abbrev pub take : ℕ → List A → List A
  take zero xs = []
  take (suc n) [] = []
  take (suc n) (x ∷ xs) = x ∷ take n xs

  abbrev pub drop : ℕ → List A → List A
  drop zero xs = xs
  drop (suc n) [] = []
  drop (suc n) (x ∷ xs) = drop n xs

  abbrev pub replicate : ℕ → A → List A
  replicate zero a = []
  replicate (suc n) a = a ∷ replicate n a

  pub length-append : (xs ys : List A) → length (xs ++ ys) ≡ length xs + length ys
  length-append [] ys = omega arith
  length-append (x ∷ xs) ys = omega (arith, length-append xs ys)

  pub length-zero : (xs : List A) → length xs ≡ 0 → xs ≡ []
  length-zero [] h = refl
  length-zero (x ∷ xs) h = absurd (omega arith)

  pub length-take : (n : ℕ) (xs : List A) → length (take n xs) ≡ min n (length xs)
  length-take zero xs = omega arith
  length-take (suc n) [] = omega arith
  length-take (suc n) (x ∷ xs) = omega (arith, length-take n xs)

  pub length-drop : (n : ℕ) (xs : List A) → length (drop n xs) ≡ length xs - n
  length-drop zero xs = omega arith
  length-drop (suc n) [] = omega arith
  length-drop (suc n) (x ∷ xs) = omega (arith, length-drop n xs)

  pub take-append-drop : (n : ℕ) (xs : List A) → take n xs ++ drop n xs ≡ xs
  take-append-drop zero xs = refl
  take-append-drop (suc n) [] = refl
  take-append-drop (suc n) (x ∷ xs) = ap (λ t. x ∷ t) (take-append-drop n xs)

  pub take-append_front : (n : ℕ) (xs ys : List A) → length xs ≡ n → take n (xs ++ ys) ≡ xs
  take-append_front zero [] ys h = refl
  take-append_front zero (x ∷ xs) ys h = absurd (omega arith)
  take-append_front (suc n) [] ys h = absurd (omega arith)
  take-append_front (suc n) (x ∷ xs) ys h =
      ap (λ t. x ∷ t) (take-append_front n xs ys (omega arith))

  pub drop-drop : (n m : ℕ) (xs : List A) → drop m (drop n xs) ≡ drop (n + m) xs
  drop-drop zero m xs = rw zero-add
  drop-drop (suc n) zero [] = rw suc-add
  drop-drop (suc n) (suc m) [] = rw suc-add
  drop-drop (suc n) m (x ∷ xs) = rw suc-add (drop-drop n m xs)

  pub drop-append_back :
      (n : ℕ) (xs ys : List A) → length xs ≤ n → drop n (xs ++ ys) ≡ drop (n - length xs) ys
  drop-append_back n [] ys h = rw sub-zero
  drop-append_back zero (x ∷ xs) ys h = absurd (omega arith)
  drop-append_back (suc n) (x ∷ xs) ys h =
      rw (sub-suc-suc n (length xs)) (drop-append_back n xs ys (omega arith))

  pub take_past : (n : ℕ) (xs : List A) → length xs ≤ n → take n xs ≡ xs
  take_past zero [] h = refl
  take_past zero (x ∷ xs) h = absurd (omega arith)
  take_past (suc n) [] h = refl
  take_past (suc n) (x ∷ xs) h = ap (λ t. x ∷ t) (take_past n xs (omega arith))

  pub drop-append_within :
      (n : ℕ) (xs ys : List A) → n ≤ length xs → drop n (xs ++ ys) ≡ drop n xs ++ ys
  drop-append_within zero xs ys h = refl
  drop-append_within (suc n) [] ys h = absurd (omega arith)
  drop-append_within (suc n) (x ∷ xs) ys h = drop-append_within n xs ys (omega arith)

  pub take-take_front :
      (n m : ℕ) (xs ys : List A) → n ≤ m → m ≤ length xs → take n (take m xs ++ ys) ≡ take n xs
  take-take_front zero m xs ys h k = refl
  take-take_front (suc n) zero xs ys h k = absurd (omega arith)
  take-take_front (suc n) (suc m) [] ys h k = absurd (omega arith)
  take-take_front (suc n) (suc m) (x ∷ xs) ys h k =
      ap (λ t. x ∷ t) (take-take_front n m xs ys (omega arith) (omega arith))

  pub take-drop-take_front :
      (n i m : ℕ) (xs ys : List A)
      → i + n ≤ m
      → m ≤ length xs
      → take n (drop i (take m xs ++ ys)) ≡ take n (drop i xs)
  take-drop-take_front n zero m xs ys h k = take-take_front n m xs ys (omega arith) k
  take-drop-take_front n (suc i) zero xs ys h k = absurd (omega arith)
  take-drop-take_front n (suc i) (suc m) [] ys h k = absurd (omega arith)
  take-drop-take_front n (suc i) (suc m) (x ∷ xs) ys h k =
      take-drop-take_front n i m xs ys (omega arith) (omega arith)

  pub drop_past : (n : ℕ) (xs : List A) → length xs ≤ n → drop n xs ≡ []
  drop_past zero [] h = refl
  drop_past zero (x ∷ xs) h = absurd (omega arith)
  drop_past (suc n) [] h = refl
  drop_past (suc n) (x ∷ xs) h = drop_past n xs (omega arith)

  pub take_all : (n : ℕ) (xs : List A) → length xs ≡ n → take n xs ≡ xs
  take_all zero [] h = refl
  take_all zero (x ∷ xs) h = absurd (omega arith)
  take_all (suc n) [] h = absurd (omega arith)
  take_all (suc n) (x ∷ xs) h = ap (λ t. x ∷ t) (take_all n xs (omega arith))

  pub drop-append_front : (n : ℕ) (xs ys : List A) → length xs ≡ n → drop n (xs ++ ys) ≡ ys
  drop-append_front zero [] ys h = refl
  drop-append_front zero (x ∷ xs) ys h = absurd (omega arith)
  drop-append_front (suc n) [] ys h = absurd (omega arith)
  drop-append_front (suc n) (x ∷ xs) ys h = drop-append_front n xs ys (omega arith)

-- `xs[i:j]`
module _ {ℓ} {A : Type ℓ} where
  abbrev pub slice : ℕ → ℕ → List A → List A
  slice i j xs = take (j - i) (drop i xs)

  abbrev pub All {κ} : (A → Type κ) → List A → Type κ
  All P [] = Unit {κ}
  All P (x ∷ xs) = P x × All P xs

-- What stands at an index is the head of what is left there.
pub drop-at {ℓ} :
    {A : Type ℓ} (n : ℕ) (xs : List A)
    → ((ltb n (length xs) ≡ false) × (drop n xs ≡ []))
      ⊎ ((x : A) × (ltb n (length xs) ≡ true)
          × (get_elem? xs n ≡ some x)
          × (drop n xs ≡ x ∷ drop (suc n) xs))
drop-at zero [] = inl (ground arith, refl)
drop-at (suc n) [] = inl (ground arith, refl)
drop-at zero (x ∷ xs) = inr (x, ground arith, refl, refl)
drop-at (suc n) (x ∷ xs) = elim (drop-at n xs) [
  | inl (past, nothing) ↦ inl (ground arith, nothing)
  | inr (y, inside, got, dropped) ↦ inr (y, ground arith, got, dropped)
]

pub get_elem?-past {ℓ} :
    {A : Type ℓ} (n : ℕ) (xs : List A) → ltb n (length xs) ≡ false → get_elem? xs n ≡ none
get_elem?-past n [] h = refl
get_elem?-past zero (x ∷ xs) h = absurd (ground arith)
get_elem?-past (suc n) (x ∷ xs) h = get_elem?-past n xs (ground arith)
