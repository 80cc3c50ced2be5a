-- ===== src/Fbx/Iter.antt =====
-- fbx/iter.go: the iterator over a slice. Where it stands is a Go `int` that starts at -1.
use go_fbx.Base.{
  drop-at, ℕ, zero, suc, ◌<◌, ◌≡◌, refl, ap, inl, inr, Bool, true, false, Option, none, some, arith,
}
use go_fbx.Base.{List, [], ◌∷◌, length, drop, get_elem?, ltb, lt→ltb, if◌then◌else◌, Error}
use go_fbx.Fbx.Options.{ℤ, pos, negsuc}

pub record SliceIterator {ℓ} (A : Type ℓ) : Type ℓ where
  pub values : List A
  pub idx : ℤ
  pub error : Option Error

-- `newSliceIterator`
abbrev pub new_slice_iterator {ℓ} : {A : Type ℓ} → List A → Option Error → SliceIterator A
new_slice_iterator values error = record { values = values; idx = negsuc 0; error = error }

-- `it.idx++`
abbrev pub increment : ℤ → ℤ
increment (pos n) = pos (suc n)
increment (negsuc zero) = pos 0
increment (negsuc (suc n)) = negsuc n

-- `it.idx < len(it.values)`
abbrev pub below_length : ℤ → ℕ → Bool
below_length (pos n) m = ltb n m
below_length (negsuc n) m = true

-- `Next`
unfoldable pub next {ℓ} : {A : Type ℓ} → SliceIterator A → SliceIterator A × Bool
next it = elim it.error [
  | some _ ↦ (it, false)
  | none ↦
      (record it { idx = increment it.idx }, below_length (increment it.idx) (length it.values))
]

-- `Value`; `none` is the zero value of the type.
unfoldable pub value {ℓ} : {A : Type ℓ} → SliceIterator A → Option A
value it = elim it.idx [ pos n ↦ get_elem? it.values n | negsuc _ ↦ none ]

-- A client's loop `for it.Next() { … it.Value() … }`, on fuel: what it sees.
unfoldable pub seen {ℓ} : {A : Type ℓ} → ℕ → SliceIterator A → List (Option A)
unfolding next value
seen zero it = []
seen (suc fuel) it =
    let (it', more) = next it in let rest = seen fuel it' in if more then value it' ∷ rest else []

abbrev pub all_some {ℓ} : {A : Type ℓ} → List A → List (Option A)
all_some [] = []
all_some (x ∷ xs) = some x ∷ all_some xs

-- The loop sees what is behind the place where the iterator stands.
seen-from {ℓ} :
    {A : Type ℓ} (fuel n : ℕ) (values : List A)
    → length (drop (suc n) values) < fuel
    → seen fuel (record { values = values; idx = pos n; error = none })
      ≡ all_some (drop (suc n) values)
unfolding seen next value
seen-from zero n values h = absurd (omega arith)
seen-from (suc fuel) n values h = elim (drop-at (suc n) values) [
  | inl (past, nothing) ↦ rw (past, nothing) refl
  | inr (x, inside, got, dropped) ↦
      let count = ap length dropped in
      rw (inside, got, dropped) (ap (λ t. some x ∷ t) (seen-from fuel (suc n) values (omega arith)))
]

-- A loop over a new iterator of a slice sees the values in order, each once, and ends; with an
-- error it sees nothing.
pub seen-new_slice_iterator {ℓ} :
    {A : Type ℓ} (values : List A) (e : Error)
    → (seen (suc (length values)) (new_slice_iterator values none) ≡ all_some values)
      × (seen (suc (length values)) (new_slice_iterator values (some e)) ≡ [])
unfolding seen next value
seen-new_slice_iterator [] e = (refl, refl)
seen-new_slice_iterator (x ∷ xs) e = (
  rw (lt→ltb 0 (suc (length xs)) (omega arith))
      (ap (λ t. some x ∷ t) (seen-from (suc (length xs)) 0 (x ∷ xs) (omega arith))),
  refl,
)
