-- ===== src/Paths/Normal.antt =====
-- What `Normalize` answers is canonical.
use go_fbx.Base.{
  ℕ, ◌≡◌, ◌≢◌, refl, sym, ap, ◌∙◌, Bool, true, false, not, ◌||◌, Bool-cases, inl, inr, arith,
}
use go_fbx.Base.{List, [], ◌∷◌, ◌++◌, append-nil, ◌==◌, ==_iff, Bytes, equal, equal_iff}
use go_fbx.Base.{ok, guard-then, ok-injective, invalid_path, subst}
use go_fbx.Paths.{
  slash, backslash, dot, valid_utf8, contains, replace_all, onto, split, join, clean_part,
  clean_parts, reverse_onto, starts_with_slash, clean, all_named, normalize,
}

-- Parts that are names are kept as they are.
clean_parts-named :
    (rooted : Bool) (parts kept : List Bytes)
    → all_named parts ≡ true
    → clean_parts rooted kept parts ≡ reverse_onto parts kept
unfolding clean_parts clean_part all_named
clean_parts-named rooted [] kept h = refl
clean_parts-named rooted (part ∷ parts) kept h =
    ground (arith, clean_parts-named rooted parts (part ∷ kept))

reverse_onto-twice {ℓ} :
    {A : Type ℓ} (xs ys zs : List A)
    → reverse_onto (reverse_onto xs ys) zs ≡ reverse_onto ys (xs ++ zs)
reverse_onto-twice [] ys zs = refl
reverse_onto-twice (x ∷ xs) ys zs = reverse_onto-twice xs (x ∷ ys) zs

join-onto : (b : ℕ) (parts : List Bytes) → join (onto b parts) ≡ b ∷ join parts
unfolding join
join-onto b [] = refl
join-onto b (part ∷ []) = refl
join-onto b (part ∷ next ∷ parts) = refl

onto_nonempty : (b : ℕ) (parts : List Bytes) → onto b parts ≢ []
onto_nonempty b [] e = cc
onto_nonempty b (part ∷ parts) e = cc

split_nonempty : (p : Bytes) → split p ≢ []
unfolding split
split_nonempty [] e = cc
split_nonempty (b ∷ bs) e = ground (arith, onto_nonempty b (split bs))

join-nil : (parts : List Bytes) → parts ≢ [] → join ([] ∷ parts) ≡ slash ∷ join parts
unfolding join
join-nil [] h = absurd (h refl)
join-nil (part ∷ parts) h = refl

-- Splitting and joining is the same path.
join-split : (p : Bytes) → join (split p) ≡ p
unfolding split
join-split [] = unfold join in refl
join-split (b ∷ bs) = elim (Bool-cases (b == slash)) [
  | inl e ↦
      let same : b ≡ slash = (==_iff b slash).0 e in
      rw e (
        join-nil (split bs) (split_nonempty bs)
        ∙ ap (λ t. slash ∷ t) (join-split bs)
        ∙ ap (λ c. c ∷ bs) (sym same))
  | inr n ↦ rw n (join-onto b (split bs) ∙ ap (λ t. b ∷ t) (join-split bs))
]

-- A relative path of names is its own clean path.
clean-named :
    (p : Bytes) → starts_with_slash p ≡ false → p ≢ [] → all_named (split p) ≡ true → clean p ≡ p
unfolding clean
clean-named p relative some_bytes named =
    let kept : join (reverse_onto (clean_parts false [] (split p)) []) ≡ p =
      ap (λ t. join (reverse_onto t [])) (clean_parts-named false (split p) [] named)
      ∙ ap join (reverse_onto-twice (split p) [] [] ∙ append-nil (split p))
      ∙ join-split p in
    rw (relative, kept) (ground (arith, equal_iff p [], some_bytes))

replace_all-fixed : (c d : ℕ) (p : Bytes) → contains c p ≡ false → replace_all c d p ≡ p
unfolding replace_all contains
replace_all-fixed c d [] h = refl
replace_all-fixed c d (b ∷ bs) h =
    let differs : (b == c) ≡ false = ground arith in
    rw differs (ap (λ t. b ∷ t) (replace_all-fixed c d bs (ground arith)))

dot_unnamed : (p : Bytes) → all_named (split p) ≡ true → equal p dot ≡ false
unfolding all_named split equal
dot_unnamed p named = elim (Bool-cases (equal p dot)) [
  | inr n ↦ n
  | inl e ↦
      let same : p ≡ dot = (equal_iff p dot).0 e in
      absurd (false_true (subst (λ q. all_named (split q) ≡ true) same named))
]
  where
    false_true : (false ≡ true) → ⊥
    false_true e = cc

-- Normalize leaves a canonical path as it is: one that is not empty, is valid UTF-8 without NUL and
-- backslash, is relative, and whose parts are neither empty nor "." nor "..".
pub normalize-canonical :
    (p : Bytes)
    → p ≢ []
    → valid_utf8 p ≡ true
    → contains 0 p ≡ false
    → contains backslash p ≡ false
    → starts_with_slash p ≡ false
    → all_named (split p) ≡ true
    → normalize p ≡ ok p
unfolding normalize
normalize-canonical p some_bytes utf8 no_nul no_backslash relative named =
    let nonempty : equal p [] ≡ false = ground (arith, equal_iff p []) in
    rw (
      nonempty,
      utf8,
      no_nul,
      replace_all-fixed backslash slash p no_backslash,
      clean-named p relative some_bytes named,
      dot_unnamed p named,
      nonempty,
      relative,
      named,
    )

-- What Normalize answers is not empty, is relative, has no part that is empty, "." or "..", and is
-- its own clean path.
pub normalize-clean :
    (p : Bytes) {q : Bytes}
    → normalize p ≡ ok q
    → (q ≢ []) × (starts_with_slash q ≡ false) × (all_named (split q) ≡ true) × (clean q ≡ q)
unfolding normalize
normalize-clean p {q} h =
    let c = clean (replace_all backslash slash p) in
    guard-then (not (equal p [])) invalid_path _ h λ _ h1.
      guard-then (valid_utf8 p) invalid_path _ h1 λ _ h2.
        guard-then (not (contains 0 p)) invalid_path _ h2 λ _ h3.
          guard-then (not (equal c dot || (equal c [] || starts_with_slash c))) invalid_path _ h3
            λ tests h4. guard-then (all_named (split c)) invalid_path _ h4 λ named h5.
              let relative : starts_with_slash c ≡ false = ground arith in
              let nonempty : equal c [] ≡ false = ground arith in
              let some_bytes : c ≢ [] = λ e. ground (arith, equal_iff c []) in
              subst
                (λ q.
                  (q ≢ [])
                  × (starts_with_slash q ≡ false)
                  × (all_named (split q) ≡ true)
                  × (clean q ≡ q))
                (ok-injective h5)
                (some_bytes, relative, named, clean-named c relative some_bytes named)
