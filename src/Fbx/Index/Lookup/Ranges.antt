-- ===== src/Fbx/Index/Lookup/Ranges.antt =====
-- The ranges of an index: what they span, and in which order they stand.
use go_fbx.Base.{
  ℕ, zero, suc, ◌+◌, ◌-◌, ◌%◌, ◌^◌, ◌<◌, ◌≤◌, ◌≡◌, refl, ◌∙◌, ap, subst, Bool, true, false, not,
  ◌||◌, some, arith,
}
use go_fbx.Base.{List, [], ◌∷◌, length, take, drop, get_elem?, leb, ◌==◌, All}
use go_fbx.Base.{ok, guard-then, ok-then, need-then, invalid_dir}
use go_fbx.Format.Checked.{add_uint64}
use go_fbx.Format.DirIndex.{
  validate_rows, all_hash, DirIndexEntryV1, DirIndexHashRangeV1, DirIndexV1, validate_index,
  validate_ranges,
}

-- A range spans rows that exist, and they have its hash.
abbrev pub Spans : List DirIndexEntryV1 → DirIndexHashRangeV1 → Type 0
Spans entries range =
    (0 < range.entry_span)
    × (range.first_entry_index + range.entry_span ≤ length entries)
    × ((i : ℕ) (row : DirIndexEntryV1)
        → range.first_entry_index ≤ i
        → i < range.first_entry_index + range.entry_span
        → get_elem? entries i ≡ some row
        → row.path_hash64 ≡ range.path_hash64)

-- Each range has at least the hash of the one in front of it.
abbrev pub Ascends : ℕ → List DirIndexHashRangeV1 → Type 0
Ascends lo [] = Unit
Ascends lo (r ∷ rs) = (lo ≤ r.path_hash64) × Ascends r.path_hash64 rs

pub false_first : (n : ℕ) → false ≡ true → n ≡ 0
false_first n e = absurd (ground arith)

module _ {A : Type 0} where
  pub All-get :
      (P : A → Type 0) (xs : List A) (i : ℕ) {x : A} → All P xs → get_elem? xs i ≡ some x → P x
  All-get P [] i h e = absurd (ground arith)
  All-get P (y ∷ xs) zero h e = subst P (ground arith) h.0
  All-get P (y ∷ xs) (suc i) h e = All-get P xs i h.1 e

  pub get_elem?-drop :
      (n : ℕ) (xs : List A) (i : ℕ) → get_elem? (drop n xs) i ≡ get_elem? xs (n + i)
  get_elem?-drop zero xs i = let same : i ≡ 0 + i = omega arith in ap (λ m. get_elem? xs m) same
  get_elem?-drop (suc n) [] i = refl
  get_elem?-drop (suc n) (x ∷ xs) i =
      let same : suc (n + i) ≡ suc n + i = omega arith in
      get_elem?-drop n xs i ∙ ap (λ m. get_elem? (x ∷ xs) m) same

  pub get_elem?-take :
      (n : ℕ) (xs : List A) (i : ℕ) → i < n → get_elem? (take n xs) i ≡ get_elem? xs i
  get_elem?-take zero xs i h = absurd (omega arith)
  get_elem?-take (suc n) [] i h = refl
  get_elem?-take (suc n) (x ∷ xs) zero h = refl
  get_elem?-take (suc n) (x ∷ xs) (suc i) h = get_elem?-take n xs i (omega arith)

  pub get_elem?-take_inside :
      (n : ℕ) (xs : List A) (i : ℕ) {x : A} → get_elem? (take n xs) i ≡ some x → i < n
  get_elem?-take_inside zero xs i e = absurd (ground arith)
  get_elem?-take_inside (suc n) [] i e = absurd (ground arith)
  get_elem?-take_inside (suc n) (x ∷ xs) zero e = omega arith
  get_elem?-take_inside (suc n) (x ∷ xs) (suc i) e = omega (arith, get_elem?-take_inside n xs i e)

pub above :
    (first : Bool) (prev hash : ℕ)
    → (first ≡ true → prev ≡ 0)
    → (first || leb prev hash) ≡ true
    → prev ≤ hash
above true prev hash z h = omega (arith, z refl)
above false prev hash z h = ground arith

pub validate_ranges-Ascends :
    (entries : List DirIndexEntryV1) (ranges : List DirIndexHashRangeV1) (first : Bool) (prev : ℕ)
    {used : List (ℕ × ℕ)}
    → (first ≡ true → prev ≡ 0)
    → validate_ranges entries first prev ranges ≡ ok used
    → Ascends prev ranges
unfolding validate_ranges
validate_ranges-Ascends entries [] first prev z h = tt
validate_ranges-Ascends entries (r ∷ rs) first prev z h =
    guard-then (not (r.entry_span == 0)) invalid_dir _ h λ some_span h1.
      need-then invalid_dir (add_uint64 r.first_entry_index r.entry_span) _ h1 λ end e h2.
        guard-then (leb end (length entries)) invalid_dir _ h2 λ inside h3.
          guard-then (first || leb prev r.path_hash64) invalid_dir _ h3 λ up h4.
            guard-then
              (all_hash r.path_hash64
                (take (end % 2 ^ 32 - r.first_entry_index) (drop r.first_entry_index entries)))
              invalid_dir _ h4
              λ same h5. ok-then (validate_ranges entries false r.path_hash64 rs) _ h5 λ later h6 _.
                (
                  above first prev r.path_hash64 z up,
                  validate_ranges-Ascends entries rs false r.path_hash64 (false_first r.path_hash64)
                      h6,
                )

pub validate_index-Ascends :
    (idx : DirIndexV1) → validate_index idx ≡ ok tt → Ascends 0 idx.hash_ranges
unfolding validate_index
validate_index-Ascends idx h = ok-then (validate_rows true 0 idx.entries) _ h λ _ _ h1.
    ok-then (validate_ranges idx.entries true 0 idx.hash_ranges) _ h1
      λ used h2 _. validate_ranges-Ascends idx.entries idx.hash_ranges true 0 (λ _. refl) h2

pub Ascends-get :
    (lo : ℕ) (rs : List DirIndexHashRangeV1) (b : ℕ) {y : DirIndexHashRangeV1}
    → Ascends lo rs
    → get_elem? rs b ≡ some y
    → lo ≤ y.path_hash64
Ascends-get lo [] b h e = absurd (ground arith)
Ascends-get lo (r ∷ rs) zero {y} h e =
    let head_is : r ≡ y = ground arith in subst (λ t. lo ≤ t.path_hash64) head_is h.0
Ascends-get lo (r ∷ rs) (suc b) h e = omega (arith, h.0, Ascends-get r.path_hash64 rs b h.1 e)

pub Ascends-lower :
    (lo hi : ℕ) (rs : List DirIndexHashRangeV1) → lo ≤ hi → Ascends hi rs → Ascends lo rs
Ascends-lower lo hi [] h k = tt
Ascends-lower lo hi (r ∷ rs) h (k, ks) = (omega arith, ks)

pub Ascends-drop :
    (lo n : ℕ) (rs : List DirIndexHashRangeV1) → Ascends lo rs → Ascends lo (drop n rs)
Ascends-drop lo zero rs h = h
Ascends-drop lo (suc n) [] h = tt
Ascends-drop lo (suc n) (r ∷ rs) (a, h) =
    Ascends-lower lo r.path_hash64 (drop n rs) a (Ascends-drop r.path_hash64 n rs h)
