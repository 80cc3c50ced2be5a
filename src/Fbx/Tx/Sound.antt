-- ===== src/Fbx/Tx/Sound.antt =====
-- What holds of the state of a transaction, and that the operations keep it.
use go_fbx.Base.{
  ℕ, ◌+◌, ◌≤◌, ◌≡◌, ◌≢◌, refl, sym, ◌∙◌, ap, subst, inl, inr, ◌⊎◌, Bool-cases, Option-cases, Bool,
  true, false, none, some, arith,
}
use go_fbx.Base.{List, [], ◌∷◌, Bytes, equal, equal_iff, Result, Result-cases}
use go_fbx.Format.Types.{EntryV1}
use go_fbx.Format.Checked.{max_uint64, saturating_add_uint64}
use go_fbx.Paths.{starts_with_slash, clean, all_named, split, normalize}
use go_fbx.Fbx.Write.{Writer}
use go_fbx.Fbx.Write.Appends.{Appends, Appends-trans}
use go_fbx.Fbx.Tx.{
  Entries, Tx, lookup, assign, erase, mark_obsolete, drop_entry, entry_stored_bytes, remove,
  remove_many_loop, remove_loop, set_meta, set_meta_loop,
}
use go_fbx.Fbx.Tx.Removal.{lookup-erase}
use go_fbx.Fbx.Tx.Many.{lookup-assign}
use go_fbx.Fbx.Tx.Insert.Answers.{Stored}

-- What Normalize answers.
abbrev pub IsNormal : Bytes → Type 0
IsNormal k = (k ≢ []) × (starts_with_slash k ≡ false) × (all_named (split k) ≡ true) × (clean k ≡ k)

-- Each entry stands once, under its own path, which is normal.
abbrev pub IsMap : Entries → Type 0
IsMap [] = Unit
IsMap (x ∷ xs) = IsNormal x.0 × (x.1.path ≡ x.0) × (lookup x.0 xs ≡ none) × IsMap xs

-- The state is one that a transaction can have which began with a writer.
pub record IsSound (start : Writer) (tx : Tx) : Type 0 where
  pub appends : Appends start tx.writer
  pub is_map : IsMap tx.entries
  pub dead_u64 : tx.dead_bytes ≤ max_uint64
  pub churn_u64 : tx.churn_ops ≤ max_uint64

assign-IsMap :
    (k : Bytes) (e : EntryV1) (es : Entries)
    → IsNormal k
    → e.path ≡ k
    → IsMap es
    → IsMap (assign k e es)
unfolding assign lookup
assign-IsMap k e [] n p h = (n, p, refl, tt)
assign-IsMap k e (x ∷ xs) n p (xn, xp, xa, h) = elim (Bool-cases (equal k x.0)) [
  | inl same ↦ rw same (n, p, rw ((equal_iff k x.0).0 same) xa, h)
  | inr other ↦ rw other (
    xn,
    xp,
    ground (arith, lookup-assign x.0 k e xs, equal_iff k x.0, equal_iff x.0 k),
    assign-IsMap k e xs n p h,
  )
]

erase-IsMap : (k : Bytes) (es : Entries) → IsMap es → IsMap (erase k es)
unfolding erase
erase-IsMap k [] h = tt
erase-IsMap k (x ∷ xs) (xn, xp, xa, h) = elim (Bool-cases (equal k x.0)) [
  | inl same ↦ rw same (erase-IsMap k xs h)
  | inr other ↦ rw other (xn, xp, ground (arith, lookup-erase x.0 k xs), erase-IsMap k xs h)
]

lookup-path :
    (k : Bytes) (es : Entries) {e : EntryV1}
    → IsMap es
    → lookup k es ≡ some e
    → (e.path ≡ k) × IsNormal k
unfolding lookup
lookup-path k [] h e = absurd (ground arith)
lookup-path k (x ∷ xs) {e} (xn, xp, xa, h) q = elim (Bool-cases (equal k x.0)) [
  | inl same ↦
      let key = (equal_iff k x.0).0 same in
      let found : e ≡ x.1 = ground arith in
      (ap (λ z. z.path) found ∙ (xp ∙ sym key), subst IsNormal (sym key) xn)
  | inr other ↦ lookup-path k xs {e = e} h (ground arith)
]

saturating-small : (a b : ℕ) → saturating_add_uint64 a b ≤ max_uint64
unfolding saturating_add_uint64
saturating-small a b = ground arith

-- `Remove` drops an entry or nothing.
remove-moves :
    (tx : Tx) (path : Bytes)
    → ((remove tx path).0 ≡ tx)
      ⊎ ((norm : Bytes) × (old : EntryV1) × ((remove tx path).0 ≡ drop_entry tx norm old))
unfolding remove
remove-moves tx path = elim (Bool-cases tx.closed) [
  | inl gone ↦ inl (ground arith)
  | inr active ↦ elim (Result-cases (normalize path)) [
    | inr (x, p) ↦ inl (ground arith)
    | inl (norm, p) ↦ elim (Option-cases (lookup norm tx.entries)) [
      | inl q ↦ inl (ground arith)
      | inr (old, q) ↦ inr (norm, old, ground arith)
    ]
  ]
]

-- `SetMeta` replaces the metadata of an entry or nothing.
pub set_meta-moves :
    (tx : Tx) (path meta : Bytes)
    → ((set_meta tx path meta).0 ≡ tx)
      ⊎ ((norm : Bytes) × (e : EntryV1) × (lookup norm tx.entries ≡ some e)
          × ((set_meta tx path meta).0
              ≡ record tx { entries = assign norm (record e { meta = meta }) tx.entries }))
unfolding set_meta
set_meta-moves tx path meta = elim (Bool-cases tx.closed) [
  | inl gone ↦ inl (ground arith)
  | inr active ↦ elim (Result-cases (normalize path)) [
    | inr (x, p) ↦ inl (ground arith)
    | inl (norm, p) ↦ elim (Option-cases (lookup norm tx.entries)) [
      | inl q ↦ inl (ground arith)
      | inr (e, q) ↦ inr (norm, e, q, ground arith)
    ]
  ]
]

module _ (start : Writer) where
  pub Stored-IsSound :
      (tx : Tx) (norm : Bytes) {tx' : Tx} {a : Result (Unit {0})}
      → IsSound start tx
      → IsNormal norm
      → Stored tx norm tx' a
      → IsSound start tx'
  Stored-IsSound tx norm {tx'} i n s = record {
    appends = Appends-trans i.appends s.appends;
    is_map = elim s.entries_are [
      | inl (x, p, same) ↦ rw same i.is_map
      | inr (e, p, path_is, assigned) ↦
          rw assigned (assign-IsMap norm e tx.entries n path_is i.is_map)
    ];
    dead_u64 = rw s.dead_bytes_is i.dead_u64;
    churn_u64 = rw s.churn_ops_is i.churn_u64;
  }

  pub mark_obsolete-IsSound :
      (tx : Tx) (e : EntryV1) → IsSound start tx → IsSound start (mark_obsolete tx e)
  unfolding mark_obsolete
  mark_obsolete-IsSound tx e i = record {
    appends = i.appends;
    is_map = i.is_map;
    dead_u64 = saturating-small tx.dead_bytes (entry_stored_bytes e);
    churn_u64 = saturating-small tx.churn_ops 1;
  }

  drop_entry-IsSound :
      (tx : Tx) (norm : Bytes) (e : EntryV1)
      → IsSound start tx
      → IsSound start (drop_entry tx norm e)
  unfolding drop_entry mark_obsolete
  drop_entry-IsSound tx norm e i =
      let m = mark_obsolete-IsSound tx e i in
      record {
        appends = i.appends;
        is_map = erase-IsMap norm tx.entries i.is_map;
        dead_u64 = m.dead_u64;
        churn_u64 = m.churn_u64;
      }

  pub remove-IsSound :
      (tx : Tx) (path : Bytes) → IsSound start tx → IsSound start (remove tx path).0
  remove-IsSound tx path i = elim (remove-moves tx path) [
    | inl same ↦ rw same i
    | inr (norm, old, moved) ↦ rw moved (drop_entry-IsSound tx norm old i)
  ]

  pub remove_many_loop-IsSound :
      (paths : List Bytes) (tx : Tx) (n : ℕ)
      → IsSound start tx
      → IsSound start (remove_many_loop paths tx n).0
  unfolding remove_many_loop
  remove_many_loop-IsSound [] tx n i = i
  remove_many_loop-IsSound (p ∷ ps) tx n i = elim (Result-cases (normalize p)) [
    | inr (x, q) ↦ rw (q, remove_many_loop) i
    | inl (norm, q) ↦ elim (Option-cases (lookup norm tx.entries)) [
      | inl t ↦ rw (q, t, remove_many_loop) (remove_many_loop-IsSound ps tx n i)
      | inr (old, t) ↦
          rw (q, t, remove_many_loop)
            (remove_many_loop-IsSound ps (drop_entry tx norm old) (n + 1)
              (drop_entry-IsSound tx norm old i))
    ]
  ]

  pub remove_loop-IsSound :
      (test : Bytes × EntryV1 → Bool) (xs : Entries) (tx : Tx) (n : ℕ)
      → IsSound start tx
      → IsSound start (remove_loop test xs tx n).0
  unfolding remove_loop
  remove_loop-IsSound test [] tx n i = i
  remove_loop-IsSound test (x ∷ xs) tx n i = elim (Bool-cases (test x)) [
    | inl holds ↦
        rw (holds, remove_loop)
          (remove_loop-IsSound test xs (drop_entry tx x.0 x.1) (n + 1)
            (drop_entry-IsSound tx x.0 x.1 i))
    | inr fails ↦ rw (fails, remove_loop) (remove_loop-IsSound test xs tx n i)
  ]

  pub meta-IsSound :
      (tx : Tx) (norm meta : Bytes) (e : EntryV1)
      → IsSound start tx
      → lookup norm tx.entries ≡ some e
      → IsSound start (record tx { entries = assign norm (record e { meta = meta }) tx.entries })
  meta-IsSound tx norm meta e i found =
      let (path_is, n) = lookup-path norm tx.entries i.is_map found in
      record {
        appends = i.appends;
        is_map = assign-IsMap norm (record e { meta = meta }) tx.entries n path_is i.is_map;
        dead_u64 = i.dead_u64;
        churn_u64 = i.churn_u64;
      }

  pub set_meta_loop-IsSound :
      (ignore : Bool) (xs : List (Bytes × Bytes)) (tx : Tx) (n m : ℕ)
      → IsSound start tx
      → IsSound start (set_meta_loop ignore xs tx n m).0
  unfolding set_meta_loop
  set_meta_loop-IsSound ignore [] tx n m i = i
  set_meta_loop-IsSound ignore (x ∷ xs) tx n m i = elim (Result-cases (normalize x.0)) [
    | inr (y, q) ↦ rw (q, set_meta_loop) i
    | inl (norm, q) ↦ elim (Option-cases (lookup norm tx.entries)) [
      | inl t ↦ elim (Bool-cases ignore) [
        | inl holds ↦ rw (q, t, holds, set_meta_loop) (set_meta_loop-IsSound true xs tx n (m + 1) i)
        | inr fails ↦ rw (q, t, fails, set_meta_loop) i
      ]
      | inr (e, t) ↦
          rw (q, t, set_meta_loop)
            (set_meta_loop-IsSound ignore xs
              (record tx { entries = assign norm (record e { meta = x.1 }) tx.entries }) (n + 1) m
              (meta-IsSound tx norm x.1 e i t))
    ]
  ]
