-- ===== src/Fbx/Tx/Steps.antt =====
-- A transaction as a sequence of steps: one call of an operation each, with whatever answer.
use go_fbx.Base.{ℕ, ◌≡◌, refl, inl, inr, ◌⊎◌, Bool-cases, Option-cases, Bool, Option, some, arith}
use go_fbx.Base.{List, Bytes, Result, ok, Result-cases}
use go_fbx.Format.Types.{EntryV1}
use go_fbx.Format.Codec.{Compressors}
use go_fbx.Paths.{normalize}
use go_fbx.Paths.Normal.{normalize-clean}
use go_fbx.Fbx.Options.{Options}
use go_fbx.Fbx.Write.{Writer, Source}
use go_fbx.Fbx.Write.Parallel.{ChunkResult}
use go_fbx.Fbx.Entry.{WriteOptions}
use go_fbx.Fbx.Tx.{
  Tx, EntryInfo, lookup, mark_obsolete, remove, remove_many_loop, remove_many, remove_loop, shown,
  remove_where, normalize_prefix, below, remove_prefix, set_meta, set_meta_loop, set_meta_many,
}
use go_fbx.Fbx.Tx.Insert.{put, add, upsert, replace}
use go_fbx.Fbx.Tx.Insert.Answers.{put-Stored}
use go_fbx.Fbx.Tx.Sound.{
  IsSound, Stored-IsSound, mark_obsolete-IsSound, remove-IsSound, remove_many_loop-IsSound,
  remove_loop-IsSound, set_meta-moves, meta-IsSound, set_meta_loop-IsSound,
}

-- Of a closed transaction the operations leave everything.
remove_many-moves :
    (tx : Tx) (paths : List Bytes)
    → ((remove_many tx paths).0 ≡ tx) ⊎ ((remove_many tx paths).0 ≡ (remove_many_loop paths tx 0).0)
unfolding remove_many
remove_many-moves tx paths = elim (Bool-cases tx.closed) [
  | inl gone ↦ inl (ground arith)
  | inr active ↦ inr (ground arith)
]

remove_where-moves :
    (tx : Tx) (predicate : EntryInfo → Bool)
    → ((remove_where tx predicate).0 ≡ tx)
      ⊎ ((remove_where tx predicate).0 ≡ (remove_loop (shown predicate) tx.entries tx 0).0)
unfolding remove_where
remove_where-moves tx predicate = elim (Bool-cases tx.closed) [
  | inl gone ↦ inl (ground arith)
  | inr active ↦ inr (ground arith)
]

remove_prefix-moves :
    (tx : Tx) (prefix : Bytes)
    → ((remove_prefix tx prefix).0 ≡ tx)
      ⊎ ((norm : Bytes) × ((remove_prefix tx prefix).0
            ≡ (remove_loop (below norm) tx.entries tx 0).0))
unfolding remove_prefix
remove_prefix-moves tx prefix = elim (Bool-cases tx.closed) [
  | inl gone ↦ inl (ground arith)
  | inr active ↦ elim (Result-cases (normalize_prefix prefix)) [
    | inr (x, p) ↦ inl (ground arith)
    | inl (norm, p) ↦ inr (norm, ground arith)
  ]
]

set_meta_many-moves :
    (tx : Tx) (xs : List (Bytes × Bytes)) (ignore : Bool)
    → ((set_meta_many tx xs ignore).0 ≡ tx)
      ⊎ ((set_meta_many tx xs ignore).0 ≡ (set_meta_loop ignore xs tx 0 0).0)
unfolding set_meta_many
set_meta_many-moves tx xs ignore = elim (Bool-cases tx.closed) [
  | inl gone ↦ inl (ground arith)
  | inr active ↦ inr (ground arith)
]

module _ (lib : Compressors) (opts : Options) (now : ℕ)
    (arrive : List ChunkResult → List ChunkResult) where
  -- An operation that stores an entry stops, or it stores it, with or without an old one to count.
  abbrev pub Attempt :
      Tx → Bytes → Option Source → Bytes → Option WriteOptions → Tx → Result (Unit {0}) → Type 0
  Attempt tx path r meta wopts tx' a =
      (tx' ≡ tx)
      ⊎ ((norm : Bytes) × (t : Tx) × (normalize path ≡ ok norm)
          × ((t ≡ tx) ⊎ ((old : EntryV1) × (t ≡ mark_obsolete tx old)))
          × (put lib opts now arrive t norm r meta wopts ≡ some (tx', a)))

  pub add-Attempt :
      (tx : Tx) (path : Bytes) (r : Option Source) (meta : Bytes) (wopts : Option WriteOptions)
      {tx' : Tx} {a : Result (Unit {0})}
      → add lib opts now arrive tx path r meta wopts ≡ some (tx', a)
      → Attempt tx path r meta wopts tx' a
  unfolding add
  add-Attempt tx path r meta wopts e = elim (Bool-cases tx.closed) [
    | inl gone ↦ inl (ground arith)
    | inr active ↦ elim (Result-cases (normalize path)) [
      | inr (x, p) ↦ inl (ground arith)
      | inl (norm, p) ↦ elim (Option-cases (lookup norm tx.entries)) [
        | inr (old, q) ↦ inl (ground arith)
        | inl q ↦ inr (norm, tx, p, inl refl, ground arith)
      ]
    ]
  ]

  pub upsert-Attempt :
      (tx : Tx) (path : Bytes) (r : Option Source) (meta : Bytes) (wopts : Option WriteOptions)
      {tx' : Tx} {a : Result (Unit {0})}
      → upsert lib opts now arrive tx path r meta wopts ≡ some (tx', a)
      → Attempt tx path r meta wopts tx' a
  unfolding upsert
  upsert-Attempt tx path r meta wopts e = elim (Bool-cases tx.closed) [
    | inl gone ↦ inl (ground arith)
    | inr active ↦ elim (Result-cases (normalize path)) [
      | inr (x, p) ↦ inl (ground arith)
      | inl (norm, p) ↦ elim (Option-cases (lookup norm tx.entries)) [
        | inr (old, q) ↦ inr (norm, mark_obsolete tx old, p, inr (old, refl), ground arith)
        | inl q ↦ inr (norm, tx, p, inl refl, ground arith)
      ]
    ]
  ]

  pub replace-Attempt :
      (tx : Tx) (path : Bytes) (r : Option Source) (meta : Bytes) (wopts : Option WriteOptions)
      {tx' : Tx} {a : Result (Unit {0})}
      → replace lib opts now arrive tx path r meta wopts ≡ some (tx', a)
      → Attempt tx path r meta wopts tx' a
  unfolding replace
  replace-Attempt tx path r meta wopts e = elim (Bool-cases tx.closed) [
    | inl gone ↦ inl (ground arith)
    | inr active ↦ elim (Result-cases (normalize path)) [
      | inr (x, p) ↦ inl (ground arith)
      | inl (norm, p) ↦ elim (Option-cases (lookup norm tx.entries)) [
        | inr (old, q) ↦ inr (norm, mark_obsolete tx old, p, inr (old, refl), ground arith)
        | inl q ↦ inl (ground arith)
      ]
    ]
  ]

  Attempt-IsSound :
      (start : Writer) (tx : Tx) (path : Bytes) (r : Option Source) (meta : Bytes)
      (wopts : Option WriteOptions) {tx' : Tx} {a : Result (Unit {0})}
      → IsSound start tx
      → Attempt tx path r meta wopts tx' a
      → IsSound start tx'
  Attempt-IsSound start tx path r meta wopts i (inl same) = rw same i
  Attempt-IsSound start tx path r meta wopts {tx'} {a} i (inr (norm, t, valid, from, e)) =
      let j : IsSound start t = elim from [
        | inl same ↦ rw same i
        | inr (old, marked) ↦ rw marked (mark_obsolete-IsSound start tx old i)
      ] in
      Stored-IsSound start t norm j (normalize-clean path valid)
        (put-Stored lib opts now arrive t norm r meta wopts {a = a} j.appends.offset_is e)

module _ (lib : Compressors) (opts : Options) where
  -- A call of an operation, from the state before to the state after it.
  pub data Step : Tx → Tx → Type 0 where
    adding :
        (now : ℕ) (arrive : List ChunkResult → List ChunkResult) (tx tx' : Tx) (path : Bytes)
        (r : Option Source) (meta : Bytes) (wopts : Option WriteOptions) (a : Result (Unit {0}))
        → add lib opts now arrive tx path r meta wopts ≡ some (tx', a)
        → Step tx tx'
    upserting :
        (now : ℕ) (arrive : List ChunkResult → List ChunkResult) (tx tx' : Tx) (path : Bytes)
        (r : Option Source) (meta : Bytes) (wopts : Option WriteOptions) (a : Result (Unit {0}))
        → upsert lib opts now arrive tx path r meta wopts ≡ some (tx', a)
        → Step tx tx'
    replacing :
        (now : ℕ) (arrive : List ChunkResult → List ChunkResult) (tx tx' : Tx) (path : Bytes)
        (r : Option Source) (meta : Bytes) (wopts : Option WriteOptions) (a : Result (Unit {0}))
        → replace lib opts now arrive tx path r meta wopts ≡ some (tx', a)
        → Step tx tx'
    removing : (tx : Tx) (path : Bytes) → Step tx (remove tx path).0
    removing_many : (tx : Tx) (paths : List Bytes) → Step tx (remove_many tx paths).0
    removing_prefix : (tx : Tx) (prefix : Bytes) → Step tx (remove_prefix tx prefix).0
    removing_where :
        (tx : Tx) (predicate : EntryInfo → Bool) → Step tx (remove_where tx predicate).0
    setting_meta : (tx : Tx) (path meta : Bytes) → Step tx (set_meta tx path meta).0
    setting_meta_many :
        (tx : Tx) (meta_by_path : List (Bytes × Bytes)) (ignore_missing : Bool)
        → Step tx (set_meta_many tx meta_by_path ignore_missing).0

  -- Any number of calls.
  pub data Steps : Tx → Tx → Type 0 where
    none_yet : (tx : Tx) → Steps tx tx
    one_more : (tx tx' tx'' : Tx) → Steps tx tx' → Step tx' tx'' → Steps tx tx''

  Step-IsSound : (start : Writer) (tx tx' : Tx) → Step tx tx' → IsSound start tx → IsSound start tx'
  Step-IsSound start tx tx' (adding now arrive _ _ path r meta wopts a e) i =
      Attempt-IsSound lib opts now arrive start tx path r meta wopts i
        (add-Attempt lib opts now arrive tx path r meta wopts e)
  Step-IsSound start tx tx' (upserting now arrive _ _ path r meta wopts a e) i =
      Attempt-IsSound lib opts now arrive start tx path r meta wopts i
        (upsert-Attempt lib opts now arrive tx path r meta wopts e)
  Step-IsSound start tx tx' (replacing now arrive _ _ path r meta wopts a e) i =
      Attempt-IsSound lib opts now arrive start tx path r meta wopts i
        (replace-Attempt lib opts now arrive tx path r meta wopts e)
  Step-IsSound start tx _ (removing _ path) i = remove-IsSound start tx path i
  Step-IsSound start tx _ (removing_many _ paths) i = elim (remove_many-moves tx paths) [
    | inl same ↦ rw same i
    | inr moved ↦ rw moved (remove_many_loop-IsSound start paths tx 0 i)
  ]
  Step-IsSound start tx _ (removing_prefix _ prefix) i = elim (remove_prefix-moves tx prefix) [
    | inl same ↦ rw same i
    | inr (norm, moved) ↦ rw moved (remove_loop-IsSound start (below norm) tx.entries tx 0 i)
  ]
  Step-IsSound start tx _ (removing_where _ predicate) i = elim (remove_where-moves tx predicate) [
    | inl same ↦ rw same i
    | inr moved ↦ rw moved (remove_loop-IsSound start (shown predicate) tx.entries tx 0 i)
  ]
  Step-IsSound start tx _ (setting_meta _ path meta) i = elim (set_meta-moves tx path meta) [
    | inl same ↦ rw same i
    | inr (norm, e, found, moved) ↦ rw moved (meta-IsSound start tx norm meta e i found)
  ]
  Step-IsSound start tx _ (setting_meta_many _ meta_by_path ignore_missing) i =
      elim (set_meta_many-moves tx meta_by_path ignore_missing) [
        | inl same ↦ rw same i
        | inr moved ↦ rw moved (set_meta_loop-IsSound start ignore_missing meta_by_path tx 0 0 i)
      ]

  -- For each sequence of calls of Add, Upsert, Replace, Remove, `RemoveMany`, `RemovePrefix`,
  -- `RemoveWhere`, `SetMeta` and `SetMetaMany` on a transaction, which are its calls before Commit
  -- or Rollback but for `RemoveGlob`, and with whatever answers: when it began with an append
  -- offset at the end of the file, each entry once, under its path in the form that Normalize
  -- answers, and counters that are uint64, then all of that still holds, and the bytes that the
  -- file had at the beginning are the first bytes of the file.
  pub Steps-IsSound :
      (start : Writer) (tx tx' : Tx) → IsSound start tx → Steps tx tx' → IsSound start tx'
  Steps-IsSound start tx _ i (none_yet _) = i
  Steps-IsSound start tx _ i (one_more _ tx' tx'' before last) =
      Step-IsSound start tx' tx'' last (Steps-IsSound start tx tx' i before)
