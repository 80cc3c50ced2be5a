-- ===== src/Format/Directory/Sort/Order.antt =====
-- The sort of the entries of a directory by their paths.
use go_fbx.Base.{◌≡◌, refl, true, false, Bool-cases, inl, inr, arith, List, [], ◌∷◌, Bytes}
use mathlib.Core.List.{Permᴰ}
use mathlib.Core.List.Permᴰ
use go_fbx.Format.Types.{EntryV1}
use go_fbx.Format.Directory.Sort.{string_lt, insert_entry, sort_entries}

string_lt-asym : (x y : Bytes) → string_lt x y ≡ true → string_lt y x ≡ false
unfolding string_lt
string_lt-asym [] [] h = refl
string_lt-asym [] (y ∷ ys) h = refl
string_lt-asym (x ∷ xs) [] h = absurd (ground arith)
string_lt-asym (x ∷ xs) (y ∷ ys) h = ground (arith, string_lt-asym xs ys)

-- The first entry does not come behind the head of the rest.
abbrev Heads : EntryV1 → List EntryV1 → Type 0
Heads a [] = Unit
Heads a (b ∷ bs) = string_lt b.path a.path ≡ false

-- No entry has a path that is less than that of the entry in front of it.
abbrev pub IsAscending : List EntryV1 → Type 0
IsAscending [] = Unit
IsAscending (a ∷ rest) = Heads a rest × IsAscending rest

insert_entry-Heads :
    (a b : EntryV1) (fs : List EntryV1)
    → string_lt a.path b.path ≡ false
    → Heads b fs
    → Heads b (insert_entry a fs)
unfolding insert_entry
insert_entry-Heads a b [] le h = le
insert_entry-Heads a b (f ∷ fs) le h = elim (Bool-cases (string_lt f.path a.path)) [
  | inl lt ↦ rw lt h
  | inr ge ↦ rw ge le
]

insert_entry-IsAscending :
    (a : EntryV1) (fs : List EntryV1) → IsAscending fs → IsAscending (insert_entry a fs)
unfolding insert_entry
insert_entry-IsAscending a [] o = (tt, tt)
insert_entry-IsAscending a (f ∷ fs) (h, o) = elim (Bool-cases (string_lt f.path a.path)) [
  | inl lt ↦ rw lt (
    insert_entry-Heads a f fs (string_lt-asym f.path a.path lt) h,
    insert_entry-IsAscending a fs o,
  )
  | inr ge ↦ rw ge (ge, (h, o))
]

insert_entry-Permᴰ : (a : EntryV1) (fs : List EntryV1) → Permᴰ (a ∷ fs) (insert_entry a fs)
unfolding insert_entry
insert_entry-Permᴰ a [] = Permᴰ.cons refl Permᴰ.nil
insert_entry-Permᴰ a (f ∷ fs) = elim (Bool-cases (string_lt f.path a.path)) [
  | inl lt ↦ rw lt (Permᴰ.trans (Permᴰ.swap refl refl) (Permᴰ.cons refl (insert_entry-Permᴰ a fs)))
  | inr ge ↦ rw ge (Permᴰ.refl (a ∷ f ∷ fs))
]

-- The sort of `EncodeDirectory` puts no entry directly behind one with a greater path, and keeps
-- each entry as often as it was there.
pub sort_entries-IsAscending :
    (es : List EntryV1) → IsAscending (sort_entries es) × Permᴰ es (sort_entries es)
unfolding sort_entries
sort_entries-IsAscending [] = (tt, Permᴰ.nil)
sort_entries-IsAscending (e ∷ es) =
    let (o, p) = sort_entries-IsAscending es in
    (
      insert_entry-IsAscending e (sort_entries es) o,
      Permᴰ.trans (Permᴰ.cons refl p) (insert_entry-Permᴰ e (sort_entries es)),
    )
