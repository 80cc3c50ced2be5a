-- ===== src/Format/Directory/Sort.antt =====
-- `sort.Slice` of the entries by path, as `EncodeDirectory` calls it: an insertion sort by the
-- order of Go's strings. On entries with different paths every sort gives this list.
pub mod Order
use go_fbx.Base.{Bool, true, false, ◌&&◌, ◌||◌, List, [], ◌∷◌, ltb, ◌==◌, if◌then◌else◌, Bytes}
use go_fbx.Format.Types.{EntryV1}

-- `a < b` on strings
unfoldable pub string_lt : Bytes → Bytes → Bool
string_lt [] [] = false
string_lt [] (y ∷ ys) = true
string_lt (x ∷ xs) [] = false
string_lt (x ∷ xs) (y ∷ ys) = ltb x y || (x == y && string_lt xs ys)

unfoldable pub insert_entry : EntryV1 → List EntryV1 → List EntryV1
insert_entry e [] = e ∷ []
insert_entry e (f ∷ fs) = if string_lt f.path e.path then f ∷ insert_entry e fs else e ∷ f ∷ fs

unfoldable pub sort_entries : List EntryV1 → List EntryV1
unfolding insert_entry string_lt
sort_entries [] = []
sort_entries (e ∷ es) = insert_entry e (sort_entries es)
