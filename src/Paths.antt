-- ===== src/Paths.antt =====
-- internal/pathutil/path.go: the canonical path of an entry. A string is its bytes.
pub mod Normal
use go_fbx.Base.{ℕ, zero, suc, Bool, true, false, not, ◌&&◌, ◌||◌, Option, none, some}
use go_fbx.Base.{List, [], ◌∷◌, ◌++◌, map, length, ltb, leb, ◌==◌, if◌then◌else◌, Bytes, equal}
use go_fbx.Base.{Result, ok, err, ◌>>=◌, ◌>>◌, guard, invalid_path}

-- '/'
abbrev pub slash : ℕ
slash = 0x2f

-- '\\'
abbrev pub backslash : ℕ
backslash = 0x5c

-- "."
abbrev pub dot : Bytes
dot = 0x2e ∷ []

-- ".."
abbrev pub dot_dot : Bytes
dot_dot = 0x2e ∷ 0x2e ∷ []

-- What follows a first byte of UTF-8: how many bytes, and the range of the next one.
utf8_follow : ℕ → Option (ℕ × ℕ × ℕ)
utf8_follow b =
    if ltb b 0x80
    then some (0, 0x80, 0xbf)
    else if ltb b 0xc2
    then none
    else if ltb b 0xe0
    then some (1, 0x80, 0xbf)
    else if b == 0xe0
    then some (2, 0xa0, 0xbf)
    else if b == 0xed
    then some (2, 0x80, 0x9f)
    else if ltb b 0xf0
    then some (2, 0x80, 0xbf)
    else if b == 0xf0
    then some (3, 0x90, 0xbf)
    else if ltb b 0xf4
    then some (3, 0x80, 0xbf)
    else if b == 0xf4
    then some (3, 0x80, 0x8f)
    else none

-- With `n` bytes of a character to come, the next of them from `lo` to `hi`.
utf8_from : ℕ → ℕ → ℕ → Bytes → Bool
unfolding utf8_follow
utf8_from zero lo hi [] = true
utf8_from (suc n) lo hi [] = false
utf8_from zero lo hi (b ∷ bs) = elim (utf8_follow b) [
  | none ↦ false
  | some f ↦ utf8_from f.0 f.1 f.2 bs
]
utf8_from (suc n) lo hi (b ∷ bs) = leb lo b && (leb b hi && utf8_from n 0x80 0xbf bs)

-- `utf8.ValidString`
unfoldable pub valid_utf8 : Bytes → Bool
unfolding utf8_from
valid_utf8 p = utf8_from 0 0x80 0xbf p

-- `strings.ContainsRune` of a character of one byte
unfoldable pub contains : ℕ → Bytes → Bool
contains c [] = false
contains c (b ∷ bs) = b == c || contains c bs

-- `strings.ReplaceAll` of one byte by another
unfoldable pub replace_all : ℕ → ℕ → Bytes → Bytes
replace_all c d [] = []
replace_all c d (b ∷ bs) = (if b == c then d else b) ∷ replace_all c d bs

-- A byte in front of the first part.
abbrev pub onto : ℕ → List Bytes → List Bytes
onto b [] = (b ∷ []) ∷ []
onto b (part ∷ parts) = (b ∷ part) ∷ parts

-- `strings.Split` at "/"
unfoldable pub split : Bytes → List Bytes
split [] = [] ∷ []
split (b ∷ bs) = if b == slash then [] ∷ split bs else onto b (split bs)

-- The parts with "/" between them.
unfoldable pub join : List Bytes → Bytes
join [] = []
join (part ∷ []) = part
join (part ∷ next ∷ parts) = part ++ slash ∷ join (next ∷ parts)

-- One part in the loop of `path.Clean`, on the parts kept so far, the last one first.
unfoldable pub clean_part : Bool → List Bytes → Bytes → List Bytes
clean_part rooted kept part =
    if equal part [] || equal part dot
    then kept
    else if equal part dot_dot
    then elim kept [
      | [] ↦ if rooted then [] else dot_dot ∷ []
      | last ∷ before ↦ if equal last dot_dot then dot_dot ∷ last ∷ before else before
    ]
    else part ∷ kept

unfoldable pub clean_parts : Bool → List Bytes → List Bytes → List Bytes
unfolding clean_part
clean_parts rooted kept [] = kept
clean_parts rooted kept (part ∷ parts) = clean_parts rooted (clean_part rooted kept part) parts

abbrev pub reverse_onto {ℓ} : {A : Type ℓ} → List A → List A → List A
reverse_onto [] ys = ys
reverse_onto (x ∷ xs) ys = reverse_onto xs (x ∷ ys)

unfoldable pub starts_with_slash : Bytes → Bool
starts_with_slash [] = false
starts_with_slash (b ∷ bs) = b == slash

-- `path.Clean` of the standard library
unfoldable pub clean : Bytes → Bytes
clean p =
    let kept = join (reverse_onto (clean_parts (starts_with_slash p) [] (split p)) []) in
    if starts_with_slash p then slash ∷ kept else if equal kept [] then dot else kept

-- `part == "" || part == "." || part == ".."`, negated, for every part
unfoldable pub all_named : List Bytes → Bool
all_named [] = true
all_named (part ∷ parts) =
    not (equal part [] || (equal part dot || equal part dot_dot)) && all_named parts

-- `Normalize`
unfoldable pub normalize : Bytes → Result Bytes
normalize p = do
  guard (not (equal p [])) invalid_path
  guard (valid_utf8 p) invalid_path
  guard (not (contains 0 p)) invalid_path
  let q = clean (replace_all backslash slash p)
  guard (not (equal q dot || (equal q [] || starts_with_slash q))) invalid_path
  guard (all_named (split q)) invalid_path
  ok q
