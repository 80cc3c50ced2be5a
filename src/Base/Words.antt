-- ===== src/Base/Words.antt =====
-- Byte lists, and encoding/binary's little-endian integers of `n` bytes.
use Prim.Native.Nat.{ℕ, zero, suc, ◌+◌, ◌*◌, ◌/◌, ◌%◌, ◌^◌, ◌<◌}
use mathlib.Core.Path.{◌≡◌, refl, ap}
use mathlib.Core.Bool.{Bool, true, false, ◌&&◌, ◌||◌}
use mathlib.Core.Logic.{◌↔◌, inl, inr}
use mathlib.Core.Option.{Option, none, some}
use mathlib.Core.List.{List, [], ◌∷◌, ◌++◌}
use native.Mathlib.Omega.{arith}
use native.Mathlib.Nat.{pow-suc}
use go_fbx.Base.Tests.{◌==◌, Option-cases}
use go_fbx.Base.Lists.{length, All}

abbrev pub Bytes : Type 0
Bytes = List ℕ

abbrev pub IsByte : ℕ → Type 0
IsByte b = b < 256

abbrev pub IsBytes : Bytes → Type 0
IsBytes = All IsByte

-- An unsigned integer of `n` bytes.
abbrev pub IsUint : ℕ → ℕ → Type 0
IsUint n v = v < 256 ^ n

-- `PutUint16/32/64`, and `binary.Write` of an integer of `n` bytes
unfoldable pub put_uint : ℕ → ℕ → Bytes
put_uint zero v = []
put_uint (suc n) v = v % 256 ∷ put_uint n (v / 256)

-- `binary.Read` of an integer of `n` bytes; `none` on a short input
unfoldable pub read_uint : ℕ → Bytes → Option (ℕ × Bytes)
read_uint zero bs = some (0, bs)
read_uint (suc n) [] = none
read_uint (suc n) (b ∷ bs) = elim (read_uint n bs) [
  | none ↦ none
  | some (v, rest) ↦ some (b + 256 * v, rest)
]

-- `io.ReadFull`, and `binary.Read` of an array of `n` bytes
unfoldable pub read_bytes : ℕ → Bytes → Option (Bytes × Bytes)
read_bytes zero bs = some ([], bs)
read_bytes (suc n) [] = none
read_bytes (suc n) (b ∷ bs) = elim (read_bytes n bs) [
  | none ↦ none
  | some (v, rest) ↦ some (b ∷ v, rest)
]

-- `LittleEndian.Uint16/32/64` of a slice
unfoldable pub uint : Bytes → ℕ
uint [] = 0
uint (b ∷ bs) = b + 256 * uint bs

-- `bytes.Equal`
unfoldable pub equal : Bytes → Bytes → Bool
equal [] [] = true
equal (x ∷ xs) (y ∷ ys) = x == y && equal xs ys
equal _ _ = false

abbrev pub member : Bytes → List Bytes → Bool
member k [] = false
member k (p ∷ ps) = equal k p || member k ps

pub equal_iff : (xs ys : Bytes) → (equal xs ys ≡ true) ↔ (xs ≡ ys)
unfolding equal
equal_iff [] [] = (λ _. refl, λ _. refl)
equal_iff [] (y ∷ ys) = (λ h. cc, λ h. cc)
equal_iff (x ∷ xs) [] = (λ h. cc, λ h. cc)
equal_iff (x ∷ xs) (y ∷ ys) =
    (λ h. ground (arith, (equal_iff xs ys).0), λ h. ground (arith, (equal_iff xs ys).1))

pub equal_refl : (xs : Bytes) → equal xs xs ≡ true
equal_refl xs = (equal_iff xs xs).1 refl

pub length-put_uint : (n v : ℕ) → length (put_uint n v) ≡ n
unfolding put_uint
length-put_uint zero v = refl
length-put_uint (suc n) v = ap suc (length-put_uint n (v / 256))

pub put_uint-IsBytes : (n v : ℕ) → IsBytes (put_uint n v)
unfolding put_uint
put_uint-IsBytes zero v = tt
put_uint-IsBytes (suc n) v = (omega arith, put_uint-IsBytes n (v / 256))

IsUint-tail : (n v : ℕ) → IsUint (suc n) v → IsUint n (v / 256)
IsUint-tail n v h = omega (arith, pow-suc 256 n)

-- An integer that fits is read back, whatever follows it.
pub read_uint-put_uint :
    (n v : ℕ) (rest : Bytes) → IsUint n v → read_uint n (put_uint n v ++ rest) ≡ some (v, rest)
unfolding put_uint read_uint
read_uint-put_uint zero v rest h = ground arith
read_uint-put_uint (suc n) v rest h =
    ground (arith, read_uint-put_uint n (v / 256) rest (IsUint-tail n v h))

pub uint-put_uint : (n v : ℕ) → IsUint n v → uint (put_uint n v) ≡ v
unfolding put_uint uint
uint-put_uint zero v h = omega arith
uint-put_uint (suc n) v h = omega (arith, uint-put_uint n (v / 256) (IsUint-tail n v h))

pub read_bytes-append :
    (n : ℕ) (bs rest : Bytes) → length bs ≡ n → read_bytes n (bs ++ rest) ≡ some (bs, rest)
unfolding read_bytes
read_bytes-append zero [] rest h = refl
read_bytes-append zero (b ∷ bs) rest h = absurd (omega arith)
read_bytes-append (suc n) [] rest h = absurd (omega arith)
read_bytes-append (suc n) (b ∷ bs) rest h =
    ground (arith, read_bytes-append n bs rest (omega arith))

pub read_bytes_all : (n : ℕ) (bs : Bytes) → length bs ≡ n → read_bytes n bs ≡ some (bs, [])
unfolding read_bytes
read_bytes_all zero [] h = refl
read_bytes_all zero (b ∷ bs) h = absurd (omega arith)
read_bytes_all (suc n) [] h = absurd (omega arith)
read_bytes_all (suc n) (b ∷ bs) h = ground (arith, read_bytes_all n bs (omega arith))

-- What is read is what stands at the front of the input.
pub read_uint-inv :
    (n : ℕ) (bs : Bytes) {v : ℕ} {rest : Bytes}
    → IsBytes bs
    → read_uint n bs ≡ some (v, rest)
    → (bs ≡ put_uint n v ++ rest) × IsUint n v × IsBytes rest
unfolding put_uint read_uint
read_uint-inv zero bs hb h = ground arith
read_uint-inv (suc n) [] hb h = cc
read_uint-inv (suc n) (b ∷ bs) hb h = elim (Option-cases (read_uint n bs)) [
  | inl e ↦ absurd (short e)
  | inr ((w, r), e) ↦ ground (arith, read_uint-inv n bs hb.1 e, pow-suc 256 n)
]
  where
    short : read_uint n bs ≡ none → ⊥
    short e = ground arith

pub read_bytes-inv :
    (n : ℕ) (bs : Bytes) {v rest : Bytes}
    → IsBytes bs
    → read_bytes n bs ≡ some (v, rest)
    → (bs ≡ v ++ rest) × (length v ≡ n) × IsBytes v × IsBytes rest
unfolding read_bytes
read_bytes-inv zero bs hb h = ground arith
read_bytes-inv (suc n) [] hb h = cc
read_bytes-inv (suc n) (b ∷ bs) hb h = elim (Option-cases (read_bytes n bs)) [
  | inl e ↦ absurd (short e)
  | inr ((w, r), e) ↦ ground (arith, read_bytes-inv n bs hb.1 e)
]
  where
    short : read_bytes n bs ≡ none → ⊥
    short e = ground arith
