-- ===== src/Base/Bits.antt =====
-- Flag words: `&` and `|` of a word with the low flags, as arithmetic.
use Prim.Native.Nat.{ℕ, zero, suc, ◌+◌, ◌*◌, ◌/◌, ◌%◌, ◌^◌, ◌≤◌, ◌<◌, min, max}
use Prim.Native.Nat.{bit_and, bit_or, digits, bit_and-bitwise, bit_or-bitwise}
use mathlib.Core.Path.{◌≡◌, refl, sym, ◌∙◌, ap}
use native.Mathlib.Omega.{arith}

module _ (last : ℕ → ℕ) (op : ℕ → ℕ → ℕ) where
  digits-zero : (n b : ℕ) → digits last op n zero b ≡ last b
  digits-zero zero b = refl
  digits-zero (suc n) b = refl

  -- Digits to go beyond those of the first number change nothing.
  settled : (n m a b : ℕ) → a ≤ n → a ≤ m → digits last op n a b ≡ digits last op m a b
  settled n m zero b p q = digits-zero n b ∙ sym (digits-zero m b)
  settled zero m (suc a) b p q = absurd (omega arith)
  settled (suc n) zero (suc a) b p q = absurd (omega arith)
  settled (suc n) (suc m) (suc a) b p q =
      ap (λ (t : ℕ). t * 2 + op (suc a % 2) (b % 2))
        (settled n m (suc a / 2) (b / 2) (omega arith) (omega arith))

-- One step of the digit recursion.
pub bit_and-halves : (a b : ℕ) → bit_and a b ≡ bit_and (a / 2) (b / 2) * 2 + min (a % 2) (b % 2)
bit_and-halves zero b = omega (arith, bit_and-bitwise 0 b, bit_and-bitwise 0 (b / 2))
bit_and-halves (suc a) b = omega (
  arith,
  bit_and-bitwise (suc a) b,
  bit_and-bitwise (suc a / 2) (b / 2),
  settled (λ _. 0) min a (suc a / 2) (suc a / 2) (b / 2) (omega arith) (omega arith),
)

pub bit_or-halves : (a b : ℕ) → bit_or a b ≡ bit_or (a / 2) (b / 2) * 2 + max (a % 2) (b % 2)
bit_or-halves zero b = omega (arith, bit_or-bitwise 0 b, bit_or-bitwise 0 (b / 2))
bit_or-halves (suc a) b = omega (
  arith,
  bit_or-bitwise (suc a) b,
  bit_or-bitwise (suc a / 2) (b / 2),
  settled (λ t. t) max a (suc a / 2) (suc a / 2) (b / 2) (omega arith) (omega arith),
)

and_zero : (n a : ℕ) → a ≤ n → bit_and a 0 ≡ 0
and_zero n zero h = refl
and_zero zero (suc a) h = absurd (omega arith)
and_zero (suc n) (suc a) h =
    omega (arith, bit_and-halves (suc a) 0, and_zero n (suc a / 2) (omega arith))

or_zero : (n a : ℕ) → a ≤ n → bit_or a 0 ≡ a
or_zero n zero h = refl
or_zero zero (suc a) h = absurd (omega arith)
or_zero (suc n) (suc a) h =
    omega (arith, bit_or-halves (suc a) 0, or_zero n (suc a / 2) (omega arith))

-- The four low flags of a word.
pub bit_and-fifteen : (a : ℕ) → bit_and a 15 ≡ a % 16
bit_and-fifteen a = omega (
  arith,
  bit_and-halves a 15,
  bit_and-halves (a / 2) 7,
  bit_and-halves (a / 2 / 2) 3,
  bit_and-halves (a / 2 / 2 / 2) 1,
  and_zero (a / 2 / 2 / 2 / 2) (a / 2 / 2 / 2 / 2) (omega arith),
)

pub bit_and-flag :
    (a : ℕ)
    → (bit_and a 1 ≡ a % 2)
      × (bit_and a 2 ≡ a / 2 % 2 * 2)
      × (bit_and a 4 ≡ a / 4 % 2 * 4)
      × (bit_and a 8 ≡ a / 8 % 2 * 8)
bit_and-flag a =
    let z = and_zero (a / 2) (a / 2) (omega arith) in
    let one = bit_and-halves a 1 in
    let z2 = and_zero (a / 2 / 2) (a / 2 / 2) (omega arith) in
    let z4 = and_zero (a / 2 / 2 / 2) (a / 2 / 2 / 2) (omega arith) in
    let z8 = and_zero (a / 2 / 2 / 2 / 2) (a / 2 / 2 / 2 / 2) (omega arith) in
    (
      omega (arith, one, z),
      omega (arith, bit_and-halves a 2, bit_and-halves (a / 2) 1, z2),
      omega (arith, bit_and-halves a 4, bit_and-halves (a / 2) 2, bit_and-halves (a / 2 / 2) 1, z4),
      omega (
        arith,
        bit_and-halves a 8,
        bit_and-halves (a / 2) 4,
        bit_and-halves (a / 2 / 2) 2,
        bit_and-halves (a / 2 / 2 / 2) 1,
        z8,
      ),
    )

-- Setting a flag adds it if it is not there.
pub bit_or-flag :
    (a : ℕ)
    → (bit_or a 1 ≡ a / 2 * 2 + 1)
      × (bit_or a 2 ≡ a / 4 * 4 + 2 + a % 2)
      × (bit_or a 4 ≡ a / 8 * 8 + 4 + a % 4)
      × (bit_or a 8 ≡ a / 16 * 16 + 8 + a % 8)
bit_or-flag a =
    let z = or_zero (a / 2) (a / 2) (omega arith) in
    let z2 = or_zero (a / 2 / 2) (a / 2 / 2) (omega arith) in
    let z4 = or_zero (a / 2 / 2 / 2) (a / 2 / 2 / 2) (omega arith) in
    let z8 = or_zero (a / 2 / 2 / 2 / 2) (a / 2 / 2 / 2 / 2) (omega arith) in
    (
      omega (arith, bit_or-halves a 1, z),
      omega (arith, bit_or-halves a 2, bit_or-halves (a / 2) 1, z2),
      omega (arith, bit_or-halves a 4, bit_or-halves (a / 2) 2, bit_or-halves (a / 2 / 2) 1, z4),
      omega (
        arith,
        bit_or-halves a 8,
        bit_or-halves (a / 2) 4,
        bit_or-halves (a / 2 / 2) 2,
        bit_or-halves (a / 2 / 2 / 2) 1,
        z8,
      ),
    )

-- After all four flags are set they are all found.
pub all_flags : (f : ℕ) → bit_and (bit_or (bit_or (bit_or (bit_or f 1) 2) 4) 8) 15 ≡ 15
all_flags f =
    let a = bit_or f 1 in
    let b = bit_or a 2 in
    let c = bit_or b 4 in
    omega (
      arith,
      bit_and-fifteen (bit_or c 8),
      (bit_or-flag f).0,
      (bit_or-flag a).1,
      (bit_or-flag b).2,
      (bit_or-flag c).3,
    )

pub bit_or-flag-bound : (f : ℕ) → f < 2 ^ 32 → bit_or (bit_or (bit_or (bit_or f 1) 2) 4) 8 < 2 ^ 32
bit_or-flag-bound f h =
    let a = bit_or f 1 in
    let b = bit_or a 2 in
    let c = bit_or b 4 in
    omega (arith, (bit_or-flag f).0, (bit_or-flag a).1, (bit_or-flag b).2, (bit_or-flag c).3)
