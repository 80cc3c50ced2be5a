-- ===== src/Format/Checked.antt =====
-- Addition and multiplication of uint64 that report an overflow: `addUint64` and `mulUint64` of
-- internal/format/directory.go, which `addUint64Checked` and `mulUint64Checked` of
-- fbx/container.go repeat; `saturatingAddUint64` of fbx/compaction_stats.go.
use Prim.Native.Nat.{min}
use native.Mathlib.Nat.{le-div_iff_mul-le}
use go_fbx.Base.{ℕ, zero, suc, ◌+◌, ◌-◌, ◌*◌, ◌/◌, ◌%◌, ◌^◌, ◌<◌, ◌≡◌, arith}
use go_fbx.Base.{◌||◌, Option, none, some, ltb, ◌==◌, if◌then◌else◌, IsUint}

-- `^uint64(0)`
abbrev pub max_uint64 : ℕ
max_uint64 = 2 ^ 64 - 1

-- `none` is the answer `(0, false)`, `some n` is `(n, true)`.
unfoldable pub add_uint64 : ℕ → ℕ → Option ℕ
add_uint64 a b = if ltb (max_uint64 - b) a then none else some ((a + b) % 2 ^ 64)

unfoldable pub mul_uint64 : ℕ → ℕ → Option ℕ
mul_uint64 a b =
    if a == 0 || b == 0
    then some 0
    else if ltb (max_uint64 / b) a
    then none
    else some (a * b % 2 ^ 64)

unfoldable pub saturating_add_uint64 : ℕ → ℕ → ℕ
saturating_add_uint64 a b = if ltb (max_uint64 - a) b then max_uint64 else (a + b) % 2 ^ 64

pub add_uint64-fits : (a b : ℕ) → a + b < 2 ^ 64 → add_uint64 a b ≡ some (a + b)
unfolding add_uint64
add_uint64-fits a b h = ground arith

pub add_uint64-inv :
    (a b : ℕ) {s : ℕ}
    → IsUint 8 a
    → IsUint 8 b
    → add_uint64 a b ≡ some s
    → (s ≡ a + b) × (a + b < 2 ^ 64)
unfolding add_uint64
add_uint64-inv a b ha hb h = ground arith

pub mul_uint64-fits : (a b : ℕ) → a * b < 2 ^ 64 → mul_uint64 a b ≡ some (a * b)
unfolding mul_uint64
mul_uint64-fits a zero h = ground arith
mul_uint64-fits a (suc b) h =
    ground (arith, (le-div_iff_mul-le {k = suc b} {x = a} {y = max_uint64} (omega arith)).1)

-- `addUint64` on two uint64 is their sum where it fits 64 bits, and fails exactly where it does
-- not.
pub add_uint64_exact :
    (a b : ℕ)
    → IsUint 8 a
    → IsUint 8 b
    → add_uint64 a b ≡ (if ltb (a + b) (2 ^ 64) then some (a + b) else none)
unfolding add_uint64
add_uint64_exact a b ha hb = ground arith

-- `mulUint64` on two uint64 is their product where it fits 64 bits, and fails exactly where it does
-- not.
pub mul_uint64_exact :
    (a b : ℕ)
    → IsUint 8 a
    → IsUint 8 b
    → mul_uint64 a b ≡ (if ltb (a * b) (2 ^ 64) then some (a * b) else none)
unfolding mul_uint64
mul_uint64_exact a zero ha hb = ground arith
mul_uint64_exact a (suc b) ha hb =
    let k = le-div_iff_mul-le {k = suc b} {x = a} {y = max_uint64} (omega arith) in
    ground (arith, k.0, k.1)

-- `saturatingAddUint64` on two uint64 is the minimum of their sum and the largest uint64.
pub saturating_add_uint64_exact :
    (a b : ℕ) → IsUint 8 a → IsUint 8 b → saturating_add_uint64 a b ≡ min (a + b) max_uint64
unfolding saturating_add_uint64
saturating_add_uint64_exact a b ha hb = ground arith
