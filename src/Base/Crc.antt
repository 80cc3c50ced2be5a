-- ===== src/Base/Crc.antt =====
-- `crc32.ChecksumIEEE` of the standard library hash/crc32, bit by bit: the reflected polynomial
-- 0xedb88320, all ones before the first byte, complemented after the last.
use Prim.Native.Nat.{ℕ, zero, suc, ◌/◌, ◌%◌, ◌^◌, bit_xor}
use mathlib.Core.Path.{◌≡◌, refl}
use mathlib.Core.List.{[], ◌∷◌}
use native.Mathlib.Omega.{arith}
use go_fbx.Base.Tests.{◌==◌, if◌then◌else◌}
use go_fbx.Base.Words.{Bytes, IsUint}

-- One bit of the register.
crc_bit : ℕ → ℕ
crc_bit c = if c % 2 == 1 then bit_xor (c / 2) 0xedb8_8320 else c / 2

crc_bits : ℕ → ℕ → ℕ
crc_bits zero c = c
crc_bits (suc n) c = crc_bits n (crc_bit c)

crc_update : ℕ → Bytes → ℕ
crc_update c [] = c
crc_update c (b ∷ bs) = crc_update (crc_bits 8 (bit_xor c b)) bs

unfoldable pub checksum : Bytes → ℕ
unfolding crc_update crc_bits crc_bit
checksum bs = bit_xor (crc_update 0xffff_ffff bs) 0xffff_ffff % 2 ^ 32

-- A checksum is a uint32.
pub checksum-IsUint : (bs : Bytes) → IsUint 4 (checksum bs)
unfolding checksum
checksum-IsUint bs = omega arith

-- The check value of CRC-32: the checksum of "123456789".
checksum_check :
    checksum (0x31 ∷ 0x32 ∷ 0x33 ∷ 0x34 ∷ 0x35 ∷ 0x36 ∷ 0x37 ∷ 0x38 ∷ 0x39 ∷ []) ≡ 0xcbf4_3926
unfolding checksum
checksum_check = refl
