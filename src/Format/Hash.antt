-- ===== src/Format/Hash.antt =====
-- internal/format/hash.go
use go_fbx.Base.{ℕ, ◌*◌, ◌%◌, ◌^◌, [], ◌∷◌, bit_xor, arith}
use go_fbx.Base.{Bytes, IsUint}

abbrev pub fnv64_offset : ℕ
fnv64_offset = 14695981039346656037

abbrev pub fnv64_prime : ℕ
fnv64_prime = 1099511628211

-- The loop over the bytes of the string, from the hash so far.
fnv1a64_loop : ℕ → Bytes → ℕ
fnv1a64_loop h [] = h
fnv1a64_loop h (b ∷ bs) = fnv1a64_loop (bit_xor h b * fnv64_prime % 2 ^ 64) bs

unfoldable pub fnv1a64 : Bytes → ℕ
unfolding fnv1a64_loop
fnv1a64 s = fnv1a64_loop fnv64_offset s

fnv1a64_loop-IsUint : (h : ℕ) (bs : Bytes) → IsUint 8 h → IsUint 8 (fnv1a64_loop h bs)
unfolding fnv1a64_loop
fnv1a64_loop-IsUint h [] p = p
fnv1a64_loop-IsUint h (b ∷ bs) p =
    fnv1a64_loop-IsUint (bit_xor h b * fnv64_prime % 2 ^ 64) bs (omega arith)

-- A hash is a uint64.
pub fnv1a64-IsUint : (s : Bytes) → IsUint 8 (fnv1a64 s)
unfolding fnv1a64
fnv1a64-IsUint s = fnv1a64_loop-IsUint fnv64_offset s (omega arith)
