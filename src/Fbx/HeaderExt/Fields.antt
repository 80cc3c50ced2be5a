-- ===== src/Fbx/HeaderExt/Fields.antt =====
-- The reserved fields do not overlap: each is read back as written, and leaves the others alone.
use go_fbx.Base.{ℕ, ◌+◌, ◌-◌, ◌≤◌, ◌≡◌, ap, ◌++◌, arith}
use go_fbx.Base.{
  slice, take, drop, length, length-append, length-take, length-drop, Bytes, IsUint, put_uint, uint,
  uint-put_uint, length-put_uint,
}
use go_fbx.Base.{
  take-drop-take_front, drop-append_back, drop-drop, take-append_front, drop-append_front,
}
use go_fbx.Format.Header.{HeaderV1}
use go_fbx.Fbx.HeaderExt.{overwrite, reserve, reserved_uint}

pub length-overwrite :
    (off : ℕ) (bs r : Bytes) → off + length bs ≤ length r → length (overwrite off bs r) ≡ length r
unfolding overwrite
length-overwrite off bs r h = simp (length-append, length-take, length-drop) (omega arith)

-- What was written over is read.
pub slice-overwrite_self :
    (off : ℕ) (bs r : Bytes)
    → off + length bs ≤ length r
    → slice off (off + length bs) (overwrite off bs r) ≡ bs
unfolding overwrite
slice-overwrite_self off bs r h =
    let front : length (take off r) ≡ off = omega (arith, length-take off r) in
    rw (drop-append_front off (take off r) (bs ++ drop (off + length bs) r) front)
      (take-append_front (off + length bs - off) bs (drop (off + length bs) r) (omega arith))

-- A field in front of it stays.
pub slice-overwrite_before :
    (i j off : ℕ) (bs r : Bytes)
    → i ≤ j
    → j ≤ off
    → off ≤ length r
    → slice i j (overwrite off bs r) ≡ slice i j r
unfolding overwrite
slice-overwrite_before i j off bs r o h k =
    take-drop-take_front (j - i) i off r (bs ++ drop (off + length bs) r) (omega arith) k

-- A field behind it stays.
pub slice-overwrite_after :
    (i j off : ℕ) (bs r : Bytes)
    → off + length bs ≤ i
    → off ≤ length r
    → slice i j (overwrite off bs r) ≡ slice i j r
unfolding overwrite
slice-overwrite_after i j off bs r h k =
    let front : length (take off r) ≡ off = omega (arith, length-take off r) in
    rw (
      drop-append_back i (take off r) (bs ++ drop (off + length bs) r) (omega arith),
      front,
      drop-append_back (i - off) bs (drop (off + length bs) r) (omega arith),
      drop-drop (off + length bs) (i - off - length bs) r,
      whole i off (length bs) h,
    )
  where
    whole : (i off n : ℕ) → off + n ≤ i → off + n + (i - off - n) ≡ i
    whole i off n h = omega arith

abbrev pub Reserved : HeaderV1 → Type 0
Reserved h = length h.reserved ≡ 56

-- A field read from a header in which a field elsewhere, or the same one, was written.
module _ (h : HeaderV1) (r : Reserved h) where
  pub reserved_uint-reserve_self :
      (off n v : ℕ)
      → off + n ≤ 56
      → IsUint n v
      → reserved_uint off n (reserve off (put_uint n v) h) ≡ v
  reserved_uint-reserve_self off n v room u =
      let same : off + n ≡ off + length (put_uint n v) = omega (arith, length-put_uint n v) in
      rw (same, slice-overwrite_self off (put_uint n v) h.reserved (omega arith))
        (uint-put_uint n v u)

  pub reserved_uint-reserve_before :
      (i n off : ℕ) (bs : Bytes)
      → i + n ≤ off
      → off ≤ 56
      → reserved_uint i n (reserve off bs h) ≡ reserved_uint i n h
  reserved_uint-reserve_before i n off bs before room =
      ap uint
        (slice-overwrite_before i (i + n) off bs h.reserved (omega arith) before (omega arith))

  pub reserved_uint-reserve_after :
      (i n off : ℕ) (bs : Bytes)
      → off + length bs ≤ i
      → off ≤ 56
      → reserved_uint i n (reserve off bs h) ≡ reserved_uint i n h
  reserved_uint-reserve_after i n off bs behind room =
      ap uint (slice-overwrite_after i (i + n) off bs h.reserved behind (omega arith))

  pub reserve-Reserved : (off : ℕ) (bs : Bytes) → off + length bs ≤ 56 → Reserved (reserve off bs h)
  reserve-Reserved off bs room = omega (arith, length-overwrite off bs h.reserved (omega arith))
