-- ===== src/File.antt =====
-- The open file of a container as its bytes: `ReadAt` and `WriteAt` of the standard library's os
-- package, which every component uses. Errors of the device are not modelled.
use go_fbx.Base.{
  ℕ, ◌+◌, ◌-◌, ◌^◌, ◌<◌, ◌≤◌, ◌≡◌, sym, [], ◌++◌, append-nil, ltb, leb, ◌==◌, if◌then◌else◌, arith,
}
use go_fbx.Base.{
  length, length-append, slice, take, drop, replicate, take-append_front, drop-append_front,
}
use go_fbx.Base.{Bytes, Result, ok, err, eof, read_error, drop_past}

-- `ReadAt` of `n` bytes at `int64(off)`: a short read is an error, and so is an offset that is
-- negative as an int64.
unfoldable pub read_at : Bytes → ℕ → ℕ → Result Bytes
read_at f off n =
    if n == 0
    then ok []
    else if ltb off (2 ^ 63)
    then if leb (off + n) (length f) then ok (slice off (off + n) f) else err eof
    else err read_error

-- `WriteAt`: a gap behind the end is filled with zeros.
unfoldable pub write_at : Bytes → ℕ → Bytes → Bytes
write_at f off bs = take off (f ++ replicate (off - length f) 0) ++ (bs ++ drop (off + length bs) f)

slice_middle :
    (front mid back : Bytes) (off n : ℕ)
    → off ≡ length front
    → n ≡ length mid
    → slice off (off + n) (front ++ (mid ++ back)) ≡ mid
slice_middle front mid back off n ho hn =
    rw (drop-append_front off front (mid ++ back) (sym ho))
      (take-append_front (off + n - off) mid back (omega arith))

no_gap : (f : Bytes) (off : ℕ) → off ≡ length f → replicate {A = ℕ} (off - length f) 0 ≡ []
no_gap f off h = rw (zero_diff off (length f) (omega arith))
  where
    zero_diff : (a b : ℕ) → a ≤ b → a - b ≡ 0
    zero_diff a b k = omega arith

-- What stands at an offset is what is read there.
pub read_at-middle :
    (front mid back : Bytes) (off n : ℕ)
    → off ≡ length front
    → n ≡ length mid
    → 0 < n
    → off < 2 ^ 63
    → read_at (front ++ (mid ++ back)) off n ≡ ok mid
unfolding read_at
read_at-middle front mid back off n ho hn pos small =
    let room : off + n ≤ length (front ++ (mid ++ back)) =
      rw (length-append, length-append) (omega arith) in
    ground (arith, slice_middle front mid back off n ho hn)

-- A write at the end of the file appends.
pub write_at-end : (f bs : Bytes) (off : ℕ) → off ≡ length f → write_at f off bs ≡ f ++ bs
unfolding write_at
write_at-end f bs off h = rw (
  no_gap f off h,
  take-append_front off f [] (sym h),
  drop_past (off + length bs) f (omega arith),
  append-nil,
)
