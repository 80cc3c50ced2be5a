-- ===== src/Fbx/Seal/Reads.antt =====
-- What is read of a header that `Commit` built.
use go_fbx.Base.{ℕ, ◌+◌, ◌≤◌, ◌≡◌, ◌∙◌, IsUint, put_uint, length-put_uint, arith, [], ◌∷◌}
use go_fbx.Format.Header.{HeaderV1}
use go_fbx.Fbx.HeaderExt.{reserve, reserved_uint}
use go_fbx.Fbx.HeaderExt.Fields.{
  Reserved, reserve-Reserved, reserved_uint-reserve_self, reserved_uint-reserve_before,
  reserved_uint-reserve_after,
}
use go_fbx.Fbx.Seal.{Pieces}

-- Writing an integer of `n` bytes is a write of `n` bytes.
abbrev pub reserve_uint : ℕ → ℕ → ℕ → HeaderV1 → HeaderV1
reserve_uint off n v h = reserve off (put_uint n v) h

module _ (h : HeaderV1) (r : Reserved h) where
  pub keeps : (off n v : ℕ) → off + n ≤ 56 → Reserved (reserve_uint off n v h)
  keeps off n v room = reserve-Reserved h r off (put_uint n v) (omega (arith, length-put_uint n v))

  pub before :
      (i k off n v : ℕ)
      → i + k ≤ off
      → off ≤ 56
      → reserved_uint i k (reserve_uint off n v h) ≡ reserved_uint i k h
  before i k off n v p q = reserved_uint-reserve_before h r i k off (put_uint n v) p q

  pub after :
      (i k off n v : ℕ)
      → off + n ≤ i
      → off ≤ 56
      → reserved_uint i k (reserve_uint off n v h) ≡ reserved_uint i k h
  after i k off n v p q =
      reserved_uint-reserve_after h r i k off (put_uint n v) (omega (arith, length-put_uint n v)) q

-- The header after each write of `place`.
module _ (h : HeaderV1) (r : Reserved h) (g : ℕ) (p : Pieces) where
  abbrev pub marked : HeaderV1
  marked = reserve 1 (0 ∷ []) (reserve 0 (2 ∷ []) h)

  abbrev pub with_generation : HeaderV1
  with_generation = reserve_uint 24 8 g marked

  abbrev pub with_offset : HeaderV1
  with_offset = reserve_uint 32 8 p.index.offset with_generation

  abbrev pub with_size : HeaderV1
  with_size = reserve_uint 40 8 p.index.size with_offset

  abbrev pub with_crc : HeaderV1
  with_crc = reserve_uint 48 4 p.index.crc32 with_size

  abbrev pub with_features : HeaderV1
  with_features = reserve_uint 52 4 15 with_crc

  marked-Reserved : Reserved marked
  marked-Reserved =
      reserve-Reserved (reserve 0 (2 ∷ []) h) (reserve-Reserved h r 0 (2 ∷ []) (omega arith)) 1
        (0 ∷ []) (omega arith)

  generation-Reserved : Reserved with_generation
  generation-Reserved = keeps marked marked-Reserved 24 8 g (omega arith)

  offset-Reserved : Reserved with_offset
  offset-Reserved = keeps with_generation generation-Reserved 32 8 p.index.offset (omega arith)

  size-Reserved : Reserved with_size
  size-Reserved = keeps with_offset offset-Reserved 40 8 p.index.size (omega arith)

  crc-Reserved : Reserved with_crc
  crc-Reserved = keeps with_size size-Reserved 48 4 p.index.crc32 (omega arith)

  pub features-Reserved : Reserved with_features
  features-Reserved = keeps with_crc crc-Reserved 52 4 15 (omega arith)

  pub features_read : reserved_uint 52 4 with_features ≡ 15
  features_read =
      reserved_uint-reserve_self with_crc crc-Reserved 52 4 15 (omega arith) (omega arith)

  pub crc_read : IsUint 4 p.index.crc32 → reserved_uint 48 4 with_features ≡ p.index.crc32
  crc_read u =
      before with_crc crc-Reserved 48 4 52 4 15 (omega arith) (omega arith)
      ∙ reserved_uint-reserve_self with_size size-Reserved 48 4 p.index.crc32 (omega arith) u

  pub size_read : IsUint 8 p.index.size → reserved_uint 40 8 with_features ≡ p.index.size
  size_read u =
      before with_crc crc-Reserved 40 8 52 4 15 (omega arith) (omega arith)
      ∙ before with_size size-Reserved 40 8 48 4 p.index.crc32 (omega arith) (omega arith)
      ∙ reserved_uint-reserve_self with_offset offset-Reserved 40 8 p.index.size (omega arith) u

  -- Everything in front of the pointer to the index.
  front_read :
      (i k : ℕ) → i + k ≤ 32 → reserved_uint i k with_features ≡ reserved_uint i k with_generation
  front_read i k room =
      before with_crc crc-Reserved i k 52 4 15 (omega arith) (omega arith)
      ∙ before with_size size-Reserved i k 48 4 p.index.crc32 (omega arith) (omega arith)
      ∙ before with_offset offset-Reserved i k 40 8 p.index.size (omega arith) (omega arith)
      ∙ before with_generation generation-Reserved i k 32 8 p.index.offset (omega arith)
          (omega arith)

  pub offset_read : IsUint 8 p.index.offset → reserved_uint 32 8 with_features ≡ p.index.offset
  offset_read u =
      before with_crc crc-Reserved 32 8 52 4 15 (omega arith) (omega arith)
      ∙ before with_size size-Reserved 32 8 48 4 p.index.crc32 (omega arith) (omega arith)
      ∙ before with_offset offset-Reserved 32 8 40 8 p.index.size (omega arith) (omega arith)
      ∙ reserved_uint-reserve_self with_generation generation-Reserved 32 8 p.index.offset
          (omega arith) u

  pub generation_read : IsUint 8 g → reserved_uint 24 8 with_features ≡ g
  generation_read u =
      front_read 24 8 (omega arith)
      ∙ reserved_uint-reserve_self marked marked-Reserved 24 8 g (omega arith) u

  -- The counters stand between the marks and the generation.
  pub stats_read :
      (i : ℕ) → 2 ≤ i → i + 8 ≤ 24 → reserved_uint i 8 with_features ≡ reserved_uint i 8 h
  stats_read i lo hi =
      front_read i 8 (omega arith)
      ∙ before marked marked-Reserved i 8 24 8 g (omega arith) (omega arith)
      ∙ reserved_uint-reserve_after (reserve 0 (2 ∷ []) h)
          (reserve-Reserved h r 0 (2 ∷ []) (omega arith)) i 8 1 (0 ∷ []) (omega arith) (omega arith)
      ∙ reserved_uint-reserve_after h r i 8 0 (2 ∷ []) (omega arith) (omega arith)

  -- The layout marks.
  pub marks_read : (reserved_uint 0 1 with_features ≡ 2) × (reserved_uint 1 1 with_features ≡ 0)
  unfolding put_uint
  marks_read =
      let h0 = reserve 0 (2 ∷ []) h in
      let r0 = reserve-Reserved h r 0 (2 ∷ []) (omega arith) in
      (
        front_read 0 1 (omega arith)
            ∙ before marked marked-Reserved 0 1 24 8 g (omega arith) (omega arith)
            ∙ reserved_uint-reserve_before h0 r0 0 1 1 (0 ∷ []) (omega arith) (omega arith)
            ∙ reserved_uint-reserve_self h r 0 1 2 (omega arith) (omega arith),
        front_read 1 1 (omega arith)
            ∙ before marked marked-Reserved 1 1 24 8 g (omega arith) (omega arith)
            ∙ reserved_uint-reserve_self h0 r0 1 1 0 (omega arith) (omega arith),
      )
