-- ===== src/Fbx/Index/Scan.antt =====
-- The rows that `scanDirectoryEntriesForIndex` makes of the bytes of `EncodeDirectory`.
use go_fbx.Base.{ℕ, zero, suc, ◌+◌, ◌-◌, ◌*◌, ◌^◌, ◌<◌, ◌≤◌, ◌≡◌, refl, sym, ap, subst, some, arith}
use go_fbx.Base.{
  List, [], ◌∷◌, ◌++◌, append_assoc, length, length-append, All, get_elem?, slice, le→leb,
}
use go_fbx.Base.{Bytes, put_uint, uint-put_uint, ok}
use go_fbx.Format.Types.{EntryV1}
use go_fbx.Format.Hash.{fnv1a64, fnv1a64-IsUint}
use go_fbx.Format.Checked.{add_uint64-fits, mul_uint64-fits}
use go_fbx.Format.Directory.Chunks.{chunks_bytes}
use go_fbx.Format.Directory.Entry.{with_sizes, entry_head_bytes, entry_bytes}
use go_fbx.Format.Directory.Entry.RoundTrip.{
  IsEntry, entry_size, length-entry_bytes, decode_directory_entry_at-entry_bytes, slice_middle,
  entry_bytes-parts,
}
use go_fbx.Format.Directory.RoundTrip.{entries_bytes, entries_size}
use go_fbx.Format.Directory.Entry.{decode_directory_entry_at}
use go_fbx.Format.DirIndex.{DirIndexEntryV1}
use go_fbx.Fbx.Index.{scan_row, scan_rows}

-- The row for an entry whose head stands at an offset.
abbrev pub row_of : ℕ → EntryV1 → DirIndexEntryV1
row_of off e = record {
  dir_entry_offset = off;
  dir_entry_size = entry_size e;
  path_hash64 = fnv1a64 e.path;
  path_offset = off + 44 + length e.chunks * 32 + length e.meta;
  path_size = length e.path;
}

module _ (e : EntryV1) where
  head_hash : slice 0 8 (entry_head_bytes (with_sizes e)) ≡ put_uint 8 (fnv1a64 e.path)
  unfolding entry_head_bytes with_sizes put_uint
  head_hash = refl

  head_chunks : slice 32 36 (entry_head_bytes (with_sizes e)) ≡ put_uint 4 (length e.chunks)
  unfolding entry_head_bytes with_sizes put_uint
  head_chunks = refl

  head_meta : slice 36 40 (entry_head_bytes (with_sizes e)) ≡ put_uint 4 (length e.meta)
  unfolding entry_head_bytes with_sizes put_uint
  head_meta = refl

  head_path : slice 40 44 (entry_head_bytes (with_sizes e)) ≡ put_uint 4 (length e.path)
  unfolding entry_head_bytes with_sizes put_uint
  head_path = refl

  length-entry_head_bytes : length (entry_head_bytes (with_sizes e)) ≡ 44
  unfolding entry_head_bytes with_sizes put_uint
  length-entry_head_bytes = refl

  parts :
      (front back : Bytes)
      → front ++ (entry_bytes e ++ back)
        ≡ front
          ++ (entry_head_bytes (with_sizes e)
              ++ ((chunks_bytes e.chunks ++ (e.meta ++ e.path)) ++ back))
  parts front back =
      rw
        (
          entry_bytes-parts e,
          append_assoc (entry_head_bytes (with_sizes e))
              (chunks_bytes e.chunks ++ (e.meta ++ e.path)) back,
        )
        refl

pub scan_row-entry_bytes :
    (e : EntryV1) (front back : Bytes)
    → IsEntry e
    → 16 ≤ length back
    → length front + entry_size e < 2 ^ 32
    → scan_row (front ++ (entry_bytes e ++ back)) (length front)
      ≡ ok (row_of (length front) e, length front + entry_size e)
unfolding scan_row
scan_row-entry_bytes e front back t hb small =
    let n = length e.chunks in
    let m = length e.meta in
    let p = length e.path in
    let off = length front in
    let blob = front ++ (entry_bytes e ++ back) in
    let rest = (chunks_bytes e.chunks ++ (e.meta ++ e.path)) ++ back in
    let total : length blob ≡ off + entry_size e + length back =
      rw (length-append, length-append) (omega (arith, length-entry_bytes e)) in
    let head : slice off (off + 44) blob ≡ entry_head_bytes (with_sizes e) =
      rw (parts e front back) (
        slice_middle front (entry_head_bytes (with_sizes e)) rest off (off + 44) refl
          (omega (arith, length-entry_head_bytes e))) in
    let same : 44 + n * 32 + m + p ≡ entry_size e = omega arith in
    rw
      (
        add_uint64-fits off 44 (omega arith),
        le→leb (off + 44) (length blob - 16) (omega arith),
        head,
        head_hash e,
        head_chunks e,
        head_meta e,
        head_path e,
        uint-put_uint 8 (fnv1a64 e.path) (fnv1a64-IsUint e.path),
        uint-put_uint 4 n t.chunks_u32,
        uint-put_uint 4 m t.meta_u32,
        uint-put_uint 4 p t.path_u32,
        mul_uint64-fits n 32 (omega arith),
        add_uint64-fits 44 (n * 32) (omega arith),
        add_uint64-fits (44 + n * 32) m (omega arith),
        add_uint64-fits (44 + n * 32 + m) p (omega arith),
        add_uint64-fits off (44 + n * 32 + m + p) (omega arith),
        le→leb (off + (44 + n * 32 + m + p)) (length blob - 16) (omega arith),
        add_uint64-fits (off + 44) (n * 32) (omega arith),
        add_uint64-fits (off + 44 + n * 32) m (omega arith),
        le→leb off 4294967295 (omega arith),
        le→leb (44 + n * 32 + m + p) 4294967295 (omega arith),
        le→leb (off + 44 + n * 32 + m) 4294967295 (omega arith),
      )
      (rw same refl)

abbrev pub rows_of : ℕ → List EntryV1 → List DirIndexEntryV1
rows_of off [] = []
rows_of off (e ∷ es) = row_of off e ∷ rows_of (off + entry_size e) es

-- The next entry moves to the front.
move :
    (front : Bytes) (e : EntryV1) (es : List EntryV1) (back : Bytes)
    → front ++ (entries_bytes (e ∷ es) ++ back)
      ≡ (front ++ entry_bytes e) ++ (entries_bytes es ++ back)
move front e es back =
    rw
      (
        append_assoc (entry_bytes e) (entries_bytes es) back,
        append_assoc front (entry_bytes e) (entries_bytes es ++ back),
      )
      refl

length-move :
    (front : Bytes) (e : EntryV1) (off : ℕ)
    → off ≡ length front
    → off + entry_size e ≡ length (front ++ entry_bytes e)
length-move front e off h = rw length-append (omega (arith, length-entry_bytes e))

pub scan_rows-entries_bytes :
    (es : List EntryV1) (front back : Bytes) (off : ℕ)
    → off ≡ length front
    → All IsEntry es
    → 16 ≤ length back
    → off + entries_size es < 2 ^ 32
    → scan_rows (length es) (front ++ (entries_bytes es ++ back)) off
      ≡ ok (rows_of off es, off + entries_size es)
unfolding scan_rows
scan_rows-entries_bytes [] front back off h ts hb small =
    let same : off ≡ off + 0 = omega arith in ap (λ n. ok ([], n)) same
scan_rows-entries_bytes (e ∷ es) front back off h (t, ts) hb small =
    let blob = front ++ (entries_bytes (e ∷ es) ++ back) in
    let here : scan_row blob off ≡ ok (row_of off e, off + entry_size e) =
      rw (h, append_assoc (entry_bytes e) (entries_bytes es) back)
        (scan_row-entry_bytes e front (entries_bytes es ++ back) t (rw length-append (omega arith))
          (omega arith)) in
    let later : scan_rows (length es) blob (off + entry_size e)
        ≡ ok (rows_of (off + entry_size e) es, off + entry_size e + entries_size es) =
      subst
        (λ x.
          scan_rows (length es) x (off + entry_size e)
          ≡ ok (rows_of (off + entry_size e) es, off + entry_size e + entries_size es))
        (sym (move front e es back))
        (scan_rows-entries_bytes es (front ++ entry_bytes e) back (off + entry_size e)
          (length-move front e off h) ts hb (omega arith)) in
    let total : off + entry_size e + entries_size es ≡ off + (entry_size e + entries_size es) =
      omega arith in
    rw (here, later, total) refl

-- Each row is the place of the entry with its index.
pub rows_of-decode :
    (es : List EntryV1) (front back : Bytes) (off i : ℕ) {row : DirIndexEntryV1}
    → off ≡ length front
    → 20 ≤ off
    → All IsEntry es
    → 16 ≤ length back
    → off + entries_size es < 2 ^ 32
    → get_elem? (rows_of off es) i ≡ some row
    → (e : EntryV1) × (get_elem? es i ≡ some e)
      × (decode_directory_entry_at
            (front ++ (entries_bytes es ++ back))
            row.dir_entry_offset
            row.dir_entry_size
          ≡ ok (with_sizes e))
      × (row.path_hash64 ≡ fnv1a64 e.path)
rows_of-decode [] front back off i h k ts hb small q = absurd (ground arith)
rows_of-decode (e ∷ es) front back off zero {row} h k (t, ts) hb small q =
    let is : row_of off e ≡ row = ground arith in
    (
      e,
      refl,
      subst
          (λ r.
            decode_directory_entry_at (front ++ (entries_bytes (e ∷ es) ++ back)) r.dir_entry_offset
              r.dir_entry_size
            ≡ ok (with_sizes e))
          is
          (rw (h, append_assoc (entry_bytes e) (entries_bytes es) back)
            (decode_directory_entry_at-entry_bytes e front (entries_bytes es ++ back) t
              (omega arith) (rw length-append (omega arith)) (omega arith))),
      sym (ap (λ r. r.path_hash64) is),
    )
rows_of-decode (e ∷ es) front back off (suc i) {row} h k (t, ts) hb small q =
    let (e', at, dec, hash) =
      rows_of-decode es (front ++ entry_bytes e) back (off + entry_size e) i
        (length-move front e off h) (omega arith) ts hb (omega arith) q in
    (
      e',
      at,
      subst
          (λ x.
            decode_directory_entry_at x row.dir_entry_offset row.dir_entry_size
            ≡ ok (with_sizes e'))
          (sym (move front e es back)) dec,
      hash,
    )
