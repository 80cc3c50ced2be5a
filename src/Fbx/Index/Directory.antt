-- ===== src/Fbx/Index/Directory.antt =====
-- The index of a directory that `EncodeDirectory` wrote, and the lookup in it.
use go_fbx.Base.{
  ℕ, zero, suc, ◌+◌, ◌-◌, ◌^◌, ◌<◌, ◌≡◌, ◌≢◌, refl, sym, ◌∙◌, ap, subst, inl, inr, ◌⊎◌, Option,
  some, none, arith,
}
use go_fbx.Base.{
  List, [], ◌∷◌, ◌++◌, map, length, length-append, All, get_elem?, slice, take, take-append_front,
  drop-append_front, le→leb, ==_refl, ==_iff,
}
use go_fbx.Base.{
  Bytes, IsUint, put_uint, uint, uint-put_uint, equal_refl, checksum, checksum-IsUint, Result, ok,
  ok-injective,
}
use go_fbx.Format.Types.{EntryV1, DirectoryV1}
use go_fbx.Format.Header.{magic_dir, magic_end}
use go_fbx.Format.Hash.{fnv1a64}
use go_fbx.Format.Checked.{add_uint64-fits}
use go_fbx.Format.Directory.Sort.{sort_entries}
use go_fbx.Format.Directory.{directory_head, directory_footer, encode_directory}
use go_fbx.Format.Directory.Entry.{with_sizes, decode_directory_entry_at}
use go_fbx.Format.Directory.Entry.RoundTrip.{IsEntry, entry_size}
use go_fbx.Format.Directory.RoundTrip.{
  entries_bytes, entries_size, length-entries_bytes, stored, IsDirectory, sort_entries_facts,
  write_entries_ok, length-directory_head, length-directory_footer, footer_mark, footer_crc,
  footer_total, head_mark,
}
use go_fbx.Format.DirIndex.{DirIndexEntryV1, DirIndexV1}
use go_fbx.Fbx.Index.{
  validate_directory_blob_envelope, scan_rows, scan_directory_entries_for_index,
  build_dir_index_hash_ranges,
}
use go_fbx.Fbx.Index.Lookup.{find_entry_by_path_from_dir_index}
use go_fbx.Fbx.Index.Lookup.Loops.{Finds}
use go_fbx.Fbx.Index.Build.{find_entry_by_path-build}
use go_fbx.Fbx.Index.Scan.{row_of, rows_of, scan_rows-entries_bytes, rows_of-decode}

head_count :
    (count build : ℕ) (body rest : Bytes)
    → slice 4 8 (directory_head count build body ++ rest) ≡ put_uint 4 count
unfolding directory_head put_uint
head_count count build body rest = refl

head_flags :
    (count build : ℕ) (body rest : Bytes)
    → uint (slice 8 12 (directory_head count build body ++ rest)) ≡ 0
unfolding directory_head put_uint uint
head_flags count build body rest = refl

-- The envelope of a head and the footer that belongs to it.
envelope_ok :
    (count build : ℕ) (body head : Bytes)
    → head ≡ directory_head count build body
    → IsUint 4 count
    → 36 + length body < 2 ^ 64
    → (let blob = head ++ directory_footer (checksum head) (length head + 8 + 8) in
        validate_directory_blob_envelope blob (checksum head) (length blob) ≡ ok count)
unfolding validate_directory_blob_envelope
envelope_ok count build body head e cu small =
    let crc = checksum head in
    let total = length head + 8 + 8 in
    let footer = directory_footer crc total in
    let blob = head ++ footer in
    let fl = length-directory_footer crc total in
    let hl : length head ≡ 20 + length body =
      rw e (omega (arith, length-directory_head count build body)) in
    let bl : length blob ≡ length head + 16 = rw length-append (omega arith) in
    let magic : take 4 blob ≡ magic_dir =
      subst (λ h. take 4 (h ++ footer) ≡ magic_dir) (sym e) (head_mark count build body footer) in
    let counted : slice 4 8 blob ≡ put_uint 4 count =
      subst (λ h. slice 4 8 (h ++ footer) ≡ put_uint 4 count) (sym e)
        (head_count count build body footer) in
    let flags : uint (slice 8 12 blob) ≡ 0 =
      subst (λ h. uint (slice 8 12 (h ++ footer)) ≡ 0) (sym e)
        (head_flags count build body footer) in
    rw
      (
        le→leb 36 (length blob) (omega arith),
        ==_refl (length blob),
        magic,
        equal_refl magic_dir,
        drop-append_front (length blob - 16) head footer (omega arith),
        take-append_front (length blob - 16) head footer (omega arith),
        footer_mark crc total,
        equal_refl magic_end,
        footer_crc crc total (checksum-IsUint head),
        footer_total crc total (omega arith),
        (==_iff total (length blob)).1 (omega arith),
        ==_refl crc,
        flags,
        counted,
        uint-put_uint 4 count cu,
      )
      refl

-- The header of the directory, in front of the entries.
abbrev front_of : ℕ → ℕ → Bytes
front_of count build = magic_dir ++ (put_uint 4 count ++ (put_uint 4 0 ++ put_uint 8 build))

head_split :
    (count build : ℕ) (body footer : Bytes)
    → directory_head count build body ++ footer ≡ front_of count build ++ (body ++ footer)
unfolding directory_head put_uint
head_split count build body footer = refl

length-front_of : (count build : ℕ) → length (front_of count build) ≡ 20
unfolding put_uint
length-front_of count build = refl

-- The scan of what `EncodeDirectory` writes.
scan_ok :
    (es : List EntryV1) (build : ℕ) (head : Bytes)
    → head ≡ directory_head (length es) build (entries_bytes es)
    → All IsEntry es
    → IsUint 4 (length es)
    → 36 + entries_size es < 2 ^ 32
    → (let blob = head ++ directory_footer (checksum head) (length head + 8 + 8) in
        scan_directory_entries_for_index blob ≡ ok (rows_of 20 es, length es))
unfolding scan_directory_entries_for_index
scan_ok es build head e ts cu small =
    let total = length head + 8 + 8 in
    let footer = directory_footer (checksum head) total in
    let blob = head ++ footer in
    let fl = length-directory_footer (checksum head) total in
    let size = length-entries_bytes es in
    let hl : length head ≡ 20 + length (entries_bytes es) =
      rw e (omega (arith, length-directory_head (length es) build (entries_bytes es))) in
    let bl : length blob ≡ length head + 16 = rw length-append (omega arith) in
    let split : blob ≡ front_of (length es) build ++ (entries_bytes es ++ footer) =
      ap (λ h. h ++ footer) e ∙ head_split (length es) build (entries_bytes es) footer in
    let scanned : scan_rows (length es) blob 20 ≡ ok (rows_of 20 es, 20 + entries_size es) =
      subst (λ x. scan_rows (length es) x 20 ≡ ok (rows_of 20 es, 20 + entries_size es)) (sym split)
        (scan_rows-entries_bytes es (front_of (length es) build) footer 20
          (sym (length-front_of (length es) build)) ts (omega arith) (omega arith)) in
    rw
      (
        take-append_front (length blob - 16) head footer (omega arith),
        envelope_ok (length es) build (entries_bytes es) head e cu (omega arith),
        scanned,
        add_uint64-fits (20 + entries_size es) 16 (omega arith),
        (==_iff (20 + entries_size es + 16) (length blob)).1 (omega arith),
      )
      refl

get_elem?-map :
    (f : EntryV1 → EntryV1) (xs : List EntryV1) (i : ℕ) {x : EntryV1}
    → get_elem? xs i ≡ some x
    → get_elem? (map f xs) i ≡ some (f x)
get_elem?-map f [] i e = absurd (ground arith)
get_elem?-map f (y ∷ xs) zero {x} e = let same : y ≡ x = ground arith in ap (λ z. some (f z)) same
get_elem?-map f (y ∷ xs) (suc i) e = get_elem?-map f xs i e

length-rows_of : (es : List EntryV1) (off : ℕ) → length (rows_of off es) ≡ length es
length-rows_of [] off = refl
length-rows_of (e ∷ es) off = ap suc (length-rows_of es (off + entry_size e))

length-map_sizes : (es : List EntryV1) → length (map with_sizes es) ≡ length es
length-map_sizes [] = refl
length-map_sizes (e ∷ es) = ap suc (length-map_sizes es)

path-with_sizes : (e : EntryV1) → (with_sizes e).path ≡ e.path
unfolding with_sizes
path-with_sizes e = refl

row_at :
    (es : List EntryV1) (off i : ℕ) {e : EntryV1}
    → get_elem? (map with_sizes es) i ≡ some e
    → (row : DirIndexEntryV1) × (get_elem? (rows_of off es) i ≡ some row)
row_at [] off i h = absurd (ground arith)
row_at (x ∷ es) off zero h = (row_of off x, refl)
row_at (x ∷ es) off (suc i) h = row_at es (off + entry_size x) i h

-- The answer `none` means that no entry has the path, an entry is one that has the path.
abbrev pub FindsEntry : List EntryV1 → Bytes → Result (Option EntryV1) → Type 0
FindsEntry es path answer =
    ((answer ≡ ok none) × ((i : ℕ) (e : EntryV1) → get_elem? es i ≡ some e → e.path ≢ path))
    ⊎ ((e : EntryV1) × (i : ℕ) × (answer ≡ ok (some e))
        × (get_elem? es i ≡ some e)
        × (e.path ≡ path))

Finds-FindsEntry :
    (blob path : Bytes) (es : List EntryV1) (answer : Result (Option EntryV1))
    → ((i : ℕ) (row : DirIndexEntryV1)
        → get_elem? (rows_of 20 es) i ≡ some row
        → (e : EntryV1) × (get_elem? es i ≡ some e)
          × (decode_directory_entry_at blob row.dir_entry_offset row.dir_entry_size
              ≡ ok (with_sizes e))
          × (row.path_hash64 ≡ fnv1a64 e.path))
    → Finds blob path (rows_of 20 es) answer
    → FindsEntry (map with_sizes es) path answer
Finds-FindsEntry blob path es answer of (inl (is, without)) = inl (
  is,
  λ i e at.
      let (row, q) = row_at es 20 i at in
      let (e0, at0, dec, hash) = of i row q in
      let same : with_sizes e0 ≡ e = ground (arith, get_elem?-map with_sizes es i at0) in
      without i row e q (dec ∙ ap (λ z. ok z) same),
)
Finds-FindsEntry blob path es answer of (inr (e, i, row, is, at, (dec', has))) =
    let (e0, at0, dec, hash) = of i row at in
    let same : with_sizes e0 ≡ e = ok-injective (sym dec ∙ dec') in
    inr (e, i, is, get_elem?-map with_sizes es i at0 ∙ ap (λ z. some z) same, has)

-- The index of a directory: for a directory that the format can hold and that takes less than 2^32
-- bytes, `EncodeDirectory` succeeds, `scanDirectoryEntriesForIndex` succeeds on its bytes, and with
-- the ranges that `buildDirIndexHashRanges` makes of its rows `findEntryByPathFromDirIndex` answers
-- without an error for every path: an entry of the directory that has the path, completed by its
-- hash and sizes, or that there is none, where no entry of the directory has the path.
pub find_entry_by_path-encode_directory :
    (d : DirectoryV1) (idx : DirIndexV1) (path : Bytes)
    → IsDirectory d
    → 36 + entries_size d.entries < 2 ^ 32
    → (b : Bytes × ℕ) × (rows : List DirIndexEntryV1) × (encode_directory d ≡ ok b)
      × (scan_directory_entries_for_index b.0 ≡ ok (rows, length (stored d).entries))
      × FindsEntry (stored d).entries path (
          find_entry_by_path_from_dir_index b.0
            (some (record idx { entries = rows; hash_ranges = build_dir_index_hash_ranges rows }))
            path)
unfolding encode_directory
find_entry_by_path-encode_directory d idx path t small =
    let es = sort_entries d.entries in
    let f = sort_entries_facts d.entries t.all_entries in
    let head = directory_head (length es) d.build_unix (entries_bytes es) in
    let crc = checksum head in
    let footer = directory_footer crc (length head + 8 + 8) in
    let fl = length-directory_footer crc (length head + 8 + 8) in
    let blob = head ++ footer in
    let split = head_split (length es) d.build_unix (entries_bytes es) footer in
    let of : (i : ℕ) (row : DirIndexEntryV1)
        → get_elem? (rows_of 20 es) i ≡ some row
        → (e : EntryV1) × (get_elem? es i ≡ some e)
          × (decode_directory_entry_at blob row.dir_entry_offset row.dir_entry_size
              ≡ ok (with_sizes e))
          × (row.path_hash64 ≡ fnv1a64 e.path) =
      rw split λ i row q.
        rows_of-decode es (front_of (length es) d.build_unix) footer 20 i
          (sym (length-front_of (length es) d.build_unix)) (omega arith) f.0 (omega arith)
          (omega (arith, f.2)) q in
    let small_rows : length (rows_of 20 es) < 2 ^ 32 =
      omega (arith, length-rows_of es 20, f.1, t.count_u32) in
    (
      (blob, crc),
      rows_of 20 es,
      rw
          (
            t.flags_zero,
            write_entries_ok es f.0,
            le→leb 16 (length blob) (rw length-append (omega (arith, fl))),
          )
          refl,
      scan_ok es d.build_unix head refl f.0 (omega (arith, f.1, t.count_u32)) (omega (arith, f.2))
          ∙ ap (λ n. ok (rows_of 20 es, n)) (sym (length-map_sizes es)),
      Finds-FindsEntry blob path es _ of (
          find_entry_by_path-build blob path (rows_of 20 es) idx small_rows (λ i row q.
            let (e, at, dec, hash) = of i row q in
            (with_sizes e, dec, hash ∙ ap fnv1a64 (sym (path-with_sizes e))))),
    )
