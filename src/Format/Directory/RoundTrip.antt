-- ===== src/Format/Directory/RoundTrip.antt =====
-- `DecodeDirectory` reads back what `EncodeDirectory` writes.
use go_fbx.Base.{ℕ, suc, ◌+◌, ◌-◌, ◌*◌, ◌/◌, ◌^◌, ◌<◌, ◌≤◌, ◌≡◌, refl, true, not, arith}
use go_fbx.Base.{
  List, [], ◌∷◌, ◌++◌, map, append_assoc, length, length-append, All, le→leb, ==_refl, ==_iff,
}
use go_fbx.Base.{slice, take, take_all, take-append_front, drop-append_front}
use go_fbx.Base.{
  Bytes, IsUint, put_uint, uint, uint-put_uint, equal, equal_iff, equal_refl, read_uint-put_uint,
  length-put_uint,
}
use go_fbx.Base.{read_bytes-append, checksum, checksum-IsUint, ok, Bool-cases, inl, inr}
use go_fbx.Format.Types.{EntryV1, DirectoryV1}
use go_fbx.Format.Header.{magic_dir, magic_end}
use go_fbx.Format.Directory.Sort.{sort_entries, insert_entry, string_lt}
use go_fbx.Format.Directory.Entry.{
  dir_header_size, dir_footer_size, max_int, with_sizes, entry_bytes,
}
use go_fbx.Format.Directory.Entry.RoundTrip.{
  IsEntry, entry_size, length-entry_bytes, read_entry-entry_bytes,
}
use go_fbx.Format.Directory.{
  write_entries, directory_head, directory_footer, encode_directory, read_entries, read_directory,
  decode_directory,
}

abbrev pub entries_bytes : List EntryV1 → Bytes
entries_bytes [] = []
entries_bytes (e ∷ es) = entry_bytes e ++ entries_bytes es

abbrev pub entries_size : List EntryV1 → ℕ
entries_size [] = 0
entries_size (e ∷ es) = entry_size e + entries_size es

-- What is stored of a directory: the entries in the order of their paths, with their sizes.
abbrev pub stored : DirectoryV1 → DirectoryV1
stored d = record {
  entry_count = length (sort_entries d.entries);
  flags = 0;
  build_unix = d.build_unix;
  entries = map with_sizes (sort_entries d.entries);
}

-- A directory that the format can hold.
pub record IsDirectory (d : DirectoryV1) : Type 0 where
  pub flags_zero : d.flags ≡ 0
  pub build_u64 : IsUint 8 d.build_unix
  pub count_u32 : IsUint 4 (length d.entries)
  pub all_entries : All IsEntry d.entries
  pub total_u64 : 36 + entries_size d.entries < 2 ^ 64

insert_entry_facts :
    (e : EntryV1) (es : List EntryV1)
    → IsEntry e
    → All IsEntry es
    → All IsEntry (insert_entry e es)
      × (length (insert_entry e es) ≡ suc (length es))
      × (entries_size (insert_entry e es) ≡ entry_size e + entries_size es)
unfolding insert_entry
insert_entry_facts e [] t ts = ((t, tt), refl, refl)
insert_entry_facts e (f ∷ fs) t ts = elim (Bool-cases (string_lt f.path e.path)) [
  | inl lt ↦ let r = insert_entry_facts e fs t ts.1 in rw lt ((ts.0, r.0), omega arith, omega arith)
  | inr ge ↦ rw ge ((t, ts), omega arith, omega arith)
]

pub sort_entries_facts :
    (es : List EntryV1)
    → All IsEntry es
    → All IsEntry (sort_entries es)
      × (length (sort_entries es) ≡ length es)
      × (entries_size (sort_entries es) ≡ entries_size es)
unfolding sort_entries
sort_entries_facts [] ts = (tt, refl, refl)
sort_entries_facts (e ∷ es) (t, ts) =
    let r = sort_entries_facts es ts in
    let i = insert_entry_facts e (sort_entries es) t r.0 in (i.0, omega arith, omega arith)

pub length-entries_bytes : (es : List EntryV1) → length (entries_bytes es) ≡ entries_size es
length-entries_bytes [] = refl
length-entries_bytes (e ∷ es) =
    rw length-append (omega (arith, length-entry_bytes e, length-entries_bytes es))

entries_size_bound : (es : List EntryV1) → 44 * length es ≤ entries_size es
entries_size_bound [] = omega arith
entries_size_bound (e ∷ es) = omega (arith, entries_size_bound es)

pub write_entries_ok :
    (es : List EntryV1) → All IsEntry es → write_entries es ≡ ok (entries_bytes es)
unfolding write_entries
write_entries_ok [] ts = refl
write_entries_ok (e ∷ es) (t, ts) = rw (path_test e t, write_entries_ok es ts)
  where
    path_test : (e : EntryV1) → IsEntry e → not (equal e.path []) ≡ true
    path_test e t = ground (arith, equal_iff e.path [], t.path_named)

read_entries_ok :
    (es : List EntryV1) (rest : Bytes)
    → All IsEntry es
    → dir_footer_size ≤ length rest
    → read_entries (length es) (entries_bytes es ++ rest) ≡ ok (map with_sizes es, rest)
unfolding read_entries
read_entries_ok [] rest ts room = refl
read_entries_ok (e ∷ es) rest (t, ts) room = rw (
  append_assoc (entry_bytes e),
  read_entry-entry_bytes e (entries_bytes es ++ rest) t (rw length-append (omega arith)),
  read_entries_ok es rest ts room,
)

pub length-directory_head :
    (count build : ℕ) (body : Bytes) → length (directory_head count build body) ≡ 20 + length body
unfolding directory_head
length-directory_head count build body = simp (length-append, length-put_uint) (omega arith)

pub length-directory_footer : (crc total : ℕ) → length (directory_footer crc total) ≡ 16
unfolding directory_footer
length-directory_footer crc total = simp (length-append, length-put_uint)

pub footer_mark : (crc total : ℕ) → take 4 (directory_footer crc total) ≡ magic_end
unfolding directory_footer
footer_mark crc total = refl

pub footer_crc :
    (crc total : ℕ) → IsUint 4 crc → uint (slice 4 8 (directory_footer crc total)) ≡ crc
unfolding directory_footer
footer_crc crc total h =
    rw (take-append_front 4 (put_uint 4 crc) (put_uint 8 total) (length-put_uint 4 crc))
      (uint-put_uint 4 crc h)

pub footer_total :
    (crc total : ℕ) → IsUint 8 total → uint (slice 8 16 (directory_footer crc total)) ≡ total
unfolding directory_footer
footer_total crc total h =
    rw
      (
        drop-append_front 4 (put_uint 4 crc) (put_uint 8 total) (length-put_uint 4 crc),
        take_all 8 (put_uint 8 total) (length-put_uint 8 total),
      )
      (uint-put_uint 8 total h)

pub head_mark :
    (count build : ℕ) (body rest : Bytes)
    → take 4 (directory_head count build body ++ rest) ≡ magic_dir
unfolding directory_head
head_mark count build body rest = refl

-- The number of entries passes the test against the size of the blob.
count_fits :
    (es : List EntryV1) (build : ℕ) (footer : Bytes)
    → length footer ≡ 16
    → length es
      ≤ (length (
            magic_dir
            ++ (put_uint 4 (length es)
                ++ (put_uint 4 0 ++ (put_uint 8 build ++ (entries_bytes es ++ footer)))))
          - dir_header_size
          - dir_footer_size)
        / 44
count_fits es build footer fl =
    simp (length-append, length-put_uint, length-entries_bytes es)
      (omega (arith, entries_size_bound es))

-- The reads of the header and of the entries, in front of a footer.
read_directory_ok :
    (es : List EntryV1) (build : ℕ) (footer : Bytes)
    → All IsEntry es
    → IsUint 4 (length es)
    → IsUint 8 build
    → length footer ≡ 16
    → read_directory (directory_head (length es) build (entries_bytes es) ++ footer)
      ≡ ok (record {
        entry_count = length es;
        flags = 0;
        build_unix = build;
        entries = map with_sizes es;
      })
unfolding read_directory
read_directory_ok es build footer ts cu bu fl =
    unfold directory_head in
    rw (
      append_assoc (put_uint 4 (length es)),
      append_assoc (put_uint 4 0),
      append_assoc (put_uint 8 build),
      read_bytes-append 4 magic_dir _ refl,
      read_uint-put_uint 4 (length es) _ cu,
      read_uint-put_uint 4 0 _ (omega arith),
      read_uint-put_uint 8 build _ bu,
      equal_refl magic_dir,
      le→leb (length es) max_int (omega arith),
      le→leb (length es) _ (count_fits es build footer fl),
      read_entries_ok es footer ts (omega arith),
      fl,
    )

-- The checks of the footer, on a head and the footer that belongs to it.
decode_directory_ok :
    (es : List EntryV1) (build : ℕ)
    → All IsEntry es
    → IsUint 4 (length es)
    → IsUint 8 build
    → 36 + entries_size es < 2 ^ 64
    → (head : Bytes) → head ≡ directory_head (length es) build (entries_bytes es)
    → decode_directory
        (head ++ directory_footer (checksum head) (length head + 8 + 8))
        (checksum head)
        (length (head ++ directory_footer (checksum head) (length head + 8 + 8)))
      ≡ ok (record {
        entry_count = length es;
        flags = 0;
        build_unix = build;
        entries = map with_sizes es;
      })
unfolding decode_directory
decode_directory_ok es build ts cu bu small head e =
    let crc = checksum head in
    let total = length head + 8 + 8 in
    let footer = directory_footer crc total in
    let blob = head ++ footer in
    let fl = length-directory_footer crc total in
    let hl : length head ≡ 20 + entries_size es = rw e (
      omega (
        arith,
        length-directory_head (length es) build (entries_bytes es),
        length-entries_bytes es,
      )) in
    let bl : length blob ≡ length head + 16 = rw length-append (omega arith) in
    rw
      (
        le→leb 36 (length blob) (omega arith),
        ==_refl (length blob),
        mark head e footer,
        equal_refl magic_dir,
        drop-append_front (length blob - 16) head footer (omega arith),
        take-append_front (length blob - 16) head footer (omega arith),
        footer_mark crc total,
        equal_refl magic_end,
        footer_crc crc total (checksum-IsUint head),
        footer_total crc total (omega arith),
        (==_iff total (length blob)).1 (omega arith),
        ==_refl crc,
        e,
      )
      (read_directory_ok es build _ ts cu bu (length-directory_footer _ _))
  where
    mark :
        (h : Bytes)
        → h ≡ directory_head (length es) build (entries_bytes es)
        → (r : Bytes) → take 4 (h ++ r) ≡ magic_dir
    mark h e r = rw e (head_mark (length es) build (entries_bytes es) r)

-- `EncodeDirectory` succeeds on every directory that the format can hold (flags 0, sizes that fit
-- their fields, paths that are not empty, chunks that cover the entry in order), and
-- `DecodeDirectory`, given the checksum and the size of the bytes, returns the entries sorted by
-- path and completed by their hashes and sizes.
pub decode_directory-encode_directory :
    (d : DirectoryV1)
    → IsDirectory d
    → (b : Bytes × ℕ) × (encode_directory d ≡ ok b)
      × (decode_directory b.0 b.1 (length b.0) ≡ ok (stored d))
unfolding encode_directory
decode_directory-encode_directory d t =
    let es = sort_entries d.entries in
    let f = sort_entries_facts d.entries t.all_entries in
    let head = directory_head (length es) d.build_unix (entries_bytes es) in
    let crc = checksum head in
    let blob = head ++ directory_footer crc (length head + 8 + 8) in
    (
      (blob, crc),
      rw (
        t.flags_zero,
        write_entries_ok es f.0,
        le→leb 16 (length blob)
            (rw length-append (omega (arith, length-directory_footer crc (length head + 8 + 8)))),
      ),
      decode_directory_ok es d.build_unix f.0 (omega (arith, f.1, t.count_u32)) t.build_u64
          (omega (arith, f.2, t.total_u64)) head refl,
    )
