-- ===== src/Fbx/Publish/Crash.antt =====
-- A commit that is cut off while it writes the slot or the header leaves a header to recover.
use go_fbx.Base.{ℕ, ◌+◌, ◌-◌, ◌^◌, ◌<◌, ◌≤◌, ◌≡◌, refl, sym, ap, ◌∙◌, subst, true, ◌⊎◌, arith}
use go_fbx.Base.{
  ◌++◌, append_assoc, append-nil, length, length-append, length-take, length-drop, take, drop,
}
use go_fbx.Base.{take-append_front, drop-append_within, drop-append_front}
use go_fbx.Base.{Bytes, IsUint, ok}
use go_fbx.File.{write_at, write_at-end, read_at-middle}
use go_fbx.Format.Types.{DirectoryV1}
use go_fbx.Format.Header.{HeaderV1, IsTyped, IsV1, header_bytes, unmarshal}
use go_fbx.Format.Header.RoundTrip.{marshal_ok, length-header_bytes, unmarshal-header_bytes}
use go_fbx.Format.Directory.{decode_directory}
use go_fbx.Fbx.HeaderExt.{header_has_fixed_backup_slot}
use go_fbx.Fbx.Region.{
  validate_header_directory, read_directory_blob_by_header, read_directory_blob_by_header-middle,
  max_directory_blob_size,
}
use go_fbx.Fbx.Journal.{
  journal_magic, backup_magic, recover_header_by_magic, recover_best_header,
  recover_header_from_fixed_backup,
}
use go_fbx.Fbx.Journal.Records.{record_bytes, length-record_bytes, build_header_record_ok}
use go_fbx.Fbx.Journal.Recovery.{recover_best_header-end}
use go_fbx.Fbx.Write.{Writer, append_at}
use go_fbx.Fbx.Publish.{append_records, write_slot, publish}

-- The directory that a header names stands in the file behind the first 256 bytes.
pub record Leads (h : HeaderV1) (file : Bytes) : Type 0 where
  pub front : Bytes
  pub blob : Bytes
  pub back : Bytes
  pub dir : DirectoryV1
  pub splits : file ≡ front ++ (blob ++ back)
  pub offset_is : h.dir_offset ≡ length front
  pub size_is : h.dir_size ≡ length blob
  pub decodes : decode_directory blob h.dir_crc32 h.dir_size ≡ ok dir
  pub behind : 256 ≤ length front
  pub front_small : length front < 2 ^ 63
  pub blob_pos : 0 < length blob
  pub blob_small : length blob ≤ max_directory_blob_size

append_at-end :
    (file bs : Bytes) (off : ℕ)
    → off ≡ length file
    → 0 < length bs
    → append_at file off bs ≡ ok (file ++ bs, off + length bs)
unfolding append_at
append_at-end file bs off e pos = ground (arith, write_at-end file bs off e)

-- The file with both records.
abbrev pub sealed : HeaderV1 → ℕ → ℕ → Bytes → Bytes
sealed h tj tb file =
    (file ++ record_bytes journal_magic (header_bytes h) tj)
    ++ record_bytes backup_magic (header_bytes h) tb

pub append_records_ok :
    (h : HeaderV1) (tj tb : ℕ) (w : Writer)
    → IsTyped h
    → w.append_offset ≡ length w.file
    → append_records h tj tb w
      ≡ ok (
        header_bytes h,
        record { file = sealed h tj tb w.file; append_offset = w.append_offset + 148 + 148 },
      )
unfolding append_records
append_records_ok h tj tb w t e =
    let hb = header_bytes h in
    let hl = length-header_bytes h t in
    let jl = length-record_bytes journal_magic hb tj refl hl in
    let bl = length-record_bytes backup_magic hb tb refl hl in
    rw (
      marshal_ok h t,
      build_header_record_ok journal_magic hb tj refl hl,
      append_at-end w.file (record_bytes journal_magic hb tj) w.append_offset e (omega arith),
      build_header_record_ok backup_magic hb tb refl hl,
      jl,
      append_at-end (w.file ++ record_bytes journal_magic hb tj) (record_bytes backup_magic hb tb)
          (w.append_offset + 148)
          (omega (arith, length-append w.file (record_bytes journal_magic hb tj))) (omega arith),
      bl,
    )

-- A directory behind the first 256 bytes does not depend on them, nor on what is appended.
pub blob_kept :
    (h : HeaderV1) (file x more : Bytes)
    → (l : Leads h file) → length x ≡ 256
    → read_directory_blob_by_header (x ++ drop 256 (file ++ more)) h ≡ ok l.blob
blob_kept h file x more l lx =
    let pad = x ++ drop 256 l.front in
    let behind = l.behind in
    let small = l.front_small in
    let pad_length : length pad ≡ length l.front =
      omega (arith, length-append x (drop 256 l.front), length-drop 256 l.front) in
    let cut : x ++ drop 256 (file ++ more) ≡ pad ++ (l.blob ++ (l.back ++ more)) =
      rw
        (
          l.splits,
          append_assoc l.front,
          append_assoc l.blob,
          drop-append_within 256 l.front (l.blob ++ (l.back ++ more)) l.behind,
        )
        (sym (append_assoc x (drop 256 l.front) (l.blob ++ (l.back ++ more)))) in
    rw cut (
      read_directory_blob_by_header-middle pad l.blob (l.back ++ more) h
        (l.offset_is ∙ sym pad_length) l.size_is (omega arith) (omega arith) l.blob_pos
        l.blob_small)

directory_kept :
    (h : HeaderV1) (file x more : Bytes)
    → Leads h file
    → length x ≡ 256
    → validate_header_directory (x ++ drop 256 (file ++ more)) h ≡ ok tt
unfolding validate_header_directory
directory_kept h file x more l lx = rw (blob_kept h file x more l lx, l.decodes) refl

pub Leads-length : (h : HeaderV1) (file : Bytes) → Leads h file → 256 ≤ length file
Leads-length h file l = let behind = l.behind in rw l.splits (rw length-append (omega arith))

-- A commit that is cut off while it writes the slot or the header can be recovered. When a valid
-- header whose directory stands in the file behind the first 256 bytes, in front of the append
-- offset, goes through the part of Commit that appends the two records, that part succeeds; and
-- whatever the first 256 bytes are from then on, `recoverBestHeader` succeeds and returns this
-- header, or the header of a journal record that is found with a later time.
pub append_records-crash :
    (h : HeaderV1) (tj tb : ℕ) (w : Writer) (x : Bytes)
    → IsTyped h
    → IsV1 h
    → IsUint 8 tb
    → w.append_offset ≡ length w.file
    → Leads h w.file
    → length x ≡ 256
    → (w' : Writer) × (append_records h tj tb w ≡ ok (header_bytes h, w'))
      × (r : HeaderV1) × (recover_best_header (x ++ drop 256 w'.file) ≡ ok r)
      × ((r ≡ h)
          ⊎ ((t : ℕ) × (recover_header_by_magic (x ++ drop 256 w'.file) journal_magic ≡ ok (r, t))
              × (tb < t)))
append_records-crash h tj tb w x typed v1 ht e l lx =
    let hb = header_bytes h in
    let jr = record_bytes journal_magic hb tj in
    let br = record_bytes backup_magic hb tb in
    let long : 256 ≤ length (w.file ++ jr) =
      omega (arith, length-append w.file jr, Leads-length h w.file l) in
    let front = x ++ drop 256 (w.file ++ jr) in
    let cut : x ++ drop 256 (sealed h tj tb w.file) ≡ front ++ br =
      rw (drop-append_within 256 (w.file ++ jr) br long)
        (sym (append_assoc x (drop 256 (w.file ++ jr)) br)) in
    let valid : validate_header_directory (front ++ br) h ≡ ok tt =
      subst (λ s. validate_header_directory s h ≡ ok tt)
        (ap (λ t. x ++ drop 256 t) (sym (append_assoc w.file jr br)) ∙ cut)
        (directory_kept h w.file x (jr ++ br) l lx) in
    let (r, found, which) = recover_best_header-end front h tb typed v1 ht valid in
    (
      record { file = sealed h tj tb w.file; append_offset = w.append_offset + 148 + 148 },
      append_records_ok h tj tb w typed e,
      r,
      rw cut found,
      rw cut which,
    )

write_at-front : (f bs : Bytes) (n : ℕ) → length bs ≡ n → write_at f 0 bs ≡ bs ++ drop n f
unfolding write_at
write_at-front f bs n e = let same : 0 + length bs ≡ n = omega arith in rw same refl

write_at-within :
    (f bs : Bytes) (off n : ℕ)
    → length bs ≡ n
    → off ≤ length f
    → write_at f off bs ≡ take off f ++ (bs ++ drop (off + n) f)
unfolding write_at
write_at-within f bs off n e room =
    let none_past : off - length f ≡ 0 = omega arith in rw (none_past, append-nil f, e) refl

published :
    (f hb : Bytes)
    → 256 ≤ length f
    → length hb ≡ 128
    → write_at (write_at f 128 hb) 0 hb ≡ (hb ++ hb) ++ drop 256 f
published f hb room lh =
    rw
      (
        write_at-front (write_at f 128 hb) hb 128 lh,
        write_at-within f hb 128 128 lh (omega arith),
        drop-append_front 128 (take 128 f) (hb ++ drop 256 f) (omega (arith, length-take 128 f)),
      )
      (sym (append_assoc hb hb (drop 256 f)))

pub publish_ok :
    (h : HeaderV1) (tj tb : ℕ) (w : Writer)
    → IsTyped h
    → w.append_offset ≡ length w.file
    → 256 ≤ length w.file
    → header_has_fixed_backup_slot h ≡ true
    → publish h tj tb w
      ≡ ok (record {
        file = (header_bytes h ++ header_bytes h) ++ drop 256 (sealed h tj tb w.file);
        append_offset = w.append_offset + 148 + 148;
      })
unfolding publish write_slot
publish_ok h tj tb w typed e room slot =
    let hb = header_bytes h in
    let jr = record_bytes journal_magic hb tj in
    let long : 256 ≤ length (sealed h tj tb w.file) = omega (
      arith,
      length-append (w.file ++ jr) (record_bytes backup_magic hb tb),
      length-append w.file jr,
    ) in
    rw (
      append_records_ok h tj tb w typed e,
      slot,
      published (sealed h tj tb w.file) hb long (length-header_bytes h typed),
    )

-- From the header that is built, valid, with the mark of the slot and with its directory in the
-- file behind the first 256 bytes, the rest of Commit succeeds: the append offset is the end of the
-- file, the first 128 bytes of the file are the header, `recoverHeaderFromFixedBackup` finds the
-- header in the slot, and it leads to its directory.
pub publish_lem :
    (h : HeaderV1) (tj tb : ℕ) (w : Writer)
    → IsTyped h
    → IsV1 h
    → w.append_offset ≡ length w.file
    → Leads h w.file
    → header_has_fixed_backup_slot h ≡ true
    → (w' : Writer) × (publish h tj tb w ≡ ok w')
      × (w'.append_offset ≡ length w'.file)
      × (unmarshal (take 128 w'.file) ≡ ok h)
      × (recover_header_from_fixed_backup w'.file ≡ ok h)
      × (validate_header_directory w'.file h ≡ ok tt)
unfolding recover_header_from_fixed_backup
publish_lem h tj tb w typed v1 e l slot =
    let hb = header_bytes h in
    let jr = record_bytes journal_magic hb tj in
    let br = record_bytes backup_magic hb tb in
    let lh = length-header_bytes h typed in
    let room = Leads-length h w.file l in
    let rest = drop 256 (sealed h tj tb w.file) in
    let file = (hb ++ hb) ++ rest in
    let valid : validate_header_directory file h ≡ ok tt =
      subst (λ t. validate_header_directory ((hb ++ hb) ++ drop 256 t) h ≡ ok tt)
        (sym (append_assoc w.file jr br))
        (directory_kept h w.file (hb ++ hb) (jr ++ br) l (omega (arith, length-append hb hb))) in
    (
      record { file = file; append_offset = w.append_offset + 148 + 148 },
      publish_ok h tj tb w typed e room slot,
      omega (
        arith,
        length-append (hb ++ hb) rest,
        length-append hb hb,
        length-drop 256 (sealed h tj tb w.file),
        length-append (w.file ++ jr) br,
        length-append w.file jr,
        length-record_bytes journal_magic hb tj refl lh,
        length-record_bytes backup_magic hb tb refl lh,
      ),
      rw (append_assoc hb hb rest, take-append_front 128 hb (hb ++ rest) lh)
          (unmarshal-header_bytes h typed v1),
      (rw (append_assoc hb hb rest) (
          rw
            (
              read_at-middle hb hb rest 128 128 (sym lh) (sym lh) (omega arith) (omega arith),
              unmarshal-header_bytes h typed v1,
            )
            (rw (← append_assoc hb hb rest) (rw valid refl)))),
      valid,
    )
