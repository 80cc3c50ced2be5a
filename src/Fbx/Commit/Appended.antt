-- ===== src/Fbx/Commit/Appended.antt =====
-- What the calls of `appendAt` in `Tx.Commit` of fbx/tx.go leave.
use go_fbx.Base.{
  ℕ, ◌+◌, ◌<◌, ◌≤◌, ◌≡◌, sym, subst, inl, inr, arith, ◌++◌, length, length-append, Bytes, IsUint,
  checksum-IsUint, Result-cases, ok, ok-injective, ◌∙◌,
}
use go_fbx.File.{write_at-end}
use go_fbx.Format.Types.{DirectoryV1}
use go_fbx.Format.Header.{HeaderV1, marshal}
use go_fbx.Format.Directory.{encode_directory, decode_directory, write_entries, directory_head}
use go_fbx.Format.Directory.Sort.{sort_entries}
use go_fbx.Format.Directory.RoundTrip.{IsDirectory, stored, decode_directory-encode_directory}
use go_fbx.Fbx.Journal.{build_journal_record, build_backup_record}
use go_fbx.Fbx.Write.{Writer, append_at}
use go_fbx.Fbx.Tx.{Entries}
use go_fbx.Fbx.Publish.{append_records, publish}
use go_fbx.Fbx.Commit.{directory_of}

-- Bytes were appended at the end of the file.
pub record Extends (w w' : Writer) (bs : Bytes) : Type 0 where
  pub some_bytes : 0 < length bs
  pub file_is : w'.file ≡ w.file ++ bs
  pub offset_is : w'.append_offset ≡ w.append_offset + length bs

pub append_at-Extends :
    (w : Writer) (bs file : Bytes) (off : ℕ)
    → w.append_offset ≡ length w.file
    → append_at w.file w.append_offset bs ≡ ok (file, off)
    → Extends w (record { file = file; append_offset = off }) bs
unfolding append_at
append_at-Extends w bs file off e h = record {
  some_bytes = ground arith;
  file_is = ground (arith, write_at-end w.file bs w.append_offset e);
  offset_is = ground arith;
}

encode_directory-crc : (d : DirectoryV1) {b : Bytes × ℕ} → encode_directory d ≡ ok b → IsUint 4 b.1
unfolding encode_directory
encode_directory-crc d {b} h = elim (Result-cases (write_entries (sort_entries d.entries))) [
  | inr (x, q) ↦ absurd (ground arith)
  | inl (body, q) ↦
      let head = directory_head (length (sort_entries d.entries)) d.build_unix body in
      ground (arith, checksum-IsUint head)
]

pub encode_directory-Extends :
    (build : ℕ) (entries : Entries) (w : Writer) {b : Bytes × ℕ} {file : Bytes} {off : ℕ}
    → IsDirectory (directory_of build entries)
    → w.append_offset ≡ length w.file
    → encode_directory (directory_of build entries) ≡ ok b
    → append_at w.file w.append_offset b.0 ≡ ok (file, off)
    → Extends w (record { file = file; append_offset = off }) b.0
      × IsUint 4 b.1
      × (decode_directory b.0 b.1 (length b.0) ≡ ok (stored (directory_of build entries)))
encode_directory-Extends build entries w {b} {file} {off} t e enc app =
    let (b', enc', dec) = decode_directory-encode_directory (directory_of build entries) t in
    let same : b' ≡ b = ok-injective (sym enc' ∙ enc) in
    (
      append_at-Extends w b.0 file off e app,
      encode_directory-crc (directory_of build entries) enc,
      subst (λ z. decode_directory z.0 z.1 (length z.0) ≡ ok (stored (directory_of build entries)))
          same dec,
    )

pub publish-grows :
    (h : HeaderV1) (tj tb : ℕ) (w : Writer) {w' : Writer}
    → publish h tj tb w ≡ ok w'
    → w.append_offset ≤ w'.append_offset
unfolding publish append_records append_at
publish-grows h tj tb w {w'} e = elim (Result-cases (marshal h)) [
  | inr (x, q) ↦ absurd (ground arith)
  | inl (hb, q) ↦ elim (Result-cases (build_journal_record hb tj)) [
    | inr (x, r) ↦ absurd (ground arith)
    | inl (jr, r) ↦ elim (Result-cases (build_backup_record hb tb)) [
      | inr (x, s) ↦ absurd (ground arith)
      | inl (br, s) ↦ ground arith
    ]
  ]
]

pub Extends-end :
    (w w' : Writer) (bs : Bytes)
    → w.append_offset ≡ length w.file
    → Extends w w' bs
    → w'.append_offset ≡ length w'.file
Extends-end w w' bs e x =
    let off = x.offset_is in rw x.file_is (omega (arith, length-append w.file bs))
