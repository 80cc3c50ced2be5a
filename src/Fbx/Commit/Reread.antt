-- ===== src/Fbx/Commit/Reread.antt =====
-- What `Tx.Commit` of fbx/tx.go wrote is read again.
use go_fbx.Base.{
  ℕ, ◌^◌, ◌<◌, ◌≤◌, ◌≡◌, refl, sym, ◌∙◌, ap, subst, arith, ◌++◌, append_assoc, length,
  length-append, take, drop, Bytes, ok, ok-injective,
}
use go_fbx.Base.{true, some}
use go_fbx.Fbx.Journal.{journal_magic, backup_magic}
use go_fbx.Fbx.Journal.Records.{record_bytes}
use go_fbx.Format.Types.{DirectoryV1}
use go_fbx.Format.Header.{HeaderV1, IsTyped, IsV1, unmarshal, header_bytes}
use go_fbx.Format.Header.RoundTrip.{length-header_bytes}
use go_fbx.Format.Directory.{encode_directory, decode_directory}
use go_fbx.Format.Directory.RoundTrip.{IsDirectory, stored}
use go_fbx.Fbx.HeaderExt.{header_has_fixed_backup_slot}
use go_fbx.Fbx.Region.{read_directory_blob_by_header, max_directory_blob_size}
use go_fbx.Fbx.Journal.{recover_header_from_fixed_backup}
use go_fbx.Fbx.Write.{Writer, append_at}
use go_fbx.Fbx.Tx.{Tx, Entries}
use go_fbx.Fbx.Seal.{Pieces, commit_header}
use go_fbx.Fbx.Publish.{publish}
use go_fbx.Fbx.Publish.Crash.{Leads, Leads-length, blob_kept, publish_ok, publish_lem}
use go_fbx.Fbx.Commit.{Clock, directory_of, moved, pieces, commit}
use go_fbx.Fbx.Commit.Parts.{committed, commit-parts, commit_index-parts, commit_journal-publish}
use go_fbx.Fbx.Container.{Container}
use go_fbx.Fbx.Commit.Appended.{
  Extends, append_at-Extends, encode_directory-Extends, publish-grows, Extends-end,
}
use go_fbx.Fbx.Commit.Header.{IsSealed, commit_header-IsSealed, commit_header-dir_size}

-- The header behind the directory and the index leads to the directory.
appended-Leads :
    (w0 w1 w2 : Writer) (h : HeaderV1) (p : Pieces) (blob idx : Bytes) (dir : DirectoryV1)
    → IsSealed h p
    → Extends w0 w1 blob
    → Extends w1 w2 idx
    → p.dir_offset ≡ length w0.file
    → p.dir_size ≡ length blob
    → decode_directory blob p.dir_crc (length blob) ≡ ok dir
    → 256 ≤ length w0.file
    → length w0.file < 2 ^ 63
    → length blob ≤ max_directory_blob_size
    → (l : Leads h w2.file) × (l.dir ≡ dir)
appended-Leads w0 w1 w2 h p blob idx dir s x y po ps dec behind small fits = (
  record {
    front = w0.file;
    blob = blob;
    back = idx;
    dir = dir;
    splits = y.file_is ∙ ap (λ z. z ++ idx) x.file_is ∙ append_assoc w0.file blob idx;
    offset_is = s.dir_offset_is ∙ po;
    size_is = s.dir_size_is ∙ ps;
    decodes = rw (s.dir_crc_is, s.dir_size_is, ps) dec;
    behind = behind;
    front_small = small;
    blob_pos = x.some_bytes;
    blob_small = fits;
  },
  refl,
)

-- The file that `publish` leaves.
published-read :
    (h : HeaderV1) (tj tb : ℕ) (w : Writer) {w' : Writer}
    → (l : Leads h w.file) → IsTyped h
    → IsV1 h
    → w.append_offset ≡ length w.file
    → header_has_fixed_backup_slot h ≡ true
    → publish h tj tb w ≡ ok w'
    → (w'.append_offset ≡ length w'.file)
      × (unmarshal (take 128 w'.file) ≡ ok h)
      × (recover_header_from_fixed_backup w'.file ≡ ok h)
      × (read_directory_blob_by_header w'.file h ≡ ok l.blob)
published-read h tj tb w {w'} l typed v1 e slot done =
    let hb = header_bytes h in
    let jr = record_bytes journal_magic hb tj in
    let br = record_bytes backup_magic hb tb in
    let lh = length-header_bytes h typed in
    let (w'', ok'', end, front, back, valid) = publish_lem h tj tb w typed v1 e l slot in
    let same : w'' ≡ w' = ok-injective (sym ok'' ∙ done) in
    let is =
      ok-injective (sym (publish_ok h tj tb w typed e (Leads-length h w.file l) slot) ∙ done) in
    let read = blob_kept h w.file (hb ++ hb) (jr ++ br) l (omega (arith, length-append hb hb)) in
    let cut : (hb ++ hb) ++ drop 256 (w.file ++ (jr ++ br)) ≡ w'.file =
      ap (λ z. (hb ++ hb) ++ drop 256 z) (sym (append_assoc w.file jr br)) ∙ ap (λ z. z.file) is in
    (
      subst (λ z. z.append_offset ≡ length z.file) same end,
      subst (λ z. unmarshal (take 128 z.file) ≡ ok h) same front,
      subst (λ z. recover_header_from_fixed_backup z.file ≡ ok h) same back,
      subst (λ z. read_directory_blob_by_header z h ≡ ok l.blob) cut read,
    )

-- What a reader finds in the file that a commit of the directory left.
abbrev pub IsReread : HeaderV1 → Writer → DirectoryV1 → Type 0
IsReread h w dir =
    (blob : Bytes) × (w.append_offset ≡ length w.file)
    × (unmarshal (take 128 w.file) ≡ ok h)
    × (recover_header_from_fixed_backup w.file ≡ ok h)
    × (read_directory_blob_by_header w.file h ≡ ok blob)
    × (decode_directory blob h.dir_crc32 h.dir_size ≡ ok dir)

-- The file behind the two appends and the writes of the header.
parts-IsReread :
    (build : ℕ) (entries : Entries) (h : HeaderV1) (dead churn tj tb : ℕ) (w0 w1 w2 : Writer)
    {w' : Writer} (b : Bytes × ℕ) (idx : Bytes)
    → (let h' =
          commit_header h dead churn
            (pieces w0.append_offset b.0 b.1 w1.append_offset idx w2.append_offset) in
        IsTyped h
        → IsV1 h
        → IsDirectory (directory_of build entries)
        → w0.append_offset ≡ length w0.file
        → 256 ≤ length w0.file
        → encode_directory (directory_of build entries) ≡ ok b
        → append_at w0.file w0.append_offset b.0 ≡ ok (w1.file, w1.append_offset)
        → append_at w1.file w1.append_offset idx ≡ ok (w2.file, w2.append_offset)
        → publish h' tj tb w2 ≡ ok w'
        → length b.0 ≤ max_directory_blob_size
        → w'.append_offset < 2 ^ 63
        → IsReread h' w' (stored (directory_of build entries)))
parts-IsReread build entries h dead churn tj tb w0 w1 w2 {w'} b idx typed v1 t e behind enc app app'
      done fits small =
    let p = pieces w0.append_offset b.0 b.1 w1.append_offset idx w2.append_offset in
    let h' = commit_header h dead churn p in
    let (x, cu, dec) = encode_directory-Extends build entries w0 t e enc app in
    let e1 = Extends-end w0 w1 b.0 e x in
    let y = append_at-Extends w1 idx w2.file w2.append_offset e1 app' in
    let e2 = Extends-end w1 w2 idx e1 y in
    let grows = publish-grows h' tj tb w2 done in
    let off1 = x.offset_is in
    let off2 = y.offset_is in
    let is : IsSealed h' p = commit_header-IsSealed h dead churn p typed v1 (record {
      dir_offset_u64 = omega arith;
      dir_size_u64 = omega arith;
      dir_crc_u32 = cu;
      journal_offset_u64 = omega arith;
    }) in
    let (l, same) =
      appended-Leads w0 w1 w2 h' p b.0 idx _ is x y e refl dec behind (omega arith) fits in
    let (end, front, back, read) = published-read h' tj tb w2 l is.typed is.v1 e2 is.slot done in
    (l.blob, end, front, back, read, l.decodes ∙ ap (λ z. ok z) same)

-- Where Commit answers without an error, with a valid header of the container whose fields fit
-- their types, with entries that the directory format can hold and a transaction that appends at
-- the end of a file of at least 256 bytes, and the directory that it wrote is at most 1 GiB and the
-- file that it left smaller than 2^63 bytes: the container keeps the file of the transaction, the
-- append offset is the end of the file, the first 128 bytes of the file and the backup slot are
-- read as the new header of the container, and `readDirectoryBlobByHeader` finds by it bytes that
-- `DecodeDirectory` returns as the entries of the transaction, sorted by path and completed by
-- their hashes and sizes.
pub commit-read :
    (clock : Clock) (c : Container) (tx : Tx)
    → IsTyped c.header
    → IsV1 c.header
    → IsDirectory (directory_of clock.build tx.entries)
    → tx.writer.append_offset ≡ length tx.writer.file
    → 256 ≤ length tx.writer.file
    → (commit clock c tx).2 ≡ ok tt
    → (commit clock c tx).1.header.dir_size ≤ max_directory_blob_size
    → (commit clock c tx).0.writer.append_offset < 2 ^ 63
    → ((commit clock c tx).1.file ≡ some (commit clock c tx).0.writer.file)
      × IsReread
          (commit clock c tx).1.header
          (commit clock c tx).0.writer
          (stored (directory_of clock.build tx.entries))
commit-read clock c tx typed v1 t e behind done fits small =
    let (b, file, off, enc, app, is) = commit-parts clock c tx done in
    let t1 = moved tx file off in
    let done1 = sym (ap (λ z. z.2) is) ∙ done in
    let (idx, file', off', app', is') =
      commit_index-parts clock c t1 tx.writer.append_offset b.0 b.1 done1 in
    let h =
      commit_header c.header tx.dead_bytes tx.churn_ops
        (pieces tx.writer.append_offset b.0 b.1 off idx off') in
    let t2 = moved tx file' off' in
    let done2 = sym (ap (λ z. z.2) is') ∙ done1 in
    let (w, pub_ok, is'') = commit_journal-publish clock c t2 h done2 in
    let all : commit clock c tx ≡ committed c t2 h w = is ∙ is' ∙ is'' in
    let size : h.dir_size ≤ max_directory_blob_size =
      subst (λ z. z.1.header.dir_size ≤ max_directory_blob_size) all fits in
    let same =
      commit_header-dir_size c.header tx.dead_bytes tx.churn_ops
        (pieces tx.writer.append_offset b.0 b.1 off idx off') in
    subst
      (λ z.
        (z.1.file ≡ some z.0.writer.file)
        × IsReread z.1.header z.0.writer (stored (directory_of clock.build tx.entries)))
      (sym all)
      (
        refl,
        parts-IsReread clock.build tx.entries c.header tx.dead_bytes tx.churn_ops clock.journal
            clock.backup tx.writer t1.writer t2.writer b idx typed v1 t e behind enc app app' pub_ok
            (omega arith) (subst (λ z. z.0.writer.append_offset < 2 ^ 63) all small),
      )
