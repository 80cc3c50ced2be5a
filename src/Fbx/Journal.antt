-- ===== src/Fbx/Journal.antt =====
-- fbx/journal.go: the records that hold a copy of the header at the end of the file, and the search
-- for the last valid one.
pub mod Records
pub mod Recovery
use go_fbx.Base.{ℕ, zero, suc, ◌+◌, ◌-◌, ◌^◌, Bool, true, false, not, ◌&&◌, Option, none, some}
use go_fbx.Base.{[], ◌∷◌, ◌++◌, ltb, leb, ◌==◌, if◌then◌else◌, length, slice, take, drop}
use go_fbx.Base.{Bytes, put_uint, uint, equal, checksum}
use go_fbx.Base.{Result, ok, err, ◌>>=◌, ◌>>◌, guard, invalid_format}
use go_fbx.File.{read_at}
use go_fbx.Format.Header.{HeaderV1, header_size, unmarshal}
use go_fbx.Fbx.Region.{validate_header_directory}
use go_fbx.Fbx.HeaderExt.{journal_record_size}

-- 'J', 'N', 'L', '1'
abbrev pub journal_magic : Bytes
journal_magic = 0x4a ∷ 0x4e ∷ 0x4c ∷ 0x31 ∷ []

-- 'B', 'K', 'P', '1'
abbrev pub backup_magic : Bytes
backup_magic = 0x42 ∷ 0x4b ∷ 0x50 ∷ 0x31 ∷ []

-- `journalSearchBytes`
abbrev pub journal_search_bytes : ℕ
journal_search_bytes = 2 ^ 23

abbrev pub fixed_backup_offset : ℕ
fixed_backup_offset = 128

-- The record without its last four bytes: the mark, the time, the header, its checksum.
unfoldable pub record_body : Bytes → Bytes → ℕ → Bytes
record_body magic header_bytes ts =
    magic ++ (put_uint 8 ts ++ (header_bytes ++ put_uint 4 (checksum header_bytes)))

-- `buildHeaderRecord`; the four zeros are replaced by the checksum of what is in front of them.
unfoldable pub build_header_record : Bytes → Bytes → ℕ → Result Bytes
build_header_record magic header_bytes ts = do
  guard (length header_bytes == header_size) invalid_format
  let b = record_body magic header_bytes ts ++ put_uint 4 0
  guard (length b == journal_record_size) invalid_format
  let body = take (length b - 4) b
  ok (body ++ put_uint 4 (checksum body))

abbrev pub build_journal_record : Bytes → ℕ → Result Bytes
build_journal_record = build_header_record journal_magic

abbrev pub build_backup_record : Bytes → ℕ → Result Bytes
build_backup_record = build_header_record backup_magic

-- `parseHeaderRecord`: the header's bytes and the time.
unfoldable pub parse_header_record : Bytes → Bytes → Result (Bytes × ℕ)
parse_header_record magic b = do
  guard (length b == journal_record_size) invalid_format
  guard (equal (take 4 b) magic) invalid_format
  let record_crc = uint (drop (length b - 4) b)
  guard (checksum (take (length b - 4) b) == record_crc) invalid_format
  let ts = uint (slice 4 12 b)
  let header_bytes = slice 12 140 b
  let header_crc = uint (slice 140 144 b)
  guard (checksum header_bytes == header_crc) invalid_format
  ok (header_bytes, ts)

abbrev pub parse_journal_record : Bytes → Result (Bytes × ℕ)
parse_journal_record = parse_header_record journal_magic

abbrev pub parse_backup_record : Bytes → Result (Bytes × ℕ)
parse_backup_record = parse_header_record backup_magic

-- The body of the loop of `recoverHeaderByMagic` at position `i`; an error is a `continue`.
unfoldable pub record_at : Bytes → Bytes → Bytes → ℕ → Result (HeaderV1 × ℕ)
record_at f magic buf i = do
  guard (equal (slice i (i + 4) buf) magic) invalid_format
  (header_bytes, ts) ← parse_header_record magic (slice i (i + journal_record_size) buf)
  h ← unmarshal header_bytes
  validate_header_directory f h
  ok (h, ts)

-- The loop, from position `i` down to 0.
unfoldable pub scan_back : Bytes → Bytes → Bytes → ℕ → Result (HeaderV1 × ℕ)
scan_back f magic buf zero = elim (record_at f magic buf 0) [
  | ok r ↦ ok r
  | err _ ↦ err invalid_format
]
scan_back f magic buf (suc i) = elim (record_at f magic buf (suc i)) [
  | ok r ↦ ok r
  | err _ ↦ scan_back f magic buf i
]

-- `recoverHeaderByMagic`: the last 8 MiB are searched. A read at the end of the file that ends
-- early is no error.
unfoldable pub recover_header_by_magic : Bytes → Bytes → Result (HeaderV1 × ℕ)
recover_header_by_magic f magic = do
  guard (not (ltb (length f) journal_record_size)) invalid_format
  let window = if ltb (length f) journal_search_bytes then length f else journal_search_bytes
  let buf = drop (length f - window) f
  scan_back f magic buf (length buf - journal_record_size)

-- The header alone.
abbrev first_of : Result (HeaderV1 × ℕ) → Result HeaderV1
first_of r = r >>= λ p. ok p.0

abbrev pub recover_header_from_journal : Bytes → Result HeaderV1
recover_header_from_journal f = first_of (recover_header_by_magic f journal_magic)

abbrev pub recover_header_from_backup : Bytes → Result HeaderV1
recover_header_from_backup f = first_of (recover_header_by_magic f backup_magic)

-- `recoverBestHeader`: the later of the two records, the backup where the times are equal.
abbrev better : Result (HeaderV1 × ℕ) → Result (HeaderV1 × ℕ) → Result HeaderV1
better (err _) (err _) = err invalid_format
better (ok (hj, _)) (err _) = ok hj
better (err _) (ok (hb, _)) = ok hb
better (ok (hj, tsj)) (ok (hb, tsb)) = ok (if leb tsj tsb then hb else hj)

unfoldable pub recover_best_header : Bytes → Result HeaderV1
recover_best_header f =
    better (recover_header_by_magic f journal_magic) (recover_header_by_magic f backup_magic)

-- `recoverHeaderFromFixedBackup`
unfoldable pub recover_header_from_fixed_backup : Bytes → Result HeaderV1
recover_header_from_fixed_backup f = do
  buf ← read_at f fixed_backup_offset header_size
  h ← unmarshal buf
  validate_header_directory f h
  ok h
