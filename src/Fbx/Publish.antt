-- ===== src/Fbx/Publish.antt =====
-- The end of `Tx.Commit` of fbx/tx.go: the header that is built is put into two records at the end
-- of the file, then into the fixed backup slot, then in front. A call of `Sync` changes no bytes and
-- is not modelled.
pub mod Crash
use go_fbx.Base.{ℕ, ◌+◌, Bool, true, false, if◌then◌else◌, Bytes, Result, ok, err, ◌>>=◌}
use go_fbx.File.{write_at}
use go_fbx.Format.Header.{HeaderV1, marshal}
use go_fbx.Fbx.HeaderExt.{header_has_fixed_backup_slot}
use go_fbx.Fbx.Journal.{fixed_backup_offset, build_journal_record, build_backup_record}
use go_fbx.Fbx.Write.{mapped, Writer, append_at}

-- The bytes of the header, and the file with the journal record and the backup record, for the two
-- times that are read from the clock.
unfoldable pub append_records : HeaderV1 → ℕ → ℕ → Writer → Result (Bytes × Writer)
append_records h journal_time backup_time w = do
  head_buf ← mapped (marshal h)
  journal_rec ← mapped (build_journal_record head_buf journal_time)
  (file1, off1) ← append_at w.file w.append_offset journal_rec
  backup_rec ← mapped (build_backup_record head_buf backup_time)
  (file2, off2) ← append_at file1 off1 backup_rec
  ok (head_buf, record { file = file2; append_offset = off2 })

-- The fixed backup slot, where the layout has it.
unfoldable pub write_slot : HeaderV1 → Bytes → Bytes → Bytes
write_slot h head_buf file =
    if header_has_fixed_backup_slot h then write_at file fixed_backup_offset head_buf else file

-- The rest of `Commit`, from the header that is built to the file that is left.
unfoldable pub publish : HeaderV1 → ℕ → ℕ → Writer → Result Writer
publish h journal_time backup_time w = do
  (head_buf, w') ← append_records h journal_time backup_time w
  ok (record w' { file = write_at (write_slot h head_buf w'.file) 0 head_buf })
