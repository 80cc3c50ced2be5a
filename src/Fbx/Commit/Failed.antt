-- ===== src/Fbx/Commit/Failed.antt =====
-- What a commit of fbx/tx.go that fails leaves, at each of its exits.
use go_fbx.Base.{◌≡◌, true, some}
use go_fbx.Fbx.Tx.{Tx}
use go_fbx.Fbx.Write.Appends.{Appends}
use go_fbx.Fbx.Container.{Container}
use go_fbx.Fbx.Commit.{Outcome}

-- What a commit that fails leaves: the transaction is released, the container knows what it knew,
-- and all that reached the file stands behind the bytes of before.
pub record IsLeft (c : Container) (tx : Tx) (o : Outcome) : Type 0 where
  pub released : o.0.closed ≡ true
  pub header_kept : o.1.header ≡ c.header
  pub entries_kept : o.1.entries ≡ c.entries
  pub blob_kept : o.1.lazy_dir_blob ≡ c.lazy_dir_blob
  pub index_kept : o.1.lazy_dir_index ≡ c.lazy_dir_index
  pub file_shared : o.1.file ≡ some o.0.writer.file
  pub appends : Appends tx.writer o.0.writer
