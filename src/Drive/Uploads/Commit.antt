-- ===== src/Drive/Uploads/Commit.antt =====
-- What a committed upload leaves in the store.
use cloudisk_server.Base.{ℕ, ◌≡◌, ◌≢◌, List, true, false, some}
use cloudisk_server.Drive.Storage.{FilePath, Store, content}
use cloudisk_server.Drive.Index.{FileMetadata}
use cloudisk_server.Drive.Uploads.{UploadState}

-- An upload that is ready: it is active, all bytes have come, and its temporary file, its checkpoint
-- file and its final place are three files, as their canonical paths differ. Their texts may be
-- relative to the working directory.
pub record IsReady (weakly_canonical : FilePath → FilePath) (s : UploadState) (bytes : List ℕ)
    : Type 0 where
  pub active : s.upload_active ≡ true
  pub whole : s.upload_checkpoint.received ≡ s.upload_expected
  pub there : content s.upload_checkpoint.temp_path s.store ≡ some bytes
  pub no_meta :
      weakly_canonical s.upload_checkpoint.meta_path
      ≢ weakly_canonical s.upload_checkpoint.final_path
  pub no_temp :
      weakly_canonical s.upload_checkpoint.temp_path
      ≢ weakly_canonical s.upload_checkpoint.final_path
  pub apart :
      weakly_canonical s.upload_checkpoint.meta_path
      ≢ weakly_canonical s.upload_checkpoint.temp_path

module _ (md5sum : List ℕ → List ℕ) where
  -- What a commit leaves: the status, the store and the index.
  abbrev pub after_commit : Store → List FileMetadata → UploadState → UploadState
  after_commit fs entries s = record s { upload_active = false; store = fs; indexed = entries }

  abbrev pub entry_of : UploadState → List ℕ → FileMetadata
  entry_of s bytes = record {
    owner = s.username;
    logical_path = s.upload_logical;
    md5 = md5sum bytes;
    storage_path = s.upload_checkpoint.final_path;
    size = s.upload_checkpoint.total;
  }
