-- ===== src/Drive/Uploads.antt =====
-- An upload of the enterprise cloud drive: FILE_UPLOAD_CHUNK and FILE_UPLOAD_COMMIT of handle_fd_event
-- in server/src/cloud_server.cpp. MD5 is OpenSSL's, and a parameter.
pub mod Accepted
pub mod Commit
use cloudisk_server.Base.{
  ℕ, ◌+◌, ◌∷◌, List, [], Bool, true, false, Option, none, some, ◌==◌, not, if◌then◌else◌, length,
  same_bytes,
}
use cloudisk_server.Drive.Storage.{
  FilePath, Store, content, Checkpoint, stoull, write_chunk, update_progress, finalize_upload,
  discard_checkpoint,
}
use cloudisk_server.Drive.Index.{FileMetadata}

-- The fields of ConnectionContext for uploads, with the store behind the storage manager and the
-- entries that the file index has been given, the last first.
pub record UploadState : Type 0 where
  pub username : List ℕ
  pub upload_active : Bool
  pub upload_checkpoint : Checkpoint
  pub upload_expected : ℕ
  pub upload_md5 : List ℕ
  pub upload_logical : FilePath
  pub store : Store
  pub indexed : List FileMetadata

-- A message FILE_UPLOAD_CHUNK: its header "offset", its body, and what pwrite takes of it.
pub record ChunkMessage : Type 0 where
  pub offset : List ℕ
  pub body : List ℕ
  pub written : Option ℕ

-- The status of the answer; `failed` is the answer to an exception.
pub data Status : Type 0 where
  no_session invalid wrong_offset io_error failed : Status
  received_up_to : ℕ → Status
  incomplete md5_mismatch committed : Status

-- A chunk at the offset where the upload stands.
unfoldable pub store_chunk : ℕ → ChunkMessage → UploadState → Status × UploadState
store_chunk off m s =
    let r = write_chunk s.upload_checkpoint off m.body m.written s.store in
    let n = s.upload_checkpoint.received + length m.body in
    if r.0
    then (
      received_up_to n,
      record s {
        upload_checkpoint = record s.upload_checkpoint { received = n };
        store = update_progress (record s.upload_checkpoint { received = n }) n r.1;
      },
    )
    else (io_error, record s { store = r.1 })

-- The chunk at the offset that its header names.
unfoldable pub chunk_at : Option ℕ → ChunkMessage → UploadState → Status × UploadState
chunk_at none m s = (failed, s)
chunk_at (some off) m s =
    if off == s.upload_checkpoint.received then store_chunk off m s else (wrong_offset, s)

-- FILE_UPLOAD_CHUNK
unfoldable pub upload_chunk : ChunkMessage → UploadState → Status × UploadState
upload_chunk m s =
    let present = if length m.offset == 0 then (invalid, s) else chunk_at (stoull m.offset) m s in
    if s.upload_active then present else (no_session, s)

module _ (md5sum : List ℕ → List ℕ) where
  -- compute_md5 of a file; it throws where the file cannot be opened.
  unfoldable pub compute_md5 : FilePath → Store → Option (List ℕ)
  compute_md5 path fs = elim (content path fs) [ none ↦ none | some bytes ↦ some (md5sum bytes) ]

  -- The task that a commit hands to the executor.
  unfoldable pub commit_task : UploadState → Status × UploadState
  commit_task s = elim (finalize_upload s.upload_checkpoint s.store) [
    | none ↦ (failed, s)
    | some (final_path, fs) ↦ elim (compute_md5 final_path fs) [
      | none ↦ (failed, record s { store = fs })
      | some actual ↦
          let entry : FileMetadata = record {
            owner = s.username;
            logical_path = s.upload_logical;
            md5 = actual;
            storage_path = final_path;
            size = s.upload_checkpoint.total;
          } in
          if same_bytes actual s.upload_md5
          then (committed, record s { store = fs; indexed = entry ∷ s.indexed })
          else (md5_mismatch, record s { store = discard_checkpoint s.upload_checkpoint fs })
    ]
  ]

  -- FILE_UPLOAD_COMMIT, with the task run at once.
  unfoldable pub upload_commit : UploadState → Status × UploadState
  upload_commit s =
      let ready = commit_task (record s { upload_active = false }) in
      let whole =
        if s.upload_checkpoint.received == s.upload_expected then ready else (incomplete, s) in
      if s.upload_active then whole else (incomplete, s)

-- The chunks of a connection, one after another, with the answers.
unfoldable pub upload_chunks : List ChunkMessage → UploadState → List Status × UploadState
upload_chunks [] s = ([], s)
upload_chunks (m ∷ ms) s =
    let r = upload_chunk m s in let rest = upload_chunks ms r.1 in (r.0 ∷ rest.0, rest.1)
