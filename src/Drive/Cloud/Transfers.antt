-- ===== src/Drive/Cloud/Transfers.antt =====
-- The uploads and downloads of handle_fd_event, and the task of a commit.
use cloudisk_server.Base.{
  List, [], ◌∷◌, ◌++◌, ℕ, true, false, ◌||◌, Option, none, some, ◌==◌, if◌then◌else◌, length, min,
}
use cloudisk_server.Base.Bytes.{codes}
use cloudisk_server.Drive.Protocol.{Message, make_message}
use cloudisk_server.Drive.Sql.{Sqlite}
use cloudisk_server.Drive.Index
use cloudisk_server.Drive.Index.{FileMetadata}
use cloudisk_server.Drive.Storage.{
  FilePath, Store, content, slash, resolve, decimal, stoull, prepare_upload, read_chunk,
}
use cloudisk_server.Drive.Storage.Directories.{is_there, copy_file}
use cloudisk_server.Drive.Uploads.{
  UploadState, ChunkMessage, Status, no_session, invalid, wrong_offset, io_error, failed,
  received_up_to, incomplete, md5_mismatch, committed, upload_chunk, commit_task,
}
use cloudisk_server.Drive.Cloud.{
  Setup, Given, Task, Context, Server, Handled, finished, threw, status, value_of, respond,
  schedule_response,
}
use cloudisk_server.Drive.Cloud.Folders.{traversal}
use cloudisk_server.Drive.Cloud.Paths.{normalize_relative}

-- The upload of a context, over the store.
abbrev pub upload_of : Context → Store → UploadState
upload_of c fs = record {
  username = c.username;
  upload_active = c.upload_active;
  upload_checkpoint = c.upload_checkpoint;
  upload_expected = c.upload_expected;
  upload_md5 = c.upload_md5;
  upload_logical = c.upload_logical;
  store = fs;
  indexed = [];
}

module _ (sql : Sqlite) (e : Setup) (g : Given) (fd : ℕ) (m : Message) where
  -- A file that another upload has brought: the answer is given with its copy in place.
  unfoldable pub instant_upload : FilePath → FilePath → FileMetadata → Server sql → Handled sql
  instant_upload logical absolute known s =
      let entry : FileMetadata = record {
        owner = s.ctx.username;
        logical_path = logical;
        md5 = value_of m (codes "md5");
        storage_path = absolute;
        size = known.size;
      } in
      elim (copy_file g.directories known.storage_path absolute s.store) [
        | none ↦ threw g.what s
        | some fs ↦
            respond fd
              (status (codes "FILE_UPLOAD_INIT") (codes "instant") ++ (codes "path", logical) ∷ [])
              (record s { store = fs; db = Index.upsert sql entry s.db })
      ]

  -- An upload begins, or goes on.
  unfoldable pub begin_upload : FilePath → Server sql → Handled sql
  begin_upload logical s =
      let md5 = value_of m (codes "md5") in
      elim (stoull (value_of m (codes "size"))) [
        | none ↦ threw g.what s
        | some total ↦
            elim (prepare_upload e.weakly_canonical e.storage_root s.ctx.username md5 logical total
              s.store) [
                | none ↦ threw g.what s
                | some (checkpoint, fs) ↦
                    respond fd
                      (status (codes "FILE_UPLOAD_INIT") (codes "ready")
                        ++ (codes "offset", decimal checkpoint.received) ∷ [])
                      (record s {
                        store = fs;
                        ctx = record s.ctx {
                          upload_active = true;
                          upload_checkpoint = checkpoint;
                          upload_expected = checkpoint.total;
                          upload_md5 = md5;
                          upload_logical = logical;
                        };
                      })
              ]
      ]

  -- FILE_UPLOAD_INIT, once its path is resolved.
  unfoldable pub init_at : FilePath → FilePath → Server sql → Handled sql
  init_at logical absolute s =
      let found = Index.find_by_md5 sql (value_of m (codes "md5")) s.db in
      let looked = record s { db = found.1 } in
      elim found.0 [
        | none ↦ begin_upload logical looked
        | some known ↦
            if is_there g.directories known.storage_path s.store
            then instant_upload logical absolute known looked
            else begin_upload logical looked
      ]

  unfoldable pub upload_init_request : Server sql → Handled sql
  upload_init_request s =
      let path = value_of m (codes "path") in
      let logical = normalize_relative (slash s.ctx.cwd path) in
      if (length path == 0)
        || ((length (value_of m (codes "md5")) == 0) || (length (value_of m (codes "size")) == 0))
      then respond fd (status (codes "FILE_UPLOAD_INIT") (codes "invalid")) s
      else elim (resolve e.weakly_canonical e.storage_root s.ctx.username logical) [
        | none ↦ threw traversal s
        | some absolute ↦ init_at logical absolute s
      ]

  -- The answer to a chunk.
  unfoldable pub chunk_answer : Status → Server sql → Handled sql
  chunk_answer no_session = respond fd (status (codes "FILE_UPLOAD_CHUNK") (codes "no_session"))
  chunk_answer invalid = respond fd (status (codes "FILE_UPLOAD_CHUNK") (codes "invalid"))
  chunk_answer wrong_offset = respond fd (status (codes "FILE_UPLOAD_CHUNK") (codes "offset"))
  chunk_answer io_error = respond fd (status (codes "FILE_UPLOAD_CHUNK") (codes "io_error"))
  chunk_answer failed = threw g.what
  chunk_answer (received_up_to n) =
      respond fd
        (status (codes "FILE_UPLOAD_CHUNK") (codes "ok") ++ (codes "received", decimal n) ∷ [])
  chunk_answer incomplete = threw g.what
  chunk_answer md5_mismatch = threw g.what
  chunk_answer committed = threw g.what

  unfoldable pub upload_chunk_request : Server sql → Handled sql
  upload_chunk_request s =
      let chunk : ChunkMessage = record {
        offset = value_of m (codes "offset");
        body = m.body;
        written = g.written;
      } in
      let r = upload_chunk chunk (upload_of s.ctx s.store) in
      chunk_answer r.0 (record s {
        store = r.1.store;
        ctx = record s.ctx { upload_checkpoint = r.1.upload_checkpoint };
      })

  -- FILE_UPLOAD_COMMIT hands its task to the executor, and gives no answer of its own then.
  unfoldable pub commit_request : Server sql → Handled sql
  commit_request s =
      let whole = s.ctx.upload_checkpoint.received == s.ctx.upload_expected in
      let submitted = record s {
        ctx = record s.ctx { upload_active = false };
        tasks =
            s.tasks
            ++ record { fd = fd; upload = upload_of (record s.ctx { upload_active = false }) [] }
              ∷ [];
      } in
      let refused = respond fd (status (codes "FILE_UPLOAD_COMMIT") (codes "incomplete")) s in
      if s.ctx.upload_active then (if whole then finished submitted else refused) else refused

  -- A download's answer, once its file has been read.
  unfoldable pub download_answer :
      FilePath → List ℕ → Option FileMetadata → Server sql → Handled sql
  download_answer logical bytes meta = respond fd (
      status (codes "FILE_DOWNLOAD_INIT") (codes "ok")
      ++ (codes "size", decimal (length bytes))
        ∷ (codes "md5", elim meta [ none ↦ e.md5sum bytes | some known ↦ known.md5 ])
        ∷ (codes "path", logical)
        ∷ [])

  -- FILE_DOWNLOAD_INIT, once its path is resolved; the size of a directory is an exception.
  unfoldable pub download_init_at : FilePath → FilePath → Server sql → Handled sql
  download_init_at logical absolute s =
      let found = Index.find_by_path sql s.ctx.username logical s.db in
      let looked = record s { db = found.1 } in
      if is_there g.directories absolute s.store
      then elim (content absolute s.store) [
        | none ↦ threw g.what looked
        | some bytes ↦ download_answer logical bytes found.0 looked
      ]
      else respond fd (status (codes "FILE_DOWNLOAD_INIT") (codes "notfound")) s

  unfoldable pub download_init_request : Server sql → Handled sql
  download_init_request s =
      let path = value_of m (codes "path") in
      let logical = normalize_relative (slash s.ctx.cwd path) in
      if length path == 0
      then respond fd (status (codes "FILE_DOWNLOAD_INIT") (codes "invalid")) s
      else elim (resolve e.weakly_canonical e.storage_root s.ctx.username logical) [
        | none ↦ threw traversal s
        | some absolute ↦ download_init_at logical absolute s
      ]

  -- The part of a file that FILE_DOWNLOAD_FETCH asks for.
  unfoldable pub fetch_answer : FilePath → Option ℕ → Option ℕ → Server sql → Handled sql
  fetch_answer absolute none offset s = threw g.what s
  fetch_answer absolute (some count) none s = threw g.what s
  fetch_answer absolute (some count) (some offset) s =
      let chunk = read_chunk e.page absolute offset (min count e.max_chunk_bytes) s.store in
      elim (content absolute s.store) [
        | none ↦ threw g.what s
        | some bytes ↦ finished (
            schedule_response fd
              (make_message
                (status (codes "FILE_DOWNLOAD_FETCH")
                    (if length chunk == 0 then codes "done" else codes "ok")
                  ++ (codes "chunk", decimal (length chunk)) ∷ [])
                chunk)
              s)
      ]

  -- FILE_DOWNLOAD_FETCH; stoul is stoull, an unsigned long having 64 bits.
  unfoldable pub fetch_request : Server sql → Handled sql
  fetch_request s =
      let path = value_of m (codes "path") in
      let offset = value_of m (codes "offset") in
      let count = value_of m (codes "length") in
      if (length path == 0) || ((length offset == 0) || (length count == 0))
      then respond fd (status (codes "FILE_DOWNLOAD_FETCH") (codes "invalid")) s
      else elim (resolve e.weakly_canonical e.storage_root s.ctx.username
          (normalize_relative (slash s.ctx.cwd path))) [
            | none ↦ threw traversal s
            | some absolute ↦
                if is_there g.directories absolute s.store
                then fetch_answer absolute (stoull count) (stoull offset) s
                else respond fd (status (codes "FILE_DOWNLOAD_FETCH") (codes "notfound")) s
          ]

module _ (sql : Sqlite) (e : Setup) where
  -- The status of a commit's response.
  unfoldable pub commit_status : List ℕ → Status → UploadState → List (List ℕ × List ℕ)
  commit_status what committed u =
      status (codes "FILE_UPLOAD_COMMIT") (codes "ok") ++ (codes "path", u.upload_logical) ∷ []
  commit_status what md5_mismatch u = status (codes "FILE_UPLOAD_COMMIT") (codes "md5_mismatch")
  commit_status what other u = status (codes "FILE_UPLOAD_COMMIT") what

  -- The entries that a task gives to the index.
  unfoldable pub upsert_all : List FileMetadata → sql.Db → sql.Db
  upsert_all [] db = db
  upsert_all (f ∷ fs) db = upsert_all fs (Index.upsert sql f db)

  -- A worker runs the task of a commit; `what` is what() of an exception in it.
  unfoldable pub run_task : List ℕ → Task → Server sql → Server sql
  run_task what t s =
      let r = commit_task e.md5sum (record t.upload { store = s.store; indexed = [] }) in
      schedule_response t.fd (make_message (commit_status what r.0 t.upload) [])
        (record s { store = r.1.store; db = upsert_all r.1.indexed s.db })
