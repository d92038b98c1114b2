-- ===== src/Drive/Cloud.antt =====
-- The requests of the enterprise cloud drive's server, handle_fd_event in
-- server/src/cloud_server.cpp: what they read and change.
pub mod Paths
pub mod Sessions
pub mod Folders
pub mod Transfers
pub mod Requests
pub mod History
pub mod Queue
pub mod Wakeups
pub mod Gate
pub mod Answered
use cloudisk_server.Base.{ℕ, ◌+◌, List, [], ◌∷◌, ◌++◌, Bool, true, false, Option, none, some}
use cloudisk_server.Base.Bytes.{codes}
use cloudisk_server.Drive.Protocol.{Message, make_message, header_value}
use cloudisk_server.Drive.Storage.{FilePath, Store, Checkpoint}
use cloudisk_server.Drive.Storage.Directories.{Directories}
use cloudisk_server.Drive.Sql.{Sqlite}
use cloudisk_server.Drive.Token.{JwtConfig}
use cloudisk_server.Drive.Uploads.{UploadState}

-- ServerConfig, as far as the requests read it, the functions of OpenSSL and crypt, and the page
-- size.
pub record Setup : Type 0 where
  pub storage_root : FilePath
  pub max_chunk_bytes : ℕ
  pub jwt : JwtConfig
  pub page : ℕ
  pub md5sum : List ℕ → List ℕ
  pub hmac : List ℕ → List ℕ → List ℕ
  pub crypt : List ℕ → List ℕ → Option (List ℕ)
  pub weakly_canonical : FilePath → FilePath

-- What the calls that one message causes are given: the clock, random_jti's bytes, the numbers for
-- a salt, the directories, what pwrite takes, and what() of an exception of a library.
pub record Given : Type 0 where
  pub now : ℕ
  pub random : List ℕ
  pub picks : List ℕ
  pub directories : Directories
  pub written : Option ℕ
  pub what : List ℕ

-- ConnectionContext, less what its messages are cut from.
pub record Context : Type 0 where
  pub username : List ℕ
  pub token : List ℕ
  pub cwd : FilePath
  pub upload_active : Bool
  pub upload_checkpoint : Checkpoint
  pub upload_expected : ℕ
  pub upload_md5 : List ℕ
  pub upload_logical : FilePath

-- The capture of a commit's task; its store is not part of it.
pub record Task : Type 0 where
  pub fd : ℕ
  pub upload : UploadState

-- The server as a message finds it: the context of its connection, the database behind both
-- AuthService and FileIndex, the files, async_responses_ with the last one at the end, the counter
-- behind notify_fd_, and the tasks that have been submitted.
pub record Server (sql : Sqlite) : Type 0 where
  pub ctx : Context
  pub db : sql.Db
  pub store : Store
  pub responses : List (ℕ × Message)
  pub notified : ℕ
  pub tasks : List Task

-- A handler comes to its end, or to an exception with what().
pub data Handled (sql : Sqlite) : Type 0 where
  finished : Server sql → Handled sql
  threw : List ℕ → Server sql → Handled sql

-- The header list of a response: cmd and status.
abbrev pub status : List ℕ → List ℕ → List (List ℕ × List ℕ)
status cmd text = (codes "cmd", cmd) ∷ (codes "status", text) ∷ []

-- header_value with its default.
abbrev pub value_of : Message → List ℕ → List ℕ
value_of m key = header_value m key []

module _ {sql : Sqlite} where
  unfoldable pub schedule_response : ℕ → Message → Server sql → Server sql
  schedule_response fd message s = record s {
    responses = s.responses ++ (fd, message) ∷ [];
    notified = s.notified + 1;
  }

  -- A response with no body.
  abbrev pub respond : ℕ → List (List ℕ × List ℕ) → Server sql → Handled sql
  respond fd headers s = finished (schedule_response fd (make_message headers []) s)
