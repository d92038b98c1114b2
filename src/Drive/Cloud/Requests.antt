-- ===== src/Drive/Cloud/Requests.antt =====
-- One message of handle_fd_event: the branch for its command, and the handler of exceptions.
use cloudisk_server.Base.{List, [], ◌∷◌, ◌++◌, ℕ, ◌==◌, if◌then◌else◌, length, same_bytes}
use cloudisk_server.Base.Bytes.{codes}
use cloudisk_server.Drive.Protocol.{Message, make_message}
use cloudisk_server.Drive.Sql.{Sqlite}
use cloudisk_server.Drive.Cloud.{
  Setup, Given, Server, Handled, finished, threw, status, value_of, respond, schedule_response,
}
use cloudisk_server.Drive.Cloud.Sessions.{
  register_request, login_request, token_auth_request, authorized,
}
use cloudisk_server.Drive.Cloud.Folders.{
  pwd_request, change_request, mkdir_request, list_request, delete_request,
}
use cloudisk_server.Drive.Cloud.Transfers.{
  upload_init_request, upload_chunk_request, commit_request, download_init_request, fetch_request,
}

module _ (sql : Sqlite) (e : Setup) (g : Given) (fd : ℕ) (m : Message) where
  -- The branches behind the check of the token.
  unfoldable pub file_command : List ℕ → Server sql → Handled sql
  file_command command =
      if same_bytes command (codes "DIR_PWD")
      then pwd_request sql e g fd m
      else if same_bytes command (codes "DIR_CHANGE")
      then change_request sql e g fd m
      else if same_bytes command (codes "DIR_MKDIR")
      then mkdir_request sql e g fd m
      else if same_bytes command (codes "DIR_LIST")
      then list_request sql e g fd m
      else if same_bytes command (codes "FILE_DELETE")
      then delete_request sql e g fd m
      else if same_bytes command (codes "FILE_UPLOAD_INIT")
      then upload_init_request sql e g fd m
      else if same_bytes command (codes "FILE_UPLOAD_CHUNK")
      then upload_chunk_request sql e g fd m
      else if same_bytes command (codes "FILE_UPLOAD_COMMIT")
      then commit_request sql e g fd m
      else if same_bytes command (codes "FILE_DOWNLOAD_INIT")
      then download_init_request sql e g fd m
      else if same_bytes command (codes "FILE_DOWNLOAD_FETCH")
      then fetch_request sql e g fd m
      else respond fd (status command (codes "unknown"))

  unfoldable pub run_command : List ℕ → Server sql → Handled sql
  run_command command =
      if same_bytes command (codes "REGISTER")
      then register_request sql e g fd m
      else if same_bytes command (codes "LOGIN")
      then login_request sql e g fd m
      else if same_bytes command (codes "TOKEN_AUTH")
      then token_auth_request sql e g fd m
      else authorized sql e g fd m command (file_command command)

  -- The catch clause.
  unfoldable pub caught : List ℕ → Handled sql → Server sql
  caught command (finished s) = s
  caught command (threw what s) =
      schedule_response fd
        (make_message (status command (codes "error") ++ (codes "reason", what) ∷ []) []) s

  unfoldable pub handle_message : Server sql → Server sql
  handle_message s =
      let command = value_of m (codes "cmd") in
      if length command == 0
      then schedule_response fd
          (make_message
            ((codes "cmd", codes "ERROR") ∷ (codes "reason", codes "MissingCommand") ∷ []) [])
          s
      else caught command (run_command command s)
