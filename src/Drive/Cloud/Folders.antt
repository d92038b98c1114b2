-- ===== src/Drive/Cloud/Folders.antt =====
-- The requests on directories of handle_fd_event, and FILE_DELETE.
use cloudisk_server.Base.{
  List, [], ◌∷◌, ◌++◌, ℕ, true, false, none, some, ◌==◌, if◌then◌else◌, length,
}
use cloudisk_server.Base.Bytes.{codes}
use cloudisk_server.Drive.Protocol.{Message, make_message}
use cloudisk_server.Drive.Sql.{Sqlite}
use cloudisk_server.Drive.Index
use cloudisk_server.Drive.Storage.{FilePath, slash, resolve, decimal}
use cloudisk_server.Drive.Storage.Directories.{DirEntry, list, ensure_directory, remove_path}
use cloudisk_server.Drive.Cloud.{
  Setup, Given, Server, Handled, finished, threw, status, value_of, respond, schedule_response,
}
use cloudisk_server.Drive.Cloud.Paths.{normalize_relative}

-- The lines of a listing.
unfoldable pub listing : List DirEntry → List ℕ
listing [] = []
listing (d ∷ ds) =
    (d.name
      ++ b'|'
        ∷ ((if d.is_directory then codes "dir" else codes "file")
            ++ b'|' ∷ (decimal d.size ++ b'|' ∷ (decimal d.modified ++ b'\n' ∷ []))))
    ++ listing ds

unfoldable pub traversal : List ℕ
traversal = codes "Path traversal detected"

module _ (sql : Sqlite) (e : Setup) (g : Given) (fd : ℕ) (m : Message) where
  unfoldable pub pwd_request : Server sql → Handled sql
  pwd_request s =
      respond fd (status (codes "DIR_PWD") (codes "ok") ++ (codes "path", s.ctx.cwd) ∷ []) s

  -- DIR_CHANGE to a path that resolves.
  unfoldable pub enter_directory : FilePath → Server sql → Handled sql
  enter_directory resolved s =
      let there = g.directories.relative resolved (slash e.storage_root s.ctx.username) in
      let cwd = if length there == 0 then codes "." else there in
      if g.directories.is_directory resolved
      then respond fd (status (codes "DIR_CHANGE") (codes "ok") ++ (codes "path", cwd) ∷ [])
          (record s { ctx = record s.ctx { cwd = cwd } })
      else respond fd (status (codes "DIR_CHANGE") (codes "notfound")) s

  unfoldable pub change_request : Server sql → Handled sql
  change_request s =
      let path = value_of m (codes "path") in
      if length path == 0
      then respond fd (status (codes "DIR_CHANGE") (codes "invalid")) s
      else elim (resolve e.weakly_canonical e.storage_root s.ctx.username (slash s.ctx.cwd path)) [
        | none ↦ respond fd (status (codes "DIR_CHANGE") traversal) s
        | some resolved ↦ enter_directory resolved s
      ]

  unfoldable pub mkdir_request : Server sql → Handled sql
  mkdir_request s =
      let path = value_of m (codes "path") in
      if length path == 0
      then respond fd (status (codes "DIR_MKDIR") (codes "invalid")) s
      else elim (ensure_directory e.weakly_canonical e.storage_root g.directories s.ctx.username
          (slash s.ctx.cwd path)) [
            | none ↦ threw g.what s
            | some true ↦ respond fd (status (codes "DIR_MKDIR") (codes "ok")) s
            | some false ↦ respond fd (status (codes "DIR_MKDIR") (codes "failed")) s
          ]

  unfoldable pub list_request : Server sql → Handled sql
  list_request s =
      let path = value_of m (codes "path") in
      let target = if length path == 0 then s.ctx.cwd else slash s.ctx.cwd path in
      elim (list e.weakly_canonical e.storage_root g.directories s.ctx.username target s.store) [
        | none ↦ respond fd (status (codes "DIR_LIST") g.what) s
        | some entries ↦ finished (
            schedule_response fd
              (make_message
                (status (codes "DIR_LIST") (codes "ok")
                  ++ (codes "count", decimal (length entries)) ∷ [])
                (listing entries))
              s)
      ]

  unfoldable pub delete_request : Server sql → Handled sql
  delete_request s =
      let path = slash s.ctx.cwd (value_of m (codes "path")) in
      if length (value_of m (codes "path")) == 0
      then respond fd (status (codes "FILE_DELETE") (codes "invalid")) s
      else elim (remove_path e.weakly_canonical e.storage_root g.directories s.ctx.username path
          s.store) [
            | none ↦ threw g.what s
            | some (true, fs) ↦ respond fd (status (codes "FILE_DELETE") (codes "ok")) (record s {
              store = fs;
              db = Index.remove sql s.ctx.username (normalize_relative path) s.db;
            })
            | some (false, fs) ↦
                respond fd (status (codes "FILE_DELETE") (codes "notfound"))
                  (record s { store = fs })
          ]
