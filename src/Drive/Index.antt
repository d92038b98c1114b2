-- ===== src/Drive/Index.antt =====
-- The file index of the enterprise cloud drive's server, server/src/file_index.cpp, over SQLite.
pub mod Rows
pub mod Catalogue
pub mod Refines
use cloudisk_server.Base.{ℕ, ◌%◌, ◌^◌, List, [], ◌∷◌, Bool, true, false, Option, none, some}
use cloudisk_server.Base.Bytes.{codes}
use cloudisk_server.Drive.Sql.{Sqlite, Stepped, row, done, failed, Value, text, integer, c_text}

-- FileMetadata
pub record FileMetadata : Type 0 where
  pub owner : List ℕ
  pub logical_path : List ℕ
  pub md5 : List ℕ
  pub storage_path : List ℕ
  pub size : ℕ

-- The statements, with their spaces and line breaks.
unfoldable pub schema_ddl : List ℕ
schema_ddl =
    codes
      "\n        CREATE TABLE IF NOT EXISTS user_files (\n            id INTEGER PRIMARY KEY AUTOINCREMENT,\n            owner TEXT NOT NULL,\n            logical_path TEXT NOT NULL,\n            md5 TEXT NOT NULL,\n            storage_path TEXT NOT NULL,\n            size INTEGER NOT NULL,\n            updated_at TIMESTAMP DEFAULT CURRENT_TIMESTAMP,\n            UNIQUE(owner, logical_path)\n        );\n        CREATE INDEX IF NOT EXISTS idx_user_files_md5 ON user_files(md5);\n    "

unfoldable pub select_by_path : List ℕ
select_by_path =
    codes
      "\n        SELECT owner,logical_path,md5,storage_path,size FROM user_files\n        WHERE owner=? AND logical_path=?\n    "

unfoldable pub select_by_md5 : List ℕ
select_by_md5 =
    codes
      "\n        SELECT owner,logical_path,md5,storage_path,size FROM user_files\n        WHERE md5=?\n        LIMIT 1\n    "

unfoldable pub insert_or_update : List ℕ
insert_or_update =
    codes
      "\n        INSERT INTO user_files(owner, logical_path, md5, storage_path, size)\n        VALUES(?,?,?,?,?)\n        ON CONFLICT(owner, logical_path)\n        DO UPDATE SET md5=excluded.md5,\n                      storage_path=excluded.storage_path,\n                      size=excluded.size,\n                      updated_at=CURRENT_TIMESTAMP\n    "

unfoldable pub delete_path : List ℕ
delete_path = codes "DELETE FROM user_files WHERE owner=? AND logical_path=?"

module _ (sql : Sqlite) where
  -- none is the exception "Failed to initialize file index".
  unfoldable pub initialize_schema : sql.Db → Option sql.Db
  initialize_schema db = sql.exec schema_ddl db

  -- The entry in the columns of a row.
  unfoldable pub metadata : sql.Row → FileMetadata
  metadata r = record {
    owner = sql.column_text r 0;
    logical_path = sql.column_text r 1;
    md5 = sql.column_text r 2;
    storage_path = sql.column_text r 3;
    size = sql.column_int64 r 4;
  }

  unfoldable pub found : Stepped sql.Row → Option FileMetadata
  found (row r) = some (metadata r)
  found done = none
  found failed = none

  -- A SELECT with its values bound.
  unfoldable pub query : List ℕ → List Value → sql.Db → Option FileMetadata × sql.Db
  query statement values db =
      let r = sql.step statement values db in
      elim (sql.prepares statement db) [ true ↦ (found r.0, r.1) | false ↦ (none, db) ]

  unfoldable pub find_by_path : List ℕ → List ℕ → sql.Db → Option FileMetadata × sql.Db
  find_by_path owner logical_path =
      query select_by_path (text (c_text owner) ∷ text (c_text logical_path) ∷ [])

  unfoldable pub find_by_md5 : List ℕ → sql.Db → Option FileMetadata × sql.Db
  find_by_md5 md5 = query select_by_md5 (text (c_text md5) ∷ [])

  -- A statement whose result is not looked at.
  unfoldable pub run : List ℕ → List Value → sql.Db → sql.Db
  run statement values db = elim (sql.prepares statement db) [
    | true ↦ (sql.step statement values db).1
    | false ↦ db
  ]

  unfoldable pub upsert : FileMetadata → sql.Db → sql.Db
  upsert m = run insert_or_update (
      text (c_text m.owner)
      ∷ text (c_text m.logical_path)
      ∷ text (c_text m.md5)
      ∷ text (c_text m.storage_path)
      ∷ integer (m.size % 2 ^ 64)
      ∷ [])

  unfoldable pub remove : List ℕ → List ℕ → sql.Db → sql.Db
  remove owner logical_path =
      run delete_path (text (c_text owner) ∷ text (c_text logical_path) ∷ [])
