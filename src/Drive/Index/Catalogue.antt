-- ===== src/Drive/Index/Catalogue.antt =====
-- The file index of server/src/file_index.cpp as a catalogue, a function from owners and paths to
-- entries, and what SQLite is taken to do with its rows.
use cloudisk_server.Base.{
  ℕ, ◌≡◌, ◌≢◌, List, [], ◌∷◌, Bool, true, false, ◌&&◌, Option, none, some, ◌%◌, ◌^◌, if◌then◌else◌,
  same_bytes,
}
use cloudisk_server.Drive.Sql.{Sqlite, Stepped, row, done, failed, text, integer, c_text}
use cloudisk_server.Drive.Index.{
  FileMetadata, schema_ddl, select_by_path, select_by_md5, insert_or_update, delete_path,
  find_by_path, find_by_md5, upsert, remove,
}
use cloudisk_server.Drive.Index.Rows.{has_key, upsert_row, delete_rows, Has}

-- What a SELECT gives of the rows: one for which the test holds, or none if there is none.
abbrev pub Picks :
    (sql : Sqlite) → (FileMetadata → Bool) → List FileMetadata → Stepped sql.Row → Type 0
Picks sql test rs (row r) =
    (m : FileMetadata) × (sql.column_text r 0 ≡ m.owner)
    × (sql.column_text r 1 ≡ m.logical_path)
    × (sql.column_text r 2 ≡ m.md5)
    × (sql.column_text r 3 ≡ m.storage_path)
    × (sql.column_int64 r 4 ≡ m.size)
    × Has m rs
    × (test m ≡ true)
Picks sql test rs done = (m : FileMetadata) → Has m rs → test m ≡ false
Picks sql test rs failed = ⊥

-- What SQLite's documentation says of the statements, where no call is refused for a lock or a full
-- disk: `files` are the rows of user_files, if there is the table.
pub record KeepsFiles (sql : Sqlite) : Type 0 where
  pub files : sql.Db → Option (List FileMetadata)
  pub created :
      (db d : sql.Db)
      → sql.exec schema_ddl db ≡ some d
      → files d ≡ some (elim (files db) [ none ↦ [] | some rs ↦ rs ])
  pub prepared :
      (db : sql.Db) (rs : List FileMetadata)
      → files db ≡ some rs
      → (sql.prepares select_by_path db ≡ true)
        × (sql.prepares select_by_md5 db ≡ true)
        × (sql.prepares insert_or_update db ≡ true)
        × (sql.prepares delete_path db ≡ true)
  pub path_selected :
      (o p : List ℕ) (db : sql.Db) (rs : List FileMetadata)
      → files db ≡ some rs
      → let r = sql.step select_by_path (text o ∷ text p ∷ []) db in
        Picks sql (has_key o p) rs r.0 × (files r.1 ≡ some rs)
  pub md5_selected :
      (h : List ℕ) (db : sql.Db) (rs : List FileMetadata)
      → files db ≡ some rs
      → let r = sql.step select_by_md5 (text h ∷ []) db in
        Picks sql (λ m. same_bytes m.md5 h) rs r.0 × (files r.1 ≡ some rs)
  pub inserted :
      (o p h s : List ℕ) (z : ℕ) (db : sql.Db) (rs : List FileMetadata)
      → files db ≡ some rs
      → files (sql.step insert_or_update (text o ∷ text p ∷ text h ∷ text s ∷ integer z ∷ []) db).1
        ≡ some (
            upsert_row
              (record { owner = o; logical_path = p; md5 = h; storage_path = s; size = z })
              rs)
  pub deleted :
      (o p : List ℕ) (db : sql.Db) (rs : List FileMetadata)
      → files db ≡ some rs
      → files (sql.step delete_path (text o ∷ text p ∷ []) db).1 ≡ some (delete_rows o p rs)

-- The calls that the server makes.
pub data IndexCall : Type 0 where
  upserts : FileMetadata → IndexCall
  removes : List ℕ → List ℕ → IndexCall
  finds_path : List ℕ → List ℕ → IndexCall
  finds_md5 : List ℕ → IndexCall

unfoldable pub calls_after : (sql : Sqlite) → List IndexCall → sql.Db → sql.Db
calls_after sql [] db = db
calls_after sql (upserts m ∷ cs) db = calls_after sql cs (upsert sql m db)
calls_after sql (removes o p ∷ cs) db = calls_after sql cs (remove sql o p db)
calls_after sql (finds_path o p ∷ cs) db = calls_after sql cs (find_by_path sql o p db).1
calls_after sql (finds_md5 h ∷ cs) db = calls_after sql cs (find_by_md5 sql h db).1

abbrev pub Catalogue : Type 0
Catalogue = List ℕ → List ℕ → Option FileMetadata

-- An entry as SQLite keeps it.
abbrev pub kept : FileMetadata → FileMetadata
kept m = record {
  owner = c_text m.owner;
  logical_path = c_text m.logical_path;
  md5 = c_text m.md5;
  storage_path = c_text m.storage_path;
  size = m.size % 2 ^ 64;
}

-- The catalogue that the calls mean.
abbrev pub catalogue : List IndexCall → Catalogue → Catalogue
catalogue [] c = c
catalogue (upserts m ∷ cs) c =
    catalogue cs (λ o p. if has_key o p (kept m) then some (kept m) else c o p)
catalogue (removes o p ∷ cs) c =
    catalogue cs
      (λ o' p'. if same_bytes (c_text o) o' && same_bytes (c_text p) p' then none else c o' p')
catalogue (finds_path o p ∷ cs) c = catalogue cs c
catalogue (finds_md5 h ∷ cs) c = catalogue cs c

-- An answer to a search for an MD5: an entry of the catalogue that has it, or none if none has it.
abbrev pub Answers : Catalogue → List ℕ → Option FileMetadata → Type 0
Answers c h none = (o p : List ℕ) (m : FileMetadata) → c o p ≡ some m → m.md5 ≢ h
Answers c h (some m) = (c m.owner m.logical_path ≡ some m) × (m.md5 ≡ h)
