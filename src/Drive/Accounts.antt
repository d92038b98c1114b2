-- ===== src/Drive/Accounts.antt =====
-- The accounts of the enterprise cloud drive, server/src/auth_service.cpp and
-- server/src/password_hasher.cpp, over SQLite. crypt_r is a parameter, and so are the results of the
-- uniform distribution.
pub mod Book
pub mod Registered
use cloudisk_server.Base.{
  ℕ, List, [], ◌∷◌, ◌++◌, map, Bool, true, false, Option, none, some, if◌then◌else◌, length, get_or,
  same_bytes, ◌==◌, ◌||◌, take,
}
use cloudisk_server.Base.Bytes.{codes}
use cloudisk_server.Drive.Sql.{Sqlite, Stepped, row, done, failed, Value, text, c_text}
use cloudisk_server.Drive.Storage.{starts_with}

-- UserRecord
pub record UserRecord : Type 0 where
  pub username : List ℕ
  pub password_hash : List ℕ
  pub salt : List ℕ

unfoldable pub users_ddl : List ℕ
users_ddl =
    codes
      "\n        CREATE TABLE IF NOT EXISTS users (\n            id INTEGER PRIMARY KEY AUTOINCREMENT,\n            username TEXT UNIQUE NOT NULL,\n            password_hash TEXT NOT NULL,\n            salt TEXT NOT NULL,\n            created_at TIMESTAMP DEFAULT CURRENT_TIMESTAMP\n        );\n    "

unfoldable pub insert_user : List ℕ
insert_user = codes "INSERT INTO users(username, password_hash, salt) VALUES(?,?,?)"

unfoldable pub select_user : List ℕ
select_user = codes "SELECT username,password_hash,salt FROM users WHERE username=?"

-- kSaltAlphabet and kSaltLength
abbrev pub salt_alphabet : List ℕ
salt_alphabet = codes "abcdefghijklmnopqrstuvwxyzABCDEFGHIJKLMNOPQRSTUVWXYZ0123456789"

abbrev pub salt_length : ℕ
salt_length = 16

-- generate_salt; `picks` are the numbers from 0 to 61 that the distribution gives.
unfoldable pub generate_salt : List ℕ → List ℕ
generate_salt picks = codes "$6$" ++ map (λ i. get_or salt_alphabet i 0) (take salt_length picks)

module _ (crypt : List ℕ → List ℕ → Option (List ℕ)) where
  -- hash_password; none is the exception "crypt_r failed".
  unfoldable pub hash_password : List ℕ → List ℕ → Option (List ℕ)
  hash_password password salt =
      crypt (c_text password)
        (c_text (if starts_with (codes "$6$") salt then salt else codes "$6$" ++ salt))

  module _ (sql : Sqlite) where
    -- none is the exception "Failed to initialize schema".
    unfoldable pub initialize_users : sql.Db → Option sql.Db
    initialize_users db = sql.exec users_ddl db

    unfoldable pub user_found : Stepped sql.Row → Option UserRecord
    user_found (row r) = some (record {
      username = sql.column_text r 0;
      password_hash = sql.column_text r 1;
      salt = sql.column_text r 2;
    })
    user_found done = none
    user_found failed = none

    unfoldable pub find_user : List ℕ → sql.Db → Option UserRecord × sql.Db
    find_user username db =
        let r = sql.step select_user (text (c_text username) ∷ []) db in
        elim (sql.prepares select_user db) [ true ↦ (user_found r.0, r.1) | false ↦ (none, db) ]

    unfoldable pub is_done : Stepped sql.Row → Bool
    is_done (row r) = false
    is_done done = true
    is_done failed = false

    -- The INSERT of register_user.
    unfoldable pub add_user : List ℕ → List ℕ → List ℕ → sql.Db → Bool × sql.Db
    add_user username hash salt db =
        let r =
          sql.step insert_user
            (text (c_text username) ∷ text (c_text hash) ∷ text (c_text salt) ∷ []) db in
        elim (sql.prepares insert_user db) [ true ↦ (is_done r.0, r.1) | false ↦ (false, db) ]

    -- register_user; none is an exception of hash_password.
    unfoldable pub register_user : List ℕ → List ℕ → List ℕ → sql.Db → Option Bool × sql.Db
    register_user picks username password db =
        let salt = generate_salt picks in
        let looked = find_user username db in
        let fresh : Option Bool × sql.Db = elim (hash_password password salt) [
          | none ↦ (none, looked.1)
          | some hash ↦ let r = add_user username hash salt looked.1 in (some r.0, r.1)
        ] in
        if (length username == 0) || (length password == 0)
        then (some false, db)
        else elim looked.0 [ some u ↦ (some false, looked.1) | none ↦ fresh ]

    -- validate_user; none is an exception of hash_password.
    unfoldable pub validate_user : List ℕ → List ℕ → sql.Db → Option Bool × sql.Db
    validate_user username password db =
        let looked = find_user username db in
        elim looked.0 [
          | none ↦ (some false, looked.1)
          | some u ↦ elim (hash_password password u.salt) [
            | none ↦ (none, looked.1)
            | some attempted ↦ (some (same_bytes attempted u.password_hash), looked.1)
          ]
        ]
