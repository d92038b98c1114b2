-- ===== src/Drive/Accounts/Book.antt =====
-- The accounts of server/src/auth_service.cpp as a book, a function from names to accounts, and what
-- SQLite is taken to do with their rows.
use cloudisk_server.Base.{
  ℕ, ◌≡◌, List, [], ◌∷◌, Bool, true, false, ◌||◌, Option, none, some, ◌⊎◌, if◌then◌else◌, length,
  ◌==◌, same_bytes,
}
use cloudisk_server.Drive.Sql.{Sqlite, Stepped, row, done, failed, text, c_text}
use cloudisk_server.Drive.Accounts.{
  UserRecord, users_ddl, insert_user, select_user, generate_salt, register_user, validate_user,
}

abbrev pub with_name : List ℕ → List UserRecord → Option UserRecord
with_name n [] = none
with_name n (r ∷ rs) = if same_bytes r.username n then some r else with_name n rs

abbrev pub HasUser : UserRecord → List UserRecord → Type 0
HasUser u [] = ⊥
HasUser u (r ∷ rs) = (u ≡ r) ⊎ HasUser u rs

-- username TEXT UNIQUE
abbrev pub HasUniqueNames : List UserRecord → Type 0
HasUniqueNames [] = Unit
HasUniqueNames (r ∷ rs) = (with_name r.username rs ≡ none) × HasUniqueNames rs

-- What the SELECT gives of the rows.
abbrev pub Picks : (sql : Sqlite) → List ℕ → List UserRecord → Stepped sql.Row → Type 0
Picks sql n rs (row r) =
    (u : UserRecord) × (sql.column_text r 0 ≡ u.username)
    × (sql.column_text r 1 ≡ u.password_hash)
    × (sql.column_text r 2 ≡ u.salt)
    × HasUser u rs
    × (u.username ≡ n)
Picks sql n rs done = (u : UserRecord) → HasUser u rs → same_bytes u.username n ≡ false
Picks sql n rs failed = ⊥

-- What SQLite's documentation says of the statements, where no call is refused for a lock or a full
-- disk: `users` are the rows of the table, if it is there.
pub record KeepsUsers (sql : Sqlite) : Type 0 where
  pub users : sql.Db → Option (List UserRecord)
  pub created :
      (db d : sql.Db)
      → sql.exec users_ddl db ≡ some d
      → users d ≡ some (elim (users db) [ none ↦ [] | some rs ↦ rs ])
  pub prepared :
      (db : sql.Db) (rs : List UserRecord)
      → users db ≡ some rs
      → (sql.prepares insert_user db ≡ true) × (sql.prepares select_user db ≡ true)
  pub selected :
      (n : List ℕ) (db : sql.Db) (rs : List UserRecord)
      → users db ≡ some rs
      → let r = sql.step select_user (text n ∷ []) db in Picks sql n rs r.0 × (users r.1 ≡ some rs)
  pub inserted :
      (n h s : List ℕ) (db : sql.Db) (rs : List UserRecord)
      → users db ≡ some rs
      → with_name n rs ≡ none
      → let r = sql.step insert_user (text n ∷ text h ∷ text s ∷ []) db in
        (r.0 ≡ done)
        × (users r.1 ≡ some (record { username = n; password_hash = h; salt = s } ∷ rs))

-- The server's calls: a registration with the numbers for its salt, or a login.
pub data AccountCall : Type 0 where
  registers : List ℕ → List ℕ → List ℕ → AccountCall
  logs_in : List ℕ → List ℕ → AccountCall

-- An account: its password, and the salt and the hash that were made at its registration.
pub record Account : Type 0 where
  pub password : List ℕ
  pub salt : List ℕ
  pub hash : List ℕ

abbrev pub Book : Type 0
Book = List ℕ → Option Account

module _ (crypt : List ℕ → List ℕ → Option (List ℕ)) where
  -- A registration of a free name.
  abbrev pub entered : List ℕ → List ℕ → List ℕ → Option (List ℕ) → Book → Book
  entered salt u p none b = b
  entered salt u p (some h) b =
      λ n. if same_bytes u n then some (record { password = p; salt = salt; hash = h }) else b n

  abbrev pub booked : List ℕ → List ℕ → List ℕ → Option Account → Book → Book
  booked salt u p (some a) b = b
  booked salt u p none b = entered salt u p (crypt p salt) b

  -- The book that the calls mean. A name is registered once, and its password never changes.
  abbrev pub book : List AccountCall → Book → Book
  book [] b = b
  book (logs_in u p ∷ cs) b = book cs b
  book (registers picks u p ∷ cs) b = book cs (
      if (length u == 0) || (length p == 0)
      then b
      else booked (c_text (generate_salt picks)) (c_text u) (c_text p) (b (c_text u)) b)

  -- The answer to a login: whether the password's hash under the account's salt is the account's.
  abbrev pub verdict : Option Account → List ℕ → Option Bool
  verdict none p = some false
  verdict (some a) p = elim (crypt p a.salt) [ none ↦ none | some h ↦ some (same_bytes h a.hash) ]

  module _ (sql : Sqlite) where
    unfoldable pub accounts_after : List AccountCall → sql.Db → sql.Db
    accounts_after [] db = db
    accounts_after (registers picks u p ∷ cs) db =
        accounts_after cs (register_user crypt sql picks u p db).1
    accounts_after (logs_in u p ∷ cs) db = accounts_after cs (validate_user crypt sql u p db).1
