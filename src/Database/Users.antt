-- ===== src/Database/Users.antt =====
-- Accounts and logs in src/sql.c.
pub mod Checks
use cloudisk_server.Base.{
  ℕ, List, [], ◌∷◌, ◌++◌, Option, none, some, Bool, true, false, if◌then◌else◌, ℤ, pos, minus_one,
  Outcome, ok, same_bytes,
}
use cloudisk_server.Base.Runs
use cloudisk_server.Base.Action.{Action, ◌>>=◌, ◌>>◌, pure, lift, undefined_here}
use cloudisk_server.Base.Bytes.{codes, strcpy, fits}
use cloudisk_server.Database.{
  Text, Row, Platform, Reply, failed, no_result, rows, Fetched, query_failed, no_row, row, cell,
  is_empty, send_query, execute, fetch,
}

-- strcpy(salt, s) unless `salt` is a null pointer.
unfoldable pub copy_salt : Option (List ℕ) → Text → Outcome (Option (List ℕ))
unfolding strcpy
copy_salt none s = ok none
copy_salt (some buf) s = Runs.◌>>=◌ (strcpy buf s) (λ b. ok (some b))

abbrev pub quoted : Text → Text
quoted s = codes "'" ++ (s ++ codes "'")

module _ (p : Platform) where
  abbrev pub salt_query : Text → Text
  salt_query name = codes "select salt from User where name='" ++ (name ++ codes "'")

  -- find_name: 0 where the name has a salt, which goes to `salt`, else -1. After a failed query
  -- control runs off the end of the function, so the value that main tests was never set.
  unfoldable pub find_name : Text → Option (List ℕ) → Action p.Db (ℤ × Option (List ℕ))
  unfolding fetch cell copy_salt is_empty
  find_name name salt = do
    found ← fetch p (salt_query name)
    elim found [
      | query_failed ↦ undefined_here
      | no_row ↦ pure (minus_one, salt)
      | row r ↦ do
        s ← lift (cell 0 r)
        if is_empty s
            then pure (minus_one, salt)
            else do salt' ← lift (copy_salt salt s); pure (pos 0, salt')
    ]

  abbrev pub user_insert : Text → Text → Text → Text
  user_insert name salt mima =
      codes "insert into User (name,salt,ciphertext)values("
      ++ (quoted name ++ (codes "," ++ (quoted salt ++ (codes "," ++ (quoted mima ++ codes ")")))))

  -- add_user; a failed insert is only printed.
  unfoldable pub add_user : Text → Text → Text → Action p.Db (Unit {0})
  unfolding execute
  add_user name salt mima = execute p 200 (user_insert name salt mima)

  abbrev pub ciphertext_query : Text → Text
  ciphertext_query name = codes "select ciphertext from User where name='" ++ (name ++ codes "'")

  abbrev pub token_update : Text → Text → Text
  token_update name token =
      codes "update User set token='"
      ++ (token ++ (codes "' " ++ (codes "where name ='" ++ (name ++ codes "'"))))

  -- math_user: 0 where the stored ciphertext is the one sent, and then the new token is stored.
  unfoldable pub math_user : Text → Text → Text → Action p.Db ℤ
  unfolding fetch cell is_empty execute same_bytes
  math_user name password token = do
    found ← fetch p (ciphertext_query name)
    elim found [
      | query_failed ↦ pure minus_one
      | no_row ↦ pure minus_one
      | row r ↦ do
        s ← lift (cell 0 r)
        if is_empty s
            then pure minus_one
            else if same_bytes s password
            then (do _ ← execute p 200 (token_update name token); pure (pos 0))
            else pure minus_one
    ]

  abbrev pub token_query : Text → Text
  token_query name = codes "select token from User where name='" ++ (name ++ codes "'")

  -- math_token: 0 where the stored token is the one sent, else -1.
  unfoldable pub math_token : Text → Text → Action p.Db ℤ
  unfolding fetch cell is_empty same_bytes
  math_token name token = do
    found ← fetch p (token_query name)
    elim found [
      | query_failed ↦ pure minus_one
      | no_row ↦ pure minus_one
      | row r ↦ do
        s ← lift (cell 0 r)
        if is_empty s
            then pure minus_one
            else if same_bytes s token
            then pure (pos 0)
            else pure minus_one
    ]

  abbrev pub values : Text → Text → Text → Text → Text
  values a b c d =
      codes "("
      ++ (quoted a
          ++ (codes ","
              ++ (quoted b ++ (codes "," ++ (quoted c ++ (codes "," ++ (quoted d ++ codes ")")))))))

  -- Llog(conn, action, name, ip, result): a row of the log of sessions.
  unfoldable pub llog : Text → Text → Text → Text → Action p.Db (Unit {0})
  unfolding execute
  llog action name ip result =
      execute p 300 (
        codes "insert into Login(action,name,ip_port,result) values"
        ++ values action name ip result)

  -- Olog(conn, name, handel, object, result): a row of the log of operations.
  unfoldable pub olog : Text → Text → Text → Text → Action p.Db (Unit {0})
  unfolding execute
  olog name handel object result = execute p 300 (
      codes "insert into Operate(name,handle,object,result) values"
      ++ values name handel object result)
