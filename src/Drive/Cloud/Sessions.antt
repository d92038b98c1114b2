-- ===== src/Drive/Cloud/Sessions.antt =====
-- REGISTER, LOGIN and TOKEN_AUTH of handle_fd_event, and the token that every other request brings.
use cloudisk_server.Base.{
  List, [], ◌∷◌, ◌++◌, ℕ, true, false, ◌||◌, none, some, ◌==◌, if◌then◌else◌, length,
}
use cloudisk_server.Base.Bytes.{codes}
use cloudisk_server.Drive.Protocol.{Message}
use cloudisk_server.Drive.Sql.{Sqlite}
use cloudisk_server.Drive.Accounts.{register_user, validate_user}
use cloudisk_server.Drive.Token.{JwtClaims, refused, threw as verify_threw, accepted, issue, verify}
use cloudisk_server.Drive.Cloud.{Setup, Given, Server, Handled, threw, status, value_of, respond}

module _ (sql : Sqlite) (e : Setup) (g : Given) (fd : ℕ) (m : Message) where
  unfoldable pub register_request : Server sql → Handled sql
  register_request s =
      let username = value_of m (codes "username") in
      let password = value_of m (codes "password") in
      let r = register_user e.crypt sql g.picks username password s.db in
      let known = record s { db = r.1 } in
      if (length username == 0) || (length password == 0)
      then respond fd (status (codes "REGISTER") (codes "invalid")) s
      else elim r.0 [
        | none ↦ threw g.what known
        | some true ↦ respond fd (status (codes "REGISTER") (codes "ok")) known
        | some false ↦ respond fd (status (codes "REGISTER") (codes "exists")) known
      ]

  -- A login whose password is right.
  unfoldable pub login_ok : List ℕ → Server sql → Handled sql
  login_ok username s =
      let token = issue e.hmac e.jwt username g.now g.random in
      respond fd
        (status (codes "LOGIN") (codes "ok")
          ++ (codes "token", token) ∷ (codes "home", codes ".") ∷ [])
        (record s { ctx = record s.ctx { username = username; token = token; cwd = codes "." } })

  unfoldable pub login_request : Server sql → Handled sql
  login_request s =
      let username = value_of m (codes "username") in
      let password = value_of m (codes "password") in
      let r = validate_user e.crypt sql username password s.db in
      let known = record s { db = r.1 } in
      if (length username == 0) || (length password == 0)
      then respond fd (status (codes "LOGIN") (codes "invalid")) s
      else elim r.0 [
        | none ↦ threw g.what known
        | some true ↦ login_ok username known
        | some false ↦ respond fd (status (codes "LOGIN") (codes "denied")) known
      ]

  -- The user and the token of the context, from a token that has been verified.
  abbrev pub with_claims : JwtClaims → List ℕ → Server sql → Server sql
  with_claims claims token s = record s {
    ctx = record s.ctx { username = claims.subject; token = token };
  }

  unfoldable pub token_auth_request : Server sql → Handled sql
  token_auth_request s =
      let token = value_of m (codes "token") in
      if length token == 0
      then respond fd (status (codes "TOKEN_AUTH") (codes "missing")) s
      else elim (verify e.hmac e.jwt g.now token) [
        | refused ↦ respond fd (status (codes "TOKEN_AUTH") (codes "invalid")) s
        | verify_threw ↦ threw g.what s
        | accepted claims ↦
            respond fd (status (codes "TOKEN_AUTH") (codes "ok")) (with_claims claims token s)
      ]

  -- The part of every other request up to its own branch, which is `rest`.
  unfoldable pub authorized : List ℕ → (Server sql → Handled sql) → Server sql → Handled sql
  authorized command rest s =
      let token = value_of m (codes "token") in
      if length token == 0
      then respond fd (status command (codes "auth_required")) s
      else elim (verify e.hmac e.jwt g.now token) [
        | refused ↦ respond fd (status command (codes "token_invalid")) s
        | verify_threw ↦ threw g.what s
        | accepted claims ↦ rest (with_claims claims token s)
      ]
