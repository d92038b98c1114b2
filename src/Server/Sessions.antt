-- ===== src/Server/Sessions.antt =====
-- The cases of main's switch that open a session: accounts, log-in and reconnection.
use cloudisk_server.Base.{
  ℕ, ◌+◌, List, none, some, Option, if◌then◌else◌, ℤ, pos, minus_one, eqb_ℤ, ok, length,
}
use cloudisk_server.Base.Bytes.{codes, atoi, string_at}
use cloudisk_server.Base.Runs
use cloudisk_server.Wire.Codes.{login_no, login_pok, register_no, register_pok, register_ok}
use cloudisk_server.Database.{Text, Platform}
use cloudisk_server.Database.Users.{find_name, add_user, math_user, math_token, llog, olog}
use cloudisk_server.Database.Salt.{get_salt}
use cloudisk_server.Server.Steps.{Exec, gets, ◌>>=◌, ◌>>◌}
use cloudisk_server.Server.{
  World, update_client, on_db, answer, reply, load_login, login_name, login_passward, login_token,
  message_text, newest_name, set_name,
}

-- "---", which stands for what a log line does not know.
abbrev pub dashes : Text
dashes = codes "---"

-- get_salt(train.buf); train.Len = strlen(train.buf) + 1
unfoldable pub salt_train : {p : Platform} → (ℕ → ℕ) → Exec (World p) (Unit {0})
unfolding get_salt string_at
salt_train rand w = Runs.◌>>=◌ (get_salt rand w.train.buf) λ b. Runs.◌>>=◌ (string_at 0 b) λ s.
    ok (tt, record w { train = record { len = pos (length s + 1); ctl_code = login_pok; buf = b } })

-- train.buf after a function of src/sql.c has copied a string to it.
unfoldable pub keep_buf : {p : Platform} → Option (List ℕ) → Exec (World p) (Unit {0})
keep_buf none w = ok (tt, w)
keep_buf (some b) w = ok (tt, record w { train = record w.train { buf = b } })

unfoldable pub answer_text : {p : Platform} → ℤ → Exec (World p) (Unit {0})
unfolding string_at
answer_text ctl w =
    Runs.◌>>=◌ (string_at 0 w.train.buf)
      λ s. ok (tt, record w { train = record w.train { len = pos (length s + 1); ctl_code = ctl } })

module _ (p : Platform) (fd : ℕ) where
  -- case LOGIN_PRE: is a name free for a new account? If so the client is sent a salt.
  unfoldable pub login_pre_case : (ℕ → ℕ) → Exec (World p) (Unit {0})
  login_pre_case rand = do
    text ← message_text
    who ← newest_name
    on_db (llog p (codes "Login request") text who (codes "Sucess"))
    update_client fd (λ c. record c { state = 1 })
    name ← message_text
    set_name fd name
    found ← on_db (find_name p name none)
    if eqb_ℤ found.0 (pos 0) then (do answer login_no; reply fd) else (do salt_train rand; reply fd)

  -- case LOGIN_Q: the new account.
  unfoldable pub login_q_case : Exec (World p) (Unit {0})
  login_q_case = do
    load_login
    name ← login_name
    token ← login_token
    passward ← login_passward
    on_db (add_user p name token passward)
    who ← newest_name
    on_db (olog p who (codes "Login ") dashes (codes "Sucess"))

  -- case REGISTER_PRE: a log-in begins; the client is sent its salt.
  unfoldable pub register_pre_case : Exec (World p) (Unit {0})
  register_pre_case = do
    text ← message_text
    who ← newest_name
    on_db (llog p (codes "Register request") text who (codes "Sucess"))
    update_client fd (λ c. record c { state = 1 })
    name ← message_text
    set_name fd name
    buf ← gets (λ w. w.train.buf)
    found ← on_db (find_name p name (some buf))
    keep_buf found.1
    if eqb_ℤ found.0 minus_one then answer register_no else answer_text register_pok
    reply fd

  -- case REGISTER_Q: the log-in itself.
  unfoldable pub register_q_case : Exec (World p) (Unit {0})
  register_q_case = do
    load_login
    name ← login_name
    passward ← login_passward
    token ← login_token
    ret ← on_db (math_user p name passward token)
    if eqb_ℤ ret minus_one
        then (do
          answer register_no
          who ← newest_name
          on_db (olog p who (codes "Register ") dashes (codes "False")))
        else (do
          answer register_ok
          set_name fd name
          update_client fd (λ c. record c { state = 2 })
          who ← newest_name
          on_db (olog p who (codes "Register ") dashes (codes "Success")))
    reply fd

  -- case TOKEN_PLESE: a client comes back with its token. Its name and its directory are taken
  -- over before the token is looked at.
  unfoldable pub token_case : Exec (World p) (Unit {0})
  token_case = do
    load_login
    name ← login_name
    who ← newest_name
    on_db (llog p (codes "Token request") name who (codes "Sucess"))
    set_name fd name
    passward ← login_passward
    update_client fd (λ c. record c { code = atoi passward })
    token ← login_token
    ret ← on_db (math_token p name token)
    if eqb_ℤ ret (pos 0)
        then (do
          update_client fd (λ c. record c { state = 2 })
          who' ← newest_name
          on_db (olog p who' (codes "Token ") dashes (codes "Success")))
        else (do
          answer register_no
          reply fd
          who' ← newest_name
          on_db (olog p who' (codes "Token ") dashes (codes "False")))
