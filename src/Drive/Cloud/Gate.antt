-- ===== src/Drive/Cloud/Gate.antt =====
-- What a message without a valid token can do, in handle_fd_event of server/src/cloud_server.cpp.
use cloudisk_server.Base.{
  List, ℕ, ◌≡◌, ◌≢◌, refl, Bool, true, false, ◌==◌, if◌then◌else◌, length, same_bytes, Bool-cases,
  inl, inr, arith,
}
use cloudisk_server.Base.Bytes.{codes}
use cloudisk_server.Drive.Protocol.{Message}
use cloudisk_server.Drive.Sql.{Sqlite}
use cloudisk_server.Drive.Token.{
  JwtClaims, Verified, refused, threw as verify_threw, accepted, verify,
}
use cloudisk_server.Drive.Cloud.{Setup, Given, Server, Handled, value_of, schedule_response}
use cloudisk_server.Drive.Cloud.Sessions.{authorized}
use cloudisk_server.Drive.Cloud.Requests.{file_command, run_command, caught, handle_message}

-- A command of a session: the only ones that come without a token.
abbrev pub is_session : List ℕ → Bool
is_session c =
    if same_bytes c (codes "REGISTER")
    then true
    else if same_bytes c (codes "LOGIN")
    then true
    else same_bytes c (codes "TOKEN_AUTH")

module _ (sql : Sqlite) (e : Setup) (g : Given) (fd : ℕ) (m : Message) where
  authorized-refused :
      (command : List ℕ) (rest : Server sql → Handled sql) (s : Server sql)
      → ((c : JwtClaims) → verify e.hmac e.jwt g.now (value_of m (codes "token")) ≢ accepted c)
      → (r : Message) × (caught sql e g fd m command (authorized sql e g fd m command rest s)
          ≡ schedule_response fd r s)
  unfolding authorized caught
  authorized-refused command rest s h =
      elim (Bool-cases (length (value_of m (codes "token")) == 0)) [
        | inl missing ↦ rw (authorized, missing, caught) (_, refl)
        | inr given ↦ go given (verify e.hmac e.jwt g.now (value_of m (codes "token"))) refl
      ]
    where
      go :
          (length (value_of m (codes "token")) == 0) ≡ false
          → (v : Verified) → verify e.hmac e.jwt g.now (value_of m (codes "token")) ≡ v
          → (r : Message) × (caught sql e g fd m command (authorized sql e g fd m command rest s)
              ≡ schedule_response fd r s)
      go given refused v = rw (authorized, given, v, caught) (_, refl)
      go given verify_threw v = rw (authorized, given, v, caught) (_, refl)
      go given (accepted c) v = absurd (h c v)

  run_command-authorized :
      (command : List ℕ) (s : Server sql)
      → is_session command ≡ false
      → run_command sql e g fd m command s
        ≡ authorized sql e g fd m command (file_command sql e g fd m command) s
  unfolding run_command
  run_command-authorized command s h = ground arith

  -- A message with no session command, whose token verify does not accept, is answered, and changes
  -- nothing else: not the context, the database, the files or the tasks.
  pub handle_message_refused :
      (s : Server sql)
      → is_session (value_of m (codes "cmd")) ≡ false
      → ((c : JwtClaims) → verify e.hmac e.jwt g.now (value_of m (codes "token")) ≢ accepted c)
      → (r : Message) × (handle_message sql e g fd m s ≡ schedule_response fd r s)
  unfolding handle_message
  handle_message_refused s h denied = elim (Bool-cases (length (value_of m (codes "cmd")) == 0)) [
    | inl missing ↦ rw (handle_message, missing) (_, refl)
    | inr given ↦
        rw (handle_message, given, run_command-authorized _ s h) (authorized-refused _ _ s denied)
  ]
