-- ===== src/Drive/Client/Shell.antt =====
-- run_shell of client/src/client_app.cpp, line by line; what it prints is left out.
use cloudisk_server.Base.{
  ℕ, ◌+◌, ◌≡◌, refl, List, [], ◌∷◌, Bool, true, false, ◌&&◌, ◌||◌, Option, none, some, ◌==◌, leb,
  if◌then◌else◌, length, same_bytes, arith, map,
}
use cloudisk_server.Base.Bytes.{codes, skip_spaces}
use cloudisk_server.Drive.Protocol.{Message, make_message, header_value}
use cloudisk_server.Drive.Storage.{Store, content}
use cloudisk_server.Drive.Storage.Directories.{filename}
use cloudisk_server.Drive.Client.{
  Peer, ClientApp, Transfer, returned, threw, unended, answered, call, handle_upload,
  handle_download,
}

abbrev is_space : ℕ → Bool
is_space c = (c == 32) || (leb 9 c && leb c 13)

-- A word of an istringstream and what is behind it.
unfoldable pub letters : List ℕ → List ℕ × List ℕ
letters [] = ([], [])
letters (c ∷ cs) =
    let rest = letters cs in if is_space c then ([], c ∷ cs) else (c ∷ rest.0, rest.1)

unfoldable pub next_word : List ℕ → List ℕ × List ℕ
next_word text = letters (skip_spaces text)

-- std::tolower in the C locale.
abbrev pub lower : ℕ → ℕ
lower c = if leb b'A' c && leb c b'Z' then c + 32 else c

-- How a line ends: the loop goes on, or breaks, or an exception leaves it, or a transfer does not
-- end.
pub data Ending : Type 0 where
  goes_on breaks threw_out endless : Ending

unfoldable pub transfer_ending : Transfer → Ending
transfer_ending (returned done) = goes_on
transfer_ending threw = threw_out
transfer_ending unended = endless

-- What the transfers of a line meet: MD5, whether mmap and open succeed, what pwrite takes, and the
-- rounds of a download.
pub record Local : Type 0 where
  pub md5sum : List ℕ → List ℕ
  pub maps : Bool
  pub opens : Bool
  pub writes : List ℕ → Option ℕ
  pub rounds : ℕ

module _ (p : Peer) (e : Local) where
  -- The shell between two lines: the client, its local files, and the connection.
  pub record Shell : Type 0 where
    pub app : ClientApp
    pub files : Store
    pub state : p.State

  -- A request whose answer is only printed; where none comes the loop ends, if `strict`.
  unfoldable pub ask : Bool → List (List ℕ × List ℕ) → Shell → Ending × Shell
  ask strict headers h =
      let r = call p h.app (make_message headers []) h.state in
      (
        elim r.0 [ none ↦ if strict then breaks else goes_on | some m ↦ goes_on ],
        record h { state = r.1 },
      )

  unfoldable pub login_answered : Option Message → Shell → Ending × Shell
  login_answered none h = (breaks, h)
  login_answered (some m) h =
      if answered (codes "ok") (some m)
      then (
        goes_on,
        record h {
          app = record h.app { token = header_value m (codes "token") []; remote_cwd = codes "." };
        },
      )
      else (goes_on, h)

  unfoldable pub cd_answered : Option Message → Shell → Ending × Shell
  cd_answered none h = (breaks, h)
  cd_answered (some m) h =
      if answered (codes "ok") (some m)
      then (
        goes_on,
        record h { app = record h.app { remote_cwd = header_value m (codes "path") [] } },
      )
      else (goes_on, h)

  -- "register" and "login", with the two words behind them.
  unfoldable pub register_line : List ℕ → List ℕ → Shell → Ending × Shell
  register_line username password h =
      if (length username == 0) || (length password == 0)
      then (goes_on, h)
      else ask true
          ((codes "cmd", codes "REGISTER")
            ∷ (codes "username", username)
            ∷ (codes "password", password)
            ∷ [])
          h

  unfoldable pub login_line : List ℕ → List ℕ → Shell → Ending × Shell
  login_line username password h =
      let r =
        call p h.app
          (make_message
            ((codes "cmd", codes "LOGIN")
              ∷ (codes "username", username)
              ∷ (codes "password", password)
              ∷ [])
            [])
          h.state in
      if (length username == 0) || (length password == 0)
      then (goes_on, h)
      else login_answered r.0 (record h { state = r.1 })

  unfoldable pub upload_line : List ℕ → List ℕ → Shell → Ending × Shell
  upload_line local_path remote h =
      let remote_path = if length remote == 0 then filename local_path else remote in
      let r =
        handle_upload p h.app e.md5sum e.maps (content local_path h.files) remote_path h.state in
      if length local_path == 0
      then (goes_on, h)
      else (transfer_ending r.0, record h { state = r.1 })

  unfoldable pub download_line : List ℕ → List ℕ → Shell → Ending × Shell
  download_line remote local_path h =
      let r = handle_download p h.app e.rounds e.writes e.opens remote local_path h.files h.state in
      if (length remote == 0) || (length local_path == 0)
      then (goes_on, h)
      else (transfer_ending r.0, record h { files = r.1; state = r.2 })

  -- A command with one path that has to be given, whose answer is only printed.
  unfoldable pub path_line : List ℕ → List ℕ → Shell → Ending × Shell
  path_line command path h =
      if length path == 0
      then (goes_on, h)
      else ask true ((codes "cmd", command) ∷ (codes "path", path) ∷ []) h

  unfoldable pub cd_line : List ℕ → Shell → Ending × Shell
  cd_line path h =
      let r =
        call p h.app
          (make_message ((codes "cmd", codes "DIR_CHANGE") ∷ (codes "path", path) ∷ []) [])
          h.state in
      if length path == 0 then (goes_on, h) else cd_answered r.0 (record h { state = r.1 })

  unfoldable pub ls_line : List ℕ → Shell → Ending × Shell
  ls_line path = ask false (
      (codes "cmd", codes "DIR_LIST")
      ∷ (if length path == 0 then [] else (codes "path", path) ∷ []))

  -- The commands behind ensure_logged_in, with the two words behind the command.
  unfoldable pub user_line : List ℕ → List ℕ → List ℕ → Shell → Ending × Shell
  user_line command first second h =
      if same_bytes command (codes "pwd")
      then ask true ((codes "cmd", codes "DIR_PWD") ∷ []) h
      else if same_bytes command (codes "ls")
      then ls_line first h
      else if same_bytes command (codes "cd")
      then cd_line first h
      else if same_bytes command (codes "mkdir")
      then path_line (codes "DIR_MKDIR") first h
      else if same_bytes command (codes "upload")
      then upload_line first second h
      else if same_bytes command (codes "download")
      then download_line first second h
      else if same_bytes command (codes "delete")
      then path_line (codes "FILE_DELETE") first h
      else if same_bytes command (codes "logout")
      then (goes_on, record h { app = record h.app { token = []; remote_cwd = codes "." } })
      else (goes_on, h)

  -- One line.
  unfoldable pub shell_line : List ℕ → Shell → Ending × Shell
  shell_line input h =
      let w = next_word input in
      let first = next_word w.1 in
      let second = next_word first.1 in
      let command = map lower w.0 in
      if length input == 0
      then (goes_on, h)
      else if same_bytes command (codes "help")
      then (goes_on, h)
      else if same_bytes command (codes "quit")
      then (breaks, record h { app = record h.app { connected = false } })
      else if same_bytes command (codes "register")
      then register_line first.0 second.0 h
      else if same_bytes command (codes "login")
      then login_line first.0 second.0 h
      else if length h.app.token == 0
      then (goes_on, h)
      else user_line command first.0 second.0 h

  -- The lines up to the end of the input or a break.
  unfoldable pub run_shell : List (List ℕ) → Shell → Ending × Shell
  run_shell [] h = (breaks, h)
  run_shell (line ∷ lines) h =
      let r = shell_line line h in
      let rest = run_shell lines r.1 in
      elim r.0 [ goes_on ↦ rest | breaks ↦ r | threw_out ↦ r | endless ↦ r ]

  -- A line that is no login and no registration.
  abbrev pub IsOther : List ℕ → Type 0
  IsOther input =
      (same_bytes (map lower (next_word input).0) (codes "register") ≡ false)
      × (same_bytes (map lower (next_word input).0) (codes "login") ≡ false)

  abbrev pub AreOther : List (List ℕ) → Type 0
  AreOther [] = Unit
  AreOther (line ∷ lines) = IsOther line × AreOther lines

  shell_line-silent :
      (input : List ℕ) (h : Shell)
      → h.app.token ≡ []
      → IsOther input
      → ((shell_line input h).1.state ≡ h.state)
        × ((shell_line input h).1.files ≡ h.files)
        × ((shell_line input h).1.app.token ≡ [])
  unfolding shell_line
  shell_line-silent input h t o = ground arith

  -- Without a token, lines of which none is a login or a registration, which do send, send nothing
  -- and change no local file.
  pub run_shell-silent :
      (lines : List (List ℕ)) (h : Shell)
      → h.app.token ≡ []
      → AreOther lines
      → ((run_shell lines h).1.state ≡ h.state) × ((run_shell lines h).1.files ≡ h.files)
  unfolding run_shell
  run_shell-silent [] h t o = (refl, refl)
  run_shell-silent (line ∷ lines) h t o =
      let k = shell_line-silent line h t o.0 in
      ground (arith, k, run_shell-silent lines (shell_line line h).1 k.2 o.1)
