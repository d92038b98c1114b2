-- ===== src/Server.antt =====
-- The state of main in src/main.c, and the ways in which its code reads and changes it.
pub mod Steps
pub mod Sessions
pub mod Requests
pub mod Loop
pub mod Plain
pub mod Slots
pub mod Capacity
pub mod Wheel
pub mod Auth
use cloudisk_server.Base.{
  ℕ, ◌+◌, ◌-◌, List, [], ◌∷◌, ◌++◌, Option, none, some, ℤ, pos, negsuc, pos_part, Outcome, ok,
  undefined, get_elem?, set, take, length,
}
use cloudisk_server.Base.Action.{Action}
use cloudisk_server.Base.Runs
use cloudisk_server.Base.Bytes.{memcpy, fits, string_at}
use cloudisk_server.Balance.{Worker}
use cloudisk_server.Wire.{Train}
use cloudisk_server.Wire.Frame.{frame}
use cloudisk_server.Database.{Text, Platform}
use Steps.{Exec}

-- client_t: state 0 is not connected, 1 connected, 2 logged in. `rotate` is the client's place on
-- the wheel, -1 for none.
pub record Client : Type 0 where
  pub state : ℕ
  pub name : Text
  pub code : ℤ
  pub rotate : ℤ

-- What main does to the outside, in order of time reversed.
pub data Effect : Type 0 where
  sent : ℕ → List ℕ → Effect
  closes watches unwatches : ℕ → Effect
  to_download to_upload : ℕ → ℕ → Effect

-- The variables of main. The structs that it fills by memcpy are kept as their bytes: a message
-- that is too short leaves the bytes of an earlier one in them, of another client too.
pub record World (p : Platform) : Type 0 where
  pub clients : List Client
  pub socket_fd : ℕ
  pub new_fd : ℕ
  pub round : ℕ
  pub client_sum : ℤ
  pub down_thread : List Worker
  pub upload_thread : List Worker
  pub train : Train
  pub login_msg : List ℕ
  pub qq_msg : List ℕ
  pub file_info : List ℕ
  pub db : p.Db
  pub effects : List Effect

-- SOCKET_NUM and MAX_CONNECT_NUM
abbrev pub socket_num : ℕ
socket_num = 5000

abbrev pub max_connect_num : ℕ
max_connect_num = 3000

-- A count that is passed as a size_t; a negative one is far beyond every array.
unfoldable pub size : ℤ → Outcome ℕ
size (pos n) = ok n
size (negsuc n) = undefined

unfoldable pub nth_client : List Client → ℕ → Outcome Client
nth_client cs i = elim (get_elem? cs i) [ none ↦ undefined | some c ↦ ok c ]

module _ {p : Platform} where
  -- client[fd]
  unfoldable pub client_at : ℕ → Exec (World p) Client
  unfolding nth_client
  client_at fd w = Runs.◌>>=◌ (nth_client w.clients fd) λ c. ok (c, w)

  unfoldable pub update_client : ℕ → (Client → Client) → Exec (World p) (Unit {0})
  unfolding nth_client
  update_client fd f w =
      Runs.◌>>=◌ (nth_client w.clients fd)
        λ c. ok (tt, record w { clients = set w.clients fd (f c) })

  -- A call of a function of src/sql.c.
  unfoldable pub on_db : {A : Type 0} → Action p.Db A → Exec (World p) A
  on_db m w = Runs.◌>>=◌ (m w.db) λ r. ok (r.0, record w { db = r.1 })

  unfoldable pub emit : Effect → Exec (World p) (Unit {0})
  emit e w = ok (tt, record w { effects = e ∷ w.effects })

  unfoldable pub set_train : Train → Exec (World p) (Unit {0})
  set_train t w = ok (tt, record w { train = t })

  -- train.Len = 0 with a control code.
  unfoldable pub answer : ℤ → Exec (World p) (Unit {0})
  answer ctl w = ok (tt, record w { train = record w.train { len = pos 0; ctl_code = ctl } })

  -- send(fd, &train, 8 + train.Len, 0)
  unfoldable pub reply : ℕ → Exec (World p) (Unit {0})
  unfolding size
  reply fd w = Runs.◌>>=◌ (size w.train.len) λ n. ok (
    tt,
    record w {
      effects = sent fd (frame w.train.len w.train.ctl_code (take n w.train.buf)) ∷ w.effects;
    },
  )

  -- memcpy(&login_msg, train.buf, train.Len)
  unfoldable pub load_login : Exec (World p) (Unit {0})
  unfolding size memcpy
  load_login w =
      Runs.◌>>=◌ (size w.train.len)
        λ n. Runs.◌>>=◌ (memcpy w.login_msg w.train.buf n) λ b. ok (tt, record w { login_msg = b })

  -- The three strings of Zhuce, at their offsets.
  unfoldable pub login_name : Exec (World p) Text
  unfolding string_at
  login_name w = Runs.◌>>=◌ (string_at 0 w.login_msg) λ s. ok (s, w)

  unfoldable pub login_passward : Exec (World p) Text
  unfolding string_at
  login_passward w = Runs.◌>>=◌ (string_at 30 w.login_msg) λ s. ok (s, w)

  unfoldable pub login_token : Exec (World p) Text
  unfolding string_at
  login_token w = Runs.◌>>=◌ (string_at 130 w.login_msg) λ s. ok (s, w)

  -- train.buf as a C string
  unfoldable pub message_text : Exec (World p) Text
  unfolding string_at
  message_text w = Runs.◌>>=◌ (string_at 0 w.train.buf) λ s. ok (s, w)

  -- client[new_fd].name, which most log lines name.
  unfoldable pub newest_name : Exec (World p) Text
  unfolding nth_client
  newest_name w = Runs.◌>>=◌ (nth_client w.clients w.new_fd) λ c. ok (c.name, w)

  -- strcpy(client[fd].name, s), into 30 bytes.
  unfoldable pub set_name : ℕ → Text → Exec (World p) (Unit {0})
  unfolding fits nth_client
  set_name fd s w = Runs.◌>>=◌ (fits 30 s) λ s'.
      Runs.◌>>=◌ (nth_client w.clients fd)
        λ c. ok (tt, record w { clients = set w.clients fd (record c { name = s' }) })
