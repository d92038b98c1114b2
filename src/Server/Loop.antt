-- ===== src/Server/Loop.antt =====
-- The loop of main: one round of the wheel, and what is done for each ready descriptor.
use cloudisk_server.Base.{
  ℕ, ◌+◌, ◌%◌, List, [], ◌∷◌, ◌++◌, Bool, ltb, ◌==◌, ◌&&◌, if◌then◌else◌, ℤ, pos, minus_one, ltb_ℤ,
  eqb_ℤ, inc, dec, Outcome, ok, set, take,
}
use cloudisk_server.Base.Bytes.{codes, format_int, fits}
use cloudisk_server.Base.Runs
use cloudisk_server.Balance.{thread_done, down_thread_num}
use cloudisk_server.Wire.{Recv, one_recv}
use cloudisk_server.Wire.Codes.{
  login_pre, login_q, register_pre, register_q, token_plese, ls_q, operate_q, download_pre,
  down_more_pre, download_q, upload_pre, upload_q,
}
use cloudisk_server.Database.{Text, Platform}
use cloudisk_server.Database.Users.{llog}
use cloudisk_server.Server.Steps.{Exec, pure, lift, gets, ◌>>=◌, ◌>>◌}
use cloudisk_server.Server.{
  World, Client, Effect, closes, watches, unwatches, nth_client, client_at, on_db, emit,
  newest_name, max_connect_num,
}
use cloudisk_server.Server.Sessions.{
  dashes, login_pre_case, login_q_case, register_pre_case, register_q_case, token_case,
}
use cloudisk_server.Server.Requests.{
  ls_case, operate_case, download_pre_case, down_more_case, upload_pre_case, download_q_case,
  upload_q_case, forget_client,
}

module _ (p : Platform) where
  -- The switch on train.ctl_code; a code that has no case does nothing.
  unfoldable pub dispatch : ℕ → (ℕ → ℕ) → ℤ → Exec (World p) (Unit {0})
  dispatch fd rand ctl =
      if eqb_ℤ ctl login_pre
      then login_pre_case p fd rand
      else if eqb_ℤ ctl login_q
      then login_q_case p fd
      else if eqb_ℤ ctl register_pre
      then register_pre_case p fd
      else if eqb_ℤ ctl register_q
      then register_q_case p fd
      else if eqb_ℤ ctl token_plese
      then token_case p fd
      else if eqb_ℤ ctl ls_q
      then ls_case p fd
      else if eqb_ℤ ctl operate_q
      then operate_case p fd
      else if eqb_ℤ ctl download_pre
      then download_pre_case p fd
      else if eqb_ℤ ctl down_more_pre
      then down_more_case p fd
      else if eqb_ℤ ctl download_q
      then download_q_case p fd
      else if eqb_ℤ ctl upload_pre
      then upload_pre_case p fd
      else if eqb_ℤ ctl upload_q
      then upload_q_case p fd
      else pure tt

  -- The client has closed: it is logged under the name of the client that was accepted last.
  unfoldable pub quit_case : ℕ → Exec (World p) (Unit {0})
  quit_case fd = do
    who ← newest_name
    on_db (llog p (codes "Client quit") who dashes (codes "Sucess"))
    emit (closes fd)
    forget_client fd
    emit (unwatches fd)

  -- client[fd].rotate = roud
  unfoldable pub touch : ℕ → Exec (World p) (Unit {0})
  unfolding nth_client
  touch fd w =
      Runs.◌>>=◌ (nth_client w.clients fd)
        λ c. ok (tt, record w { clients = set w.clients fd (record c { rotate = pos w.round }) })

  -- one_recv(fd, &train), and what it returns.
  unfoldable pub receive : List Recv → Exec (World p) ℤ
  receive es w = Runs.◌>>=◌ (one_recv w.train es) λ a. ok (a.ret, record w { train = a.train })

  -- A ready descriptor that is a client's.
  unfoldable pub serve : ℕ → List Recv → (ℕ → ℕ) → Exec (World p) (Unit {0})
  serve fd es rand = do
    touch fd
    ret ← receive es
    ctl ← gets (λ w. w.train.ctl_code)
    if eqb_ℤ ret minus_one then quit_case fd else dispatch fd rand ctl

  unfoldable pub request : ℕ → List Recv → (ℕ → ℕ) → Exec (World p) (Unit {0})
  request fd es rand = do c ← client_at fd; if ltb 0 c.state then serve fd es rand else pure tt

  unfoldable pub set_new_fd : ℕ → Exec (World p) (Unit {0})
  set_new_fd fd w = ok (tt, record w { new_fd = fd })

  -- sprintf(client[new_fd].name, "ip:%s port:%d", ip, port)
  unfoldable pub peer_name : Text → ℕ → Outcome Text
  unfolding fits
  peer_name ip port = fits 30 (codes "ip:" ++ (ip ++ (codes " port:" ++ format_int (pos port))))

  -- The fields of the new client, and client_sum++.
  unfoldable pub enter_client : ℕ → Text → Exec (World p) (Unit {0})
  unfolding nth_client
  enter_client fd name w = Runs.◌>>=◌ (nth_client w.clients fd) λ c. ok (
    tt,
    record w {
      clients =
          set w.clients fd (record { state = 1; name = name; code = pos 0; rotate = pos w.round });
      client_sum = inc w.client_sum;
    },
  )

  -- accept has given `fd`, for a peer at `ip` and `port`.
  unfoldable pub accept_case : ℕ → Text → ℕ → Exec (World p) (Unit {0})
  unfolding peer_name
  accept_case fd ip port = do
    set_new_fd fd
    sum ← gets (λ w. w.client_sum)
    if ltb_ℤ sum (pos max_connect_num)
        then (do
          name ← lift (peer_name ip port)
          enter_client fd name
          emit (watches fd)
          on_db (llog p (codes "Connect") dashes name (codes "Request")))
        else emit (closes fd)

  -- The two loops over the threads; the second goes up to DOWN_THREAD_NUM as well.
  unfoldable pub threads_done : ℕ → Exec (World p) (Unit {0})
  unfolding thread_done
  threads_done fd w = ok (
    tt,
    record w {
      down_thread = thread_done fd (take down_thread_num w.down_thread) w.down_thread;
      upload_thread = thread_done fd (take down_thread_num w.upload_thread) w.upload_thread;
    },
  )

  -- What epoll_wait and the calls after it give for one descriptor.
  pub record Ready : Type 0 where
    pub fd : ℕ
    pub plain_input : Bool
    pub new_fd : ℕ
    pub ip : Text
    pub port : ℕ
    pub input : List Recv
    pub rand : ℕ → ℕ

  unfoldable pub on_ready : Ready → Exec (World p) (Unit {0})
  on_ready e = do
    listening ← gets (λ w. w.socket_fd)
    if e.plain_input && e.fd == listening
        then accept_case e.new_fd e.ip e.port
        else do if e.plain_input then threads_done e.fd else pure tt; request e.fd e.input e.rand

  -- What the sweep of the wheel carries from client to client.
  pub record Sweep : Type 0 where
    pub client_sum : ℤ
    pub db : p.Db
    pub effects : List Effect

  -- The loop over the clients from index `j` on: those whose place is `round` are dropped.
  unfoldable pub sweep : ℕ → ℕ → List Client → Sweep → Outcome (List Client × Sweep)
  sweep round j [] s = ok ([], s)
  sweep round j (c ∷ cs) s =
      let kept = Runs.◌>>=◌ (sweep round (j + 1) cs s) λ r. ok (c ∷ r.0, r.1) in
      let dropped =
        Runs.◌>>=◌ (llog p (codes "Timeout") c.name dashes (codes "Disconnect") s.db) λ l.
          Runs.◌>>=◌
            (sweep round (j + 1) cs (record {
              client_sum = dec s.client_sum;
              db = l.1;
              effects = closes j ∷ unwatches j ∷ s.effects;
            }))
            λ r. ok (record c { state = 0; code = pos 0; rotate = minus_one } ∷ r.0, r.1) in
      if eqb_ℤ c.rotate (pos round) then dropped else kept

  -- More than five seconds have passed: the wheel turns by one place.
  unfoldable pub turn : Exec (World p) (Unit {0})
  unfolding sweep
  turn w =
      let round = (w.round + 1) % 5 in
      Runs.◌>>=◌
        (sweep round 0 w.clients
          (record { client_sum = w.client_sum; db = w.db; effects = w.effects }))
        λ r. ok (
          tt,
          record w {
            round = round;
            clients = r.0;
            client_sum = r.1.client_sum;
            db = r.1.db;
            effects = r.1.effects;
          },
        )

  -- The ready descriptors of one epoll_wait, in order.
  unfoldable pub on_all : List Ready → Exec (World p) (Unit {0})
  on_all [] = pure tt
  on_all (e ∷ es) = do on_ready e; on_all es

  -- One round of main's loop.
  unfoldable pub round_once : Bool → List Ready → Exec (World p) (Unit {0})
  round_once late es = do if late then turn else pure tt; on_all es

  -- The loop, for the rounds that are listed.
  unfoldable pub main_loop : List (Bool × List Ready) → Exec (World p) (Unit {0})
  main_loop [] = pure tt
  main_loop ((late, es) ∷ rest) = do round_once late es; main_loop rest
