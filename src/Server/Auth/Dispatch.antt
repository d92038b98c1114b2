-- ===== src/Server/Auth/Dispatch.antt =====
-- The log-in itself, and the whole switch.
use cloudisk_server.Base.{
  ℕ, ◌≡◌, refl, sym, ap, ap₂, subst, ◌∙◌, List, Bool, true, false, if◌then◌else◌, ℤ, minus_one,
  eqb_ℤ, Outcome, ok, exits, undefined, waits, Ensures, arith, in_range, ok_inj, ltb, length,
}
use cloudisk_server.Base.Runs
use cloudisk_server.Base.Bytes.{fits, string_at, memcpy}
use cloudisk_server.Wire.{Train}
use cloudisk_server.Wire.Codes.{
  login_pre, login_q, register_pre, register_q, token_plese, ls_q, operate_q, download_pre,
  down_more_pre, download_q, upload_pre, upload_q,
}
use cloudisk_server.Database.{Text, Platform}
use cloudisk_server.Database.Users.{math_user}
use cloudisk_server.Server.{
  World, Client, nth_client, size, update_client, set_name, on_db, load_login, login_name,
  login_passward, login_token,
}
use cloudisk_server.Server.Steps.{
  Exec, Takes, Takes-if, Takes-pure, Takes-then, Keeps-then, ◌>>=◌, ◌>>◌,
}
use cloudisk_server.Server.Plain.{reads, answer-On}
use cloudisk_server.Server.Sessions.{register_q_case}
use cloudisk_server.Server.Loop.{dispatch}
use cloudisk_server.Server.Auth.Admission.{
  Credentials, Entitled, kept, proved, Honest, AllHonest, AllNamed, Honest-set, at_fd, honest_rules,
  out-Honest, login_pre-Honest, register_pre-Honest, login_q-Honest, ls-Honest, operate_case-Honest,
  download_pre-Honest, down_more-Honest, upload_pre-Honest, download_q-Honest, upload_q-Honest,
}

in_range_same : (b : Bool) (s s' : Text) → in_range b s ≡ ok s' → s' ≡ s
in_range_same true s s' e = ok_inj (sym e)
in_range_same false s s' e = absurd (ground arith)

-- The database, the clients, and what a log-in reads, are still as they were.
record Before {p : Platform} (w0 w : World p) : Type 0 where
  same_db : w.db ≡ w0.db
  same_clients : w.clients ≡ w0.clients
  same_train : w.train ≡ w0.train
  same_msg : w.login_msg ≡ w0.login_msg

-- The database and the clients are still as they were, and login_msg holds the message.
record Loaded {p : Platform} (w0 : World p) (msg : List ℕ) (w : World p) : Type 0 where
  same_db : w.db ≡ w0.db
  same_clients : w.clients ≡ w0.clients
  loaded : w.login_msg ≡ msg

-- The string of login_msg at an offset.
abbrev text_at : {p : Platform} → ℕ → Exec (World p) Text
text_at k w = Runs.◌>>=◌ (string_at k w.login_msg) λ s. ok (s, w)

module _ {p : Platform} (w0 : World p) (fd : ℕ) where
  Honest-same : (w : World p) → w.clients ≡ w0.clients → Honest w0 fd w.round w.client_sum w.clients
  Honest-same w e = record {
    each = λ i c at two. kept c (ap (λ (cs : List Client). nth_client cs i) (sym e) ∙ at) two refl;
  }

  -- What follows load_login may use that login_msg holds the message.
  load_login-then :
      (m : Exec (World p) (Unit {0}))
      → ((n : ℕ) (msg : List ℕ)
          → size w0.train.len ≡ ok n
          → memcpy w0.login_msg w0.train.buf n ≡ ok msg
          → Takes (Loaded w0 msg) (AllHonest w0 fd) m)
      → Takes (Before w0) (AllHonest w0 fd) (load_login >> m)
  unfolding load_login ◌>>=◌ ◌>>◌
  load_login-then m k = record {
    at = λ w h. go w h (size w.train.len) (ap (λ (t : Train). size t.len) (sym h.same_train));
  }
    where
      copied :
          (w : World p) (n : ℕ)
          → Before w0 w
          → size w0.train.len ≡ ok n
          → (r : Outcome (List ℕ)) → memcpy w0.login_msg w0.train.buf n ≡ r
          → Ensures
              (λ x. AllHonest w0 fd x.1)
              (Runs.◌>>=◌ {A = Unit {0} × World p}
                (Runs.◌>>=◌ r λ b. ok (tt, record w { login_msg = b }))
                λ x. m x.1)
      copied w n h sized (ok msg) e =
          (k n msg sized e).at _
            (record { same_db = h.same_db; same_clients = h.same_clients; loaded = refl })
      copied w n h sized exits e = tt
      copied w n h sized undefined e = tt
      copied w n h sized waits e = tt

      go :
          (w : World p)
          → Before w0 w
          → (r : Outcome ℕ) → size w0.train.len ≡ r
          → Ensures
              (λ x. AllHonest w0 fd x.1)
              (Runs.◌>>=◌ {A = Unit {0} × World p}
                (Runs.◌>>=◌ r λ n.
                  Runs.◌>>=◌
                    (memcpy w.login_msg w.train.buf n)
                    λ b. ok (tt, record w { login_msg = b }))
                λ x. m x.1)
      go w h (ok n) e =
          copied w n h e (memcpy w.login_msg w.train.buf n)
            (ap₂ (λ (a : List ℕ) (t : Train). memcpy a t.buf n) (sym h.same_msg) (sym h.same_train))
      go w h exits e = tt
      go w h undefined e = tt
      go w h waits e = tt

  -- What follows a string of the message may use that it is there.
  text_at-then :
      (k : ℕ) (msg : List ℕ) (f : Text → Exec (World p) (Unit {0}))
      → ((s : Text) → string_at k msg ≡ ok s → Takes (Loaded w0 msg) (AllHonest w0 fd) (f s))
      → Takes (Loaded w0 msg) (AllHonest w0 fd) (text_at k >>= f)
  unfolding ◌>>=◌
  text_at-then k msg f t = record {
    at = λ w h. go w h (string_at k w.login_msg) (ap (string_at k) (sym h.loaded));
  }
    where
      go :
          (w : World p)
          → Loaded w0 msg w
          → (r : Outcome Text) → string_at k msg ≡ r
          → Ensures
              (λ x. AllHonest w0 fd x.1)
              (Runs.◌>>=◌ {A = Text × World p} (Runs.◌>>=◌ r λ s. ok (s, w)) λ x. f x.0 x.1)
      go w h (ok s) e = (t s e).at w h
      go w h exits e = tt
      go w h undefined e = tt
      go w h waits e = tt

  -- What follows math_user may use that it has run on the database as it was.
  math_user-then :
      {A : Type 0} (msg name passward token : Text) (f : ℤ → Exec (World p) A)
      → ((ret : ℤ) (d' : p.Db)
          → math_user p name passward token w0.db ≡ ok (ret, d')
          → Takes (AllHonest w0 fd) (AllHonest w0 fd) (f ret))
      → Takes (Loaded w0 msg) (AllHonest w0 fd) (on_db (math_user p name passward token) >>= f)
  unfolding on_db ◌>>=◌
  math_user-then msg name passward token f k = record {
    at = λ w h. go w h (math_user p name passward token w.db) refl;
  }
    where
      go :
          (w : World p)
          → Loaded w0 msg w
          → (r : Outcome (ℤ × p.Db)) → math_user p name passward token w.db ≡ r
          → Ensures
              (λ x. AllHonest w0 fd x.1)
              (Runs.◌>>=◌ {A = ℤ × World p}
                (Runs.◌>>=◌ r λ a. ok (a.0, record w { db = a.1 }))
                λ x. f x.0 x.1)
      go w h (ok a) e =
          (k a.0 a.1 (ap (math_user p name passward token) (sym h.same_db) ∙ e)).at _
            (record { holds = Honest-same w h.same_clients })
      go w h exits e = tt
      go w h undefined e = tt
      go w h waits e = tt

  set_name-Named :
      (s : Text)
      → ((c : Client) → c.name ≡ s → Entitled w0 fd fd c)
      → Takes (AllHonest w0 fd) (AllNamed w0 fd s) (set_name fd s)
  unfolding set_name fits
  set_name-Named s k = record {
    at = λ w h. reads (AllNamed w0 fd s) (fits 30 s) _ λ s' es.
        reads (AllNamed w0 fd s) (nth_client w.clients fd) _ λ c e.
          let c' : Client = record c { name = s' } in
          let same : s' ≡ s = in_range_same (ltb (length s) 30) s s' es in
          record {
            holds = record {
              honest = Honest-set w0 fd w.clients c' h.holds (λ two. k c' same);
              named = at_fd w0 fd (λ x. x.name ≡ s) w.clients c' same;
            };
          };
  }

  state_two-Honest :
      (s : Text)
      → ((c : Client) → c.name ≡ s → Entitled w0 fd fd c)
      → Takes (AllNamed w0 fd s) (AllHonest w0 fd) (update_client fd (λ c. record c { state = 2 }))
  unfolding update_client
  state_two-Honest s k = record {
    at = λ w h. reads (AllHonest w0 fd) (nth_client w.clients fd) _ λ c e. record {
      holds =
          Honest-set w0 fd w.clients (record c { state = 2 }) h.holds.honest
            (λ two. k _ (h.holds.named c e));
    };
  }

  -- A client with the name of the credentials that math_user has accepted may be logged in.
  admitted :
      (name passward token : Text) (ret : ℤ) (d' : p.Db) (c : Client)
      → Credentials w0 name passward token
      → math_user p name passward token w0.db ≡ ok (ret, d')
      → eqb_ℤ ret minus_one ≡ false
      → c.name ≡ name
      → Entitled w0 fd fd c
  admitted name passward token ret d' c from run good e =
      proved refl passward token ret d'
        (subst (λ (s : Text). Credentials w0 s passward token) (sym e) from)
        (ap (λ (s : Text). math_user p s passward token w0.db) e ∙ run) good

  register_q-Honest : Takes (Before w0) (AllHonest w0 fd) (register_q_case p fd)
  unfolding register_q_case login_name login_passward login_token
  register_q-Honest = load_login-then _ λ n msg sized copied. text_at-then 0 msg _ λ name at_name.
      text_at-then 30 msg _ λ passward at_passward. text_at-then 130 msg _ λ token at_token.
        let from : Credentials w0 name passward token = record {
          count = n;
          msg = msg;
          sized = sized;
          copied = copied;
          name_at = at_name;
          passward_at = at_passward;
          token_at = at_token;
        } in
        math_user-then msg name passward token _ λ ret d' run.
          Keeps-then _ _
            (Takes-if _ _ _ (λ _. search honest_rules depth 30)
              λ good.
                let k : (c : Client) → c.name ≡ name → Entitled w0 fd fd c =
                  λ c e. admitted name passward token ret d' c from run good e in
                Keeps-then _ _ (answer-On _) (
                  Takes-then (AllNamed w0 fd name) _ _ (set_name-Named name k) (
                    Takes-then (AllHonest w0 fd) _ _ (state_two-Honest name k)
                      (search honest_rules depth 30))))
            (search honest_rules depth 30)

  from_Before :
      (A : Type 0) (m : Exec (World p) A)
      → Takes (AllHonest w0 fd) (AllHonest w0 fd) m
      → Takes (Before w0) (AllHonest w0 fd) m
  from_Before A m t = record {
    at = λ w h. t.at w (record { holds = Honest-same w h.same_clients });
  }

  skip :
      {A : Type 0} (b : Bool) (m n : Exec (World p) A)
      → b ≡ false
      → Takes (Before w0) (AllHonest w0 fd) n
      → Takes (Before w0) (AllHonest w0 fd) (if b then m else n)
  skip b m n e t = Takes-if b m n (λ h. absurd (ground arith)) (λ _. t)

module _ {p : Platform} (w0 : World p) (fd : ℕ) where
  dispatch-Honest :
      (rand : ℕ → ℕ) (ctl : ℤ)
      → eqb_ℤ ctl token_plese ≡ false
      → Takes (Before w0) (AllHonest w0 fd) (dispatch p fd rand ctl)
  unfolding dispatch
  dispatch-Honest rand ctl other =
      Takes-if (eqb_ℤ ctl login_pre) _ _
        (λ _. from_Before w0 fd _ _ (out-Honest w0 fd _ _ (login_pre-Honest w0 fd rand)))
        λ _.
          Takes-if (eqb_ℤ ctl login_q) _ _ (λ _. from_Before w0 fd _ _ (login_q-Honest w0 fd))
            λ _.
              Takes-if (eqb_ℤ ctl register_pre) _ _
                (λ _. from_Before w0 fd _ _ (out-Honest w0 fd _ _ (register_pre-Honest w0 fd)))
                λ _.
                  Takes-if (eqb_ℤ ctl register_q) _ _ (λ _. register_q-Honest w0 fd)
                    λ _. skip w0 fd (eqb_ℤ ctl token_plese) _ _ other (
                      Takes-if (eqb_ℤ ctl ls_q) _ _ (λ _. from_Before w0 fd _ _ (ls-Honest w0 fd))
                        λ _.
                          Takes-if (eqb_ℤ ctl operate_q) _ _
                            (λ _. from_Before w0 fd _ _ (operate_case-Honest w0 fd))
                            λ _.
                              Takes-if (eqb_ℤ ctl download_pre) _ _
                                (λ _. from_Before w0 fd _ _ (download_pre-Honest w0 fd))
                                λ _.
                                  Takes-if (eqb_ℤ ctl down_more_pre) _ _
                                    (λ _. from_Before w0 fd _ _ (down_more-Honest w0 fd))
                                    λ _.
                                      Takes-if (eqb_ℤ ctl download_q) _ _
                                        (λ _. from_Before w0 fd _ _ (download_q-Honest w0 fd))
                                        λ _.
                                          Takes-if (eqb_ℤ ctl upload_pre) _ _
                                            (λ _. from_Before w0 fd _ _ (upload_pre-Honest w0 fd))
                                            λ _.
                                              Takes-if (eqb_ℤ ctl upload_q) _ _
                                                (λ _. from_Before w0 fd _ _ (upload_q-Honest w0 fd))
                                                λ _. from_Before w0 fd _ _ (Takes-pure tt))

-- After a message with any code but TOKEN_PLESE, if its case returns, each client that is logged in
-- was logged in before under the same name, or it is the sender, and math_user, called on the
-- database as it was when the message came with the name, the password and the token that the message
-- holds, has returned something else than -1; the name is then the client's. What a message shorter
-- than the three fields does not hold is what an earlier message has left in login_msg.
pub dispatch-Entitled :
    (p : Platform) (fd : ℕ) (rand : ℕ → ℕ) (ctl : ℤ) (w w' : World p) (i : ℕ) (c : Client)
    → eqb_ℤ ctl token_plese ≡ false
    → dispatch p fd rand ctl w ≡ ok (tt, w')
    → nth_client w'.clients i ≡ ok c
    → c.state ≡ 2
    → Entitled w fd i c
dispatch-Entitled p fd rand ctl w w' i c other run there two =
    let h : AllHonest w fd w' = subst (Ensures (λ r. AllHonest w fd r.1)) run (
      (dispatch-Honest w fd rand ctl other).at w
        (record { same_db = refl; same_clients = refl; same_train = refl; same_msg = refl })) in
    h.holds.each i c there two
