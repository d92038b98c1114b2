-- ===== src/Server/Auth.antt =====
-- A client that is not logged in: what its requests can do.
pub mod Admission
pub mod Dispatch
use cloudisk_server.Base.{
  ℕ, ◌<◌, ◌≡◌, refl, ap, ◌∙◌, List, [], ◌∷◌, ◌==◌, Bool, true, false, Bool-cases, inl, inr, ltb,
  if◌then◌else◌, ℤ, eqb_ℤ, ok, Ensures, subst, arith,
}
use cloudisk_server.Base.Bytes.{string_at}
use cloudisk_server.Wire.Codes.{login_pre, login_q, register_pre, register_q, token_plese}
use cloudisk_server.Database.{Platform}
use cloudisk_server.Server.{World, Client, nth_client, size, client_at, answer, reply, message_text}
use cloudisk_server.Server.Steps.{
  Exec, Takes, Takes-if, Takes-pure, Takes-lift, Keeps-bind, Keeps-then, ◌>>=◌,
}
use cloudisk_server.Server.Plain.{reads}
use cloudisk_server.Server.Requests.{
  ls_case, operate_case, download_pre_case, down_more_case, upload_pre_case, download_q_case,
  upload_q_case,
}
use cloudisk_server.Server.Loop.{dispatch}

-- Nothing that outlasts the request is changed: not the database, the clients, their number, the
-- wheel or the loads of the threads.
pub record Untouched {p : Platform} (w0 w : World p) : Type 0 where
  pub same_db : w.db ≡ w0.db
  pub same_clients : w.clients ≡ w0.clients
  pub same_sum : w.client_sum ≡ w0.client_sum
  pub same_round : w.round ≡ w0.round
  pub same_down : w.down_thread ≡ w0.down_thread
  pub same_upload : w.upload_thread ≡ w0.upload_thread

module _ {p : Platform} (w0 : World p) where
  answer-Untouched : (ctl : ℤ) → Takes (Untouched w0) (Untouched w0) (answer ctl)
  unfolding answer
  answer-Untouched ctl = record {
    at = λ w h. record {
      same_db = h.same_db;
      same_clients = h.same_clients;
      same_sum = h.same_sum;
      same_round = h.same_round;
      same_down = h.same_down;
      same_upload = h.same_upload;
    };
  }

  reply-Untouched : (fd : ℕ) → Takes (Untouched w0) (Untouched w0) (reply fd)
  unfolding reply
  reply-Untouched fd = record {
    at = λ w h. reads (Untouched w0) (size w.train.len) _ λ n _. record {
      same_db = h.same_db;
      same_clients = h.same_clients;
      same_sum = h.same_sum;
      same_round = h.same_round;
      same_down = h.same_down;
      same_upload = h.same_upload;
    };
  }

  message_text-Untouched : Takes (Untouched w0) (Untouched w0) message_text
  unfolding message_text
  message_text-Untouched = record {
    at = λ w h. reads (Untouched w0) (string_at 0 w.train.buf) _ (λ s _. h);
  }

  module _ (fd : ℕ) (c : Client) (there : nth_client w0.clients fd ≡ ok c) (out : c.state < 2) where
    -- The client that is read is the one that was there at first.
    client_at-Untouched :
        {A : Type 0} (f : Client → Exec (World p) A)
        → Takes (Untouched w0) (Untouched w0) (f c)
        → Takes (Untouched w0) (Untouched w0) (client_at fd >>= f)
    unfolding client_at ◌>>=◌
    client_at-Untouched f t = record {
      at =
          λ w h. rw (ap (λ (cs : List Client). nth_client cs fd) h.same_clients ∙ there) (t.at w h);
    }

    not_in :
        {A : Type 0} (m n : Exec (World p) A)
        → Takes (Untouched w0) (Untouched w0) n
        → Takes (Untouched w0) (Untouched w0) (if c.state == 2 then m else n)
    not_in m n t = Takes-if (c.state == 2) m n (λ e. absurd (ground arith)) (λ _. t)

    below :
        {A : Type 0} (m n : Exec (World p) A)
        → Takes (Untouched w0) (Untouched w0) m
        → Takes (Untouched w0) (Untouched w0) (if ltb c.state 2 then m else n)
    below m n t = Takes-if (ltb c.state 2) m n (λ _. t) (λ e. absurd (ground arith))

    ls-Untouched : Takes (Untouched w0) (Untouched w0) (ls_case p fd)
    unfolding ls_case
    ls-Untouched =
        client_at-Untouched _
          (Keeps-then _ _ (not_in _ _ (answer-Untouched _)) (reply-Untouched fd))

    operate-Untouched : Takes (Untouched w0) (Untouched w0) (operate_case p fd)
    unfolding operate_case
    operate-Untouched =
        client_at-Untouched _
          (Keeps-then _ _ (not_in _ _ (answer-Untouched _)) (reply-Untouched fd))

    download_pre-Untouched : Takes (Untouched w0) (Untouched w0) (download_pre_case p fd)
    unfolding download_pre_case
    download_pre-Untouched = Keeps-bind _ _ message_text-Untouched λ text.
        Keeps-bind _ _ (Takes-lift _) λ temp. client_at-Untouched _ (below _ _ (answer-Untouched _))

    down_more-Untouched : Takes (Untouched w0) (Untouched w0) (down_more_case p fd)
    unfolding down_more_case
    down_more-Untouched = Keeps-bind _ _ message_text-Untouched λ text.
        Keeps-bind _ _ (Takes-lift _) λ temp. client_at-Untouched _ (below _ _ (answer-Untouched _))

    upload_pre-Untouched : Takes (Untouched w0) (Untouched w0) (upload_pre_case p fd)
    unfolding upload_pre_case
    upload_pre-Untouched = Keeps-bind _ _ message_text-Untouched λ text.
        Keeps-bind _ _ (Takes-lift _) λ temp. client_at-Untouched _ (below _ _ (answer-Untouched _))

    download_q-Untouched : Takes (Untouched w0) (Untouched w0) (download_q_case p fd)
    unfolding download_q_case
    download_q-Untouched =
        client_at-Untouched _ (below _ _ (Keeps-then _ _ (answer-Untouched _) upload_pre-Untouched))

    upload_q-Untouched : Takes (Untouched w0) (Untouched w0) (upload_q_case p fd)
    unfolding upload_q_case
    upload_q-Untouched = client_at-Untouched _ (below _ _ (answer-Untouched _))

    skip :
        {A : Type 0} (b : Bool) (m n : Exec (World p) A)
        → b ≡ false
        → Takes (Untouched w0) (Untouched w0) n
        → Takes (Untouched w0) (Untouched w0) (if b then m else n)
    skip b m n e t = Takes-if b m n (λ h. absurd (ground arith)) (λ _. t)

    dispatch-Untouched :
        (rand : ℕ → ℕ) (ctl : ℤ)
        → eqb_ℤ ctl login_pre ≡ false
        → eqb_ℤ ctl login_q ≡ false
        → eqb_ℤ ctl register_pre ≡ false
        → eqb_ℤ ctl register_q ≡ false
        → eqb_ℤ ctl token_plese ≡ false
        → Takes (Untouched w0) (Untouched w0) (dispatch p fd rand ctl)
    unfolding dispatch
    dispatch-Untouched rand ctl a b d e f =
        search
          (
            skip, a, b, d, e, f, Takes-if, Takes-pure, ls-Untouched, operate-Untouched,
            download_pre-Untouched, down_more-Untouched, download_q-Untouched, upload_pre-Untouched,
            upload_q-Untouched,
          )
          depth 40

-- The codes of the cases that open a session: an account, a log-in, a reconnection.
abbrev pub session_codes : List ℤ
session_codes = login_pre ∷ login_q ∷ register_pre ∷ register_q ∷ token_plese ∷ []

abbrev pub opens_session : ℤ → List ℤ → Bool
opens_session ctl [] = false
opens_session ctl (k ∷ ks) = if eqb_ℤ ctl k then true else opens_session ctl ks

abbrev NoneOf : ℤ → List ℤ → Type 0
NoneOf ctl [] = Unit
NoneOf ctl (k ∷ ks) = (eqb_ℤ ctl k ≡ false) × NoneOf ctl ks

opens_session-NoneOf : (ctl : ℤ) (ks : List ℤ) → opens_session ctl ks ≡ false → NoneOf ctl ks
opens_session-NoneOf ctl [] h = tt
opens_session-NoneOf ctl (k ∷ ks) h = elim (Bool-cases (eqb_ℤ ctl k)) [
  | inl hit ↦ absurd (ground arith)
  | inr miss ↦ (miss, opens_session-NoneOf ctl ks (ground arith))
]

-- A message of a client that is not logged in, with any code but the five that open a session,
-- leaves alone the database, the clients, their number, the wheel and the loads of the threads, if
-- its case returns.
pub dispatch-Untouched_out :
    (p : Platform) (fd : ℕ) (rand : ℕ → ℕ) (ctl : ℤ) (w w' : World p) (c : Client)
    → nth_client w.clients fd ≡ ok c
    → c.state < 2
    → opens_session ctl session_codes ≡ false
    → dispatch p fd rand ctl w ≡ ok (tt, w')
    → Untouched w w'
dispatch-Untouched_out p fd rand ctl w w' c there out other run =
    let (a, (b, (d, (e, (f, _))))) = opens_session-NoneOf ctl session_codes other in
    subst (Ensures (λ r. Untouched w r.1)) run (
      (dispatch-Untouched w fd c there out rand ctl a b d e f).at w (record {
        same_db = refl;
        same_clients = refl;
        same_sum = refl;
        same_round = refl;
        same_down = refl;
        same_upload = refl;
      }))
