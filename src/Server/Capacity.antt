-- ===== src/Server/Capacity.antt =====
-- Whatever happens, main's accounts of its clients are right.
use cloudisk_server.Base.{
  ℕ, zero, suc, ◌+◌, ◌%◌, ◌≤◌, ◌<◌, ◌≡◌, refl, sym, ap, ◌∙◌, List, [], ◌∷◌, ◌==◌, ◌&&◌, Bool-cases,
  inl, inr, ltb, ltb_ℤ, true, ℤ, pos, minus_one, eqb_ℤ, inc, dec, ok, Ensures, set, replicate,
  arith, subst, map, ok_inj,
}
use cloudisk_server.Base.Runs
use cloudisk_server.Base.Bytes.{codes}
use cloudisk_server.Balance.{Worker}
use cloudisk_server.Wire.{Train, Recv}
use cloudisk_server.Database.{Platform}
use cloudisk_server.Database.Users.{llog}
use cloudisk_server.Server.{
  World, Client, closes, unwatches, nth_client, client_at, socket_num, max_connect_num,
}
use cloudisk_server.Server.Sessions.{dashes}
use cloudisk_server.Server.Steps.{
  pure, gets, ◌>>=◌, ◌>>◌, Takes, Takes-if, Takes-pure, Takes-lift, Takes-then, Keeps-bind,
}
use cloudisk_server.Server.Loop.{
  Ready, Sweep, sweep, turn, request, on_ready, accept_case, set_new_fd, enter_client, threads_done,
}
use cloudisk_server.Server.Slots.{
  IsSlot, free, taken, flag, taken_count, AllSlots, AllSlots-set, taken_count-set, nth_client-cases,
  Accounts,
}
use cloudisk_server.Server.Slots.Steps.{Accounted}
use cloudisk_server.Server.Plain.{reads, emit-On, on_db-On}
use cloudisk_server.Server.Slots.Cases.{serve-Accounted}

-- A client on the place that is swept has a taken slot.
taken_at :
    (c : Client) (round : ℕ) → IsSlot c → eqb_ℤ c.rotate (pos round) ≡ true → flag c.state ≡ 1
taken_at c round (free z r) e = ground arith
taken_at c round (taken a b r p q) e = one c.state a
  where
    one : (n : ℕ) → 0 < n → flag n ≡ 1
    one zero h = elim h [ ]
    one (suc n) h = refl

module _ (p : Platform) where
  -- What the sweep leaves: slots that are right, and a count that fell by as many as were dropped.
  record Swept (k : ℕ) (cs : List Client) (r : List Client × Sweep p) : Type 0 where
    slots : AllSlots r.0
    counted : r.1.client_sum ≡ pos (k + taken_count r.0)
    fewer : taken_count r.0 ≤ taken_count cs

  sweep-Swept :
      (round j k : ℕ) (cs : List Client) (s : Sweep p)
      → AllSlots cs
      → s.client_sum ≡ pos (k + taken_count cs)
      → Ensures (Swept k cs) (sweep p round j cs s)
  unfolding sweep
  sweep-Swept round j k [] s h e = record { slots = tt; counted = e; fewer = omega arith }
  sweep-Swept round j k (c ∷ cs) s h e = elim (Bool-cases (eqb_ℤ c.rotate (pos round))) [
    | inl hit ↦ rw hit (
        Runs.Ensures-after _ (llog p (codes "Timeout") c.name dashes (codes "Disconnect") s.db) _
          λ l.
            Runs.Ensures->>= (Swept k cs) _
              (sweep p round (j + 1) cs (record {
                client_sum = dec s.client_sum;
                db = l.1;
                effects = closes j ∷ unwatches j ∷ s.effects;
              }))
              _
              (sweep-Swept round (j + 1) k cs _ h.1 (
                ap dec (
                  e
                  ∙ ap pos {y = suc (k + taken_count cs)}
                      (omega (arith, taken_at c round h.0 hit)))))
              (λ r t. record {
                slots = (free refl refl, t.slots);
                counted = t.counted ∙ ap pos (omega arith);
                fewer = omega (arith, t.fewer);
              }))
    | inr miss ↦ rw miss (
        Runs.Ensures->>= (Swept (k + flag c.state) cs) _ (sweep p round (j + 1) cs s) _
          (sweep-Swept round (j + 1) (k + flag c.state) cs s h.1 (e ∙ ap pos (omega arith)))
          (λ r t. record {
            slots = (h.0, t.slots);
            counted = t.counted ∙ ap pos (omega arith);
            fewer = omega (arith, t.fewer);
          }))
  ]

  turn-Accounted : Takes Accounted Accounted (turn p)
  unfolding turn
  turn-Accounted = record {
    at = λ w a.
        Runs.Ensures->>= (Swept 0 w.clients) _ (sweep p ((w.round + 1) % 5) 0 w.clients _) _
          (sweep-Swept ((w.round + 1) % 5) 0 0 w.clients _ a.holds.slots
            (a.holds.counted ∙ ap pos (omega arith)))
          (λ r t. record {
            holds = record {
              on_wheel = omega arith;
              slots = t.slots;
              counted = t.counted ∙ ap pos (omega arith);
              within = omega (arith, t.fewer, a.holds.within);
            };
          });
  }

  -- Room for one more client, in a slot that is free.
  record Room (fd : ℕ) (w : World p) : Type 0 where
    accounts : Accounted w
    room : taken_count w.clients < max_connect_num
    fresh : (c : Client) → nth_client w.clients fd ≡ ok c → c.state ≡ 0

  enter_client-Accounted :
      (fd : ℕ) (name : List ℕ) → Takes (Room fd) Accounted (enter_client p fd name)
  unfolding enter_client
  enter_client-Accounted fd name = record {
    at = λ w h. reads Accounted (nth_client w.clients fd) _ λ c e.
        let c' : Client = record { state = 1; name = name; code = pos 0; rotate = pos w.round } in
        let more : taken_count (set w.clients fd c') ≡ suc (taken_count w.clients) =
          omega (arith, taken_count-set w.clients fd c c' e, ap flag (h.fresh c e)) in
        record {
          holds = record {
            on_wheel = h.accounts.holds.on_wheel;
            slots =
                AllSlots-set w.clients fd c' h.accounts.holds.slots
                  (taken (omega arith) (omega arith) w.round refl h.accounts.holds.on_wheel);
            counted = ap inc h.accounts.holds.counted ∙ ap pos (sym more);
            within = omega (arith, more, h.room);
          };
        };
  }

  -- The kernel gives accept a descriptor that no connected client has.
  abbrev pub IsFresh : ℕ → World p → Type 0
  IsFresh fd w = (c : Client) → nth_client w.clients fd ≡ ok c → c.state ≡ 0

  room_left :
      (sum : ℤ) (n : ℕ) → sum ≡ pos n → ltb_ℤ sum (pos max_connect_num) ≡ true → n < max_connect_num
  room_left sum n e h = ground arith

  accept_case-Accounted :
      (fd : ℕ) (ip : List ℕ) (port : ℕ) (w : World p)
      → Accounted w
      → IsFresh fd w
      → Ensures (λ r. Accounted r.1) (accept_case p fd ip port w)
  unfolding accept_case set_new_fd gets ◌>>=◌ ◌>>◌
  accept_case-Accounted fd ip port w a fresh =
      elim (Bool-cases (ltb_ℤ w.client_sum (pos max_connect_num))) [
        | inl some_room ↦ rw some_room (
            (Keeps-bind {P = Room fd} {Q = Accounted} _ _ (Takes-lift _) (λ name.
                Takes-then Accounted _ _ (enter_client-Accounted fd name)
                  (Takes-then Accounted _ _ (emit-On _) (on_db-On _)))).at
              _
              (record {
                accounts = record { holds = a.holds };
                room = room_left w.client_sum _ a.holds.counted some_room;
                fresh = fresh;
              }))
        | inr is_full ↦ rw is_full ((emit-On (closes fd)).at _ (record { holds = a.holds }))
      ]

  request-Accounted :
      (fd : ℕ) (es : List Recv) (rand : ℕ → ℕ) → Takes Accounted Accounted (request p fd es rand)
  unfolding request client_at ◌>>=◌
  request-Accounted fd es rand = record {
    at = λ w a. elim (nth_client-cases w.clients fd) [
      | inl none_there ↦ rw none_there tt
      | inr (c, e) ↦ rw e (elim (Bool-cases (ltb 0 c.state)) [
        | inr idle ↦ rw idle ((Takes-pure tt).at w a)
        | inl busy ↦ rw busy (
            (serve-Accounted p fd es rand).at w (record {
              holds = record {
                accounts = a.holds;
                busy = λ x ex.
                    subst (λ (y : Client). 0 < y.state) (ok_inj (sym e ∙ ex)) (ground arith);
              };
            }))
      ])
    ];
  }

  threads_done-Accounted : (fd : ℕ) → Takes Accounted Accounted (threads_done p fd)
  unfolding threads_done
  threads_done-Accounted fd = record { at = λ w a. record { holds = a.holds } }

  -- One ready descriptor, whatever it is and whatever it brings.
  on_ready-Accounted :
      (e : Ready p) (w : World p)
      → Accounted w
      → IsFresh e.new_fd w
      → Ensures (λ r. Accounted r.1) (on_ready p e w)
  unfolding on_ready gets ◌>>=◌
  on_ready-Accounted e w a fresh = elim (Bool-cases (e.plain_input && e.fd == w.socket_fd)) [
    | inl listening ↦ rw listening (accept_case-Accounted e.new_fd e.ip e.port w a fresh)
    | inr other ↦ rw other (
        (Takes-then Accounted _ _
            (Takes-if e.plain_input (threads_done p e.fd) (pure tt)
              (λ _. threads_done-Accounted e.fd) (λ _. Takes-pure tt))
            (request-Accounted e.fd e.input e.rand)).at
          w a)
  ]

  -- One thing that main does: the wheel turns, or a ready descriptor is served. What a step of the
  -- second kind assumes of the kernel is that accept gives no descriptor of a connected client.
  pub data Step (w w' : World p) : Type 0 where
    turned : turn p w ≡ ok (tt, w') → Step w w'
    served : (e : Ready p) → IsFresh e.new_fd w → on_ready p e w ≡ ok (tt, w') → Step w w'

  pub data Reach (w : World p) : World p → Type 0 where
    here : Reach w w
    next : {v u : World p} → Reach w v → Step v u → Reach w u

  Step-Accounted : {w w' : World p} → Accounted w → Step w w' → Accounted w'
  Step-Accounted {w} a (turned e) = subst (Ensures (λ r. Accounted r.1)) e (turn-Accounted.at w a)
  Step-Accounted {w} a (served r fresh e) =
      subst (Ensures (λ r. Accounted r.1)) e (on_ready-Accounted r w a fresh)

  Reach-Accounted : {w w' : World p} → Accounted w → Reach w w' → Accounted w'
  Reach-Accounted a here = a
  Reach-Accounted a (next r s) = Step-Accounted (Reach-Accounted a r) s

-- factoryInit, on the clients: all is zero but `rotate`, which is -1.
abbrev pub no_client : Client
no_client = record { state = 0; name = []; code = pos 0; rotate = minus_one }

unfoldable pub factory_init : ℕ → List Client
factory_init n = replicate n no_client

factory_init-right : (n : ℕ) → AllSlots (factory_init n) × (taken_count (factory_init n) ≡ 0)
unfolding factory_init
factory_init-right zero = (tt, refl)
factory_init-right (suc n) =
    let r = factory_init-right n in ((free refl refl, r.0), omega (arith, r.1))

-- main's variables when the loop is entered. The buffers on its stack hold what they happen to.
pub record Start (p : Platform) : Type 0 where
  pub socket_fd : ℕ
  pub down_fds : List ℕ
  pub upload_fds : List ℕ
  pub train : Train
  pub login_msg : List ℕ
  pub qq_msg : List ℕ
  pub file_info : List ℕ
  pub db : p.Db

abbrev pub idle_thread : ℕ → Worker
idle_thread fd = record { fd = fd; busy_num = pos 0 }

unfoldable pub start : {p : Platform} → Start p → World p
unfolding factory_init
start s = record {
  clients = factory_init socket_num;
  socket_fd = s.socket_fd;
  new_fd = 0;
  round = 0;
  client_sum = pos 0;
  down_thread = map idle_thread s.down_fds;
  upload_thread = map idle_thread s.upload_fds;
  train = s.train;
  login_msg = s.login_msg;
  qq_msg = s.qq_msg;
  file_info = s.file_info;
  db = s.db;
  effects = [];
}

-- After any history of main's loop `client_sum` is the number of the connected clients, this is
-- at most MAX_CONNECT_NUM, and a slot has a place on the wheel exactly when its client is
-- connected. Of the kernel it is assumed that accept gives no connected client's descriptor.
pub Reach-start-Accounted :
    {p : Platform} (s : Start p) {w : World p}
    → Reach p (start s) w
    → Accounts w.round w.client_sum w.clients
Reach-start-Accounted {p} s r = (Reach-Accounted p accounted r).holds
  where
    accounted : Accounted (start s)
    accounted =
        unfold start in
        let i = factory_init-right socket_num in
        record {
          holds = record {
            on_wheel = omega arith;
            slots = i.0;
            counted = ap pos (sym i.1);
            within = omega (arith, i.1);
          };
        }
