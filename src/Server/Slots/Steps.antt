-- ===== src/Server/Slots/Steps.antt =====
-- Each step of the code that serves a client keeps the accounts.
use cloudisk_server.Base.{
  ℕ, ◌≤◌, ◌<◌, ◌≡◌, refl, ◌∙◌, set, minus_one, ℤ, pos, Outcome, ok, exits, undefined, waits,
  Ensures, arith,
}
use cloudisk_server.Base.Bytes.{fits}
use cloudisk_server.Database.{Text, Platform}
use cloudisk_server.Database.Directories.{operate_func}
use cloudisk_server.Server.Steps.{Exec, Takes}
use cloudisk_server.Server.{World, Client, nth_client, update_client, set_name}
use cloudisk_server.Server.Requests.{forget_client, operate}
use cloudisk_server.Server.Loop.{touch}
use cloudisk_server.Server.Plain.{On, reads, plain_rules}
use cloudisk_server.Server.Slots.{Accounts, Serves, Serves-IsTaken, Serves-set, Accounts-free}

module _ {p : Platform} where
  abbrev pub Accounted : World p → Type 0
  Accounted = On Accounts

  abbrev pub Serving : ℕ → World p → Type 0
  Serving fd = On (Serves fd)

  module _ (fd : ℕ) where
    -- A change of the client that leaves it connected and on the wheel.
    change :
        (w : World p) (c c' : Client)
        → Serving fd w
        → nth_client w.clients fd ≡ ok c
        → 0 < c'.state
        → c'.state ≤ 2
        → c'.rotate ≡ c.rotate
        → Serving fd (record w { clients = set w.clients fd c' })
    change w c c' h e pos_state known same =
        let t = Serves-IsTaken h.holds c e in
        record {
          holds = Serves-set c c' h.holds e (record {
            connected = pos_state;
            known = known;
            place = t.place;
            at_place = same ∙ t.at_place;
            on_wheel = t.on_wheel;
          });
        }

    pub set_name-Serving : (s : Text) → Takes (Serving fd) (Serving fd) (set_name fd s)
    unfolding set_name
    set_name-Serving s = record {
      at = λ w h. reads (Serving fd) (fits 30 s) _ λ s' _.
          reads (Serving fd) (nth_client w.clients fd) _ λ c e.
            let t = Serves-IsTaken h.holds c e in
            change w c (record c { name = s' }) h e t.connected t.known refl;
    }

    pub set_state-Serving :
        (n : ℕ)
        → 0 < n
        → n ≤ 2
        → Takes (Serving fd) (Serving fd) (update_client fd (λ c. record c { state = n }))
    unfolding update_client
    set_state-Serving n lo hi = record {
      at = λ w h.
          reads (Serving fd) (nth_client w.clients fd) _
            λ c e. change w c (record c { state = n }) h e lo hi refl;
    }

    pub state_one : Takes (Serving fd) (Serving fd) (update_client fd (λ c. record c { state = 1 }))
    state_one = set_state-Serving 1 (omega arith) (omega arith)

    pub state_two : Takes (Serving fd) (Serving fd) (update_client fd (λ c. record c { state = 2 }))
    state_two = set_state-Serving 2 (omega arith) (omega arith)

    pub set_code-Serving :
        (a : ℤ) → Takes (Serving fd) (Serving fd) (update_client fd (λ c. record c { code = a }))
    unfolding update_client
    set_code-Serving a = record {
      at = λ w h. reads (Serving fd) (nth_client w.clients fd) _ λ c e.
          let t = Serves-IsTaken h.holds c e in
          change w c (record c { code = a }) h e t.connected t.known refl;
    }

    pub operate-Serving : Takes (Serving fd) (Serving fd) (operate fd)
    unfolding operate
    operate-Serving = record {
      at = λ w h. reads (Serving fd) (nth_client w.clients fd) _ λ c e.
          reads (Serving fd)
            (operate_func p (record { train = w.train; qq = w.qq_msg; code = c.code }) c.name w.db)
            _
            λ r _.
              let t = Serves-IsTaken h.holds c e in
              record {
                holds =
                    (change w c (record c { code = r.0.1.code }) h e t.connected t.known
                      refl).holds;
              };
    }

    -- The place on the wheel is renewed.
    pub touch-Serving : Takes (Serving fd) (Serving fd) (touch p fd)
    unfolding touch
    touch-Serving = record {
      at = λ w h. reads (Serving fd) (nth_client w.clients fd) _ λ c e.
          let t = Serves-IsTaken h.holds c e in
          record {
            holds =
                Serves-set c (record c { rotate = pos w.round }) h.holds e
                  (record {
                    connected = t.connected;
                    known = t.known;
                    place = w.round;
                    at_place = refl;
                    on_wheel = h.holds.accounts.on_wheel;
                  });
          };
    }

    pub forget_client-Accounted : Takes (Serving fd) Accounted (forget_client fd)
    unfolding forget_client
    forget_client-Accounted = record {
      at = λ w h. reads Accounted (nth_client w.clients fd) _ λ c e. record {
        holds =
            Accounts-free c (record c { state = 0; code = pos 0; rotate = minus_one }) h.holds e
              refl refl;
      };
    }

    pub done-Accounted :
        (A : Type 0) (m : Exec (World p) A)
        → Takes (Serving fd) (Serving fd) m
        → Takes (Serving fd) Accounted m
    done-Accounted A m t = record { at = λ w h. weaken (m w) (t.at w h) }
      where
        weaken :
            (r : Outcome (A × World p))
            → Ensures (λ x. Serving fd x.1) r
            → Ensures (λ x. Accounted x.1) r
        weaken (ok x) h = record { holds = h.holds.accounts }
        weaken exits h = tt
        weaken undefined h = tt
        weaken waits h = tt

pub ruleset serving_rules = (
  plain_rules, set_name-Serving, set_code-Serving, operate-Serving, touch-Serving,
  forget_client-Accounted, state_one, state_two,
)
