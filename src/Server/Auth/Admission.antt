-- ===== src/Server/Auth/Admission.antt =====
-- How a client comes to be logged in.
use cloudisk_server.Base.{
  ℕ, zero, suc, ◌<◌, ◌≡◌, refl, sym, ap, subst, ◌∙◌, ◌⊎◌, inl, inr, List, [], ◌∷◌, set, false, ℤ,
  pos, minus_one, eqb_ℤ, Outcome, ok, exits, undefined, waits, Ensures, arith, ok_inj,
}
use cloudisk_server.Base.Bytes.{fits, string_at, memcpy}
use cloudisk_server.Database.{Text, Platform}
use cloudisk_server.Database.Users.{math_user}
use cloudisk_server.Database.Directories.{operate_func}
use cloudisk_server.Server.{World, Client, nth_client, size, update_client, set_name}
use cloudisk_server.Server.Slots.{nth_client-set}
use cloudisk_server.Server.Steps.{Exec, Takes, Ends-then}
use cloudisk_server.Server.Plain.{On, reads, plain_rules, answer-On}
use cloudisk_server.Server.Sessions.{login_pre_case, login_q_case, register_pre_case}
use cloudisk_server.Server.Requests.{
  requested_file, operate, forget_client, ls_case, operate_case, download_pre_case, down_more_case,
  upload_pre_case, download_q_case, upload_q_case,
}

nth_client-set_cases :
    (cs : List Client) (i j : ℕ) (c x : Client)
    → nth_client (set cs i c) j ≡ ok x
    → ((j ≡ i) × (x ≡ c)) ⊎ (nth_client cs j ≡ ok x)
unfolding nth_client
nth_client-set_cases [] i j c x e = inr e
nth_client-set_cases (y ∷ ys) zero zero c x e = inl (refl, ok_inj (sym e))
nth_client-set_cases (y ∷ ys) zero (suc j) c x e = inr e
nth_client-set_cases (y ∷ ys) (suc i) zero c x e = inr e
nth_client-set_cases (y ∷ ys) (suc i) (suc j) c x e = elim (nth_client-set_cases ys i j c x e) [
  | inl (a, b) ↦ inl (ap suc a, b)
  | inr old ↦ inr old
]

-- The credentials of a log-in message: train.buf, as long as train.len says, is copied over
-- login_msg, and they are the strings at the offsets of the fields of Zhuce.
pub record Credentials {p : Platform} (w0 : World p) (name passward token : Text) : Type 0 where
  pub count : ℕ
  pub msg : List ℕ
  pub sized : size w0.train.len ≡ ok count
  pub copied : memcpy w0.login_msg w0.train.buf count ≡ ok msg
  pub name_at : string_at 0 msg ≡ ok name
  pub passward_at : string_at 30 msg ≡ ok passward
  pub token_at : string_at 130 msg ≡ ok token

-- Why the client in slot `i` may be logged in, after a message from slot `fd`: it was before, under
-- the same name, or it is the sender and math_user, called on the database as it was with the
-- credentials of the message, has returned something else than -1; the client has their name.
pub data Entitled {p : Platform} (w0 : World p) (fd i : ℕ) (c' : Client) : Type 0 where
  kept :
      (c : Client)
      → nth_client w0.clients i ≡ ok c
      → c.state ≡ 2
      → c'.name ≡ c.name
      → Entitled w0 fd i c'
  proved :
      i ≡ fd
      → (passward token : Text) (ret : ℤ) (d' : p.Db) → Credentials w0 c'.name passward token
      → math_user p c'.name passward token w0.db ≡ ok (ret, d')
      → eqb_ℤ ret minus_one ≡ false
      → Entitled w0 fd i c'

-- Every client that is logged in has a right to be.
pub record Honest {p : Platform} (w0 : World p) (fd round : ℕ) (client_sum : ℤ) (cs : List Client)
    : Type 0 where
  pub each : (i : ℕ) (c' : Client) → nth_client cs i ≡ ok c' → c'.state ≡ 2 → Entitled w0 fd i c'

-- Moreover the sender is not logged in.
pub record SignedOut {p : Platform} (w0 : World p) (fd round : ℕ) (client_sum : ℤ)
    (cs : List Client) : Type 0 where
  pub honest : Honest w0 fd round client_sum cs
  out : (c : Client) → nth_client cs fd ≡ ok c → c.state < 2

-- Moreover the sender has the name.
pub record Named {p : Platform} (w0 : World p) (fd : ℕ) (s : Text) (round : ℕ) (client_sum : ℤ)
    (cs : List Client) : Type 0 where
  pub honest : Honest w0 fd round client_sum cs
  pub named : (c : Client) → nth_client cs fd ≡ ok c → c.name ≡ s

module _ {p : Platform} (w0 : World p) (fd : ℕ) where
  pub renamed :
      (i : ℕ) (c c' : Client) → c'.name ≡ c.name → Entitled w0 fd i c → Entitled w0 fd i c'
  renamed i c c' e (kept x a b n) = kept x a b (e ∙ n)
  renamed i c c' e (proved at pw token ret d' from run good) =
      proved at pw token ret d' (subst (λ (s : Text). Credentials w0 s pw token) (sym e) from)
        (ap (λ (s : Text). math_user p s pw token w0.db) e ∙ run) good

  abbrev pub AllHonest : World p → Type 0
  AllHonest = On (Honest w0 fd)

  abbrev pub AllOut : World p → Type 0
  AllOut = On (SignedOut w0 fd)

  abbrev pub AllNamed : Text → World p → Type 0
  AllNamed s = On (Named w0 fd s)

  pub Honest-set :
      {r : ℕ} {n n' : ℤ} (cs : List Client) (c' : Client)
      → Honest w0 fd r n cs
      → (c'.state ≡ 2 → Entitled w0 fd fd c')
      → Honest w0 fd r n' (set cs fd c')
  Honest-set cs c' h k = record {
    each = λ i x e two. elim (nth_client-set_cases cs fd i c' x e) [
      | inl (a, b) ↦
          subst (λ (j : ℕ). Entitled w0 fd j x) (sym a)
            (renamed fd c' x (ap (λ (y : Client). y.name) b)
              (k (ap (λ (y : Client). y.state) (sym b) ∙ two)))
      | inr old ↦ h.each i x old two
    ];
  }

  -- What holds of the new client at `fd`.
  pub at_fd {ℓ} :
      (P : Client → Type ℓ) (cs : List Client) (c' : Client)
      → P c'
      → (x : Client) → nth_client (set cs fd c') fd ≡ ok x
      → P x
  at_fd P cs c' new x e = subst P (sym (nth_client-set cs fd c' x e)) new

  not_two : {n : ℕ} {A : Type 0} → n < 2 → n ≡ 2 → A
  not_two lt e = absurd (omega arith)

  state_one : Takes AllHonest AllOut (update_client fd (λ c. record c { state = 1 }))
  unfolding update_client
  state_one = record {
    at = λ w h. reads AllOut (nth_client w.clients fd) _ λ c e.
        let c' : Client = record c { state = 1 } in
        record {
          holds = record {
            honest = Honest-set w.clients c' h.holds (λ two. absurd (omega (arith, two)));
            out = at_fd (λ x. x.state < 2) w.clients c' (omega arith);
          };
        };
  }

  set_name-Out : (s : Text) → Takes AllOut AllOut (set_name fd s)
  unfolding set_name
  set_name-Out s = record {
    at = λ w h. reads AllOut (fits 30 s) _ λ s' _. reads AllOut (nth_client w.clients fd) _ λ c e.
        let c' : Client = record c { name = s' } in
        record {
          holds = record {
            honest = Honest-set w.clients c' h.holds.honest (not_two (h.holds.out c e));
            out = at_fd (λ x. x.state < 2) w.clients c' (h.holds.out c e);
          };
        };
  }

  pub set_code-Honest :
      (a : ℤ) → Takes AllHonest AllHonest (update_client fd (λ c. record c { code = a }))
  unfolding update_client
  set_code-Honest a = record {
    at = λ w h. reads AllHonest (nth_client w.clients fd) _ λ c e. record {
      holds =
          Honest-set w.clients (record c { code = a }) h.holds
            (λ two. renamed fd c _ refl (h.holds.each fd c e two));
    };
  }

  pub forget_client-Honest : Takes AllHonest AllHonest (forget_client fd)
  unfolding forget_client
  forget_client-Honest = record {
    at = λ w h. reads AllHonest (nth_client w.clients fd) _ λ c e. record {
      holds =
          Honest-set w.clients (record c { state = 0; code = pos 0; rotate = minus_one }) h.holds
            (λ two. absurd (omega (arith, two)));
    };
  }

  pub operate-Honest : Takes AllHonest AllHonest (operate fd)
  unfolding operate
  operate-Honest = record {
    at = λ w h. reads AllHonest (nth_client w.clients fd) _ λ c e.
        reads AllHonest
          (operate_func p (record { train = w.train; qq = w.qq_msg; code = c.code }) c.name w.db) _
          λ r _. record {
            holds =
                Honest-set w.clients (record c { code = r.0.1.code }) h.holds
                  (λ two. renamed fd c _ refl (h.holds.each fd c e two));
          };
  }

  -- What leaves the sender signed out leaves all well.
  pub out-Honest :
      (A : Type 0) (m : Exec (World p) A) → Takes AllHonest AllOut m → Takes AllHonest AllHonest m
  out-Honest A m t = record { at = λ w h. weaken (m w) (t.at w h) }
    where
      weaken :
          (r : Outcome (A × World p)) → Ensures (λ x. AllOut x.1) r → Ensures (λ x. AllHonest x.1) r
      weaken (ok x) h = record { holds = h.holds.honest }
      weaken exits h = tt
      weaken undefined h = tt
      weaken waits h = tt

pub ruleset honest_rules = (plain_rules, set_code-Honest, operate-Honest, forget_client-Honest)

ruleset out_rules = (plain_rules, state_one, set_name-Out, Ends-then)

module _ {p : Platform} (w0 : World p) (fd : ℕ) where
  pub login_pre-Honest :
      (rand : ℕ → ℕ) → Takes (AllHonest w0 fd) (AllOut w0 fd) (login_pre_case p fd rand)
  unfolding login_pre_case
  login_pre-Honest rand = search out_rules depth 30

  pub register_pre-Honest : Takes (AllHonest w0 fd) (AllOut w0 fd) (register_pre_case p fd)
  unfolding register_pre_case
  register_pre-Honest = search out_rules depth 30

  pub login_q-Honest : Takes (AllHonest w0 fd) (AllHonest w0 fd) (login_q_case p fd)
  unfolding login_q_case
  login_q-Honest = search honest_rules depth 30

  pub ls-Honest : Takes (AllHonest w0 fd) (AllHonest w0 fd) (ls_case p fd)
  unfolding ls_case
  ls-Honest = search honest_rules depth 30

  pub operate_case-Honest : Takes (AllHonest w0 fd) (AllHonest w0 fd) (operate_case p fd)
  unfolding operate_case
  operate_case-Honest = search honest_rules depth 30

  requested-Honest : Takes (AllHonest w0 fd) (AllHonest w0 fd) (requested_file {p = p} fd)
  unfolding requested_file
  requested-Honest = search honest_rules depth 30

  pub download_pre-Honest : Takes (AllHonest w0 fd) (AllHonest w0 fd) (download_pre_case p fd)
  unfolding download_pre_case
  download_pre-Honest = search (honest_rules, requested-Honest) depth 30

  pub down_more-Honest : Takes (AllHonest w0 fd) (AllHonest w0 fd) (down_more_case p fd)
  unfolding down_more_case
  down_more-Honest = search (honest_rules, requested-Honest) depth 30

  pub upload_pre-Honest : Takes (AllHonest w0 fd) (AllHonest w0 fd) (upload_pre_case p fd)
  unfolding upload_pre_case
  upload_pre-Honest = search honest_rules depth 30

  pub download_q-Honest : Takes (AllHonest w0 fd) (AllHonest w0 fd) (download_q_case p fd)
  unfolding download_q_case
  download_q-Honest = search (honest_rules, upload_pre-Honest) depth 30

  pub upload_q-Honest : Takes (AllHonest w0 fd) (AllHonest w0 fd) (upload_q_case p fd)
  unfolding upload_q_case
  upload_q-Honest = search honest_rules depth 30
