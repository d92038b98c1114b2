-- ===== src/Server/Slots.antt =====
-- The table of clients: what a slot may hold, and how many slots are taken.
pub mod Steps
pub mod Cases
use cloudisk_server.Base.{
  ℕ, zero, suc, ◌+◌, ◌≤◌, ◌<◌, ◌≡◌, refl, sym, ap, ◌∙◌, subst, ◌⊎◌, inl, inr, List, [], ◌∷◌, ℤ, pos,
  minus_one, Outcome, ok, undefined, length, set, get_elem?, arith, inc, dec, length-set,
}
use cloudisk_server.Server.{Client, nth_client, max_connect_num}

-- A slot is free, with no place on the wheel, or taken, with one.
pub data IsSlot (c : Client) : Type 0 where
  free : c.state ≡ 0 → c.rotate ≡ minus_one → IsSlot c
  taken : 0 < c.state → c.state ≤ 2 → (r : ℕ) → c.rotate ≡ pos r → r < 5 → IsSlot c

pub record IsTaken (c : Client) : Type 0 where
  pub connected : 0 < c.state
  pub known : c.state ≤ 2
  pub place : ℕ
  pub at_place : c.rotate ≡ pos place
  pub on_wheel : place < 5

pub IsTaken-IsSlot : {c : Client} → IsTaken c → IsSlot c
IsTaken-IsSlot t = taken t.connected t.known t.place t.at_place t.on_wheel

abbrev pub flag : ℕ → ℕ
flag zero = 0
flag (suc n) = 1

-- The number of slots that are taken.
abbrev pub taken_count : List Client → ℕ
taken_count [] = 0
taken_count (c ∷ cs) = flag c.state + taken_count cs

abbrev pub AllSlots : List Client → Type 0
AllSlots [] = Unit
AllSlots (c ∷ cs) = IsSlot c × AllSlots cs

pub AllSlots-set :
    (cs : List Client) (i : ℕ) (c : Client) → AllSlots cs → IsSlot c → AllSlots (set cs i c)
AllSlots-set [] i c h k = tt
AllSlots-set (x ∷ xs) zero c h k = (k, h.1)
AllSlots-set (x ∷ xs) (suc i) c h k = (h.0, AllSlots-set xs i c h.1 k)

pub AllSlots-nth :
    (cs : List Client) (i : ℕ) (c : Client) → AllSlots cs → nth_client cs i ≡ ok c → IsSlot c
unfolding nth_client
AllSlots-nth [] i c h e = ground arith
AllSlots-nth (x ∷ xs) zero c h e = subst IsSlot (ground arith) h.0
AllSlots-nth (x ∷ xs) (suc i) c h e = AllSlots-nth xs i c h.1 e

pub nth_client-cases :
    (cs : List Client) (i : ℕ)
    → (nth_client cs i ≡ undefined) ⊎ ((c : Client) × (nth_client cs i ≡ ok c))
unfolding nth_client
nth_client-cases [] i = inl refl
nth_client-cases (x ∷ xs) zero = inr (x, refl)
nth_client-cases (x ∷ xs) (suc i) = nth_client-cases xs i

pub taken_count-set :
    (cs : List Client) (i : ℕ) (c c' : Client)
    → nth_client cs i ≡ ok c
    → taken_count (set cs i c') + flag c.state ≡ taken_count cs + flag c'.state
unfolding nth_client
taken_count-set [] i c c' e = ground arith
taken_count-set (x ∷ xs) zero c c' e = ground arith
taken_count-set (x ∷ xs) (suc i) c c' e = omega (arith, taken_count-set xs i c c' e)

pub nth_client-set :
    (cs : List Client) (i : ℕ) (c x : Client) → nth_client (set cs i c) i ≡ ok x → x ≡ c
unfolding nth_client
nth_client-set [] i c x e = ground arith
nth_client-set (y ∷ ys) zero c x e = ground arith
nth_client-set (y ∷ ys) (suc i) c x e = nth_client-set ys i c x e

-- The accounts of main: `client_sum` is the number of taken slots, which is within the limit, and
-- the wheel has five places.
pub record Accounts (round : ℕ) (client_sum : ℤ) (cs : List Client) : Type 0 where
  pub on_wheel : round < 5
  pub slots : AllSlots cs
  pub counted : client_sum ≡ pos (taken_count cs)
  pub within : taken_count cs ≤ max_connect_num

-- A client at `fd` is being served: its slot is taken.
pub record Serves (fd round : ℕ) (client_sum : ℤ) (cs : List Client) : Type 0 where
  pub accounts : Accounts round client_sum cs
  pub busy : (c : Client) → nth_client cs fd ≡ ok c → 0 < c.state

pub Serves-IsTaken :
    {fd round : ℕ} {client_sum : ℤ} {cs : List Client}
    → Serves fd round client_sum cs
    → (c : Client) → nth_client cs fd ≡ ok c
    → IsTaken c
Serves-IsTaken {fd} {cs = cs} s c e = go (AllSlots-nth cs fd c s.accounts.slots e)
  where
    go : IsSlot c → IsTaken c
    go (free z r) = absurd (omega (arith, s.busy c e))
    go (taken a b r p q) = record {
      connected = a;
      known = b;
      place = r;
      at_place = p;
      on_wheel = q;
    }

-- A taken slot may be given other contents, as long as it stays taken.
pub Serves-set :
    {fd round : ℕ} {client_sum : ℤ} {cs : List Client} (c c' : Client)
    → Serves fd round client_sum cs
    → nth_client cs fd ≡ ok c
    → IsTaken c'
    → Serves fd round client_sum (set cs fd c')
Serves-set {fd} {round} {client_sum} {cs} c c' s e t = record {
  accounts = record {
    on_wheel = s.accounts.on_wheel;
    slots = AllSlots-set cs fd c' s.accounts.slots (IsTaken-IsSlot t);
    counted = s.accounts.counted ∙ ap pos (sym same);
    within = omega (arith, same, s.accounts.within);
  };
  busy =
      λ x ex. subst (λ (y : Client). 0 < y.state) (sym (nth_client-set cs fd c' x ex)) t.connected;
}
  where
    flags : (a b : ℕ) → 0 < a → 0 < b → flag a ≡ flag b
    flags zero b p q = elim p [ ]
    flags (suc a) zero p q = elim q [ ]
    flags (suc a) (suc b) p q = refl

    same : taken_count (set cs fd c') ≡ taken_count cs
    same =
        omega (arith, taken_count-set cs fd c c' e, flags c.state c'.state (s.busy c e) t.connected)

-- A taken slot is freed, and the count goes down.
pub Accounts-free :
    {fd round : ℕ} {client_sum : ℤ} {cs : List Client} (c c' : Client)
    → Serves fd round client_sum cs
    → nth_client cs fd ≡ ok c
    → c'.state ≡ 0
    → c'.rotate ≡ minus_one
    → Accounts round (dec client_sum) (set cs fd c')
Accounts-free {fd} {round} {client_sum} {cs} c c' s e st ro = record {
  on_wheel = s.accounts.on_wheel;
  slots = AllSlots-set cs fd c' s.accounts.slots (free st ro);
  counted = ap dec (s.accounts.counted ∙ ap pos one_less);
  within = omega (arith, one_less, s.accounts.within);
}
  where
    one : (a : ℕ) → 0 < a → flag a ≡ 1
    one zero p = elim p [ ]
    one (suc a) p = refl

    one_less : taken_count cs ≡ suc (taken_count (set cs fd c'))
    one_less = omega (arith, taken_count-set cs fd c c' e, one c.state (s.busy c e), ap flag st)
