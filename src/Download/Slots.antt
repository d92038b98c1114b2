-- ===== src/Download/Slots.antt =====
-- A client's count of files and its ten slots agree, whatever arrives.
use cloudisk_server.Base.{
  ℕ, zero, suc, ◌+◌, ◌≤◌, ◌<◌, ◌≡◌, refl, ap, ◌∙◌, subst, List, [], ◌∷◌, Bool, true, false,
  Bool-cases, inl, inr, if◌then◌else◌, ℤ, pos, eqb_ℤ, ltb_ℤ, dec, ok, Ensures, Ensures-after, arith,
  length, length-set, set, ok_inj,
}
use cloudisk_server.Base.Runs
use cloudisk_server.Upload.{add_int}
use cloudisk_server.Download.{
  CdInfo, no_info, SdInfo, no_client, Session, nth_info, disconnect, free_slot, send_train,
  del_task, end_file, send_part, normal_slice, map_slice, map_bytes, left_to_send, succeeds,
}

-- A slot is empty, or it has a file that is read or mapped.
pub data IsSlot (c : CdInfo) : Type 0 where
  empty : c.state ≡ 0 → c.sfd ≡ 0 → IsSlot c
  busy : 0 < c.state → 0 < c.sfd → IsSlot c

abbrev pub flag : ℕ → ℕ
flag zero = 0
flag (suc n) = 1

-- The number of slots with a file.
abbrev pub busy_count : List CdInfo → ℕ
busy_count [] = 0
busy_count (c ∷ cs) = flag c.state + busy_count cs

abbrev pub AllSlots : List CdInfo → Type 0
AllSlots [] = Unit
AllSlots (c ∷ cs) = IsSlot c × AllSlots cs

-- A client has ten slots, and task_num is the number of its files.
pub record Counted (c : SdInfo) : Type 0 where
  pub ten : length c.cdinfo ≡ 10
  pub slots : AllSlots c.cdinfo
  pub counted : c.task_num ≡ pos (busy_count c.cdinfo)

pub no_client-Counted : Counted no_client
no_client-Counted = record {
  ten = refl;
  slots = (
    empty refl refl,
    (
      empty refl refl,
      (
        empty refl refl,
        (
          empty refl refl,
          (
            empty refl refl,
            (
              empty refl refl,
              (empty refl refl, (empty refl refl, (empty refl refl, (empty refl refl, tt)))),
            ),
          ),
        ),
      ),
    ),
  );
  counted = refl;
}

pub AllSlots-set :
    (cs : List CdInfo) (k : ℕ) (c : CdInfo) → AllSlots cs → IsSlot c → AllSlots (set cs k c)
AllSlots-set [] k c h i = tt
AllSlots-set (x ∷ xs) zero c h i = (i, h.1)
AllSlots-set (x ∷ xs) (suc k) c h i = (h.0, AllSlots-set xs k c h.1 i)

pub busy_count-set :
    (cs : List CdInfo) (k : ℕ) (c c' : CdInfo)
    → nth_info cs k ≡ ok c
    → busy_count (set cs k c') + flag c.state ≡ busy_count cs + flag c'.state
unfolding nth_info
busy_count-set [] k c c' e = ground arith
busy_count-set (x ∷ xs) zero c c' e = ground arith
busy_count-set (x ∷ xs) (suc k) c c' e = omega (arith, busy_count-set xs k c c' e)

pub busy_count-le : (cs : List CdInfo) → busy_count cs ≤ length cs
busy_count-le [] = omega arith
busy_count-le (c ∷ cs) = omega (arith, busy_count-le cs, flag_le c.state)
  where
    flag_le : (n : ℕ) → flag n ≤ 1
    flag_le zero = omega arith
    flag_le (suc n) = omega arith

pub AllSlots-nth :
    (cs : List CdInfo) (k : ℕ) (c : CdInfo) → AllSlots cs → nth_info cs k ≡ ok c → IsSlot c
unfolding nth_info
AllSlots-nth [] k c h e = absurd (ground arith)
AllSlots-nth (x ∷ xs) zero c h e = subst IsSlot (ok_inj e) h.0
AllSlots-nth (x ∷ xs) (suc k) c h e = AllSlots-nth xs k c h.1 e

-- The slot that free_slot finds is empty.
pub free_slot_empty :
    (cs : List CdInfo) (k : ℕ)
    → AllSlots cs
    → busy_count cs < length cs
    → (i : ℕ) × (c : CdInfo) × (free_slot k cs ≡ k + i) × (nth_info cs i ≡ ok c) × (c.state ≡ 0)
unfolding free_slot nth_info
free_slot_empty [] k h lt = absurd (omega arith)
free_slot_empty (c ∷ cs) k (empty s f, h) lt = (0, c, rw f (omega arith), refl, s)
free_slot_empty (c ∷ cs) k (busy s f, h) lt =
    let r = free_slot_empty cs (k + 1) h (omega (arith, flag_pos c.state s)) in
    (suc r.0, r.1, ground (arith, r.2), r.3, r.4)
  where
    flag_pos : (n : ℕ) → 0 < n → flag n ≡ 1
    flag_pos zero p = elim p [ ]
    flag_pos (suc n) p = refl

pub flag_busy : (n : ℕ) → 0 < n → flag n ≡ 1
flag_busy zero p = elim p [ ]
flag_busy (suc n) p = refl

disconnect-Counted : (ret : ℤ) (s : Session) → Counted (disconnect ret s).client
unfolding disconnect
disconnect-Counted ret s = no_client-Counted

-- A slot with a file may be moved on.
set-Counted :
    (s : SdInfo) (k : ℕ) (x c : CdInfo)
    → Counted s
    → nth_info s.cdinfo k ≡ ok x
    → 0 < x.state
    → 0 < c.state
    → 0 < c.sfd
    → Counted (record s { cdinfo = set s.cdinfo k c })
set-Counted s k x c h e p q r = record {
  ten = length-set s.cdinfo k c ∙ h.ten;
  slots = AllSlots-set s.cdinfo k c h.slots (busy q r);
  counted =
      h.counted
      ∙ ap pos (
          omega (arith, busy_count-set s.cdinfo k x c e, flag_busy x.state p, flag_busy c.state q));
}

-- A slot is given up, and task_num goes down.
free-Counted :
    (s : SdInfo) (k : ℕ) (x : CdInfo)
    → Counted s
    → nth_info s.cdinfo k ≡ ok x
    → 0 < x.state
    → Counted (record s { task_num = dec s.task_num; cdinfo = set s.cdinfo k no_info })
free-Counted s k x h e p = record {
  ten = length-set s.cdinfo k no_info ∙ h.ten;
  slots = AllSlots-set s.cdinfo k no_info h.slots (empty refl refl);
  counted = ap dec (h.counted ∙ ap pos one_more);
}
  where
    one_more : busy_count s.cdinfo ≡ suc (busy_count (set s.cdinfo k no_info))
    one_more = omega (arith, busy_count-set s.cdinfo k x no_info e, flag_busy x.state p)

end_file-Counted :
    (k : ℕ) (c x : CdInfo) (s : Session)
    → Counted s.client
    → nth_info s.client.cdinfo k ≡ ok x
    → 0 < x.state
    → Counted (end_file k c s).1.client
unfolding end_file send_train del_task disconnect
end_file-Counted k c x s h e p = elim (Bool-cases (succeeds s.sendings)) [
  | inl sent ↦ elim (Bool-cases (eqb_ℤ (dec s.client.task_num) (pos 0))) [
    | inl last ↦ rw (sent, last) no_client-Counted
    | inr more ↦ rw (sent, more) (free-Counted s.client k x h e p)
  ]
  | inr lost ↦ rw lost no_client-Counted
]

pub nth_info-set :
    (cs : List CdInfo) (k : ℕ) (x c : CdInfo)
    → nth_info cs k ≡ ok x
    → nth_info (set cs k c) k ≡ ok c
unfolding nth_info
nth_info-set [] k x c e = absurd (ground arith)
nth_info-set (y ∷ ys) zero x c e = refl
nth_info-set (y ∷ ys) (suc k) x c e = nth_info-set ys k x c e

-- After a part has gone out the client is right, and unless it is gone its slot still has a file.
record Sent (k : ℕ) (r : Bool × Session) : Type 0 where
  right : Counted r.1.client
  there : r.0 ≡ false → (x : CdInfo) × (nth_info r.1.client.cdinfo k ≡ ok x) × (0 < x.state)

send_part-Sent :
    (k n : ℕ) (c : CdInfo) (bytes : List ℕ) (s : Session)
    → Counted s.client
    → nth_info s.client.cdinfo k ≡ ok c
    → 0 < c.state
    → Sent k (send_part k c bytes n s)
unfolding send_part send_train disconnect
send_part-Sent k n c bytes s h e p = elim (Bool-cases (succeeds s.sendings)) [
  | inl sent ↦ rw sent (record {
    right = set-Counted s.client k c _ h e p p file;
    there = λ _. (_, nth_info-set s.client.cdinfo k c _ e, p);
  })
  | inr lost ↦ rw lost (record { right = no_client-Counted; there = λ b. absurd (ground arith) })
]
  where
    file : 0 < c.sfd
    file = has_file (AllSlots-nth s.client.cdinfo k c h.slots e)
      where
        has_file : IsSlot c → 0 < c.sfd
        has_file (empty z f) = absurd (omega (arith, z, p))
        has_file (busy q f) = f

pub normal_slice-Counted :
    (slice k : ℕ) (c : CdInfo) (s : Session)
    → Counted s.client
    → nth_info s.client.cdinfo k ≡ ok c
    → 0 < c.state
    → Counted (normal_slice slice k c s).1.client
unfolding normal_slice
normal_slice-Counted slice k c s h e p = elim (Bool-cases (ltb_ℤ c.place c.file.filesize)) [
  | inl more ↦ rw more ((send_part-Sent k _ c _ s h e p).right)
  | inr done ↦ rw done (end_file-Counted k c c s h e p)
]

pub map_slice-Counted :
    (slice k : ℕ) (c : CdInfo) (s : Session)
    → Counted s.client
    → nth_info s.client.cdinfo k ≡ ok c
    → 0 < c.state
    → Ensures (λ r. Counted r.1.client) (map_slice slice k c s)
unfolding map_slice
map_slice-Counted slice k c s h e p =
    elim (Bool-cases (ltb_ℤ (add_int c.place slice) c.file.filesize)) [
      | inl more ↦ rw more (
          Runs.Ensures-after _ (map_bytes c slice) _
            λ bytes. (send_part-Sent k slice c bytes s h e p).right)
      | inr last ↦ rw last (
          Runs.Ensures-after _ (left_to_send c) _ λ n.
            Runs.Ensures-after _ (map_bytes c n) _
              λ bytes. trail (send_part k c bytes n s) (send_part-Sent k n c bytes s h e p))
    ]
  where
    trail :
        (r : Bool × Session)
        → Sent k r
        → Counted (if r.0 then (true, r.1) else end_file k c r.1).1.client
    trail (true, s1) t = t.right
    trail (false, s1) t = let (x, e1, q) = t.there refl in end_file-Counted k c x s1 t.right e1 q
