-- ===== src/Download/Counts.antt =====
-- The accounts of a download thread.
use cloudisk_server.Base.{
  ℕ, zero, suc, ◌+◌, ◌<◌, ◌≡◌, refl, sym, ap, ◌∙◌, List, true, none, some, Bool-cases, inl, inr,
  ◌==◌, pos, minus_one, ltb_ℤ, inc, ok, Ensures, Ensures->>=, Ensures-after, arith, length,
  length-set, set, drop,
}
use cloudisk_server.Base.Runs
use cloudisk_server.Base.Bytes.{fits}
use cloudisk_server.Server.Requests.{read_info}
use cloudisk_server.Upload.{stored_path}
use cloudisk_server.Download.{
  CdInfo, SdInfo, Session, nth_info, disconnect, Opened, add_task, free_slot, add_request,
  enter_request, send_slot, send_slots, slice_of, send_round,
}
use cloudisk_server.Download.Slots.{
  busy, flag, busy_count, Counted, no_client-Counted, AllSlots-set, busy_count-set, free_slot_empty,
  flag_busy, normal_slice-Counted, map_slice-Counted,
}

send_slot-Counted :
    (slice k : ℕ) (c : CdInfo) (s : Session)
    → Counted s.client
    → nth_info s.client.cdinfo k ≡ ok c
    → Ensures (λ r. Counted r.1.client) (send_slot slice k c s)
unfolding send_slot
send_slot-Counted slice k c s h e =
    Runs.Ensures-if _ (c.state == 1) _ _
      (λ one. normal_slice-Counted slice k c s h e (ground arith))
      λ _.
        Runs.Ensures-if _ (c.state == 2) _ _
          (λ two. map_slice-Counted slice k c s h e (ground arith)) λ _. h

send_slots-Counted :
    (left k slice : ℕ) (s : Session)
    → Counted s.client
    → Ensures (λ r. Counted r.client) (send_slots left k slice s)
unfolding send_slots
send_slots-Counted zero k slice s h = h
send_slots-Counted (suc left) k slice s h =
    Runs.Ensures-reads _ (nth_info s.client.cdinfo k) _ λ c e.
      Runs.Ensures->>= _ _ (send_slot slice k c s) _ (send_slot-Counted slice k c s h e)
        λ r t. Runs.Ensures-if _ r.0 _ _ (λ _. t) (λ _. send_slots-Counted left (k + 1) slice r.1 t)

-- A descriptor that open gives is not 0, which the thread's own input has.
abbrev pub IsOpened : Opened → Type 0
IsOpened none = Unit
IsOpened (some (fd, bytes)) = 0 < fd

-- A slot that add_task fills has a file.
add_task_busy :
    (opened : Opened) (dq : List ℕ)
    → IsOpened opened
    → Ensures (λ r. (0 < r.0.state) × (0 < r.0.sfd)) (add_task opened dq)
unfolding add_task
add_task_busy none dq h = tt
add_task_busy (some (fd, bytes)) dq h =
    Runs.Ensures-after _ (read_info (drop 44 dq)) _
      λ file. Runs.Ensures-after _ (fits 100 (stored_path file)) _ λ path. (ground arith, h)

filled-Counted :
    (s : SdInfo) (c : CdInfo)
    → Counted s
    → ltb_ℤ s.task_num (pos 10) ≡ true
    → 0 < c.state
    → 0 < c.sfd
    → Counted
        (record s { task_num = inc s.task_num; cdinfo = set s.cdinfo (free_slot 0 s.cdinfo) c })
filled-Counted s c h room p q = record {
  ten = length-set s.cdinfo (free_slot 0 s.cdinfo) c ∙ h.ten;
  slots = AllSlots-set s.cdinfo (free_slot 0 s.cdinfo) c h.slots (busy p q);
  counted = ap inc h.counted ∙ ap pos (sym more);
}
  where
    below : busy_count s.cdinfo < length s.cdinfo
    below = ground (arith, h.counted, h.ten)

    more : busy_count (set s.cdinfo (free_slot 0 s.cdinfo) c) ≡ suc (busy_count s.cdinfo)
    more =
        let (i, x, at, e, idle) = free_slot_empty s.cdinfo 0 h.slots below in
        let at' : free_slot 0 s.cdinfo ≡ i = omega (arith, at) in
        rw at' (omega (arith, busy_count-set s.cdinfo i x c e, ap flag idle, flag_busy c.state p))

enter_request-Counted :
    (opened : Opened) (dq : List ℕ) (s : Session)
    → IsOpened opened
    → Counted s.client
    → ltb_ℤ s.client.task_num (pos 10) ≡ true
    → Ensures (λ r. Counted r.client) (enter_request opened dq s)
unfolding enter_request
enter_request-Counted opened dq s good h room =
    Runs.Ensures-after _ (nth_info s.client.cdinfo (free_slot 0 s.client.cdinfo)) _ λ _.
      Runs.Ensures->>= _ _ (add_task opened dq) _ (add_task_busy opened dq good)
        λ r t. filled-Counted s.client r.0 h room t.0 t.1

pub add_request-Counted :
    (opened : Opened) (dq : List ℕ) (s : Session)
    → IsOpened opened
    → Counted s.client
    → Ensures (λ r. Counted r.client) (add_request opened dq s)
unfolding add_request disconnect
add_request-Counted opened dq s good h = elim (Bool-cases (ltb_ℤ s.client.task_num (pos 10))) [
  | inl room ↦ rw room (enter_request-Counted opened dq s good h room)
  | inr full ↦
      rw full (enter_request-Counted opened dq (disconnect minus_one s) good no_client-Counted refl)
]

pub send_round-Counted :
    (s : Session) → Counted s.client → Ensures (λ r. Counted r.client) (send_round s)
unfolding send_round
send_round-Counted s h =
    Runs.Ensures-after _ (slice_of s.client.task_num) _ λ slice. send_slots-Counted 10 0 slice s h
