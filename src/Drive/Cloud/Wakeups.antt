-- ===== src/Drive/Cloud/Wakeups.antt =====
-- Whether a scheduled response is sent, in server/src/cloud_server.cpp.
use cloudisk_server.Base.{ℕ, ◌<◌, ◌≡◌, ◌≢◌, refl, ap, [], ◌∷◌, ◌++◌, arith, length}
use cloudisk_server.Drive.Protocol.{Message}
use cloudisk_server.Drive.Cloud.Queue.{
  in_wait, drained, Notify, schedule, drain, read_counter, Step, schedules, wakes, drains, reads,
  IsReactor,
}

-- Nothing that is scheduled is forgotten: whoever has to look at the queue next is awake, or will
-- be woken.
abbrev pub IsNoticed : Notify → Type 0
IsNoticed n = 0 < length n.queue → n.place ≡ in_wait → 0 < n.counter

-- No response is scheduled behind drain_async_queue and before the read.
abbrev pub IsTimely : {n n' : Notify} → Step n n' → Type 0
IsTimely (schedules n r) = n.place ≢ drained
IsTimely (wakes n p h) = Unit
IsTimely (drains n p) = Unit
IsTimely (reads n p) = Unit

-- Behind the drain the queue is empty while all steps are timely.
abbrev pub IsKept : Notify → Type 0
IsKept n = (n.place ≡ drained → n.queue ≡ []) × IsNoticed n

pub data Run (n : Notify) : Notify → Type 0 where
  here : Run n n
  next : {a b : Notify} → Run n a → (st : Step a b) → IsTimely st → Run n b

Step-IsKept : {n n' : Notify} (st : Step n n') → IsTimely st → IsKept n → IsKept n'
unfolding schedule drain read_counter
Step-IsKept (schedules n r) t k = (λ p. absurd (t p), λ h p. omega arith)
Step-IsKept (wakes n p h) t k = (λ q. absurd (ground arith), λ l q. absurd (ground arith))
Step-IsKept (drains n p) t k = (λ q. refl, λ l q. absurd (omega arith))
Step-IsKept (reads n p) t k =
    (λ q. absurd (ground arith), λ l q. absurd (omega (arith, ap length (k.0 p))))

Run-IsKept : {n n' : Notify} → IsKept n → Run n n' → IsKept n'
Run-IsKept k here = k
Run-IsKept k (next r st t) = Step-IsKept st t (Run-IsKept k r)

-- While no response is scheduled between drain_async_queue and the read behind it, a response that
-- waits in the queue is noticed: where the reactor waits, its counter is not 0, so epoll_wait
-- reports it.
pub Run-IsNoticed : {n n' : Notify} → IsKept n → Run n n' → IsNoticed n'
Run-IsNoticed k r = (Run-IsKept k r).1

no_reactor_step :
    {s s' : Notify} (st : Step s s') → s.place ≡ in_wait → s.counter ≡ 0 → IsReactor st → ⊥
no_reactor_step (schedules n r) p c h = h
no_reactor_step (wakes n q l) p c h = absurd (omega arith)
no_reactor_step (drains n q) p c h = absurd (ground arith)
no_reactor_step (reads n q) p c h = absurd (ground arith)

-- A response that is scheduled behind drain_async_queue and before the read is lost: the reactor
-- waits with the response in the queue, and no step of it is possible until another response comes.
pub late_response_lost :
    (n : Notify) (r : ℕ × Message)
    → n.place ≡ drained
    → let s = read_counter (schedule r n) in
      (s.queue ≡ n.queue ++ r ∷ [])
      × (s.outbound ≡ n.outbound)
      × ((s' : Notify) (st : Step s s') → IsReactor st → ⊥)
unfolding schedule read_counter
late_response_lost n r p = (refl, refl, λ s' st h. no_reactor_step st refl refl h)
