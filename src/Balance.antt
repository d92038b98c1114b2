-- ===== src/Balance.antt =====
-- math_task in src/factory.c, and the accounts of busy threads that main keeps with it.
pub mod Least
use cloudisk_server.Base.{
  ℕ, zero, suc, ◌+◌, ◌≤◌, ◌<◌, ◌≡◌, refl, ◌⊎◌, List, [], ◌∷◌, ◌==◌, if◌then◌else◌, ltb, ℤ, pos,
  minus_one, ltb_ℤ, inc, dec, ◌≤ℤ◌, Outcome, ok, undefined, arith,
}

-- process_data; the thread's id is never read.
pub record Worker : Type 0 where
  pub fd : ℕ
  pub busy_num : ℤ

-- DOWN_THREAD_NUM, UP_THREAD_NUM, AVG_CLIENT_NUM and UP_TASK_NUM
abbrev pub down_thread_num : ℕ
down_thread_num = 2

abbrev pub up_thread_num : ℕ
up_thread_num = 2

abbrev pub avg_client_num : ℕ
avg_client_num = 30

abbrev pub up_task_num : ℕ
up_task_num = 300

-- The loop of math_task at index `i`; `min` and `best` are the index and the thread of the least
-- load so far.
unfoldable pub least_busy : ℕ → ℕ → Worker → List Worker → ℕ × Worker
least_busy i min best [] = (min, best)
least_busy i min best (w ∷ ws) =
    if ltb_ℤ w.busy_num best.busy_num
    then least_busy (i + 1) i w ws
    else least_busy (i + 1) min best ws

-- math_task(p, max, task_num), where the array has `max` threads.
unfoldable pub math_task : List Worker → ℤ → Outcome ℤ
unfolding least_busy
math_task [] task_num = undefined
math_task (w ∷ ws) task_num =
    let (min, best) = least_busy 1 0 w ws in
    if ltb_ℤ best.busy_num task_num then ok (pos min) else ok minus_one

-- `busy_num++` at an index.
unfoldable pub add_busy : ℕ → List Worker → List Worker
add_busy i [] = []
add_busy zero (w ∷ ws) = record w { busy_num = inc w.busy_num } ∷ ws
add_busy (suc i) (w ∷ ws) = w ∷ add_busy i ws

-- `busy_num--` at the first thread with the descriptor.
unfoldable pub end_busy : ℕ → List Worker → List Worker
end_busy fd [] = []
end_busy fd (w ∷ ws) =
    let rest = w ∷ end_busy fd ws in
    if w.fd == fd then record w { busy_num = dec w.busy_num } ∷ ws else rest

-- main's loop on a readable descriptor: one `busy_num--` for each thread with it.
unfoldable pub thread_done : ℕ → List Worker → List Worker → List Worker
unfolding end_busy
thread_done fd [] ws = ws
thread_done fd (w ∷ rest) ws = thread_done fd rest (if w.fd == fd then end_busy fd ws else ws)
