-- ===== src/Drive/Cloud/Queue.antt =====
-- How a response gets from a worker to the reactor: schedule_response, drain_async_queue and the
-- part of reactor_loop for notify_fd_, in server/src/cloud_server.cpp.
use cloudisk_server.Base.{ℕ, ◌+◌, ◌<◌, ◌≡◌, List, [], ◌∷◌, ◌++◌, ◌==◌, if◌then◌else◌}
use cloudisk_server.Drive.Protocol.{Message, encode}

-- The outbound buffers of the connections that are open.
abbrev pub Outbound : Type 0
Outbound = List (ℕ × List ℕ)

-- connections_.find, and the bytes at the end of the buffer; a response to no connection is dropped.
unfoldable pub append_to : ℕ → List ℕ → Outbound → Outbound
append_to fd bytes [] = []
append_to fd bytes (c ∷ cs) =
    let rest = append_to fd bytes cs in if c.0 == fd then (c.0, c.1 ++ bytes) ∷ cs else c ∷ rest

-- The loop of drain_async_queue over what it has swapped out.
unfoldable pub deliver : List (ℕ × Message) → Outbound → Outbound
deliver [] out = out
deliver (r ∷ rs) out = deliver rs (append_to r.0 (encode r.1) out)

-- Where the reactor is in its loop: in epoll_wait, at the event of notify_fd_, or behind
-- drain_async_queue and before its read.
pub data Place : Type 0 where
  in_wait at_event drained : Place

-- What the reactor shares with the workers: async_responses_, the counter of the eventfd, and where
-- the reactor is; its connections are its own.
pub record Notify : Type 0 where
  pub queue : List (ℕ × Message)
  pub counter : ℕ
  pub place : Place
  pub outbound : Outbound

-- schedule_response
unfoldable pub schedule : ℕ × Message → Notify → Notify
schedule r n = record n { queue = n.queue ++ r ∷ []; counter = n.counter + 1 }

-- drain_async_queue
unfoldable pub drain : Notify → Notify
drain n = record n { queue = []; outbound = deliver n.queue n.outbound; place = drained }

-- read(notify_fd_) takes the whole counter.
unfoldable pub read_counter : Notify → Notify
read_counter n = record n { counter = 0; place = in_wait }

-- A step: a response is scheduled, at any time, or the reactor goes on. epoll_wait reports
-- notify_fd_ only while its counter is not 0.
pub data Step : Notify → Notify → Type 0 where
  schedules : (n : Notify) (r : ℕ × Message) → Step n (schedule r n)
  wakes : (n : Notify) → n.place ≡ in_wait → 0 < n.counter → Step n (record n { place = at_event })
  drains : (n : Notify) → n.place ≡ at_event → Step n (drain n)
  reads : (n : Notify) → n.place ≡ drained → Step n (read_counter n)

-- A step of the reactor.
abbrev pub IsReactor : {n n' : Notify} → Step n n' → Type 0
IsReactor (schedules n r) = ⊥
IsReactor (wakes n p h) = Unit
IsReactor (drains n p) = Unit
IsReactor (reads n p) = Unit
