-- ===== src/Download/Thread/Counts.antt =====
-- The accounts of a download thread over any sequence of events.
use cloudisk_server.Base.{
  ℕ, zero, suc, ◌≡◌, subst, List, [], ◌∷◌, Bool, none, some, ◌==◌, pos, minus_one, eqb_ℤ, ok,
  Ensures, Ensures->>=, Ensures-after, arith, get_elem?, replicate,
}
use cloudisk_server.Base.Runs
use cloudisk_server.Wire.{Recv, recv_cyl}
use cloudisk_server.Balance.{avg_client_num}
use cloudisk_server.Download.{
  SdInfo, no_client, Session, DownEffect, Opened, add_request, send_round,
}
use cloudisk_server.Download.Slots.{Counted, no_client-Counted}
use cloudisk_server.Download.Counts.{IsOpened, add_request-Counted, send_round-Counted}
use cloudisk_server.Download.Thread.{
  Downloads, DownReady, handed_over, request, output, enter_client, take_requests, send_to,
  on_download, no_downloads, down_func,
}

abbrev pub AllCounted : List SdInfo → Type 0
AllCounted [] = Unit
AllCounted (c ∷ cs) = Counted c × AllCounted cs

enter_client-AllCounted :
    (fd : ℕ) (cs : List SdInfo) → AllCounted cs → Ensures AllCounted (enter_client fd cs)
unfolding enter_client
enter_client-AllCounted fd [] h = tt
enter_client-AllCounted fd (c ∷ cs) h =
    Runs.Ensures-if AllCounted (c.download_fd == 0) _ _
      (λ _. (record { ten = h.0.ten; slots = h.0.slots; counted = h.0.counted }, h.1))
      λ _.
        Runs.Ensures->>= AllCounted AllCounted (enter_client fd cs) _
          (enter_client-AllCounted fd cs h.1) (λ cs' t. (h.0, t))

-- The clients that a loop over them leaves are right.
abbrev LeavesCounted : List SdInfo × List DownEffect → Type 0
LeavesCounted r = AllCounted r.0

take_requests-AllCounted :
    (fd : ℕ) (opened : Opened) (es : List Recv) (cs : List SdInfo) (done : List DownEffect)
    → IsOpened opened
    → AllCounted cs
    → Ensures LeavesCounted (take_requests fd opened es cs done)
unfolding take_requests
take_requests-AllCounted fd opened es [] done good h = tt
take_requests-AllCounted fd opened es (c ∷ cs) done good h =
    let s : Session = record { client = c; effects = done; sendings = [] } in
    Runs.Ensures-if LeavesCounted (c.download_fd == fd) _ _
      (λ _. Runs.Ensures-after LeavesCounted (recv_cyl es (pos 132)) _ λ b.
        Runs.Ensures-if LeavesCounted (eqb_ℤ b.ret minus_one) _ _ (λ _. (no_client-Counted, h.1))
          λ _.
            Runs.Ensures->>= (λ (x : Session). Counted x.client) LeavesCounted
              (add_request opened b.got s) _ (add_request-Counted opened b.got s good h.0)
              λ s' t.
                Runs.Ensures->>= LeavesCounted LeavesCounted
                  (take_requests fd opened b.rest cs s'.effects) _
                  (take_requests-AllCounted fd opened b.rest cs s'.effects good h.1)
                  (λ r u. (t, u)))
      (λ _.
        Runs.Ensures->>= LeavesCounted LeavesCounted (take_requests fd opened es cs done) _
          (take_requests-AllCounted fd opened es cs done good h.1) (λ r t. (h.0, t)))

send_to-AllCounted :
    (fd : ℕ) (sendings : List Bool) (cs : List SdInfo) (done : List DownEffect)
    → AllCounted cs
    → Ensures LeavesCounted (send_to fd sendings cs done)
unfolding send_to
send_to-AllCounted fd sendings [] done h = tt
send_to-AllCounted fd sendings (c ∷ cs) done h =
    Runs.Ensures-if LeavesCounted (c.download_fd == fd) _ _
      (λ _.
        Runs.Ensures->>= (λ (x : Session). Counted x.client) LeavesCounted (send_round s) _
          (send_round-Counted s h.0)
          λ s' t.
            Runs.Ensures->>= LeavesCounted LeavesCounted (send_to fd s'.sendings cs s'.effects) _
              (send_to-AllCounted fd s'.sendings cs s'.effects h.1) (λ r u. (t, u)))
      (λ _.
        Runs.Ensures->>= LeavesCounted LeavesCounted (send_to fd sendings cs done) _
          (send_to-AllCounted fd sendings cs done h.1) (λ r t. (h.0, t)))
  where
    s : Session
    s = record { client = c; effects = done; sendings = sendings }

-- What open gives in an event is no descriptor 0.
abbrev pub GoodEvent : DownReady → Type 0
GoodEvent (handed_over fd) = Unit
GoodEvent (request fd opened es) = IsOpened opened
GoodEvent (output fd sendings) = Unit

abbrev pub GoodEvents : List DownReady → Type 0
GoodEvents [] = Unit
GoodEvents (e ∷ es) = GoodEvent e × GoodEvents es

on_download-AllCounted :
    (e : DownReady) (d : Downloads)
    → GoodEvent e
    → AllCounted d.clients
    → Ensures (λ r. AllCounted r.clients) (on_download e d)
unfolding on_download
on_download-AllCounted (handed_over fd) d good h =
    Runs.Ensures->>= AllCounted (λ (r : Downloads). AllCounted r.clients)
      (enter_client fd d.clients) _ (enter_client-AllCounted fd d.clients h) (λ cs t. t)
on_download-AllCounted (request fd opened es) d good h =
    Runs.Ensures->>= LeavesCounted (λ (r : Downloads). AllCounted r.clients)
      (take_requests fd opened es d.clients d.effects) _
      (take_requests-AllCounted fd opened es d.clients d.effects good h) (λ r t. t)
on_download-AllCounted (output fd sendings) d good h =
    Runs.Ensures->>= LeavesCounted (λ (r : Downloads). AllCounted r.clients)
      (send_to fd sendings d.clients d.effects) _
      (send_to-AllCounted fd sendings d.clients d.effects h) (λ r t. t)

down_func-AllCounted :
    (es : List DownReady) (d : Downloads)
    → GoodEvents es
    → AllCounted d.clients
    → Ensures (λ r. AllCounted r.clients) (down_func es d)
unfolding down_func
down_func-AllCounted [] d good h = h
down_func-AllCounted (e ∷ es) d good h =
    Runs.Ensures->>= _ _ (on_download e d) _ (on_download-AllCounted e d good.0 h)
      λ d' t. down_func-AllCounted es d' good.1 t

replicate-AllCounted : (n : ℕ) → AllCounted (replicate n no_client)
replicate-AllCounted zero = tt
replicate-AllCounted (suc n) = (no_client-Counted, replicate-AllCounted n)

-- After any sequence of events that returns, from the thread's start and with no file open as
-- descriptor 0, each client has ten slots, a slot has a descriptor exactly when it has a state, and
-- task_num is the number of the slots that have one.
pub down_func-Counted :
    (es : List DownReady) (d : Downloads) (i : ℕ) (c : SdInfo)
    → GoodEvents es
    → down_func es no_downloads ≡ ok d
    → get_elem? d.clients i ≡ some c
    → Counted c
down_func-Counted es d i c good run there =
    nth d.clients i
      (subst (Ensures (λ r. AllCounted r.clients)) run
        (down_func-AllCounted es no_downloads good (replicate-AllCounted avg_client_num)))
      there
  where
    nth : (cs : List SdInfo) (i : ℕ) → AllCounted cs → get_elem? cs i ≡ some c → Counted c
    nth [] i h e = absurd (ground arith)
    nth (x ∷ xs) zero h e = subst (λ y. elim y [ none ↦ Unit | some z ↦ Counted z ]) e h.0
    nth (x ∷ xs) (suc i) h e = nth xs i h.1 e
