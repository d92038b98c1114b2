-- ===== src/Download/Thread.antt =====
-- The loop of a download thread, down_func of src/factory.c.
pub mod Counts
use cloudisk_server.Base.{
  ℕ, zero, suc, ◌+◌, ◌-◌, ◌/◌, List, [], ◌∷◌, ◌++◌, Bool, true, false, Option, none, some, ltb, leb,
  ◌==◌, if◌then◌else◌, ℤ, pos, negsuc, minus_one, pos_part, eqb_ℤ, ltb_ℤ, inc, dec, Outcome, ok,
  exits, undefined, in_range, length, set, get_elem?, drop, take, replicate,
}
use cloudisk_server.Base.Runs
use cloudisk_server.Wire.{Recv, recv_cyl}
use cloudisk_server.Balance.{avg_client_num}
use cloudisk_server.Download.{
  SdInfo, no_client, DownEffect, watches_input, Session, disconnect, Opened, add_request,
  send_round,
}

-- The variables of down_func.
pub record Downloads : Type 0 where
  pub clients : List SdInfo
  pub effects : List DownEffect

-- A ready descriptor: the pipe, with the descriptor that comes; a client's request, with its stream
-- and what open gives; or a client's socket that takes output, with what send comes to.
pub data DownReady : Type 0 where
  handed_over : ℕ → DownReady
  request : ℕ → Opened → List Recv → DownReady
  output : ℕ → List Bool → DownReady

-- A client in the first slot with no descriptor; beyond the last one the array ends.
unfoldable pub enter_client : ℕ → List SdInfo → Outcome (List SdInfo)
enter_client fd [] = undefined
enter_client fd (c ∷ cs) =
    let later = Runs.◌>>=◌ (enter_client fd cs) λ cs'. ok (c ∷ cs') in
    if c.download_fd == 0 then ok (record c { download_fd = fd } ∷ cs) else later

-- The loop over the clients for a request on `fd`; it is left where the client is gone. What a
-- later slot with the same descriptor receives is what the earlier one has left.
unfoldable pub take_requests :
    ℕ → Opened → List Recv → List SdInfo → List DownEffect → Outcome (List SdInfo × List DownEffect)
unfolding add_request disconnect
take_requests fd opened es [] done = ok ([], done)
take_requests fd opened es (c ∷ cs) done =
    let skip = Runs.◌>>=◌ (take_requests fd opened es cs done) λ r. ok (c ∷ r.0, r.1) in
    let s : Session = record { client = c; effects = done; sendings = [] } in
    let taken = Runs.◌>>=◌ (recv_cyl es (pos 132)) λ b.
      let lost = ok (no_client ∷ cs, (disconnect minus_one s).effects) in
      let added = Runs.◌>>=◌ (add_request opened b.got s) λ s'.
        Runs.◌>>=◌ (take_requests fd opened b.rest cs s'.effects) λ r. ok (s'.client ∷ r.0, r.1) in
      if eqb_ℤ b.ret minus_one then lost else added in
    if c.download_fd == fd then taken else skip

-- The loop over the clients for output on `fd`.
unfoldable pub send_to :
    ℕ → List Bool → List SdInfo → List DownEffect → Outcome (List SdInfo × List DownEffect)
unfolding send_round
send_to fd sendings [] done = ok ([], done)
send_to fd sendings (c ∷ cs) done =
    let skip = Runs.◌>>=◌ (send_to fd sendings cs done) λ r. ok (c ∷ r.0, r.1) in
    let served =
      Runs.◌>>=◌ (send_round (record { client = c; effects = done; sendings = sendings }))
        λ s. Runs.◌>>=◌ (send_to fd s.sendings cs s.effects) λ r. ok (s.client ∷ r.0, r.1) in
    if c.download_fd == fd then served else skip

unfoldable pub on_download : DownReady → Downloads → Outcome Downloads
unfolding enter_client take_requests send_to
on_download (handed_over fd) d =
    Runs.◌>>=◌ (enter_client fd d.clients)
      λ cs. ok (record { clients = cs; effects = watches_input fd ∷ d.effects })
on_download (request fd opened es) d =
    Runs.◌>>=◌ (take_requests fd opened es d.clients d.effects)
      λ r. ok (record { clients = r.0; effects = r.1 })
on_download (output fd sendings) d =
    Runs.◌>>=◌ (send_to fd sendings d.clients d.effects)
      λ r. ok (record { clients = r.0; effects = r.1 })

abbrev pub no_downloads : Downloads
no_downloads = record { clients = replicate avg_client_num no_client; effects = [] }

-- The thread's loop, for the descriptors that are listed.
unfoldable pub down_func : List DownReady → Downloads → Outcome Downloads
unfolding on_download
down_func [] d = ok d
down_func (e ∷ es) d = Runs.◌>>=◌ (on_download e d) λ d'. down_func es d'
