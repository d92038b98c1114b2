-- ===== src/Download.antt =====
-- The download threads of src/factory.c: down_func, add_task, del_task and disconnect.
pub mod Slots
pub mod Counts
pub mod Rounds
pub mod Thread
use cloudisk_server.Base.{
  ℕ, zero, suc, ◌+◌, ◌-◌, ◌/◌, List, [], ◌∷◌, ◌++◌, Bool, true, false, Option, none, some, ltb, leb,
  ◌==◌, if◌then◌else◌, ℤ, pos, negsuc, minus_one, pos_part, eqb_ℤ, ltb_ℤ, inc, dec, Outcome, ok,
  exits, undefined, in_range, length, set, get_elem?, drop, take, replicate,
}
use cloudisk_server.Base.Runs
use cloudisk_server.Base.Bytes.{fits, int_of_bytes}
use cloudisk_server.Wire.{Recv, recv_cyl, buf_size}
use cloudisk_server.Wire.Frame.{frame}
use cloudisk_server.Database.{Text}
use cloudisk_server.Database.Files.{FileInfo}
use cloudisk_server.Balance.{avg_client_num}
use cloudisk_server.Server.{size}
use cloudisk_server.Server.Requests.{read_info}
use cloudisk_server.Upload.{stored_path, map_limit, add_int}

-- CD_info. `content` is the file behind `sfd` and its mapping, `offset` the place of the next read.
pub record CdInfo : Type 0 where
  pub cfd : ℤ
  pub state : ℕ
  pub place : ℤ
  pub file : FileInfo
  pub sfd : ℕ
  pub content : List ℕ
  pub offset : ℕ

abbrev pub no_info : CdInfo
no_info = record {
  cfd = pos 0;
  state = 0;
  place = pos 0;
  file = record { filename = []; filesize = pos 0; md5sum = [] };
  sfd = 0;
  content = [];
  offset = 0;
}

-- SD_info
pub record SdInfo : Type 0 where
  pub download_fd : ℕ
  pub task_num : ℤ
  pub cdinfo : List CdInfo

abbrev pub no_client : SdInfo
no_client = record { download_fd = 0; task_num = pos 0; cdinfo = replicate 10 no_info }

-- What the thread does to files, sockets and the main thread. `sends` has the bytes that go to a
-- client, whether or not they arrive.
pub data DownEffect : Type 0 where
  opens : ℕ → Text → DownEffect
  sends : ℕ → List ℕ → DownEffect
  unmaps closes_file closes_socket : ℕ → DownEffect
  watches_input watches_output unwatches_input unwatches_output : ℕ → DownEffect
  reports : ℤ → DownEffect

-- One client of the thread, with what has been done, the last first, and what the next calls of
-- send come to: true for success. Where the list ends they succeed.
pub record Session : Type 0 where
  pub client : SdInfo
  pub effects : List DownEffect
  pub sendings : List Bool

unfoldable pub nth_info : List CdInfo → ℕ → Outcome CdInfo
nth_info cs k = elim (get_elem? cs k) [ none ↦ undefined | some c ↦ ok c ]

-- The loop of disconnect over the files of a client.
unfoldable pub close_files : List CdInfo → List DownEffect → List DownEffect
close_files [] es = es
close_files (c ∷ cs) es = close_files cs (
    if c.state == 1
    then closes_file c.sfd ∷ es
    else if c.state == 2
    then closes_file c.sfd ∷ unmaps c.sfd ∷ es
    else es)

-- disconnect(client+j, fd, epfd, epfd_cin, ret)
unfoldable pub disconnect : ℤ → Session → Session
unfolding close_files
disconnect ret s =
    let fd = s.client.download_fd in
    record s {
      client = no_client;
      effects =
          reports ret
          ∷ close_files s.client.cdinfo
              (unwatches_input fd ∷ unwatches_output fd ∷ closes_socket fd ∷ s.effects);
    }

-- What open gives: a descriptor, with the bytes of the file, or nothing.
abbrev pub Opened : Type 0
Opened = Option (ℕ × List ℕ)

-- add_task on a slot; `dq` are the bytes of DQ_buf. A seek before the start fails and moves nothing.
unfoldable pub add_task : Opened → List ℕ → Outcome (CdInfo × Text)
unfolding read_info fits
add_task none dq = exits
add_task (some (fd, bytes)) dq = Runs.◌>>=◌ (read_info (drop 44 dq)) λ file.
    Runs.◌>>=◌ (fits 100 (stored_path file)) λ path.
      let start = int_of_bytes (drop 4 dq) in
      let mapped = ltb_ℤ (pos map_limit) file.filesize in
      ok (
        record {
          cfd = int_of_bytes dq;
          state = if mapped then 2 else 1;
          place = start;
          file = file;
          sfd = fd;
          content = bytes;
          offset = if mapped then 0 else pos_part start;
        },
        path,
      )

-- The first of the ten slots with no file, or the index behind them.
unfoldable pub free_slot : ℕ → List CdInfo → ℕ
free_slot k [] = k
free_slot k (c ∷ cs) = if c.sfd == 0 then k else free_slot (k + 1) cs

-- A file in the first slot that is free.
unfoldable pub enter_request : Opened → List ℕ → Session → Outcome Session
unfolding free_slot nth_info add_task
enter_request opened dq s =
    let k = free_slot 0 s.client.cdinfo in
    Runs.◌>>=◌ (nth_info s.client.cdinfo k) λ _. Runs.◌>>=◌ (add_task opened dq) λ r. ok (record s {
      client = record s.client {
        task_num = inc s.client.task_num;
        cdinfo = set s.client.cdinfo k r.0;
      };
      effects = watches_output s.client.download_fd ∷ opens r.0.sfd r.1 ∷ s.effects;
    })

-- A request of a client for one more file. The client with ten of them is disconnected, and the
-- request is then entered in the slot that this has cleared.
unfoldable pub add_request : Opened → List ℕ → Session → Outcome Session
unfolding disconnect enter_request
add_request opened dq s =
    enter_request opened dq (if ltb_ℤ s.client.task_num (pos 10) then s else disconnect minus_one s)

abbrev pub rest_of : List Bool → List Bool
rest_of [] = []
rest_of (b ∷ bs) = bs

abbrev pub succeeds : List Bool → Bool
succeeds [] = true
succeeds (b ∷ bs) = b

-- send of a message with the slot's `cfd` as its code; whether it succeeds.
unfoldable pub send_train : CdInfo → List ℕ → Session → Bool × Session
send_train c bytes s = (
  succeeds s.sendings,
  record s {
    sendings = rest_of s.sendings;
    effects = sends s.client.download_fd (frame (pos (length bytes)) c.cfd bytes) ∷ s.effects;
  },
)

-- del_task
unfoldable pub del_task : ℕ → CdInfo → Session → Session
del_task k c s = record s {
  client = record s.client { cdinfo = set s.client.cdinfo k no_info };
  effects =
      if c.state == 2
      then unmaps c.sfd ∷ closes_file c.sfd ∷ s.effects
      else closes_file c.sfd ∷ s.effects;
}

-- The message of length 0 that ends a file, and what follows; whether the loop over the slots is
-- left.
unfoldable pub end_file : ℕ → CdInfo → Session → Bool × Session
unfolding send_train disconnect del_task
end_file k c s =
    let (sent, s1) = send_train c [] s in
    let n = dec s1.client.task_num in
    let s2 : Session = record s1 { client = record s1.client { task_num = n } } in
    if sent
    then (false, if eqb_ℤ n (pos 0) then disconnect (pos 0) s2 else del_task k c s2)
    else (true, disconnect minus_one s1)

-- A part of a file goes out, and the slot is moved on.
unfoldable pub send_part : ℕ → CdInfo → List ℕ → ℕ → Session → Bool × Session
unfolding send_train disconnect
send_part k c bytes n s =
    let c' : CdInfo = record c { place = add_int c.place n; offset = c.offset + n } in
    let moved : Session = record s {
      client = record s.client { cdinfo = set s.client.cdinfo k c' };
    } in
    let (sent, s1) = send_train c bytes moved in
    if sent then (false, s1) else (true, disconnect minus_one s1)

-- A slot in state 1: read gives at most what the file still has.
unfoldable pub normal_slice : ℕ → ℕ → CdInfo → Session → Bool × Session
unfolding send_part end_file
normal_slice slice k c s =
    let bytes = take slice (drop c.offset c.content) in
    if ltb_ℤ c.place c.file.filesize then send_part k c bytes (length bytes) s else end_file k c s

-- memcpy out of the mapping, within the file.
unfoldable pub map_bytes : CdInfo → ℕ → Outcome (List ℕ)
unfolding size
map_bytes c n =
    Runs.◌>>=◌ (size c.place)
      λ at. in_range (leb (at + n) (length c.content)) (take n (drop at c.content))

-- filesize - pos, as a size.
unfoldable pub left_to_send : CdInfo → Outcome ℕ
unfolding size
left_to_send c =
    Runs.◌>>=◌ (size c.place)
      λ at. Runs.◌>>=◌ (size c.file.filesize) λ n. in_range (leb at n) (n - at)

-- A slot in state 2; the last part and the message of length 0 go out together.
unfoldable pub map_slice : ℕ → ℕ → CdInfo → Session → Outcome (Bool × Session)
unfolding map_bytes left_to_send send_part end_file nth_info
map_slice slice k c s =
    let part = Runs.◌>>=◌ (map_bytes c slice) λ bytes. ok (send_part k c bytes slice s) in
    let trail = Runs.◌>>=◌ (left_to_send c) λ n. Runs.◌>>=◌ (map_bytes c n) λ bytes.
      let (broken, s1) = send_part k c bytes n s in
      let after = end_file k c s1 in ok (if broken then (true, s1) else after) in
    if ltb_ℤ (add_int c.place slice) c.file.filesize then part else trail

-- What is done for one slot.
unfoldable pub send_slot : ℕ → ℕ → CdInfo → Session → Outcome (Bool × Session)
unfolding normal_slice map_slice
send_slot slice k c s =
    if c.state == 1
    then ok (normal_slice slice k c s)
    else if c.state == 2
    then map_slice slice k c s
    else ok (false, s)

-- The loop over the ten slots, with `left` of them from `k` on.
unfoldable pub send_slots : ℕ → ℕ → ℕ → Session → Outcome Session
unfolding nth_info send_slot
send_slots zero k slice s = ok s
send_slots (suc left) k slice s = Runs.◌>>=◌ (nth_info s.client.cdinfo k) λ c.
    Runs.◌>>=◌ (send_slot slice k c s)
      λ r. let onward = send_slots left (k + 1) slice r.1 in if r.0 then ok r.1 else onward

-- BUFSIZE / task_num
unfoldable pub slice_of : ℤ → Outcome ℕ
slice_of (pos zero) = undefined
slice_of (pos (suc n)) = ok (buf_size / suc n)
slice_of (negsuc n) = undefined

-- A client whose socket takes output.
unfoldable pub send_round : Session → Outcome Session
unfolding slice_of send_slots
send_round s = Runs.◌>>=◌ (slice_of s.client.task_num) λ slice. send_slots 10 0 slice s
