-- ===== src/Upload.antt =====
-- The upload threads of src/factory.c: upload_func, add_uptask and updisconect.
pub mod Chunks
use cloudisk_server.Base.{
  ℕ, zero, suc, ◌+◌, ◌-◌, ◌%◌, List, [], ◌∷◌, ◌++◌, Bool, true, false, Option, none, some, ltb, leb,
  ◌==◌, if◌then◌else◌, ℤ, pos, negsuc, minus_one, eqb_ℤ, ltb_ℤ, Outcome, ok, exits, undefined,
  in_range, length, set, get_elem?, drop, take, replicate,
}
use cloudisk_server.Base.Runs
use cloudisk_server.Base.Bytes.{codes, string_at, memcpy, write_at, fits, int_of_bytes}
use cloudisk_server.Wire.{Train, Recv, recv_cyl}
use cloudisk_server.Wire.Codes.{upload_q, upload_ok}
use cloudisk_server.Database.{Text, Platform}
use cloudisk_server.Database.Files.{FileInfo, add_file}
use cloudisk_server.Balance.{up_task_num}
use cloudisk_server.Server.{size}
use cloudisk_server.Server.Requests.{read_info}

-- UP_INFO: state 1 writes to the file, state 2 to a mapping of it; the mapping is that of `fd`.
pub record UpTask : Type 0 where
  pub fd : ℕ
  pub state : ℕ
  pub soketfd : ℕ
  pub place : ℤ
  pub name : Text
  pub code : ℤ
  pub file : FileInfo

abbrev pub no_task : UpTask
no_task = record {
  fd = 0;
  state = 0;
  soketfd = 0;
  place = pos 0;
  name = [];
  code = pos 0;
  file = record { filename = []; filesize = pos 0; md5sum = [] };
}

-- What the thread does to files, sockets and the main thread.
pub data UpEffect : Type 0 where
  opens : ℕ → Text → UpEffect
  sizes : ℕ → ℤ → UpEffect
  writes : ℕ → List ℕ → UpEffect
  stores : ℕ → ℕ → List ℕ → UpEffect
  unmaps closes_file closes_socket watches_socket unwatches_socket : ℕ → UpEffect
  removes : Text → UpEffect
  reports : ℤ → UpEffect

-- The variables of upload_func; `effects` has the last one first.
pub record Uploads (p : Platform) : Type 0 where
  pub tasks : List UpTask
  pub front : ℕ
  pub rear : ℕ
  pub train : Train
  pub dqbuf : List ℕ
  pub db : p.Db
  pub effects : List UpEffect

-- DOWN_PATH and the name that a file has there.
abbrev pub stored_path : FileInfo → Text
stored_path file = codes "./Sdisk/" ++ file.md5sum

-- MOVE
abbrev pub move : ℕ → ℕ
move i = (i + 1) % up_task_num

-- A file larger than 100*1<<20 bytes is mapped.
abbrev pub map_limit : ℕ
map_limit = 104857600

-- An int and a count.
abbrev pub add_int : ℤ → ℕ → ℤ
add_int (pos a) n = pos (a + n)
add_int (negsuc a) n = if ltb a n then pos (n - suc a) else negsuc (a - n)

unfoldable pub nth_task : List UpTask → ℕ → Outcome UpTask
nth_task ts j = elim (get_elem? ts j) [ none ↦ undefined | some t ↦ ok t ]

-- What a slot leaves behind when it is given up: the last effect first.
unfoldable pub end_effects : ℤ → UpTask → List UpEffect
end_effects ret t =
    let socket = unwatches_socket t.soketfd ∷ closes_socket t.soketfd ∷ [] in
    let unmapped = if t.state == 2 then unmaps t.fd ∷ socket else socket in
    let shut = closes_file t.fd ∷ unmapped in
    let gone = if eqb_ℤ ret minus_one then removes (stored_path t.file) ∷ shut else shut in
    if ltb 0 t.fd then gone else unmapped

module _ (p : Platform) where
  -- updisconect(task+j, epfd, fd, ret)
  unfoldable pub updisconect : ℕ → ℤ → Uploads p → Outcome (Uploads p)
  unfolding nth_task end_effects
  updisconect j ret u = Runs.◌>>=◌ (nth_task u.tasks j) λ t.
      Runs.◌>>=◌ (if eqb_ℤ ret (pos 0) then add_file p t.code t.name t.file u.db else ok (tt, u.db))
        λ r. ok (record u {
          tasks = set u.tasks j no_task;
          db = r.1;
          effects = reports ret ∷ (end_effects ret t ++ u.effects);
        })

  -- add_uptask(task+j, &dqbuf); `opened` is what open gives. DQ_buf has `pos` at 4, `client_name` at
  -- 8, `code` at 40 and `file` at 44.
  unfoldable pub add_uptask : ℕ → Option ℕ → List ℕ → Uploads p → Outcome (Uploads p)
  unfolding nth_task read_info string_at fits
  add_uptask j none dq u = exits
  add_uptask j (some fd) dq u = Runs.◌>>=◌ (nth_task u.tasks j) λ t.
      Runs.◌>>=◌ (read_info (drop 44 dq)) λ file. Runs.◌>>=◌ (fits 100 (stored_path file)) λ path.
        Runs.◌>>=◌ (string_at 8 dq) λ name. Runs.◌>>=◌ (fits 30 name) λ name'.
          let mapped = ltb_ℤ (pos map_limit) file.filesize in
          let t' : UpTask = record {
            fd = fd;
            state = if mapped then 2 else 1;
            soketfd = t.soketfd;
            place = int_of_bytes (drop 4 dq);
            name = name';
            code = int_of_bytes (drop 40 dq);
            file = file;
          } in
          let es = opens fd path ∷ u.effects in
          ok (record u {
            tasks = set u.tasks j t';
            effects = if mapped then sizes fd file.filesize ∷ es else es;
          })

  -- The client of slot `j` is gone: the slot is given up, MOVE(front), and the loop over the slots
  -- is left.
  unfoldable pub drop_task : ℕ → Uploads p → Outcome (Bool × Uploads p)
  unfolding updisconect
  drop_task j u =
      Runs.◌>>=◌ (updisconect j minus_one u) λ u'. ok (true, record u' { front = move u'.front })

  -- Bytes for the file of a slot in state 1: they go through train.buf.
  unfoldable pub write_chunk :
      ℕ → UpTask → List Recv → Uploads p → Outcome (Bool × List Recv × Uploads p)
  unfolding drop_task size
  write_chunk j t es u = Runs.◌>>=◌ (recv_cyl es u.train.len) λ b.
      Runs.◌>>=◌ (write_at 0 b.got u.train.buf) λ buf.
        let u' : Uploads p = record u { train = record u.train { buf = buf } } in
        let lost = Runs.◌>>=◌ (drop_task j u') λ r. ok (r.0, b.rest, r.1) in
        let stored = Runs.◌>>=◌ (size u.train.len) λ n. ok (
          false,
          b.rest,
          record u' {
            tasks = set u.tasks j (record t { place = add_int t.place n });
            effects = writes t.fd (take n buf) ∷ u.effects;
          },
        ) in
        if eqb_ℤ b.ret minus_one then lost else stored

  -- Bytes for a slot in state 2: they go into the mapping, at `pos`.
  unfoldable pub map_chunk :
      ℕ → UpTask → List Recv → Uploads p → Outcome (Bool × List Recv × Uploads p)
  unfolding drop_task size
  map_chunk j t es u = Runs.◌>>=◌ (size t.place) λ at. Runs.◌>>=◌ (size t.file.filesize) λ limit.
      Runs.◌>>=◌ (recv_cyl es u.train.len) λ b.
        Runs.◌>>=◌ (in_range (leb (at + length b.got) limit) at) λ at.
          let u' : Uploads p = record u { effects = stores t.fd at b.got ∷ u.effects } in
          let lost = Runs.◌>>=◌ (drop_task j u') λ r. ok (r.0, b.rest, r.1) in
          let stored = Runs.◌>>=◌ (size u.train.len) λ n. ok (
            false,
            b.rest,
            record u' { tasks = set u.tasks j (record t { place = pos (at + n) }) },
          ) in
          if eqb_ℤ b.ret minus_one then lost else stored

  -- A message with the code UPLOAD_OK: a part of the file, or with the length 0 its end.
  unfoldable pub take_chunk : ℕ → List Recv → Uploads p → Outcome (Bool × List Recv × Uploads p)
  unfolding nth_task write_chunk map_chunk updisconect
  take_chunk j es u = Runs.◌>>=◌ (nth_task u.tasks j) λ t.
      let ends =
        Runs.◌>>=◌ (updisconect j (pos 0) (record u { front = move u.front }))
          λ u'. ok (false, es, u') in
      if eqb_ℤ u.train.len (pos 0)
      then ends
      else if t.state == 1
      then write_chunk j t es u
      else if t.state == 2
      then map_chunk j t es u
      else ok (false, es, u)

  -- A message with the code UPLOAD_Q: which file it is.
  unfoldable pub take_request :
      ℕ → Option ℕ → List Recv → Uploads p → Outcome (Bool × List Recv × Uploads p)
  unfolding drop_task add_uptask size
  take_request j opened es u = Runs.◌>>=◌ (recv_cyl es u.train.len) λ b.
      Runs.◌>>=◌ (write_at 0 b.got u.train.buf) λ buf.
        let u' : Uploads p = record u { train = record u.train { buf = buf } } in
        let lost = Runs.◌>>=◌ (drop_task j u') λ r. ok (r.0, b.rest, r.1) in
        let taken = Runs.◌>>=◌ (size u.train.len) λ n. Runs.◌>>=◌ (memcpy u.dqbuf buf n) λ dq.
          Runs.◌>>=◌ (add_uptask j opened dq (record u' { dqbuf = dq }))
            λ u''. ok (false, b.rest, u'') in
        if eqb_ℤ b.ret minus_one then lost else taken

  -- One message from the client of slot `j`: whether the loop over the slots is left, and what
  -- remains of the stream. The result of the first recvCYL is not looked at.
  unfoldable pub take_message :
      ℕ → Option ℕ → List Recv → Uploads p → Outcome (Bool × List Recv × Uploads p)
  unfolding drop_task take_request take_chunk
  take_message j opened es u = Runs.◌>>=◌ (recv_cyl es (pos 4)) λ l.
      Runs.◌>>=◌ (recv_cyl l.rest (pos 4)) λ c.
        let len = int_of_bytes l.got in
        let ctl = int_of_bytes c.got in
        let u' : Uploads p = record u { train = record u.train { len = len; ctl_code = ctl } } in
        let lost = Runs.◌>>=◌ (drop_task j u) λ r. ok (r.0, c.rest, r.1) in
        if eqb_ℤ c.ret minus_one
        then lost
        else if eqb_ℤ ctl upload_q
        then take_request j opened c.rest u'
        else if eqb_ℤ ctl upload_ok
        then take_chunk j c.rest u'
        else ok (false, c.rest, u')

  -- The loop over the slots, with `left` slots from `j` on, for input on the socket `from`.
  unfoldable pub search_slots : ℕ → ℕ → ℕ → Option ℕ → List Recv → Uploads p → Outcome (Uploads p)
  unfolding nth_task take_message
  search_slots zero j from opened es u = ok u
  search_slots (suc left) j from opened es u = Runs.◌>>=◌ (nth_task u.tasks j) λ t.
      let skip = search_slots left (j + 1) from opened es u in
      let served = Runs.◌>>=◌ (take_message j opened es u) λ r.
        let onward = search_slots left (j + 1) from opened r.1 r.2 in
        if r.0 then ok r.2 else onward in
      if t.soketfd == from then served else skip

  -- A client that main hands over, with its descriptor read from the pipe.
  unfoldable pub enter_task : ℕ → Uploads p → Outcome (Uploads p)
  unfolding nth_task
  enter_task new_fd u = Runs.◌>>=◌ (nth_task u.tasks u.rear) λ t. ok (record u {
    tasks = set u.tasks u.rear (record t { soketfd = new_fd });
    rear = move u.rear;
    effects = watches_socket new_fd ∷ u.effects;
  })

  -- A ready descriptor: the pipe, with the descriptor that comes, or a client's socket.
  pub data UpReady : Type 0 where
    handed_over : ℕ → UpReady
    input : ℕ → Option ℕ → List Recv → UpReady

  unfoldable pub on_upload : UpReady → Uploads p → Outcome (Uploads p)
  unfolding enter_task search_slots
  on_upload (handed_over new_fd) u = enter_task new_fd u
  on_upload (input from opened es) u = search_slots up_task_num 0 from opened es u

  -- The thread's loop, for the descriptors that are listed.
  unfoldable pub upload_func : List UpReady → Uploads p → Outcome (Uploads p)
  unfolding on_upload
  upload_func [] u = ok u
  upload_func (e ∷ es) u = Runs.◌>>=◌ (on_upload e u) λ u'. upload_func es u'
