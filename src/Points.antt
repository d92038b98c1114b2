-- ===== src/Points.antt =====
-- The multi-point download server, server/ser.c: math_token, disconnect, add_task and main.
-- recvCYL and one_recv are the text of src/ser_cli.c once more, modelled in Wire.
pub mod Entry
pub mod Endless
use cloudisk_server.Base.{
  ℕ, zero, suc, ◌+◌, ◌-◌, List, [], ◌∷◌, ◌++◌, Bool, true, false, Option, none, some, ltb, ◌==◌,
  if◌then◌else◌, ℤ, pos, negsuc, minus_one, pos_part, eqb_ℤ, ltb_ℤ, Outcome, ok, exits, undefined,
  length, set, get_elem?, drop, take, replicate,
}
use cloudisk_server.Base.Runs
use cloudisk_server.Base.Bytes.{codes, string_at, memcpy, write_at, fits, int_of_bytes, int_bytes}
use cloudisk_server.Wire.{Train, Recv, one_recv, buf_size}
use cloudisk_server.Database.{Text, Platform, Fetched, query_failed, no_row, row, fetch, cell}
use cloudisk_server.Database.Users.{token_query}
use cloudisk_server.Server.{size}

-- Task. `content` is the file behind `fd`, none where open has failed, and `offset` the place of the
-- next read.
pub record Task : Type 0 where
  pub fd : ℤ
  pub cfd : ℤ
  pub number : ℤ
  pub place : ℤ
  pub stop : ℤ
  pub state : ℕ
  pub content : Option (List ℕ)
  pub offset : ℕ

abbrev pub no_task : Task
no_task = record {
  fd = pos 0;
  cfd = pos 0;
  number = pos 0;
  place = pos 0;
  stop = pos 0;
  state = 0;
  content = none;
  offset = 0;
}

-- What the program does to files and sockets; `sends` has the bytes, whether or not they arrive.
pub data PointEffect : Type 0 where
  opens : Text → PointEffect
  closes_file : ℤ → PointEffect
  sends : ℤ → List ℕ → PointEffect
  watches_input watches_output unwatches_input unwatches_output : ℤ → PointEffect

-- The variables of main. `info` and `bq` are the bytes of the two structs.
pub record Points (p : Platform) : Type 0 where
  pub tasks : List Task
  pub train : Train
  pub info : List ℕ
  pub bq : List ℕ
  pub db : p.Db
  pub effects : List PointEffect

-- SOCKET_NUM
abbrev pub socket_num : ℕ
socket_num = 500

unfoldable pub nth_point : List Task → ℕ → Outcome Task
nth_point ts j = elim (get_elem? ts j) [ none ↦ undefined | some t ↦ ok t ]

-- What open gives.
abbrev pub OpenedPoint : Type 0
OpenedPoint = Option (ℕ × List ℕ)

-- read(fd, train.buf, BUFSIZE) and the two assignments to the train behind it.
unfoldable pub read_part : Task → Train → Outcome Train
read_part t train = elim t.content [
  | none ↦ ok (record train { len = minus_one; ctl_code = t.number })
  | some bytes ↦
      let part = take buf_size (drop t.offset bytes) in
      Runs.◌>>=◌ (write_at 0 part train.buf)
        λ buf. ok (record { len = pos (length part); ctl_code = t.number; buf = buf })
]

-- The bytes of a train, for a send of Len + 8 of them.
unfoldable pub train_bytes : Train → List ℕ
train_bytes t = elim t.len [
  | pos n ↦ take (n + 8) (int_bytes t.len ++ (int_bytes t.ctl_code ++ t.buf))
  | negsuc n ↦ take (8 - suc n) (int_bytes t.len ++ (int_bytes t.ctl_code ++ t.buf))
]

-- A new connection, in the first slot whose `cfd` is 0; with none it stays in the queue.
unfoldable pub accept_point : ℤ → List Task → List Task
accept_point fd [] = []
accept_point fd (t ∷ ts) =
    let later = t ∷ accept_point fd ts in
    if eqb_ℤ t.cfd (pos 0) then record t { cfd = fd; state = 1 } ∷ ts else later

unfoldable pub any_free : List Task → Bool
any_free [] = false
any_free (t ∷ ts) = let later = any_free ts in if eqb_ℤ t.cfd (pos 0) then true else later

module _ (p : Platform) where
  -- math_token, which looks the token up and has no return statement.
  unfoldable pub math_token : Text → p.Db → Outcome p.Db
  math_token name d = Runs.◌>>=◌ (fetch p (token_query p name) d) λ r. elim r.0 [
    | query_failed ↦ ok r.1
    | no_row ↦ ok r.1
    | row cells ↦ Runs.◌>>=◌ (cell 0 cells) λ s. ok r.1
  ]

module _ {p : Platform} where
  -- disconnect(task+j, epfd)
  unfoldable pub disconnect : ℕ → Task → Points p → Points p
  disconnect j t s = record s {
    tasks = set s.tasks j no_task;
    effects =
        unwatches_input t.cfd
        ∷ unwatches_output t.cfd
        ∷ (if ltb_ℤ (pos 0) t.fd then closes_file t.fd ∷ s.effects else s.effects);
  }

  -- add_task(task+j, &bq, epfd): BBQ has `start`, `end`, `number` and, at 12, `md5sum`. A failed
  -- open goes unnoticed. A seek before the start fails and moves nothing.
  unfoldable pub add_task : OpenedPoint → ℕ → Task → Points p → Outcome (Points p)
  add_task opened j t s = Runs.◌>>=◌ (string_at 12 s.bq) λ md5.
      Runs.◌>>=◌ (fits 100 (codes "../src/Sdisk/" ++ md5)) λ path.
        let start = int_of_bytes s.bq in
        let filled : Task = record t {
          place = start;
          stop = int_of_bytes (drop 4 s.bq);
          number = int_of_bytes (drop 8 s.bq);
          offset = pos_part start;
        } in
        let t' : Task = elim opened [
          | none ↦ record filled { fd = minus_one; content = none }
          | some (fd, bytes) ↦ record filled { fd = pos fd; content = some bytes }
        ] in
        ok (record s {
          tasks = set s.tasks j t';
          effects = watches_output t.cfd ∷ unwatches_input t.cfd ∷ opens path ∷ s.effects;
        })

  -- A message with code 1; `given` is what the call of math_token, which returns nothing, leaves for
  -- the caller to read. Zhuce has `name` at 0. Whether the loop over the slots is left.
  unfoldable pub take_token : ℤ → ℕ → Task → Points p → Outcome (Bool × Points p)
  take_token given j t s = Runs.◌>>=◌ (size s.train.len) λ n.
      Runs.◌>>=◌ (memcpy s.info s.train.buf n) λ info. Runs.◌>>=◌ (string_at 0 info) λ name.
        Runs.◌>>=◌ (math_token p name s.db) λ db.
          let asked : Points p = record s { info = info; db = db } in
          if eqb_ℤ given minus_one
          then ok (true, asked)
          else ok (false, record asked { tasks = set s.tasks j (record t { state = 2 }) })

  -- Any other message asks for a part of a file.
  unfoldable pub take_part : OpenedPoint → ℕ → Task → Points p → Outcome (Bool × Points p)
  take_part opened j t s =
      let part = Runs.◌>>=◌ (size s.train.len) λ n.
        Runs.◌>>=◌ (memcpy s.bq s.train.buf n)
          λ bq. Runs.◌>>=◌ (add_task opened j t (record s { bq = bq })) λ s'. ok (false, s') in
      if t.state == 2 then part else ok (true, disconnect j t s)

  -- Input on a slot's socket.
  unfoldable pub take_input :
      OpenedPoint → ℤ → ℕ → Task → List Recv → Points p → Outcome (Bool × List Recv × Points p)
  take_input opened given j t es s = Runs.◌>>=◌ (one_recv s.train es) λ a.
      let s1 : Points p = record s { train = a.train } in
      let taken =
        Runs.◌>>=◌
          (if eqb_ℤ a.train.ctl_code (pos 1)
            then take_token given j t s1
            else take_part opened j t s1)
          λ r. ok (r.0, a.rest, r.1) in
      if eqb_ℤ a.ret minus_one then ok (true, a.rest, disconnect j t s1) else taken

  -- The loop over the slots for input on `fd`, with `left` of them from `j` on.
  unfoldable pub input_slots :
      ℕ → ℕ → ℤ → OpenedPoint → ℤ → List Recv → Points p → Outcome (Points p)
  input_slots zero j fd opened given es s = ok s
  input_slots (suc left) j fd opened given es s = Runs.◌>>=◌ (nth_point s.tasks j) λ t.
      let here = Runs.◌>>=◌ (take_input opened given j t es s) λ r.
        let later = input_slots left (j + 1) fd opened given r.1 r.2 in
        if r.0 then ok r.2 else later in
      let onward = input_slots left (j + 1) fd opened given es s in
      if eqb_ℤ t.cfd fd then here else onward

  -- A slot's socket takes output; `sent` says whether send succeeds. Nothing moves `pos`.
  unfoldable pub give_output : Bool → ℕ → Task → Points p → Outcome (Points p)
  give_output sent j t s =
      let part = Runs.◌>>=◌ (read_part t s.train) λ train.
        let moved : Task = record t { offset = t.offset + pos_part train.len } in
        let s1 : Points p = record s {
          tasks = set s.tasks j moved;
          train = train;
          effects = sends t.cfd (train_bytes train) ∷ s.effects;
        } in
        ok (if sent then s1 else disconnect j moved s1) in
      let train : Train = record s.train { len = pos 0; ctl_code = t.number } in
      let s2 : Points p = record s {
        train = train;
        effects = sends t.cfd (train_bytes train) ∷ s.effects;
      } in
      if ltb_ℤ t.place t.stop then part else ok (disconnect j t s2)

  -- The loop over the slots for output on `fd`.
  unfoldable pub output_slots : ℕ → ℕ → ℤ → Bool → Points p → Outcome (Points p)
  output_slots zero j fd sent s = ok s
  output_slots (suc left) j fd sent s = Runs.◌>>=◌ (nth_point s.tasks j) λ t.
      Runs.◌>>=◌ (if eqb_ℤ t.cfd fd then give_output sent j t s else ok s)
        λ s'. output_slots left (j + 1) fd sent s'

-- A ready descriptor: a connection, with what accept gives; input, with the stream, what open gives
-- and what is read where math_token returns nothing; or output, with whether send succeeds.
pub data PointReady : Type 0 where
  connection : ℤ → PointReady
  input : ℤ → List Recv → OpenedPoint → ℤ → PointReady
  output : ℤ → Bool → PointReady

module _ {p : Platform} where
  unfoldable pub on_point : PointReady → Points p → Outcome (Points p)
  on_point (connection fd) s = ok (
      if any_free s.tasks
      then record s { tasks = accept_point fd s.tasks; effects = watches_input fd ∷ s.effects }
      else s)
  on_point (input fd es opened given) s = input_slots (length s.tasks) 0 fd opened given es s
  on_point (output fd sent) s = output_slots (length s.tasks) 0 fd sent s

  -- The loop of main, for the descriptors that epoll_wait lists.
  unfoldable pub serve_points : List PointReady → Points p → Outcome (Points p)
  serve_points [] s = ok s
  serve_points (e ∷ es) s = Runs.◌>>=◌ (on_point e s) λ s'. serve_points es s'

  -- The variables when the loop begins; those that main does not set are what they are.
  unfoldable pub first_points : Train → List ℕ → List ℕ → p.Db → Points p
  first_points train info bq db = record {
    tasks = replicate socket_num no_task;
    train = train;
    info = info;
    bq = bq;
    db = db;
    effects = [];
  }
