-- ===== src/Tests/ServerTests.antt =====
-- Runs of main's loop on small states.
use cloudisk_server.Base.{
  [], ◌≡◌, refl, sym, ap, some, pos, minus_one, ok, ok_inj, value_or, true, arith, get_elem?,
}
use cloudisk_server.Base.Bytes.{codes, fits, format_int}
use cloudisk_server.Wire.Codes.{ls_q}
use cloudisk_server.Server.{World, Client, nth_client, emit, on_db, client_at, answer, reply, size}
use cloudisk_server.Server.Steps
use cloudisk_server.Server.Requests.{ls_case}
use cloudisk_server.Database.Users.{llog}
use cloudisk_server.Server.Loop.{
  Ready, on_ready, dispatch, turn, accept_case, set_new_fd, peer_name, enter_client,
}
use cloudisk_server.Server.Slots.{Accounts}
use cloudisk_server.Server.Capacity.{
  here, next, served, Start, start, factory_init, IsFresh, Reach-start-Accounted,
}
use cloudisk_server.Server.Wheel.{Turns, idle_dropped}
use cloudisk_server.Server.Auth.{Untouched, dispatch-Untouched_out}
use cloudisk_server.Tests.{script, two_clients, small_train, ann}

abbrev fresh_start : Start script
fresh_start = record {
  socket_fd = 3;
  down_fds = [];
  upload_fds = [];
  train = small_train;
  login_msg = [];
  qq_msg = [];
  file_info = [];
  db = [];
}

-- A connection from 10.0.0.1, port 80, which is given descriptor 5.
abbrev caller : Ready script
caller = record {
  fd = 3;
  plain_input = true;
  new_fd = 5;
  ip = codes "10.0.0.1";
  port = 80;
  input = [];
  rand = λ i. i;
}

abbrev one_caller : World script
one_caller = (value_or (tt, start fresh_start) (on_ready script caller (start fresh_start))).1

slot_five : IsFresh script 5 (start fresh_start)
unfolding nth_client start factory_init
slot_five c e = ap (λ (x : Client). x.state) (ok_inj (sym e))

called : on_ready script caller (start fresh_start) ≡ ok (tt, one_caller)
unfolding on_ready accept_case set_new_fd peer_name enter_client start factory_init nth_client emit
    on_db Steps.gets Steps.lift Steps.◌>>=◌ Steps.◌>>◌ fits format_int llog
called = refl

Reach-start-Accounted_example : Accounts one_caller.round one_caller.client_sum one_caller.clients
Reach-start-Accounted_example =
    Reach-start-Accounted fresh_start (next here (served caller slot_five called))

idle_dropped_example :
    (u : World script) × (v : World script) × Turns script 4 two_clients u
    × (turn script u ≡ ok (tt, v))
    × (get_elem? u.clients 0 ≡ some ann)
    × (get_elem? v.clients 0 ≡ some (record ann { state = 0; code = pos 0; rotate = minus_one }))
idle_dropped_example =
    idle_dropped script 0 ann two_clients (omega arith, (omega arith, tt)) (omega arith) refl refl

abbrev refused : World script
refused = (value_or (tt, two_clients) (dispatch script 0 (λ i. i) ls_q two_clients)).1

refused_run : dispatch script 0 (λ i. i) ls_q two_clients ≡ ok (tt, refused)
unfolding dispatch ls_case client_at answer reply size nth_client Steps.◌>>=◌ Steps.◌>>◌
refused_run = refl

ann_there : nth_client two_clients.clients 0 ≡ ok ann
unfolding nth_client
ann_there = refl

dispatch-Untouched_out_example : Untouched two_clients refused
dispatch-Untouched_out_example =
    dispatch-Untouched_out script 0 (λ i. i) ls_q two_clients refused ann ann_there (omega arith)
      refl refused_run
