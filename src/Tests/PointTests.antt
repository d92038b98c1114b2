-- ===== src/Tests/PointTests.antt =====
-- A client of the multi-point server that is not let in, and one whose part is never finished.
use cloudisk_server.Base.{
  List, [], ◌∷◌, ◌++◌, ◌≡◌, refl, true, false, none, some, pos, minus_one, ok, arith, replicate,
  value_or,
}
use cloudisk_server.Base.Bytes.{
  codes, int_bytes, int_of_bytes, string_at, c_string, memcpy, write_at, fits,
}
use cloudisk_server.Wire.{arrived, one_recv, recv_cyl, recv_loop, overlay}
use cloudisk_server.Wire.Frame.{frame}
use cloudisk_server.Database.{rows, fetch, send_query, first_row}
use cloudisk_server.Server.{size}
use cloudisk_server.Points.{
  Task, Points, sends, PointReady, connection, input, output, first_points, serve_points, on_point,
  input_slots, nth_point, take_input, take_token, take_part, math_token, disconnect, accept_point,
  any_free,
}
use cloudisk_server.Points.Entry.{some_opened, serve_points_refused}
use cloudisk_server.Points.Endless.{serve_points_endless}
use cloudisk_server.Tests.{script, small_train}

-- A message with a name, and then one that asks for a part.
abbrev asking : List PointReady
asking =
    connection (pos 7)
    ∷ input (pos 7) (arrived (frame (pos 4) (pos 1) (codes "tom" ++ 0 ∷ [])) ∷ []) none minus_one
    ∷ input (pos 7) (arrived (frame (pos 4) (pos 2) (codes "abcd")) ∷ []) none minus_one
    ∷ []

abbrev first : Points script
first = first_points small_train (replicate 180 0) (replicate 64 0) (rows [] ∷ [])

abbrev turned_away : Points script
turned_away = value_or first (serve_points asking first)

asked_and_closed : serve_points asking first ≡ ok turned_away
unfolding first_points serve_points on_point input_slots nth_point take_input take_token take_part
    math_token disconnect accept_point any_free one_recv recv_cyl recv_loop overlay fetch send_query
    first_row size string_at c_string memcpy write_at fits int_bytes int_of_bytes
asked_and_closed = refl

serve_points_refused_example : some_opened turned_away.effects ≡ false
serve_points_refused_example =
    serve_points_refused script asking small_train (replicate 180 0) (replicate 64 0) (rows [] ∷ [])
      turned_away (refl, (refl, tt)) asked_and_closed

-- Three bytes of a file of three have gone out, and `pos` is 0 still.
abbrev read_up : Task
read_up = record {
  fd = pos 9;
  cfd = pos 7;
  number = pos 1;
  place = pos 0;
  stop = pos 3;
  state = 2;
  content = some (codes "abc");
  offset = 3;
}

-- A client of another descriptor, in the slot in front.
abbrev other_task : Task
other_task = record read_up { fd = pos 10; cfd = pos 8; number = pos 2; offset = 1 }

abbrev two_points : Points script
two_points = record {
  tasks = other_task ∷ read_up ∷ [];
  train = small_train;
  info = [];
  bq = [];
  db = [];
  effects = [];
}

serve_points_endless_example :
    (r : Points script) × (serve_points (replicate 4 (output (pos 7) true)) two_points ≡ ok r)
    × (r.tasks ≡ other_task ∷ read_up ∷ [])
    × (r.effects ≡ replicate 4 (sends (pos 7) (frame (pos 0) (pos 1) [])) ++ [])
serve_points_endless_example =
    serve_points_endless 4 (other_task ∷ []) read_up [] (pos 7) (codes "abc") two_points refl
      (record { socket = refl; file = refl; at_end = omega arith; below = refl }) (refl, tt) tt
