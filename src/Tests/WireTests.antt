-- ===== src/Tests/WireTests.antt =====
-- Runs of src/ser_cli.c on small streams.
use cloudisk_server.Base.{
  List, [], ◌∷◌, ◌++◌, ◌≡◌, refl, pos, ok, undefined, replicate, drop, arith,
}
use cloudisk_server.Base.Bytes.{codes, int_bytes}
use cloudisk_server.Wire.{Train, Recv, arrived, one_recv}
use cloudisk_server.Wire.Receive.{AllArrive, stream}
use cloudisk_server.Wire.Frame.{one_recv-frame, one_recv_overrun}

abbrev eight : Train
eight = record { len = pos 0; ctl_code = pos 0; buf = replicate 8 0 }

-- LS_Q with a payload of two bytes, in three segments, and a byte of the next message.
abbrev segments : List Recv
segments =
    arrived (2 ∷ 0 ∷ 0 ∷ [])
    ∷ arrived (0 ∷ 15 ∷ 0 ∷ 0 ∷ 0 ∷ b'a' ∷ [])
    ∷ arrived (b'b' ∷ 1 ∷ [])
    ∷ []

-- A message of nine bytes, one more than the buffer holds.
abbrev too_long : List Recv
too_long = arrived (9 ∷ 0 ∷ 0 ∷ 0 ∷ 15 ∷ 0 ∷ 0 ∷ 0 ∷ []) ∷ arrived (codes "abcdefghi") ∷ []

one_recv-frame_example :
    (rest : List Recv) × (one_recv eight segments
      ≡ ok (record {
        ret = pos 0;
        train = record { len = pos 2; ctl_code = pos 15; buf = codes "ab" ++ drop 2 eight.buf };
        rest = rest;
      }))
    × (stream rest ≡ 1 ∷ [])
    × AllArrive rest
unfolding int_bytes
one_recv-frame_example =
    one_recv-frame eight segments 2 (pos 15) (codes "ab") (1 ∷ [])
      (omega arith, (omega arith, (omega arith, tt))) refl refl (omega arith) (omega arith)
      (omega arith)

one_recv_overrun_example : one_recv eight too_long ≡ undefined
unfolding int_bytes
one_recv_overrun_example =
    one_recv_overrun eight too_long 9 (pos 15) (codes "abcdefghi") (omega arith, (omega arith, tt))
      refl refl (omega arith) (omega arith)
