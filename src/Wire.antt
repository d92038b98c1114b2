-- ===== src/Wire.antt =====
-- src/ser_cli.c and the message type of include/head.h and include/ser_cli.h.
pub mod Codes
pub mod Receive
pub mod Frame
use cloudisk_server.Base.{
  ℕ, zero, suc, ◌+◌, ◌-◌, List, [], ◌∷◌, ◌++◌, ltb, leb, ◌==◌, if◌then◌else◌, length, take, drop, ℤ,
  pos, minus_one, pos_part, eqb_ℤ, Outcome, ok, exits, undefined, waits, ◌>>=◌,
}
use cloudisk_server.Base.Bytes.{write_at, int_of_bytes}

-- BUFSIZE
abbrev pub buf_size : ℕ
buf_size = 10240

-- Train_t; the source keeps `buf` at `buf_size` bytes.
pub record Train : Type 0 where
  pub len : ℤ
  pub ctl_code : ℤ
  pub buf : List ℕ

-- What the kernel has for the next recv: bytes, the end of the stream, or an error. A socket is
-- the list of what is to come.
pub data Recv : Type 0 where
  arrived : List ℕ → Recv
  closed error : Recv

pub record Received : Type 0 where
  pub ret : ℤ
  pub got : List ℕ
  pub rest : List Recv

-- What recv stores at `buf + total` in a buffer whose first bytes are `written`.
unfoldable pub overlay : ℕ → List ℕ → List ℕ → List ℕ
overlay total bs written = take total written ++ (bs ++ drop (total + length bs) written)

abbrev pub received : ℤ → List ℕ → List Recv → Outcome Received
received ret got rest = ok (record { ret = ret; got = got; rest = rest })

-- The loop of recvCYL. recv gives at most what is asked for and 0 at the end of the stream. The
-- code tests for 0 alone, so an error takes 1 off `total`; below the buffer that is undefined.
unfoldable pub recv_loop : ℕ → ℕ → List ℕ → List Recv → Outcome Received
recv_loop len total w [] = if ltb total len then waits else received (pos 0) w []
recv_loop len total w (closed ∷ es) =
    if ltb total len then received minus_one w (closed ∷ es) else received (pos 0) w (closed ∷ es)
recv_loop len total w (error ∷ es) =
    let again = recv_loop len (total - 1) w es in
    if ltb total len
    then (if total == 0 then undefined else again)
    else received (pos 0) w (error ∷ es)
recv_loop len total w (arrived bs ∷ es) =
    let again = recv_loop len (total + length bs) (overlay total bs w) es in
    if ltb total len
    then if length bs == 0
      then received minus_one w (arrived bs ∷ es)
      else if leb (length bs) (len - total)
      then again
      else received (pos 0) (overlay total (take (len - total) bs) w)
          (arrived (drop (len - total) bs) ∷ es)
    else received (pos 0) w (arrived bs ∷ es)

-- recvCYL(fd, pbuf, len): what it returns, and the bytes that it stored from `pbuf` on.
unfoldable pub recv_cyl : List Recv → ℤ → Outcome Received
recv_cyl es len = recv_loop (pos_part len) 0 [] es

pub record Arrival : Type 0 where
  pub ret : ℤ
  pub train : Train
  pub rest : List Recv

-- one_recv: the two ints of the header, then `Len` bytes into `buf`, with no test of `Len`. Of an
-- int that a quit cuts short nothing is kept: no code reads it before it is received anew.
unfoldable pub one_recv : Train → List Recv → Outcome Arrival
one_recv t es = do
  l ← recv_cyl es (pos 4)
  if eqb_ℤ l.ret minus_one then ok (record { ret = minus_one; train = t; rest = l.rest }) else do
    c ← recv_cyl l.rest (pos 4)
    let t' = record t { len = int_of_bytes l.got }
    if eqb_ℤ c.ret minus_one then ok (record { ret = minus_one; train = t'; rest = c.rest }) else do
      b ← recv_cyl c.rest (int_of_bytes l.got)
      buf ← write_at 0 b.got t.buf
      ok (record {
        ret = b.ret;
        train = record { len = int_of_bytes l.got; ctl_code = int_of_bytes c.got; buf = buf };
        rest = b.rest;
      })
