-- ===== src/Wire/Frame.antt =====
-- one_recv takes one message off the stream and leaves the next ones whole.
use cloudisk_server.Base.{
  ℕ, ◌≤◌, ◌<◌, ◌≡◌, refl, sym, ap, ◌∙◌, List, [], ◌++◌, length, take, drop, length-append,
  take-append_le, drop-append_ge, take_all, append-nil, ℤ, pos, ok, undefined, arith,
}
use cloudisk_server.Base.Bytes.{int_bytes, int_of_bytes}
use cloudisk_server.Base.Bytes.Numbers.{IsInt, int_of_bytes-int_bytes}
use cloudisk_server.Base.Bytes.Arrays.{write_at_front, write_at_overrun}
use cloudisk_server.Wire.{Train, Recv, Received, recv_cyl, one_recv}
use cloudisk_server.Wire.Receive.{AllArrive, stream, recv_cyl-stream}

-- What send(fd, &train, 8 + len, 0) puts on the wire: the two ints, then the payload.
abbrev pub frame : ℤ → ℤ → List ℕ → List ℕ
frame len ctl payload = int_bytes len ++ (int_bytes ctl ++ payload)

pub length-int_bytes : (a : ℤ) → length (int_bytes a) ≡ 4
unfolding int_bytes
length-int_bytes a = refl

pub int_back : (a : ℤ) → IsInt a → int_of_bytes (int_bytes a) ≡ a
int_back a h = ap int_of_bytes (sym (append-nil (int_bytes a))) ∙ int_of_bytes-int_bytes a [] h

-- recvCYL of the `n` bytes with which a stream starts.
pub recv_cyl-front :
    (n : ℕ) (es : List Recv) (xs ys : List ℕ)
    → AllArrive es
    → stream es ≡ xs ++ ys
    → length xs ≡ n
    → (rest : List Recv) × (recv_cyl es (pos n)
        ≡ ok (record { ret = pos 0; got = xs; rest = rest }))
      × (stream rest ≡ ys)
      × AllArrive rest
recv_cyl-front n es xs ys h e l = (r.0.rest, r.1 ∙ ap ok same, left, r.5)
  where
    r :
        (r : Received) × (recv_cyl es (pos n) ≡ ok r)
        × (r.ret ≡ pos 0)
        × (r.got ≡ take n (stream es))
        × (stream r.rest ≡ drop n (stream es))
        × AllArrive r.rest
    r = recv_cyl-stream n es h (rw e (omega (arith, length-append xs ys)))

    got : r.0.got ≡ xs
    got = r.3 ∙ ap (take n) e ∙ take-append_le n xs ys (omega arith) ∙ take_all n xs (omega arith)

    left : stream r.0.rest ≡ ys
    left =
        r.4
        ∙ ap (drop n) e
        ∙ drop-append_ge n xs ys (omega arith)
        ∙ ap (λ (k : ℕ). drop k ys) {y = 0} (omega arith)

    same : r.0 ≡ record { ret = pos 0; got = xs; rest = r.0.rest }
    same i = record { ret = r.2 i; got = got i; rest = r.0.rest }

-- A whole message, of a length that the buffer holds, comes through as it was sent, however the
-- stream is cut into segments; the rest of the buffer keeps its bytes, and the bytes behind the
-- message stay for the next call.
pub one_recv-frame :
    (t : Train) (es : List Recv) (n : ℕ) (ctl : ℤ) (payload more : List ℕ)
    → AllArrive es
    → stream es ≡ frame (pos n) ctl (payload ++ more)
    → length payload ≡ n
    → n ≤ length t.buf
    → IsInt (pos n)
    → IsInt ctl
    → (rest : List Recv) × (one_recv t es
        ≡ ok (record {
          ret = pos 0;
          train = record { len = pos n; ctl_code = ctl; buf = payload ++ drop n t.buf };
          rest = rest;
        }))
      × (stream rest ≡ more)
      × AllArrive rest
unfolding one_recv
one_recv-frame t es n ctl payload more h e l room is_len is_ctl =
    let (s1, e1, left1, h1) =
      recv_cyl-front 4 es (int_bytes (pos n)) _ h e (length-int_bytes (pos n)) in
    let (s2, e2, left2, h2) =
      recv_cyl-front 4 s1 (int_bytes ctl) _ h1 left1 (length-int_bytes ctl) in
    let (s3, e3, left3, h3) = recv_cyl-front n s2 payload more h2 left2 l in
    (
      s3,
      rw (
        e1,
        e2,
        int_back (pos n) is_len,
        e3,
        int_back ctl is_ctl,
        write_at_front n payload t.buf l room,
      ),
      left3,
      h3,
    )

-- A length that the buffer does not hold is not refused: once its bytes have come, they are
-- written past the end of the buffer.
pub one_recv_overrun :
    (t : Train) (es : List Recv) (n : ℕ) (ctl : ℤ) (payload : List ℕ)
    → AllArrive es
    → stream es ≡ frame (pos n) ctl payload
    → length payload ≡ n
    → length t.buf < n
    → IsInt (pos n)
    → one_recv t es ≡ undefined
unfolding one_recv
one_recv_overrun t es n ctl payload h e l over is_len =
    let (s1, e1, left1, h1) =
      recv_cyl-front 4 es (int_bytes (pos n)) _ h e (length-int_bytes (pos n)) in
    let (s2, e2, left2, h2) =
      recv_cyl-front 4 s1 (int_bytes ctl) _ h1 left1 (length-int_bytes ctl) in
    let (s3, e3, left3, h3) =
      recv_cyl-front n s2 payload [] h2 (left2 ∙ sym (append-nil payload)) l in
    rw (e1, e2, int_back (pos n) is_len, e3, write_at_overrun payload t.buf (omega arith))
