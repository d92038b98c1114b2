-- ===== src/Wire/Receive.antt =====
-- recvCYL gathers a stream, however the network cuts it.
use cloudisk_server.Base.{
  ℕ, ◌+◌, ◌-◌, ◌≤◌, ◌<◌, ◌≡◌, refl, false, ltb_no, lt→ltb, le→leb, sym, ap, subst, ◌∙◌, List, [],
  ◌∷◌, ◌++◌, ltb, leb, ◌==◌, length, take, drop, length-append, length-drop, take-append_le,
  take-append_ge, drop-append_le, drop-append_ge, take_all, drop_all, append-nil, append_assoc, inl,
  inr, pos, minus_one, Outcome, ok, arith, Bool-cases,
}
use cloudisk_server.Wire.{Recv, arrived, closed, error, Received, overlay, recv_loop, recv_cyl}

-- A stream with no error and no empty segment.
abbrev pub AllArrive : List Recv → Type 0
AllArrive [] = Unit
AllArrive (arrived bs ∷ es) = (0 < length bs) × AllArrive es
AllArrive (closed ∷ es) = ⊥
AllArrive (error ∷ es) = ⊥

-- The bytes of a stream, whatever its segments.
abbrev pub stream : List Recv → List ℕ
stream [] = []
stream (arrived bs ∷ es) = bs ++ stream es
stream (closed ∷ es) = []
stream (error ∷ es) = []

overlay_end : (w bs : List ℕ) → overlay (length w) bs w ≡ w ++ bs
unfolding overlay
overlay_end w bs =
    rw (take_all (length w) w (omega arith), drop_all (length w + length bs) w (omega arith))
      (ap (◌++◌ w) (append-nil bs))

-- What the loop has gathered when it stops: the `n` bytes asked for, the others left in the stream.
record Gathers (w : List ℕ) (n : ℕ) (all : List ℕ) (r : Outcome Received) : Type 0 where
  result : Received
  returns : r ≡ ok result
  ret_zero : result.ret ≡ pos 0
  got_all : result.got ≡ w ++ take n all
  left : stream result.rest ≡ drop n all
  fine : AllArrive result.rest

Gathers-enough :
    {total len : ℕ} (w : List ℕ) (es : List Recv)
    → AllArrive es
    → len ≡ total
    → Gathers w (len - total) (stream es) (ok (record { ret = pos 0; got = w; rest = es }))
Gathers-enough {total} {len} w es h e = record {
  result = record { ret = pos 0; got = w; rest = es };
  returns = refl;
  ret_zero = refl;
  got_all = rw zero_left (sym (append-nil w));
  left = rw zero_left refl;
  fine = h;
}
  where
    zero_left : len - total ≡ 0
    zero_left = omega arith

Gathers-more :
    (w bs : List ℕ) (n : ℕ) (es : List Recv) (r : Outcome Received)
    → length bs ≤ n
    → Gathers (w ++ bs) (n - length bs) (stream es) r
    → Gathers w n (bs ++ stream es) r
Gathers-more w bs n es r h g = record {
  result = g.result;
  returns = g.returns;
  ret_zero = g.ret_zero;
  got_all = rw (take-append_ge n bs (stream es) h) (g.got_all ∙ append_assoc w bs _);
  left = rw (drop-append_ge n bs (stream es) h) g.left;
  fine = g.fine;
}

Gathers-part :
    (w bs : List ℕ) (n : ℕ) (es : List Recv)
    → AllArrive es
    → n < length bs
    → Gathers w n
        (bs ++ stream es)
        (ok (record { ret = pos 0; got = w ++ take n bs; rest = arrived (drop n bs) ∷ es }))
Gathers-part w bs n es h lt = record {
  result = record { ret = pos 0; got = w ++ take n bs; rest = arrived (drop n bs) ∷ es };
  returns = refl;
  ret_zero = refl;
  got_all = rw (take-append_le n bs (stream es) (omega arith)) refl;
  left = rw (drop-append_le n bs (stream es) (omega arith)) refl;
  fine = (omega (arith, length-drop n bs), h);
}

nonempty : (bs : List ℕ) → 0 < length bs → (length bs == 0) ≡ false
nonempty bs h = ground arith

recv_loop-Gathers :
    (len total : ℕ) (w : List ℕ) (es : List Recv)
    → AllArrive es
    → total ≡ length w
    → total ≤ len
    → len ≤ total + length (stream es)
    → Gathers w (len - total) (stream es) (recv_loop len total w es)
unfolding recv_loop
recv_loop-Gathers len total w [] h e lo hi =
    rw (ltb_no total len (omega arith)) (Gathers-enough w [] h (omega arith))
recv_loop-Gathers len total w (closed ∷ es) h e lo hi = absurd h
recv_loop-Gathers len total w (error ∷ es) h e lo hi = absurd h
recv_loop-Gathers len total w (arrived bs ∷ es) h e lo hi = elim (Bool-cases (ltb total len)) [
  | inr full ↦ rw full (Gathers-enough w (arrived bs ∷ es) h (ground arith))
  | inl short ↦ elim (Bool-cases (leb (length bs) (len - total))) [
    | inl whole ↦
        let room : total + length bs ≤ len = ground arith in
        rw (short, some_bytes, whole, at_end bs)
          (Gathers-more w bs (len - total) es _ (ground arith) (
            subst
              (λ k.
                Gathers (w ++ bs) k (stream es) (recv_loop len (total + length bs) (w ++ bs) es))
              (omega arith)
              (recv_loop-Gathers len (total + length bs) (w ++ bs) es h.1
                (omega (arith, length-append w bs)) room
                (omega (arith, length-append bs (stream es))))))
    | inr part ↦
        rw (short, some_bytes, part, at_end (take (len - total) bs))
          (Gathers-part w bs (len - total) es h.1 (ground arith))
  ]
]
  where
    some_bytes : (length bs == 0) ≡ false
    some_bytes = nonempty bs h.0

    at_end : (xs : List ℕ) → overlay total xs w ≡ w ++ xs
    at_end xs = rw e (overlay_end w xs)

-- recvCYL gives the first `n` bytes of a stream that has them and leaves the others to the next
-- call, wherever the segments of the stream end.
pub recv_cyl-stream :
    (n : ℕ) (es : List Recv)
    → AllArrive es
    → n ≤ length (stream es)
    → (r : Received) × (recv_cyl es (pos n) ≡ ok r)
      × (r.ret ≡ pos 0)
      × (r.got ≡ take n (stream es))
      × (stream r.rest ≡ drop n (stream es))
      × AllArrive r.rest
unfolding recv_cyl
recv_cyl-stream n es h enough =
    let g : Gathers [] n (stream es) (recv_loop n 0 [] es) =
      subst (λ k. Gathers [] k (stream es) (recv_loop n 0 [] es)) (omega arith)
        (recv_loop-Gathers n 0 [] es h refl (omega arith) (omega arith)) in
    (g.result, g.returns, g.ret_zero, g.got_all, g.left, g.fine)

-- Where the peer closes before `len` bytes have come, the loop ends with -1.
recv_loop_short :
    (len total : ℕ) (w : List ℕ) (es more : List Recv)
    → AllArrive es
    → total + length (stream es) < len
    → (r : Received) × (recv_loop len total w (es ++ closed ∷ more) ≡ ok r) × (r.ret ≡ minus_one)
unfolding recv_loop
recv_loop_short len total w [] more h lt = rw (lt→ltb total len (omega arith)) (_, refl, refl)
recv_loop_short len total w (closed ∷ es) more h lt = absurd h
recv_loop_short len total w (error ∷ es) more h lt = absurd h
recv_loop_short len total w (arrived bs ∷ es) more h lt =
    let room : total + length bs + length (stream es) < len =
      omega (arith, length-append bs (stream es)) in
    rw
      (
        lt→ltb total len (omega arith),
        nonempty bs h.0,
        le→leb (length bs) (len - total) (omega arith),
      )
      (recv_loop_short len (total + length bs) (overlay total bs w) es more h.1 room)

-- recvCYL returns -1 when the peer closes before all `n` bytes have come.
pub recv_cyl_quit :
    (n : ℕ) (es more : List Recv)
    → AllArrive es
    → length (stream es) < n
    → (r : Received) × (recv_cyl (es ++ closed ∷ more) (pos n) ≡ ok r) × (r.ret ≡ minus_one)
unfolding recv_cyl
recv_cyl_quit n es more h lt = recv_loop_short n 0 [] es more h (omega arith)
