-- ===== src/Drive/Protocol/Stream.antt =====
-- The messages of a connection, in whatever pieces their bytes come.
use cloudisk_server.Base.{
  ℕ, zero, suc, ◌+◌, ◌-◌, ◌≤◌, ◌<◌, ◌≡◌, refl, ap, ◌∙◌, List, [], ◌∷◌, ◌++◌, append_assoc, true,
  false, ltb, ◌==◌, Bool-cases, inl, inr, le→leb, arith, Outcome, ok, length, length-append,
  length-drop, length-take, drop, take, take-append_ge,
}
use cloudisk_server.Drive.Protocol.{
  Message, serialize_headers, wire_size, wire_header, encode, more_needed, bad_magic, magic, ntohl,
  try_decode, Drained, waiting, thrown, drain,
}
use cloudisk_server.Drive.Protocol.Framing.{
  Fits, IsSame, length-wire_header, try_decode_tests, try_decode-encode,
}

-- A part of an encoding is left alone until the rest of it has come.
pub try_decode-take :
    (m : Message) (buffer : List ℕ) (offset n : ℕ)
    → Fits m
    → offset ≤ length buffer
    → n < length (encode m)
    → drop offset buffer ≡ take n (encode m)
    → try_decode buffer offset ≡ ok more_needed
unfolding try_decode encode
try_decode-take m buffer offset n fits inside short there = elim (Bool-cases (ltb n wire_size)) [
  | inl no_header ↦
      let few : ltb (length buffer - offset) wire_size ≡ true = ground (arith, available) in
      rw (try_decode, few, le→leb offset (length buffer) inside) refl
  | inr header ↦
      let more = take (n - wire_size) payload in
      let behind : take n (encode m) ≡ wire_header a b ++ more =
        ap (take n) whole
        ∙ take-append_ge n (wire_header a b) payload (ground (arith, length-wire_header a b))
        ∙ ap (λ (i : ℕ). wire_header a b ++ take (n - i) payload) (length-wire_header a b) in
      let few : ltb (length more) (a + b) ≡ true =
        ground (arith, length-take (n - wire_size) payload, total, short) in
      try_decode_tests a b buffer offset more fits.header_room fits.body_room inside
        (there ∙ behind)
      ∙ rw few refl
]
  where
    a : ℕ
    a = length (serialize_headers m.headers)

    b : ℕ
    b = length m.body

    payload : List ℕ
    payload = serialize_headers m.headers ++ m.body

    whole : encode m ≡ wire_header a b ++ payload
    whole = append_assoc (wire_header a b) (serialize_headers m.headers) m.body

    total : length (encode m) ≡ wire_size + (a + b)
    total = omega (
      arith,
      ap length whole,
      length-append (wire_header a b) payload,
      length-wire_header a b,
      length-append (serialize_headers m.headers) m.body,
    )

    available : length buffer - offset ≡ n
    available = omega (arith, length-drop offset buffer, ap length there, length-take n (encode m))

abbrev pub encode_all : List Message → List ℕ
encode_all [] = []
encode_all (m ∷ ms) = encode m ++ encode_all ms

abbrev pub AllFit : List Message → Type 0
AllFit [] = Unit
AllFit (m ∷ ms) = Fits m × AllFit ms

abbrev pub AllSame : List Message → List Message → Type 0
AllSame [] [] = Unit
AllSame [] (m' ∷ ms') = ⊥
AllSame (m ∷ ms) [] = ⊥
AllSame (m ∷ ms) (m' ∷ ms') = IsSame m m' × AllSame ms ms'

-- The messages have all been taken off, and the part of a message behind them stays.
pub record AllTaken (ms : List Message) (part : List ℕ) (r : Outcome Drained) : Type 0 where
  pub got : List Message
  pub buffer : List ℕ
  pub offset : ℕ
  pub result : r ≡ ok (waiting got buffer offset)
  pub same : AllSame ms got
  pub left : drop offset buffer ≡ part

-- Messages that their frames can hold, and behind them a part of one more: with a round for each
-- of them and one more, the loop takes off all messages, in order and each as it was encoded, and
-- keeps the part.
pub drain-encode_all :
    (ms : List Message) (next : Message) (n rounds : ℕ) (buffer : List ℕ) (offset : ℕ)
    → AllFit ms
    → Fits next
    → n < length (encode next)
    → offset ≤ length buffer
    → drop offset buffer ≡ encode_all ms ++ take n (encode next)
    → length ms < rounds
    → AllTaken ms (take n (encode next)) (drain rounds buffer offset)
unfolding drain
drain-encode_all [] next n zero buffer offset fit fits short inside there fuel = elim fuel [ ]
drain-encode_all (m ∷ ms) next n zero buffer offset fit fits short inside there fuel = elim fuel [ ]
drain-encode_all [] next n (suc rounds) buffer offset fit fits short inside there fuel = record {
  got = [];
  buffer = buffer;
  offset = offset;
  result = rw (try_decode-take next buffer offset n fits inside short there) refl;
  same = tt;
  left = there;
}
drain-encode_all (m ∷ ms) next n (suc rounds) buffer offset fit fits short inside there fuel =
    let t =
      try_decode-encode m buffer (encode_all ms ++ take n (encode next)) offset fit.0 inside
        (there ∙ append_assoc (encode m) (encode_all ms) (take n (encode next))) in
    let r =
      drain-encode_all ms next n rounds t.buffer t.offset fit.1 fits short t.within t.left
        (omega arith) in
    record {
      got = t.got ∷ r.got;
      buffer = r.buffer;
      offset = r.offset;
      result = rw (t.result, r.result) refl;
      same = (t.same, r.same);
      left = r.left;
    }

-- Messages that their frames can hold, and behind them at least a header's bytes that do not begin
-- with the magic number: the messages are taken off, and then the loop ends by the exception.
pub drain_garbage :
    (ms : List Message) (junk : List ℕ) (rounds : ℕ) (buffer : List ℕ) (offset : ℕ)
    → AllFit ms
    → wire_size ≤ length junk
    → (ntohl junk == magic) ≡ false
    → offset ≤ length buffer
    → drop offset buffer ≡ encode_all ms ++ junk
    → length ms < rounds
    → (got : List Message) × (drain rounds buffer offset ≡ ok (thrown got bad_magic))
      × AllSame ms got
unfolding drain try_decode
drain_garbage [] junk zero buffer offset fit size wrong inside there fuel = elim fuel [ ]
drain_garbage (m ∷ ms) junk zero buffer offset fit size wrong inside there fuel = elim fuel [ ]
drain_garbage [] junk (suc rounds) buffer offset fit size wrong inside there fuel =
    let available : ltb (length buffer - offset) wire_size ≡ false =
      ground (arith, length-drop offset buffer, ap length there, size) in
    ([], rw (try_decode, available, there, wrong, le→leb offset (length buffer) inside) refl, tt)
drain_garbage (m ∷ ms) junk (suc rounds) buffer offset fit size wrong inside there fuel =
    let t =
      try_decode-encode m buffer (encode_all ms ++ junk) offset fit.0 inside
        (there ∙ append_assoc (encode m) (encode_all ms) junk) in
    let (got, run, same) =
      drain_garbage ms junk rounds t.buffer t.offset fit.1 size wrong t.within t.left
        (omega arith) in
    (t.got ∷ got, rw (drain, t.result, run) refl, (t.same, same))
