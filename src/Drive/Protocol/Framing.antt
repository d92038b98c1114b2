-- ===== src/Drive/Protocol/Framing.antt =====
-- What encode writes, try_decode takes off the buffer, however the bytes come.
use cloudisk_server.Base.{
  ℕ, ◌+◌, ◌-◌, ◌/◌, ◌^◌, ◌≤◌, ◌<◌, ◌≡◌, refl, ap, ◌∙◌, List, [], ◌++◌, append_assoc, false, ltb,
  if◌then◌else◌, Bool-cases, inl, inr, ltb_no, le→leb, arith, Outcome, ok, length, length-append,
  length-drop, drop, take, drop-drop, take-append_here, drop-append_here,
}
use cloudisk_server.Drive.Protocol.{
  Message, find, serialize_headers, parse_headers, htonl, htons, ntohl, ntohs, magic, version,
  wire_size, wire_header, encode, Decoded, decoded, more_needed, compact, take_frame, try_decode,
}
use cloudisk_server.Drive.Protocol.Headers.{Clean, Distinct, parse_headers-serialize_headers}

ntohl-htonl : (w : ℕ) (more : List ℕ) → w < 2 ^ 32 → ntohl (htonl w ++ more) ≡ w
unfolding ntohl htonl
ntohl-htonl w more h = omega arith

ntohs-htons : (w : ℕ) (more : List ℕ) → w < 2 ^ 16 → ntohs (htons w ++ more) ≡ w
unfolding ntohs htons
ntohs-htons w more h = omega arith

-- A message that its frame can hold: headers that come back from their lines, and lengths that fit
-- the fields.
pub record Fits (m : Message) : Type 0 where
  pub clean : Clean m.headers
  pub distinct : Distinct [] m.headers
  pub header_room : length (serialize_headers m.headers) < 2 ^ 16
  pub body_room : length m.body < 2 ^ 32

-- The fields as try_decode reads them off the front of a frame.
record Fields (a b : ℕ) (text : List ℕ) : Type 0 where
  magic_there : ntohl text ≡ magic
  version_there : ntohs (drop 4 text) ≡ version
  header_there : ntohs (drop 6 text) ≡ a
  body_there : ntohl (drop 8 text) ≡ b

wire_header-Fields :
    (a b : ℕ) (more : List ℕ) → a < 2 ^ 16 → b < 2 ^ 32 → Fields a b (wire_header a b ++ more)
unfolding wire_header
wire_header-Fields a b more h k = record {
  magic_there = unfold ntohl htonl htons in refl;
  version_there = unfold ntohs htonl htons in refl;
  header_there = unfold ntohs htonl htons in omega (arith, h);
  body_there = unfold ntohl htonl htons in omega (arith, k);
}

pub length-wire_header : (a b : ℕ) → length (wire_header a b) ≡ wire_size
unfolding wire_header htonl htons
length-wire_header a b = refl

-- A frame and what follows it, its header first.
pub encode_parts :
    (m : Message) (more : List ℕ)
    → encode m ++ more
      ≡ wire_header (length (serialize_headers m.headers)) (length m.body)
        ++ (serialize_headers m.headers ++ (m.body ++ more))
unfolding encode
encode_parts m more =
    append_assoc
      (wire_header (length (serialize_headers m.headers)) (length m.body)
        ++ serialize_headers m.headers)
      m.body more
    ∙ append_assoc (wire_header (length (serialize_headers m.headers)) (length m.body))
        (serialize_headers m.headers) (m.body ++ more)

-- try_decode's tests on what is in the buffer from the offset on.
pub try_decode_tests :
    (a b : ℕ) (buffer : List ℕ) (offset : ℕ) (more : List ℕ)
    → a < 2 ^ 16
    → b < 2 ^ 32
    → offset ≤ length buffer
    → drop offset buffer ≡ wire_header a b ++ more
    → try_decode buffer offset
      ≡ ok (if ltb (length more) (a + b) then more_needed else take_frame buffer offset a b)
unfolding try_decode
try_decode_tests a b buffer offset more h k inside there =
    let f = wire_header-Fields a b more h k in
    let available : length buffer - offset ≡ wire_size + length more = omega (
      arith,
      length-drop offset buffer,
      ap length there,
      length-append (wire_header a b) more,
      length-wire_header a b,
    ) in
    let whole_header : ltb (length buffer - offset) wire_size ≡ false = ground (arith, available) in
    let whole : ltb (length buffer - offset) (wire_size + a + b) ≡ ltb (length more) (a + b) =
      ground (arith, available) in
    rw
      (
        try_decode,
        whole_header,
        there,
        f.magic_there,
        f.version_there,
        f.header_there,
        f.body_there,
        whole,
        le→leb offset (length buffer) inside,
      )
      refl

-- The same message: the same body, and the same value for each key.
pub record IsSame (m m' : Message) : Type 0 where
  pub bodies : m'.body ≡ m.body
  pub values : (key : List ℕ) → find key m'.headers ≡ find key m.headers

-- A message has been taken off, and `rest` is what the buffer still holds from the offset on.
pub record Taken (m : Message) (rest : List ℕ) (r : Outcome Decoded) : Type 0 where
  pub buffer : List ℕ
  pub offset : ℕ
  pub got : Message
  pub result : r ≡ ok (decoded buffer offset got)
  pub same : IsSame m got
  pub within : offset ≤ length buffer
  pub left : drop offset buffer ≡ rest

compact-left :
    (buffer : List ℕ) (offset : ℕ) (m : Message)
    → offset ≤ length buffer
    → (buffer' : List ℕ) × (offset' : ℕ) × (compact buffer offset m ≡ decoded buffer' offset' m)
      × (offset' ≤ length buffer')
      × (drop offset' buffer' ≡ drop offset buffer)
unfolding compact
compact-left buffer offset m inside = elim (Bool-cases (ltb (length buffer / 2) offset)) [
  | inl most ↦ (drop offset buffer, 0, rw (compact, most) refl, omega arith, refl)
  | inr few ↦ (buffer, offset, rw (compact, few) refl, inside, refl)
]

-- A frame in the buffer: its bytes behind the wire header, and what is behind it.
frame_behind :
    (w xs buffer : List ℕ) (offset n : ℕ)
    → length w ≡ n
    → drop offset buffer ≡ w ++ xs
    → drop (offset + n) buffer ≡ xs
frame_behind w xs buffer offset n e there =
    drop-drop offset n buffer ∙ ap (drop n) there ∙ drop-append_here n w xs e

-- A message that its frame can hold, with anything behind it: try_decode returns true, with the
-- body and with each header's value as they were, and the buffer and the offset then hold exactly
-- what was behind the message.
pub try_decode-encode :
    (m : Message) (buffer rest : List ℕ) (offset : ℕ)
    → Fits m
    → offset ≤ length buffer
    → drop offset buffer ≡ encode m ++ rest
    → Taken m rest (try_decode buffer offset)
unfolding take_frame
try_decode-encode m buffer rest offset fits inside there =
    let text = serialize_headers m.headers in
    let a = length text in
    let b = length m.body in
    let w = wire_header a b in
    let parts = there ∙ encode_parts m rest in
    let size : length (text ++ (m.body ++ rest)) ≡ a + b + length rest =
      omega (arith, length-append text (m.body ++ rest), length-append m.body rest) in
    let total : length buffer - offset ≡ wire_size + length (text ++ (m.body ++ rest)) = omega (
      arith,
      length-drop offset buffer,
      ap length parts,
      length-append w (text ++ (m.body ++ rest)),
      length-wire_header a b,
    ) in
    let behind =
      frame_behind w (text ++ (m.body ++ rest)) buffer offset wire_size (length-wire_header a b)
        parts in
    let blob : take a (drop (offset + wire_size) buffer) ≡ text =
      ap (take a) behind ∙ take-append_here a text (m.body ++ rest) refl in
    let body_on : drop a (drop (offset + wire_size) buffer) ≡ m.body ++ rest =
      ap (drop a) behind ∙ drop-append_here a text (m.body ++ rest) refl in
    let got : Message = record {
      headers = parse_headers (take a (drop (offset + wire_size) buffer));
      body = take b (drop a (drop (offset + wire_size) buffer));
    } in
    let (buffer', offset', done, within, left) =
      compact-left buffer (offset + (wire_size + a + b)) got (omega (arith, total, size)) in
    record {
      buffer = buffer';
      offset = offset';
      got = got;
      result =
          try_decode_tests a b buffer offset (text ++ (m.body ++ rest)) fits.header_room
            fits.body_room inside parts
          ∙ rw
              (ltb_no (length (text ++ (m.body ++ rest))) (a + b) (omega (arith, size)), take_frame)
              (ap ok done);
      same = record {
        bodies = ap (take b) body_on ∙ take-append_here b m.body rest refl;
        values = λ key.
            ap (λ (t : List ℕ). find key (parse_headers t)) blob
            ∙ parse_headers-serialize_headers m.headers key fits.clean fits.distinct;
      };
      within = within;
      left =
          left
          ∙ ap (λ (i : ℕ). drop i buffer) {x = offset + (wire_size + a + b)}
              {y = offset + wire_size + a + b} (omega arith)
          ∙ drop-drop (offset + wire_size + a) b buffer
          ∙ ap (drop b) (drop-drop (offset + wire_size) a buffer ∙ body_on)
          ∙ drop-append_here b m.body rest refl;
    }
