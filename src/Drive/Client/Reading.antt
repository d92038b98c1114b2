-- ===== src/Drive/Client/Reading.antt =====
-- read_message of client/src/client_app.cpp: the answer of the server, in the parts in which recv
-- gives it.
use cloudisk_server.Base.{
  ℕ, ◌≤◌, ◌<◌, ◌≡◌, refl, sym, ◌∙◌, ap, List, [], ◌∷◌, ◌++◌, false, ◌==◌, if◌then◌else◌, length,
  take, drop, Outcome, ok, arith, Bool-cases, inl, inr, ltb, ltb→lt, append_assoc, length-append,
  drop-append_le, take-append_here, take-append_le, take-append-drop, drop-append_here,
}
use cloudisk_server.Base.Runs
use cloudisk_server.Drive.Protocol.{
  Message, encode, Decoded, bad_magic, bad_version, more_needed, decoded, try_decode,
}
use cloudisk_server.Drive.Protocol.Framing.{Fits, IsSame, Taken, try_decode-encode}
use cloudisk_server.Drive.Protocol.Stream.{try_decode-take}

-- What read_message comes to: true, with the message, inbound_, inbound_offset_ and what recv has
-- still to give; false; or an exception of try_decode.
pub data Read : Type 0 where
  got : Message → List ℕ → ℕ → List (List ℕ) → Read
  closed raised : Read

abbrev pub on_decoded : Decoded → List (List ℕ) → Outcome Read → Outcome Read
on_decoded bad_magic parts more = ok raised
on_decoded bad_version parts more = ok raised
on_decoded more_needed parts more = more
on_decoded (decoded inbound offset m) parts more = ok (got m inbound offset parts)

-- read_message, where `parts` are what the calls of recv give; an empty one is its result 0, and
-- the end an error.
unfoldable pub read_message : List (List ℕ) → List ℕ → ℕ → Outcome Read
read_message [] inbound offset =
    Runs.◌>>=◌ (try_decode inbound offset) λ d. on_decoded d [] (ok closed)
read_message (x ∷ xs) inbound offset =
    let rest = read_message xs (inbound ++ x) offset in
    Runs.◌>>=◌ (try_decode inbound offset)
      λ d. on_decoded d (x ∷ xs) (if length x == 0 then ok closed else rest)

abbrev pub concat : List (List ℕ) → List ℕ
concat [] = []
concat (x ∷ xs) = x ++ concat xs

abbrev pub AreFull : List (List ℕ) → Type 0
AreFull [] = Unit
AreFull (x ∷ xs) = (0 < length x) × AreFull xs

-- The message has been read, and what comes behind it is still there.
pub record IsRead (m : Message) (rest : List ℕ) (r : Outcome Read) : Type 0 where
  pub message : Message
  pub inbound : List ℕ
  pub offset : ℕ
  pub parts : List (List ℕ)
  pub result : r ≡ ok (got message inbound offset parts)
  pub same : IsSame m message
  pub within : offset ≤ length inbound
  pub full : AreFull parts
  pub left : drop offset inbound ++ concat parts ≡ rest

module _ {ℓ} {A : Type ℓ} where
  -- A short front of two equal lists.
  short_front :
      (xs ys a b : List A) → xs ++ ys ≡ a ++ b → length xs ≤ length a → xs ≡ take (length xs) a
  short_front xs ys a b e h =
      sym (take-append_here (length xs) xs ys refl)
      ∙ ap (take (length xs)) e
      ∙ take-append_le (length xs) a b h

  -- A long front of two equal lists.
  long_front :
      (xs ys a b : List A)
      → xs ++ ys ≡ a ++ b
      → length a ≤ length xs
      → (xs ≡ a ++ drop (length a) xs) × (drop (length a) xs ++ ys ≡ b)
  long_front xs ys a b e h = (
    sym (take-append-drop (length a) xs) ∙ ap (λ (t : List A). t ++ drop (length a) xs) front,
    sym (drop-append_le (length a) xs ys h)
        ∙ ap (drop (length a)) e
        ∙ drop-append_here (length a) a b refl,
  )
    where
      front : take (length a) xs ≡ a
      front =
          sym (take-append_le (length a) xs ys h)
          ∙ ap (take (length a)) e
          ∙ take-append_here (length a) a b refl

module _ (m : Message) (rest : List ℕ) (fits : Fits m) where
  -- A message that try_decode takes off is read.
  IsRead-Taken :
      (parts : List (List ℕ)) (more : Outcome Read) (inbound behind : List ℕ) (offset : ℕ)
      → AreFull parts
      → behind ++ concat parts ≡ rest
      → Taken m behind (try_decode inbound offset)
      → IsRead m rest (Runs.◌>>=◌ (try_decode inbound offset) λ d. on_decoded d parts more)
  IsRead-Taken parts more inbound behind offset f e t = rw t.result (record {
    message = t.got;
    inbound = t.buffer;
    offset = t.offset;
    parts = parts;
    result = refl;
    same = t.same;
    within = t.within;
    full = f;
    left = ap (λ (b : List ℕ). b ++ concat parts) t.left ∙ e;
  })

  -- The message is in the buffer already.
  whole_message-IsRead :
      (parts : List (List ℕ)) (inbound : List ℕ) (offset : ℕ)
      → offset ≤ length inbound
      → AreFull parts
      → drop offset inbound ++ concat parts ≡ encode m ++ rest
      → length (encode m) ≤ length (drop offset inbound)
      → IsRead m rest (read_message parts inbound offset)
  unfolding read_message
  whole_message-IsRead [] inbound offset w f e l =
      let (front, back) = long_front (drop offset inbound) [] (encode m) rest e l in
      IsRead-Taken [] _ inbound _ offset tt back (try_decode-encode m inbound _ offset fits w front)
  whole_message-IsRead (x ∷ xs) inbound offset w f e l =
      let (front, back) = long_front (drop offset inbound) (x ++ concat xs) (encode m) rest e l in
      IsRead-Taken (x ∷ xs) _ inbound _ offset f back
        (try_decode-encode m inbound _ offset fits w front)

  -- The message is in the buffer in part.
  needs_more :
      (inbound behind : List ℕ) (offset : ℕ)
      → offset ≤ length inbound
      → drop offset inbound ++ behind ≡ encode m ++ rest
      → length (drop offset inbound) < length (encode m)
      → try_decode inbound offset ≡ ok more_needed
  needs_more inbound behind offset w e l =
      try_decode-take m inbound offset (length (drop offset inbound)) fits w l
        (short_front (drop offset inbound) behind (encode m) rest e (omega arith))

  -- An answer that its frame can hold is read as it was sent, wherever recv cuts it, and what comes
  -- behind it is there for the next call.
  pub read_message-encode :
      (parts : List (List ℕ)) (inbound : List ℕ) (offset : ℕ)
      → offset ≤ length inbound
      → AreFull parts
      → drop offset inbound ++ concat parts ≡ encode m ++ rest
      → IsRead m rest (read_message parts inbound offset)
  unfolding read_message
  read_message-encode [] inbound offset w f e = whole_message-IsRead [] inbound offset w f e (
      omega
        (arith, ap length e, length-append (drop offset inbound) [], length-append (encode m) rest))
  read_message-encode (x ∷ xs) inbound offset w f e =
      elim (Bool-cases (ltb (length (drop offset inbound)) (length (encode m)))) [
        | inr whole ↦ whole_message-IsRead (x ∷ xs) inbound offset w f e (ground arith)
        | inl short ↦
            let few : length (drop offset inbound) < length (encode m) = ltb→lt _ _ short in
            let full : (length x == 0) ≡ false = ground (arith, f.0) in
            rw (needs_more inbound (x ++ concat xs) offset w e few, full)
              (read_message-encode xs (inbound ++ x) offset (omega (arith, length-append inbound x))
                f.1
                (ap (λ (t : List ℕ). t ++ concat xs) (drop-append_le offset inbound x w)
                  ∙ append_assoc (drop offset inbound) x (concat xs)
                  ∙ e))
      ]
