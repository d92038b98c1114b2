-- ===== src/Drive/Base64/RoundTrip.antt =====
-- base64_decode takes back what base64_encode wrote.
use cloudisk_server.Base.{
  ℕ, ◌+◌, ◌-◌, ◌*◌, ◌/◌, ◌%◌, ◌^◌, ◌<◌, ◌≡◌, refl, ap, ◌∙◌, List, [], ◌∷◌, true, false, leb, ◌==◌,
  if◌then◌else◌, ℤ, pos, minus_one, ltb_ℤ, length, get_or, arith, ltb_no,
}
use cloudisk_server.Drive.Base64.{
  char64, base64_encode, decoding_table, Decoding, output, with_byte, decode_loop, base64_decode,
}
use cloudisk_server.Drive.Base64.Groups.{
  in_groups, AllBytes, char64-value, char64_no_pad, base64_encode-in_groups,
}

-- A character of the alphabet gives its six bits.
abbrev after : ℕ → List ℕ → ℕ → ℕ → Decoding
after v cs acc bits =
    let acc' = acc * 64 % 2 ^ 32 + v in
    let full = leb 8 (bits + 6) in
    let left = if full then bits + 6 - 8 else bits + 6 in
    let rest = decode_loop cs acc' left in
    if full then with_byte (acc' / 2 ^ left % 256) rest else rest

decode_loop-char64 :
    (v : ℕ) (cs : List ℕ) (acc bits : ℕ)
    → v < 64
    → decode_loop (char64 v ∷ cs) acc bits ≡ after v cs acc bits
unfolding decode_loop
decode_loop-char64 v cs acc bits h =
    let there = char64-value v h in
    let found : ltb_ℤ (get_or decoding_table (char64 v) minus_one) (pos 0) ≡ false =
      ap (λ (x : ℤ). ltb_ℤ x (pos 0)) there ∙ ltb_no (v + 0) 0 (omega arith) in
    rw (decode_loop, char64_no_pad v h, found, there) refl

module _ (m v : ℕ) (six : v < 64) where
  low_six : (m * 64 % 2 ^ 32 + v) % 64 ≡ v
  low_six = omega arith

  of_six_and_two : (m * 64 % 2 ^ 32 + v) / 16 % 256 ≡ m % 64 * 4 + v / 16
  of_six_and_two = omega arith

  of_four_and_four : (m * 64 % 2 ^ 32 + v) / 4 % 256 ≡ m % 16 * 16 + v / 4
  of_four_and_four = omega arith

  of_two_and_six : (m * 64 % 2 ^ 32 + v) / 1 % 256 ≡ m % 4 * 64 + v
  of_two_and_six = omega arith

-- Two characters give a byte, and leave four bits.
decode_loop-two :
    (a v acc : ℕ) (cs : List ℕ)
    → a < 256
    → v < 64
    → v / 16 ≡ a % 4
    → (acc' : ℕ) × (decode_loop (char64 (a / 4) ∷ char64 v ∷ cs) acc 0
        ≡ with_byte a (decode_loop cs acc' 4))
      × (acc' % 64 ≡ v)
decode_loop-two a v acc cs p q e =
    let m1 = acc * 64 % 2 ^ 32 + a / 4 in
    let m2 = m1 * 64 % 2 ^ 32 + v in
    let byte : m2 / 16 % 256 ≡ a =
      omega (arith, of_six_and_two m1 v q, low_six acc (a / 4) (omega arith), e) in
    (
      m2,
      decode_loop-char64 (a / 4) (char64 v ∷ cs) acc 0 (omega arith)
          ∙ decode_loop-char64 v cs m1 6 q
          ∙ ap (λ (x : ℕ). with_byte x (decode_loop cs m2 4)) byte,
      low_six m1 v q,
    )

-- A third character gives a second byte, and leaves two bits.
decode_loop-third :
    (b v acc : ℕ) (cs : List ℕ)
    → b < 256
    → v < 64
    → acc % 16 ≡ b / 16
    → v / 4 ≡ b % 16
    → (acc' : ℕ) × (decode_loop (char64 v ∷ cs) acc 4 ≡ with_byte b (decode_loop cs acc' 2))
      × (acc' % 64 ≡ v)
decode_loop-third b v acc cs p q e f =
    let m = acc * 64 % 2 ^ 32 + v in
    let byte : m / 4 % 256 ≡ b = omega (arith, of_four_and_four acc v q, e, f) in
    (
      m,
      decode_loop-char64 v cs acc 4 q ∙ ap (λ (x : ℕ). with_byte x (decode_loop cs m 2)) byte,
      low_six acc v q,
    )

-- A fourth one gives the last byte of the group.
decode_loop-fourth :
    (c v acc : ℕ) (cs : List ℕ)
    → c < 256
    → v ≡ c % 64
    → acc % 4 ≡ c / 64
    → (acc' : ℕ) × (decode_loop (char64 v ∷ cs) acc 2 ≡ with_byte c (decode_loop cs acc' 0))
decode_loop-fourth c v acc cs p e f =
    let m = acc * 64 % 2 ^ 32 + v in
    let byte : m / 1 % 256 ≡ c = omega (arith, of_two_and_six acc v (omega arith), e, f) in
    (
      m,
      decode_loop-char64 v cs acc 2 (omega arith)
          ∙ ap (λ (x : ℕ). with_byte x (decode_loop cs m 0)) byte,
    )

decode_loop_pad : (cs : List ℕ) (acc bits : ℕ) → decode_loop (b'=' ∷ cs) acc bits ≡ output []
unfolding decode_loop
decode_loop_pad cs acc bits = refl

-- What the characters of a group give: a byte, and bits that stay in the accumulator.
decode_loop-pair :
    (a b v w : ℕ) (cs : List ℕ) (d : Decoding)
    → b < 256
    → w < 64
    → v % 16 ≡ b / 16
    → w / 4 ≡ b % 16
    → (m : ℕ) × (d ≡ with_byte a (decode_loop (char64 w ∷ cs) m 4)) × (m % 64 ≡ v)
    → (m : ℕ) × (d ≡ with_byte a (with_byte b (decode_loop cs m 2))) × (m % 64 ≡ w)
decode_loop-pair a b v w cs d p q e f (m, two, low) =
    let (m', third, low') = decode_loop-third b w m cs p q (omega (arith, low, e)) f in
    (m', two ∙ ap (with_byte a) third, low')

decode_loop-triple :
    (a b c w x : ℕ) (cs : List ℕ) (d : Decoding)
    → c < 256
    → x ≡ c % 64
    → w % 4 ≡ c / 64
    → (m : ℕ) × (d ≡ with_byte a (with_byte b (decode_loop (char64 x ∷ cs) m 2))) × (m % 64 ≡ w)
    → (m : ℕ) × (d ≡ with_byte a (with_byte b (with_byte c (decode_loop cs m 0))))
decode_loop-triple a b c w x cs d p e f (m, three, low) =
    let (m', fourth) = decode_loop-fourth c x m cs p e (omega (arith, low, f)) in
    (m', three ∙ ap (λ (r : Decoding). with_byte a (with_byte b r)) fourth)

-- The group goes to the bytes, and what follows to the rest.
finish_one :
    (a v : ℕ) (cs : List ℕ) (d : Decoding)
    → (m : ℕ) × (d ≡ with_byte a (decode_loop (b'=' ∷ cs) m 4)) × (m % 64 ≡ v)
    → d ≡ output (a ∷ [])
finish_one a v cs d (m, two, low) = two ∙ ap (with_byte a) (decode_loop_pad cs m 4)

finish_two :
    (a b w : ℕ) (cs : List ℕ) (d : Decoding)
    → (m : ℕ) × (d ≡ with_byte a (with_byte b (decode_loop (b'=' ∷ cs) m 2))) × (m % 64 ≡ w)
    → d ≡ output (a ∷ b ∷ [])
finish_two a b w cs d (m, two, low) =
    two ∙ ap (λ (r : Decoding). with_byte a (with_byte b r)) (decode_loop_pad cs m 2)

finish_three :
    (a b c : ℕ) (cs xs : List ℕ) (d : Decoding)
    → ((m : ℕ) → decode_loop cs m 0 ≡ output xs)
    → (m : ℕ) × (d ≡ with_byte a (with_byte b (with_byte c (decode_loop cs m 0))))
    → d ≡ output (a ∷ b ∷ c ∷ xs)
finish_three a b c cs xs d later (m, three) =
    three ∙ ap (λ (r : Decoding). with_byte a (with_byte b (with_byte c r))) (later m)

decode_loop-in_groups :
    (xs : List ℕ) (acc : ℕ) → AllBytes xs → decode_loop (in_groups xs) acc 0 ≡ output xs
unfolding in_groups
decode_loop-in_groups [] acc h = unfold decode_loop in refl
decode_loop-in_groups (a ∷ []) acc h =
    finish_one a (a % 4 * 16) (b'=' ∷ []) _
      (decode_loop-two a (a % 4 * 16) acc (b'=' ∷ b'=' ∷ []) h.0 (omega arith) (omega arith))
decode_loop-in_groups (a ∷ b ∷ []) acc h =
    let v = a % 4 * 16 + b / 16 in
    let w = b % 16 * 4 in
    finish_two a b w [] _ (
      decode_loop-pair a b v w (b'=' ∷ []) _ h.1.0 (omega arith) (omega (arith, h.1.0))
        (omega arith)
        (decode_loop-two a v acc (char64 w ∷ b'=' ∷ []) h.0 (omega (arith, h.1.0))
          (omega (arith, h.1.0))))
decode_loop-in_groups (a ∷ b ∷ c ∷ rest) acc h =
    let v = a % 4 * 16 + b / 16 in
    let w = b % 16 * 4 + c / 64 in
    let x = c % 64 in
    finish_three a b c (in_groups rest) rest _ (λ m. decode_loop-in_groups rest m h.1.1.1)
      (decode_loop-triple a b c w x (in_groups rest) _ h.1.1.0 refl (omega (arith, h.1.1.0)) (
        decode_loop-pair a b v w (char64 x ∷ in_groups rest) _ h.1.0 (omega (arith, h.1.1.0))
          (omega (arith, h.1.0)) (omega (arith, h.1.1.0))
          (decode_loop-two a v acc (char64 w ∷ char64 x ∷ in_groups rest) h.0 (omega (arith, h.1.0))
            (omega (arith, h.1.0)))))

length-in_groups : (xs : List ℕ) → length (in_groups xs) ≡ (length xs + 2) / 3 * 4
unfolding in_groups
length-in_groups [] = refl
length-in_groups (a ∷ []) = refl
length-in_groups (a ∷ b ∷ []) = refl
length-in_groups (a ∷ b ∷ c ∷ rest) = omega (arith, length-in_groups rest)

-- The output of base64_encode has exactly the length that the source reserves for it.
pub length-base64_encode :
    (xs : List ℕ) → AllBytes xs → length (base64_encode xs) ≡ (length xs + 2) / 3 * 4
length-base64_encode xs h = ap length (base64_encode-in_groups xs h) ∙ length-in_groups xs

-- base64_decode takes every byte string back from its encoding, and throws neither exception.
pub base64_decode-base64_encode :
    (xs : List ℕ) → AllBytes xs → base64_decode (base64_encode xs) ≡ output xs
unfolding base64_decode
base64_decode-base64_encode xs h =
    rw (base64_encode-in_groups xs h, base64_decode, whole) (decode_loop-in_groups xs 0 h)
  where
    whole : (length (in_groups xs) % 4 == 0) ≡ true
    whole =
        ap (λ (n : ℕ). n == 0) {x = length (in_groups xs) % 4} {y = 0}
          (omega (arith, length-in_groups xs))
