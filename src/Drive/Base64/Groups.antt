-- ===== src/Drive/Base64/Groups.antt =====
-- The two loops over groups: three bytes against four characters.
use cloudisk_server.Base.{
  ℕ, zero, suc, ◌+◌, ◌*◌, ◌/◌, ◌%◌, ◌^◌, ◌<◌, ◌≡◌, refl, ap, ◌∙◌, List, [], ◌∷◌, ◌++◌, Bool, true,
  false, ltb, if◌then◌else◌, ◌-◌, ◌==◌, ◌&&◌, not, Bool-cases, inl, inr, negsuc, ℤ, pos, minus_one,
  length, get_or, arith,
}
use cloudisk_server.Drive.Base64.{
  char64, emit, encode_loop, pad, last_bits, base64_encode, fill, decoding_table,
}

-- The encoding by groups: the 24 bits of three bytes are four characters, and a last group of one or
-- two bytes is filled with zero bits and with '='.
unfoldable pub in_groups : List ℕ → List ℕ
in_groups [] = []
in_groups (a ∷ []) = char64 (a / 4) ∷ char64 (a % 4 * 16) ∷ b'=' ∷ b'=' ∷ []
in_groups (a ∷ b ∷ []) =
    char64 (a / 4) ∷ char64 (a % 4 * 16 + b / 16) ∷ char64 (b % 16 * 4) ∷ b'=' ∷ []
in_groups (a ∷ b ∷ c ∷ rest) =
    char64 (a / 4)
    ∷ char64 (a % 4 * 16 + b / 16)
    ∷ char64 (b % 16 * 4 + c / 64)
    ∷ char64 (c % 64)
    ∷ in_groups rest

abbrev pub AllBytes : List ℕ → Type 0
AllBytes [] = Unit
AllBytes (x ∷ xs) = (x < 256) × AllBytes xs

is_value : ℕ → ℤ → Bool
is_value v (pos n) = n == v
is_value v (negsuc n) = false

is_value→eq : (v : ℕ) (a : ℤ) → is_value v a ≡ true → a ≡ pos v
unfolding is_value
is_value→eq v (pos n) h = ap pos (ground arith)
is_value→eq v (negsuc n) h = absurd (ground arith)

good_char : ℕ → Bool
good_char v = not (char64 v == b'=') && is_value v (get_or decoding_table (char64 v) minus_one)

-- A test of all numbers below a bound.
unfoldable pub all_below : (ℕ → Bool) → ℕ → Bool
all_below f zero = true
all_below f (suc n) = f n && all_below f n

pub and_left : (a b : Bool) → (a && b) ≡ true → a ≡ true
and_left true b h = refl
and_left false b h = absurd (ground arith)

pub and_right : (a b : Bool) → (a && b) ≡ true → b ≡ true
and_right true b h = h
and_right false b h = absurd (ground arith)

pub all_below-at : (f : ℕ → Bool) (n v : ℕ) → all_below f n ≡ true → v < n → f v ≡ true
unfolding all_below
all_below-at f zero v h lt = elim lt [ ]
all_below-at f (suc n) v h lt = elim (Bool-cases (v == n)) [
  | inl last ↦ ap f {x = v} {y = n} (ground arith) ∙ and_left (f n) (all_below f n) h
  | inr below ↦ all_below-at f n v (and_right (f n) (all_below f n) h) (ground arith)
]

all_64 : all_below good_char 64 ≡ true
unfolding all_below good_char char64 decoding_table fill is_value
all_64 = refl

-- Each character stands in the table with its index, and none is '='.
pub char64-value : (v : ℕ) → v < 64 → get_or decoding_table (char64 v) minus_one ≡ pos v
unfolding good_char
char64-value v h =
    is_value→eq v _ (and_right (not (char64 v == b'=')) _ (all_below-at good_char 64 v all_64 h))

pub char64_no_pad : (v : ℕ) → v < 64 → (char64 v == b'=') ≡ false
unfolding good_char
char64_no_pad v h =
    not_true (char64 v == b'=')
      (and_left (not (char64 v == b'=')) _ (all_below-at good_char 64 v all_64 h))
  where
    not_true : (b : Bool) → not b ≡ true → b ≡ false
    not_true true e = absurd (ground arith)
    not_true false e = refl

module _ (m a : ℕ) (byte : a < 256) where
  pub low_byte : (m * 256 % 2 ^ 32 + a) % 256 ≡ a
  low_byte = omega arith

  pub first_six : (m * 256 % 2 ^ 32 + a) / 4 % 64 ≡ a / 4
  first_six = omega arith

  two_and_four : (m * 256 % 2 ^ 32 + a) / 16 % 64 ≡ m % 4 * 16 + a / 16
  two_and_four = omega arith

  four_and_two : (m * 256 % 2 ^ 32 + a) / 64 % 64 ≡ m % 16 * 4 + a / 64
  four_and_two = omega arith

  last_six : (m * 256 % 2 ^ 32 + a) / 1 % 64 ≡ a % 64
  last_six = omega arith

-- Three bytes go out as the four characters of their group, whatever the accumulator holds.
pub encode_loop-group :
    (a b c acc : ℕ) (rest : List ℕ)
    → a < 256
    → b < 256
    → c < 256
    → (acc' : ℕ) × (encode_loop (a ∷ b ∷ c ∷ rest) acc 0 ≡ (
        let (later, last, bits) = encode_loop rest acc' 0 in
        (
          char64 (a / 4)
              ∷ char64 (a % 4 * 16 + b / 16)
              ∷ char64 (b % 16 * 4 + c / 64)
              ∷ char64 (c % 64)
              ∷ later,
          last,
          bits,
        )))
unfolding encode_loop emit
encode_loop-group a b c acc rest p q r =
    let m1 = acc * 256 % 2 ^ 32 + a in
    let m2 = m1 * 256 % 2 ^ 32 + b in
    let e2 : m2 / 16 % 64 ≡ a % 4 * 16 + b / 16 =
      omega (arith, two_and_four m1 b q, low_byte acc a p) in
    let e3 : (m2 * 256 % 2 ^ 32 + c) / 64 % 64 ≡ b % 16 * 4 + c / 64 =
      omega (arith, four_and_two m2 c r, low_byte m1 b q) in
    (m2 * 256 % 2 ^ 32 + c, rw (first_six acc a p, e2, e3, last_six m2 c r) refl)

pub pad-group :
    (rounds a b c d : ℕ) (out : List ℕ)
    → pad rounds (a ∷ b ∷ c ∷ d ∷ out) ≡ a ∷ b ∷ c ∷ d ∷ pad rounds out
unfolding pad
pad-group zero a b c d out = refl
pad-group (suc rounds) a b c d out = elim (Bool-cases (length out % 4 == 0)) [
  | inl full ↦ rw (pad, full, same ∙ full) refl
  | inr short ↦ rw (pad, short, same ∙ short) (pad-group rounds a b c d (out ++ b'=' ∷ []))
]
  where
    same : (length (a ∷ b ∷ c ∷ d ∷ out) % 4 == 0) ≡ (length out % 4 == 0)
    same =
        ap (λ (n : ℕ). n == 0) {x = length (a ∷ b ∷ c ∷ d ∷ out) % 4} {y = length out % 4}
          (omega arith)

last_bits-group :
    (a b c d last bits : ℕ) (out : List ℕ)
    → last_bits (a ∷ b ∷ c ∷ d ∷ out, last, bits) ≡ a ∷ b ∷ c ∷ d ∷ last_bits (out, last, bits)
unfolding last_bits
last_bits-group a b c d last bits out = ground arith

finish-group :
    (a b c d : ℕ) (r : List ℕ × ℕ × ℕ)
    → pad 3 (last_bits (a ∷ b ∷ c ∷ d ∷ r.0, r.1, r.2)) ≡ a ∷ b ∷ c ∷ d ∷ pad 3 (last_bits r)
finish-group a b c d (out, last, bits) =
    ap (pad 3) (last_bits-group a b c d last bits out)
    ∙ pad-group 3 a b c d (last_bits (out, last, bits))

encode_loop-in_groups :
    (xs : List ℕ) (acc : ℕ) → AllBytes xs → pad 3 (last_bits (encode_loop xs acc 0)) ≡ in_groups xs
unfolding encode_loop emit last_bits pad in_groups
encode_loop-in_groups [] acc h = refl
encode_loop-in_groups (a ∷ []) acc h =
    let m1 = acc * 256 % 2 ^ 32 + a in
    let last : m1 * 16 % 2 ^ 32 % 64 ≡ a % 4 * 16 = omega (arith, low_byte acc a h.0) in
    rw (first_six acc a h.0, last) refl
encode_loop-in_groups (a ∷ b ∷ []) acc h =
    let m1 = acc * 256 % 2 ^ 32 + a in
    let m2 = m1 * 256 % 2 ^ 32 + b in
    let e2 : m2 / 16 % 64 ≡ a % 4 * 16 + b / 16 =
      omega (arith, two_and_four m1 b h.1.0, low_byte acc a h.0) in
    let last : m2 * 4 % 2 ^ 32 % 64 ≡ b % 16 * 4 = omega (arith, low_byte m1 b h.1.0) in
    rw (first_six acc a h.0, e2, last) refl
encode_loop-in_groups (a ∷ b ∷ c ∷ rest) acc h =
    let (acc', group) = encode_loop-group a b c acc rest h.0 h.1.0 h.1.1.0 in
    ap (λ (r : List ℕ × ℕ × ℕ). pad 3 (last_bits r)) group
    ∙ finish-group (char64 (a / 4)) (char64 (a % 4 * 16 + b / 16)) (char64 (b % 16 * 4 + c / 64))
        (char64 (c % 64)) (encode_loop rest acc' 0)
    ∙ ap
        (λ (t : List ℕ).
          char64 (a / 4)
          ∷ char64 (a % 4 * 16 + b / 16)
          ∷ char64 (b % 16 * 4 + c / 64)
          ∷ char64 (c % 64)
          ∷ t)
        (encode_loop-in_groups rest acc' h.1.1.1)

pub base64_encode-in_groups : (xs : List ℕ) → AllBytes xs → base64_encode xs ≡ in_groups xs
unfolding base64_encode
base64_encode-in_groups xs h = encode_loop-in_groups xs 0 h

-- Table 1 of RFC 4648: A to Z, a to z, 0 to 9, '+' and '/'.
unfoldable pub rfc4648_char : ℕ → ℕ
rfc4648_char v =
    if ltb v 26
    then b'A' + v
    else if ltb v 52
    then b'a' + (v - 26)
    else if ltb v 62
    then b'0' + (v - 52)
    else if v == 62
    then b'+'
    else b'/'

-- The encoding as RFC 4648 defines it: the 24 bits of three bytes are four characters, and a last
-- group of one or two bytes is filled with zero bits and with '='.
unfoldable pub rfc4648 : List ℕ → List ℕ
rfc4648 [] = []
rfc4648 (a ∷ []) = rfc4648_char (a / 4) ∷ rfc4648_char (a % 4 * 16) ∷ b'=' ∷ b'=' ∷ []
rfc4648 (a ∷ b ∷ []) =
    rfc4648_char (a / 4)
    ∷ rfc4648_char (a % 4 * 16 + b / 16)
    ∷ rfc4648_char (b % 16 * 4)
    ∷ b'='
    ∷ []
rfc4648 (a ∷ b ∷ c ∷ rest) =
    rfc4648_char (a / 4)
    ∷ rfc4648_char (a % 4 * 16 + b / 16)
    ∷ rfc4648_char (b % 16 * 4 + c / 64)
    ∷ rfc4648_char (c % 64)
    ∷ rfc4648 rest

as_in_table : ℕ → Bool
as_in_table v = char64 v == rfc4648_char v

all_as_in_table : all_below as_in_table 64 ≡ true
unfolding all_below as_in_table char64 rfc4648_char
all_as_in_table = refl

char64-rfc4648 : (v : ℕ) → v < 64 → char64 v ≡ rfc4648_char v
unfolding as_in_table
char64-rfc4648 v h =
    let same : (char64 v == rfc4648_char v) ≡ true =
      all_below-at as_in_table 64 v all_as_in_table h in
    ground (arith, same)

in_groups-rfc4648 : (xs : List ℕ) → AllBytes xs → in_groups xs ≡ rfc4648 xs
unfolding in_groups rfc4648
in_groups-rfc4648 [] h = refl
in_groups-rfc4648 (a ∷ []) h =
    rw (char64-rfc4648 (a / 4) (omega (arith, h.0)), char64-rfc4648 (a % 4 * 16) (omega arith)) refl
in_groups-rfc4648 (a ∷ b ∷ []) h =
    rw
      (
        char64-rfc4648 (a / 4) (omega (arith, h.0)),
        char64-rfc4648 (a % 4 * 16 + b / 16) (omega (arith, h.1.0)),
        char64-rfc4648 (b % 16 * 4) (omega arith),
      )
      refl
in_groups-rfc4648 (a ∷ b ∷ c ∷ rest) h =
    rw
      (
        char64-rfc4648 (a / 4) (omega (arith, h.0)),
        char64-rfc4648 (a % 4 * 16 + b / 16) (omega (arith, h.1.0)),
        char64-rfc4648 (b % 16 * 4 + c / 64) (omega (arith, h.1.1.0)),
        char64-rfc4648 (c % 64) (omega arith),
        in_groups-rfc4648 rest h.1.1.1,
      )
      refl

-- For bytes, base64_encode gives the encoding that RFC 4648 defines, with the alphabet of its table.
pub base64_encode-rfc4648 : (xs : List ℕ) → AllBytes xs → base64_encode xs ≡ rfc4648 xs
base64_encode-rfc4648 xs h = base64_encode-in_groups xs h ∙ in_groups-rfc4648 xs h
