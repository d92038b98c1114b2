-- ===== src/Drive/Base64.antt =====
-- The text form of bytes, enterprise_cloud_drive/common/include/base64.hpp.
pub mod Groups
pub mod RoundTrip
use cloudisk_server.Base.{
  ℕ, zero, suc, ◌+◌, ◌-◌, ◌*◌, ◌/◌, ◌%◌, ◌^◌, List, [], ◌∷◌, ◌++◌, Bool, true, false, Option, none,
  some, ltb, leb, ◌==◌, if◌then◌else◌, ℤ, pos, negsuc, minus_one, pos_part, ltb_ℤ, length, get_or,
  set, replicate,
}
use cloudisk_server.Base.Bytes.{codes}

abbrev pub base64_chars : List ℕ
base64_chars = codes "ABCDEFGHIJKLMNOPQRSTUVWXYZabcdefghijklmnopqrstuvwxyz0123456789+/"

-- kBase64Chars[v]; the source's indices are below 64.
unfoldable pub char64 : ℕ → ℕ
char64 v = get_or base64_chars v 0

-- The inner loop of base64_encode: the characters it appends, and the bits that stay. Each round
-- takes 6 bits, so as many rounds as bits are enough.
unfoldable pub emit : ℕ → ℕ → ℕ → List ℕ × ℕ
emit zero accumulator bits = ([], bits)
emit (suc rounds) accumulator bits =
    let (later, left) = emit rounds accumulator (bits - 6) in
    if leb 6 bits then (char64 (accumulator / 2 ^ (bits - 6) % 64) ∷ later, left) else ([], bits)

-- The loop over the input: the characters, the accumulator and the bits at its end.
unfoldable pub encode_loop : List ℕ → ℕ → ℕ → List ℕ × ℕ × ℕ
encode_loop [] accumulator bits = ([], accumulator, bits)
encode_loop (c ∷ cs) accumulator bits =
    let acc = accumulator * 256 % 2 ^ 32 + c in
    let (out, left) = emit (bits + 8) acc (bits + 8) in
    let (later, last, rest) = encode_loop cs acc left in (out ++ later, last, rest)

-- The loop that appends '='; three rounds are enough.
unfoldable pub pad : ℕ → List ℕ → List ℕ
pad zero output = output
pad (suc rounds) output =
    let more = pad rounds (output ++ b'=' ∷ []) in if length output % 4 == 0 then output else more

unfoldable pub last_bits : List ℕ × ℕ × ℕ → List ℕ
last_bits (out, accumulator, bits) =
    if ltb 0 bits then out ++ char64 (accumulator * 2 ^ (6 - bits) % 2 ^ 32 % 64) ∷ [] else out

unfoldable pub base64_encode : List ℕ → List ℕ
base64_encode input = pad 3 (last_bits (encode_loop input 0 0))

-- The loop that fills decoding_table.
unfoldable pub fill : List ℕ → ℕ → List ℤ → List ℤ
fill [] i table = table
fill (c ∷ cs) i table = fill cs (i + 1) (set table c (pos i))

unfoldable pub decoding_table : List ℤ
decoding_table = fill base64_chars 0 (replicate 256 minus_one)

-- What base64_decode comes to: its output, or one of its two exceptions.
pub data Decoding : Type 0 where
  bad_length bad_character : Decoding
  output : List ℕ → Decoding

abbrev pub with_byte : ℕ → Decoding → Decoding
with_byte b bad_length = bad_length
with_byte b bad_character = bad_character
with_byte b (output bs) = output (b ∷ bs)

-- The loop of base64_decode.
unfoldable pub decode_loop : List ℕ → ℕ → ℕ → Decoding
decode_loop [] accumulator bits = output []
decode_loop (c ∷ cs) accumulator bits =
    let value = get_or decoding_table c minus_one in
    let acc = accumulator * 64 % 2 ^ 32 + pos_part value in
    let full = leb 8 (bits + 6) in
    let left = if full then bits + 6 - 8 else bits + 6 in
    let rest = decode_loop cs acc left in
    if c == b'='
    then output []
    else if ltb_ℤ value (pos 0)
    then bad_character
    else if full
    then with_byte (acc / 2 ^ left % 256) rest
    else rest

unfoldable pub base64_decode : List ℕ → Decoding
base64_decode input = if length input % 4 == 0 then decode_loop input 0 0 else bad_length
