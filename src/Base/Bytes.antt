-- ===== src/Base/Bytes.antt =====
-- C arrays of bytes and the string functions of the C library, as the source uses them.
-- An array is the list of its bytes; a C string is the list of the bytes before its NUL.
pub mod Numbers
pub mod Arrays
use Prim.Native.Char.{code}
use Prim.Native.String.{String}
use Prim.Native.Nat.{ℕ, zero, suc, ◌+◌, ◌-◌, ◌*◌, ◌/◌, ◌%◌, ◌^◌}
use mathlib.Core.Bool.{Bool, true, false, ◌&&◌, ◌||◌}
use mathlib.Core.List.{List, [], ◌∷◌, ◌++◌}
use cloudisk_server.Base.Tests.{ltb, leb, ◌==◌, if◌then◌else◌}
use cloudisk_server.Base.Lists.{length, take, drop}
use cloudisk_server.Base.Int.{ℤ, pos, negsuc}
use cloudisk_server.Base.Runs.{Outcome, ok, undefined, exits, waits, ◌>>=◌, in_range}

-- The bytes of a literal of the source; all of them are ASCII.
abbrev pub codes : String → List ℕ
codes String.[] = []
codes (String.◌∷◌ c s) = code c ∷ codes s

-- The C string that starts an array. With no NUL in the array the read runs past its end.
unfoldable pub c_string : List ℕ → Outcome (List ℕ)
c_string [] = undefined
c_string (b ∷ bs) = let rest = c_string bs in if b == 0 then ok [] else (rest >>= λ s. ok (b ∷ s))

unfoldable pub string_at : ℕ → List ℕ → Outcome (List ℕ)
unfolding c_string
string_at i bs = c_string (drop i bs)

-- memcpy(dst + i, src, length src), within the array.
unfoldable pub write_at : ℕ → List ℕ → List ℕ → Outcome (List ℕ)
write_at i src dst =
    in_range (leb (i + length src) (length dst)) (take i dst ++ (src ++ drop (i + length src) dst))

-- memcpy(dst, src, n), where src is an array too.
unfoldable pub memcpy : List ℕ → List ℕ → ℕ → Outcome (List ℕ)
unfolding write_at
memcpy dst src n = in_range (leb n (length src)) (take n src) >>= λ s. write_at 0 s dst

-- A string with its NUL, stored in a char array of `n` bytes.
unfoldable pub fits : ℕ → List ℕ → Outcome (List ℕ)
fits n s = in_range (ltb (length s) n) s

-- strcpy(dst, s).
unfoldable pub strcpy : List ℕ → List ℕ → Outcome (List ℕ)
unfolding write_at
strcpy dst s = write_at 0 (s ++ 0 ∷ []) dst

-- The decimal digits of a number; `suc n` rounds are enough for `n`.
unfoldable pub digits : ℕ → ℕ → List ℕ
digits zero n = []
digits (suc f) n =
    let high = digits f (n / 10) in if ltb n 10 then (48 + n) ∷ [] else high ++ (48 + n % 10) ∷ []

-- printf's %d.
unfoldable pub format_int : ℤ → List ℕ
unfolding digits
format_int (pos n) = digits (suc n) n
format_int (negsuc n) = b'-' ∷ digits (suc (suc n)) (suc n)

abbrev pub is_digit : ℕ → Bool
is_digit c = leb 48 c && ltb c 58

unfoldable pub read_digits : ℕ → List ℕ → ℕ
read_digits acc [] = acc
read_digits acc (c ∷ cs) =
    let rest = read_digits (acc * 10 + (c - 48)) cs in if is_digit c then rest else acc

unfoldable pub skip_spaces : List ℕ → List ℕ
skip_spaces [] = []
skip_spaces (c ∷ cs) =
    let rest = skip_spaces cs in
    if c == 32 then rest else if leb 9 c && leb c 13 then rest else c ∷ cs

-- minus n, as an integer.
abbrev pub negate : ℕ → ℤ
negate zero = pos 0
negate (suc n) = negsuc n

unfoldable pub signed_number : List ℕ → ℤ
unfolding read_digits
signed_number [] = pos 0
signed_number (c ∷ cs) =
    if c == b'-'
    then negate (read_digits 0 cs)
    else if c == b'+'
    then pos (read_digits 0 cs)
    else pos (read_digits 0 (c ∷ cs))

-- atoi. A number outside the range of int is undefined in C; here it is the number itself.
unfoldable pub atoi : List ℕ → ℤ
unfolding skip_spaces signed_number
atoi s = signed_number (skip_spaces s)

-- The bit pattern of an int, and its four bytes, the lowest first.
abbrev pub pattern32 : ℤ → ℕ
pattern32 (pos n) = n % 2 ^ 32
pattern32 (negsuc n) = 2 ^ 32 - 1 - n % 2 ^ 32

abbrev pub signed32 : ℕ → ℤ
signed32 w = if ltb w (2 ^ 31) then pos w else negsuc (2 ^ 32 - 1 - w)

unfoldable pub int_bytes : ℤ → List ℕ
int_bytes a =
    let w = pattern32 a in w % 256 ∷ w / 256 % 256 ∷ w / 65536 % 256 ∷ w / 16777216 % 256 ∷ []

unfoldable pub int_of_bytes : List ℕ → ℤ
int_of_bytes (a ∷ b ∷ c ∷ d ∷ rest) =
    signed32 (a % 256 + b % 256 * 256 + c % 256 * 65536 + d % 256 * 16777216)
int_of_bytes _ = pos 0
