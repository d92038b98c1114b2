-- ===== src/Base/Bytes/Numbers.antt =====
-- Numbers in decimal and in bytes come back as they were written.
use cloudisk_server.Base.Tests.{ltb, Bool-cases}
use Prim.Native.Nat.{ℕ, zero, suc, ◌+◌, ◌-◌, ◌*◌, ◌/◌, ◌%◌, ◌^◌, ◌≤◌, ◌<◌}
use mathlib.Core.Path.{◌≡◌, refl, ap, ◌∙◌}
use mathlib.Core.Logic.{inl, inr}
use mathlib.Core.List.{List, [], ◌∷◌, ◌++◌}
use native.Mathlib.Omega.{arith}
use cloudisk_server.Base.Int.{ℤ, pos, negsuc, ◌≤ℤ◌}
use cloudisk_server.Base.Bytes.{
  digits, format_int, read_digits, negate, atoi, int_bytes, int_of_bytes,
}

abbrev pub AllDigits : List ℕ → Type 0
AllDigits [] = Unit
AllDigits (c ∷ cs) = (48 ≤ c) × (c < 58) × AllDigits cs

AllDigits-append : (xs : List ℕ) (d : ℕ) → AllDigits xs → 48 ≤ d → d < 58 → AllDigits (xs ++ d ∷ [])
AllDigits-append [] d h p q = (p, q, tt)
AllDigits-append (x ∷ xs) d h p q = (h.0, h.1, AllDigits-append xs d h.2 p q)

pub digits-AllDigits : (f n : ℕ) → AllDigits (digits f n)
unfolding digits
digits-AllDigits zero n = tt
digits-AllDigits (suc f) n = elim (Bool-cases (ltb n 10)) [
  | inl small ↦ rw small (omega arith, ground arith, tt)
  | inr big ↦ rw big (
      AllDigits-append (digits f (n / 10)) (48 + n % 10) (digits-AllDigits f (n / 10)) (omega arith)
        (omega arith))
]

read_digits-append :
    (acc : ℕ) (xs : List ℕ) (d : ℕ)
    → AllDigits xs
    → d < 10
    → read_digits acc (xs ++ (48 + d) ∷ []) ≡ read_digits acc xs * 10 + d
unfolding read_digits
read_digits-append acc [] d h p = ground arith
read_digits-append acc (x ∷ xs) d h p =
    ground (arith, read_digits-append (acc * 10 + (x - 48)) xs d h.2 p)

pub read_digits-digits : (f n : ℕ) → n < f → read_digits 0 (digits f n) ≡ n
unfolding digits
read_digits-digits zero n h = elim h [ ]
read_digits-digits (suc f) n h = elim (Bool-cases (ltb n 10)) [
  | inl small ↦ rw small (unfold read_digits in ground arith)
  | inr big ↦ rw big (
      ground (
        arith,
        read_digits-append 0 (digits f (n / 10)) (n % 10) (digits-AllDigits f (n / 10)),
        read_digits-digits f (n / 10),
      ))
]

atoi_digits : (xs : List ℕ) → AllDigits xs → atoi xs ≡ pos (read_digits 0 xs)
unfolding atoi
atoi_digits [] h = refl
atoi_digits (c ∷ cs) h = ground arith

-- atoi reads back what %d printed.
pub atoi-format_int : (a : ℤ) → atoi (format_int a) ≡ a
unfolding format_int
atoi-format_int (pos n) =
    atoi_digits (digits (suc n) n) (digits-AllDigits (suc n) n)
    ∙ ap pos (read_digits-digits (suc n) n (omega arith))
atoi-format_int (negsuc n) =
    unfold atoi in ap negate (read_digits-digits (suc (suc n)) (suc n) (omega arith))

-- The least and the greatest value of C's int.
abbrev pub IsInt : ℤ → Type 0
IsInt a = (negsuc (2 ^ 31 - 1) ≤ℤ a) × (a ≤ℤ pos (2 ^ 31 - 1))

-- An int is read back from its four bytes.
pub int_of_bytes-int_bytes :
    (a : ℤ) (rest : List ℕ) → IsInt a → int_of_bytes (int_bytes a ++ rest) ≡ a
unfolding int_of_bytes int_bytes
int_of_bytes-int_bytes (pos n) rest h = ground arith
int_of_bytes-int_bytes (negsuc n) rest h = ground arith
