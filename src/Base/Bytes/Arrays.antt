-- ===== src/Base/Bytes/Arrays.antt =====
-- Writes at the start of an array, and C strings in arrays.
use Prim.Native.Nat.{ℕ, ◌+◌, ◌-◌, ◌≤◌, ◌<◌}
use mathlib.Core.Path.{◌≡◌, refl, ap, ap₂, ◌∙◌}
use mathlib.Core.List.{List, [], ◌∷◌, ◌++◌}
use native.Mathlib.Omega.{arith}
use cloudisk_server.Base.Tests.{le→leb, leb_no}
use cloudisk_server.Base.Lists.{
  length, take, drop, length-append, take-append_le, drop-append_ge, take_all,
}
use cloudisk_server.Base.Runs.{ok, undefined, in_range}
use cloudisk_server.Base.Bytes.{c_string, write_at}

-- A write that fits replaces the front of the array and nothing else.
pub write_at_front :
    (n : ℕ) (src dst : List ℕ)
    → length src ≡ n
    → n ≤ length dst
    → write_at 0 src dst ≡ ok (src ++ drop n dst)
unfolding write_at
write_at_front n src dst e h =
    ap (λ b. in_range b (src ++ drop (0 + length src) dst))
      (le→leb (0 + length src) (length dst) (omega arith))
    ∙ ap (λ (k : ℕ). ok (src ++ drop k dst)) (omega arith)

-- A longer write runs past the end.
pub write_at_overrun : (src dst : List ℕ) → length dst < length src → write_at 0 src dst ≡ undefined
unfolding write_at
write_at_overrun src dst h =
    ap (λ b. in_range b (src ++ drop (0 + length src) dst))
      (leb_no (0 + length src) (length dst) (omega arith))

-- A write in the middle replaces what stood there.
pub write_at_middle :
    (pre src old post : List ℕ) (i : ℕ)
    → length pre ≡ i
    → length src ≡ length old
    → write_at i src (pre ++ (old ++ post)) ≡ ok (pre ++ (src ++ post))
unfolding write_at
write_at_middle pre src old post i at same =
    ap
      (λ b.
        in_range b
          (take i (pre ++ (old ++ post)) ++ (src ++ drop (i + length src) (pre ++ (old ++ post)))))
      (le→leb (i + length src) (length (pre ++ (old ++ post)))
        (omega (arith, length-append pre (old ++ post), length-append old post)))
    ∙ ap₂ (λ (a b : List ℕ). ok (a ++ (src ++ b))) front back
  where
    front : take i (pre ++ (old ++ post)) ≡ pre
    front = take-append_le i pre (old ++ post) (omega arith) ∙ take_all i pre (omega arith)

    back : drop (i + length src) (pre ++ (old ++ post)) ≡ post
    back =
        drop-append_ge (i + length src) pre (old ++ post) (omega arith)
        ∙ drop-append_ge (i + length src - length pre) old post (omega arith)
        ∙ ap (λ (k : ℕ). drop k post) {y = 0} (omega arith)

-- No byte of a C string is NUL.
abbrev pub IsText : List ℕ → Type 0
IsText [] = Unit
IsText (c ∷ cs) = (0 < c) × IsText cs

-- A string that was stored with its NUL is read back, whatever follows.
pub c_string-append : (s rest : List ℕ) → IsText s → c_string (s ++ 0 ∷ rest) ≡ ok s
unfolding c_string
c_string-append [] rest h = refl
c_string-append (c ∷ cs) rest h = ground (arith, c_string-append cs rest h.1)
