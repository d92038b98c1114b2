-- ===== src/Database/Salt/Letters.antt =====
-- What get_salt writes.
use cloudisk_server.Base.{
  ℕ, zero, suc, ◌+◌, ◌*◌, ◌%◌, ◌≡◌, refl, sym, ap, ◌∙◌, List, [], ◌∷◌, ◌++◌, ok, length, drop,
  arith, true, leb, ◌&&◌, ◌||◌, length-append, append_assoc, append-nil, drop-append_ge,
}
use cloudisk_server.Base.Bytes.{codes, write_at, string_at, c_string}
use cloudisk_server.Base.Bytes.Arrays.{write_at_middle, IsText, c_string-append}
use cloudisk_server.Database.Salt.{salt_byte, salt_bytes, get_salt}

-- A letter or a digit.
abbrev pub IsAlnum : ℕ → Type 0
IsAlnum b =
    ((leb b'a' b && leb b b'z') || ((leb b'A' b && leb b b'Z') || (leb b'0' b && leb b b'9')))
    ≡ true

abbrev pub AllAlnum : List ℕ → Type 0
AllAlnum [] = Unit
AllAlnum (b ∷ bs) = IsAlnum b × AllAlnum bs

salt_byte-IsAlnum : (flag r : ℕ) → IsAlnum (salt_byte flag r)
unfolding salt_byte
salt_byte-IsAlnum flag r = ground arith

salt_bytes-AllAlnum : (rand : ℕ → ℕ) (i n : ℕ) → AllAlnum (salt_bytes rand i n)
unfolding salt_bytes
salt_bytes-AllAlnum rand i zero = tt
salt_bytes-AllAlnum rand i (suc n) =
    (salt_byte-IsAlnum (rand (2 * i) % 3) (rand (2 * i + 1)), salt_bytes-AllAlnum rand (i + 1) n)

length-salt_bytes : (rand : ℕ → ℕ) (i n : ℕ) → length (salt_bytes rand i n) ≡ n
unfolding salt_bytes
length-salt_bytes rand i zero = refl
length-salt_bytes rand i (suc n) = omega (arith, length-salt_bytes rand (i + 1) n)

AllAlnum-IsText : (bs : List ℕ) → AllAlnum bs → IsText bs
AllAlnum-IsText [] h = tt
AllAlnum-IsText (b ∷ bs) h = (ground (arith, h.0), AllAlnum-IsText bs h.1)

-- A byte that is left where the string should have ended.
abbrev pub left_over : ℕ → List ℕ
left_over zero = []
left_over (suc x) = suc x ∷ []

salt_run :
    (rand : ℕ → ℕ) (front : List ℕ) (x y : ℕ) (rest : List ℕ)
    → length front ≡ 10
    → get_salt rand (front ++ (x ∷ y ∷ rest))
      ≡ ok (codes "$5$" ++ (salt_bytes rand 3 7 ++ (x ∷ 0 ∷ rest)))
unfolding get_salt
salt_run rand front x y rest h = rw (first, second, third) refl
  where
    first : write_at 11 (0 ∷ []) (front ++ (x ∷ y ∷ rest)) ≡ ok (front ++ (x ∷ 0 ∷ rest))
    first =
        ap (write_at 11 (0 ∷ [])) (sym (append_assoc front (x ∷ []) (y ∷ rest)))
        ∙ write_at_middle (front ++ (x ∷ [])) (0 ∷ []) (y ∷ []) rest 11
            (length-append front (x ∷ []) ∙ omega (arith, h)) refl
        ∙ ap ok (append_assoc front (x ∷ []) (0 ∷ rest))

    second :
        write_at 0 (salt_bytes rand 0 10) (front ++ (x ∷ 0 ∷ rest))
        ≡ ok (salt_bytes rand 0 10 ++ (x ∷ 0 ∷ rest))
    second =
        write_at_middle [] (salt_bytes rand 0 10) front (x ∷ 0 ∷ rest) 0 refl
          (length-salt_bytes rand 0 10 ∙ sym h)

    third :
        write_at 0 (codes "$5$") (salt_bytes rand 0 10 ++ (x ∷ 0 ∷ rest))
        ≡ ok (codes "$5$" ++ (salt_bytes rand 3 7 ++ (x ∷ 0 ∷ rest)))
    third =
        write_at_middle [] (codes "$5$")
          (salt_byte (rand 0 % 3) (rand 1)
            ∷ salt_byte (rand 2 % 3) (rand 3)
            ∷ salt_byte (rand 4 % 3) (rand 5)
            ∷ [])
          (salt_bytes rand 3 7 ++ (x ∷ 0 ∷ rest)) 0 refl refl

IsText-append : (xs ys : List ℕ) → IsText xs → IsText ys → IsText (xs ++ ys)
IsText-append [] ys h k = k
IsText-append (x ∷ xs) ys h k = (h.0, IsText-append xs ys h.1 k)

salt_read :
    (body : List ℕ) (x : ℕ) (rest : List ℕ)
    → AllAlnum body
    → string_at 0 (codes "$5$" ++ (body ++ (x ∷ 0 ∷ rest)))
      ≡ ok (codes "$5$" ++ (body ++ left_over x))
unfolding string_at
salt_read body zero rest h =
    c_string-append (codes "$5$" ++ body) (0 ∷ rest)
      (omega arith, (omega arith, (omega arith, AllAlnum-IsText body h)))
    ∙ ap (λ (t : List ℕ). ok (codes "$5$" ++ t)) (sym (append-nil body))
salt_read body (suc x) rest h =
    ap (λ (t : List ℕ). c_string (codes "$5$" ++ t))
      (sym (append_assoc body (suc x ∷ []) (0 ∷ rest)))
    ∙ c_string-append (codes "$5$" ++ (body ++ (suc x ∷ []))) rest (
      omega arith,
      (omega arith, (omega arith, IsText-append body _ (AllAlnum-IsText body h) (omega arith, tt))),
    )

salt_rest :
    (body : List ℕ) (x : ℕ) (rest : List ℕ)
    → length body ≡ 7
    → drop 12 (codes "$5$" ++ (body ++ (x ∷ 0 ∷ rest))) ≡ rest
salt_rest body x rest h =
    drop-append_ge 9 body (x ∷ 0 ∷ rest) (omega arith)
    ∙ ap (λ (k : ℕ). drop k (x ∷ 0 ∷ rest)) {y = 2} (omega arith)

-- get_salt on a buffer of at least twelve bytes, of which the eleventh is `x`: the buffer then
-- holds a string that is "$5$", seven letters or digits, and after them `x`, unless that was NUL;
-- the bytes from the thirteenth on are as before.
pub get_salt-string :
    (rand : ℕ → ℕ) (front : List ℕ) (x y : ℕ) (rest : List ℕ)
    → length front ≡ 10
    → (b : List ℕ) × (body : List ℕ) × (get_salt rand (front ++ (x ∷ y ∷ rest)) ≡ ok b)
      × (string_at 0 b ≡ ok (codes "$5$" ++ (body ++ left_over x)))
      × (length body ≡ 7)
      × AllAlnum body
      × (drop 12 b ≡ rest)
get_salt-string rand front x y rest h = (
  codes "$5$" ++ (body ++ (x ∷ 0 ∷ rest)),
  body,
  run,
  salt_read body x rest letters,
  length-salt_bytes rand 3 7,
  letters,
  salt_rest body x rest (length-salt_bytes rand 3 7),
)
  where
    body : List ℕ
    body = salt_bytes rand 3 7

    letters : AllAlnum body
    letters = salt_bytes-AllAlnum rand 3 7

    run : get_salt rand (front ++ (x ∷ y ∷ rest)) ≡ ok (codes "$5$" ++ (body ++ (x ∷ 0 ∷ rest)))
    run = salt_run rand front x y rest h
