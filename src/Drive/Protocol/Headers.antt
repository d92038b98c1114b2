-- ===== src/Drive/Protocol/Headers.antt =====
-- The headers of a message, written as lines and read back.
use cloudisk_server.Base.{
  ℕ, zero, suc, ◌+◌, ◌-◌, ◌≤◌, ◌≡◌, refl, sym, ap, ap₂, ◌∙◌, List, [], ◌∷◌, ◌++◌, append-nil,
  append_assoc, true, false, none, some, ltb, ◌==◌, Option-cases, inl, inr, arith, length,
  length-append, length-drop, drop, take, take-append_le, take_all, drop-append_ge,
}
use cloudisk_server.Drive.Protocol.{
  HeaderMap, find, emplace, serialize_headers, find_byte, parse_line, parse_lines, parse_headers,
}

-- A byte string without a byte.
abbrev pub Lacks : ℕ → List ℕ → Type 0
Lacks c [] = Unit
Lacks c (x ∷ xs) = ((x == c) ≡ false) × Lacks c xs

-- Keys with neither '=' nor a line break, and values without a line break.
abbrev pub Clean : HeaderMap → Type 0
Clean [] = Unit
Clean (e ∷ es) = (Lacks b'=' e.0 × Lacks b'\n' e.0 × Lacks b'\n' e.1) × Clean es

-- No key comes twice, and none of them is in `seen`.
abbrev pub Distinct : HeaderMap → HeaderMap → Type 0
Distinct seen [] = Unit
Distinct seen (e ∷ es) = (find e.0 seen ≡ none) × Distinct (seen ++ e ∷ []) es

pub Lacks-append : (c : ℕ) (xs ys : List ℕ) → Lacks c xs → Lacks c ys → Lacks c (xs ++ ys)
Lacks-append c [] ys h k = k
Lacks-append c (x ∷ xs) ys h k = (h.0, Lacks-append c xs ys h.1 k)

pub find_byte-append :
    (c : ℕ) (xs ys : List ℕ) → Lacks c xs → find_byte c (xs ++ c ∷ ys) ≡ some (length xs)
unfolding find_byte
find_byte-append c [] ys h = ground arith
find_byte-append c (x ∷ xs) ys h = rw (h.0, find_byte-append c xs ys h.1) refl

-- The first line is done with, and the loop goes on behind it.
parse_lines_line :
    (rounds e : ℕ) (text : List ℕ) (h : HeaderMap)
    → find_byte b'\n' text ≡ some (suc e)
    → parse_lines (suc rounds) text h
      ≡ parse_lines rounds (drop (suc e + 1) text) (parse_line text (suc e) h)
unfolding parse_lines
parse_lines_line rounds e [] h there = absurd (unfold find_byte in ground arith)
parse_lines_line rounds e (c ∷ cs) h there = rw (parse_lines, there) refl

parse_line_entry :
    (k v more : List ℕ) (h : HeaderMap)
    → Lacks b'=' k
    → parse_line (k ++ b'=' ∷ (v ++ b'\n' ∷ more)) (length (k ++ b'=' ∷ v)) h ≡ emplace k v h
unfolding parse_line
parse_line_entry k v more h clean =
    rw
      (
        parse_line,
        find_byte-append b'=' k (v ++ b'\n' ∷ more) clean,
        inside,
        key,
        behind,
        size,
        value,
      )
      refl
  where
    n : ℕ
    n = length k

    size : length (k ++ b'=' ∷ v) ≡ n + suc (length v)
    size = length-append k (b'=' ∷ v)

    inside : ltb n (length (k ++ b'=' ∷ v)) ≡ true
    inside = ground (arith, size)

    key : take n (k ++ b'=' ∷ (v ++ b'\n' ∷ more)) ≡ k
    key = take-append_le n k (b'=' ∷ (v ++ b'\n' ∷ more)) (omega arith) ∙ take_all n k (omega arith)

    behind : drop (n + 1) (k ++ b'=' ∷ (v ++ b'\n' ∷ more)) ≡ v ++ b'\n' ∷ more
    behind =
        drop-append_ge (n + 1) k (b'=' ∷ (v ++ b'\n' ∷ more)) (omega arith)
        ∙ ap (λ (i : ℕ). drop i (b'=' ∷ (v ++ b'\n' ∷ more))) {x = n + 1 - n} {y = 1} (omega arith)

    value : take (n + suc (length v) - n - 1) (v ++ b'\n' ∷ more) ≡ v
    value =
        take-append_le (n + suc (length v) - n - 1) v (b'\n' ∷ more) (omega arith)
        ∙ take_all (n + suc (length v) - n - 1) v (omega arith)

parse_lines_entry :
    (rounds : ℕ) (k v more : List ℕ) (h : HeaderMap)
    → Lacks b'=' k
    → Lacks b'\n' k
    → Lacks b'\n' v
    → parse_lines (suc rounds) ((k ++ b'=' ∷ v ++ b'\n' ∷ []) ++ more) h
      ≡ parse_lines rounds more (emplace k v h)
parse_lines_entry rounds k v more h a b c =
    let line = k ++ b'=' ∷ v in
    let e = length k + length v in
    let size : length line ≡ suc e = omega (arith, length-append k (b'=' ∷ v)) in
    let there : find_byte b'\n' (line ++ b'\n' ∷ more) ≡ some (suc e) =
      find_byte-append b'\n' line more (Lacks-append b'\n' k (b'=' ∷ v) b (refl, c))
      ∙ ap some size in
    ap (λ (text : List ℕ). parse_lines (suc rounds) text h) (append_assoc line (b'\n' ∷ []) more)
    ∙ parse_lines_line rounds e (line ++ b'\n' ∷ more) h there
    ∙ ap₂ (parse_lines rounds) (rest e size) (
        ap₂ (λ (text : List ℕ) (n : ℕ). parse_line text n h)
          (append_assoc k (b'=' ∷ v) (b'\n' ∷ more)) (sym size)
        ∙ parse_line_entry k v more h a)
  where
    rest :
        (e : ℕ)
        → length (k ++ b'=' ∷ v) ≡ suc e
        → drop (suc e + 1) ((k ++ b'=' ∷ v) ++ b'\n' ∷ more) ≡ more
    rest e size =
        drop-append_ge (suc e + 1) (k ++ b'=' ∷ v) (b'\n' ∷ more) (omega arith)
        ∙ ap (λ (i : ℕ). drop i (b'\n' ∷ more)) {x = suc e + 1 - length (k ++ b'=' ∷ v)} {y = 1}
            (omega arith)

emplace_new : (k v : List ℕ) (h : HeaderMap) → find k h ≡ none → emplace k v h ≡ h ++ (k, v) ∷ []
unfolding emplace
emplace_new k v h new = rw (emplace, new) refl

length-entry :
    (k v more : List ℕ)
    → length ((k ++ b'=' ∷ v ++ b'\n' ∷ []) ++ more) ≡ length k + length v + 2 + length more
length-entry k v more = omega (
  arith,
  length-append (k ++ b'=' ∷ v ++ b'\n' ∷ []) more,
  length-append (k ++ b'=' ∷ v) (b'\n' ∷ []),
  length-append k (b'=' ∷ v),
)

parse_lines-serialize :
    (es seen : HeaderMap) (rounds : ℕ)
    → Clean es
    → Distinct seen es
    → length (serialize_headers es) ≤ rounds
    → parse_lines rounds (serialize_headers es) seen ≡ seen ++ es
unfolding serialize_headers parse_lines
parse_lines-serialize [] seen zero clean new fuel = sym (append-nil seen)
parse_lines-serialize [] seen (suc rounds) clean new fuel = sym (append-nil seen)
parse_lines-serialize ((k, v) ∷ es) seen zero clean new fuel =
    absurd (omega (arith, fuel, length-entry k v (serialize_headers es)))
parse_lines-serialize ((k, v) ∷ es) seen (suc rounds) clean new fuel =
    let more = serialize_headers es in
    parse_lines_entry rounds k v more seen clean.0.0 clean.0.1 clean.0.2
    ∙ ap (parse_lines rounds more) (emplace_new k v seen new.0)
    ∙ parse_lines-serialize es (seen ++ (k, v) ∷ []) rounds clean.1 new.1
        (omega (arith, fuel, length-entry k v more))
    ∙ append_assoc seen ((k, v) ∷ []) es

-- Headers whose keys have neither '=' nor a line break and are not repeated, and whose values have
-- no line break, come back from their lines: each key has the value that it had.
pub parse_headers-serialize_headers :
    (h : HeaderMap) (key : List ℕ)
    → Clean h
    → Distinct [] h
    → find key (parse_headers (serialize_headers h)) ≡ find key h
unfolding parse_headers
parse_headers-serialize_headers h key clean new =
    ap (find key)
      (parse_lines-serialize h [] (length (serialize_headers h)) clean new (omega arith))

same_lines :
    (n m : ℕ) (text : List ℕ) (h : HeaderMap)
    → length text ≤ n
    → length text ≤ m
    → parse_lines n text h ≡ parse_lines m text h
unfolding parse_lines
same_lines zero zero text h p q = refl
same_lines zero (suc m) [] h p q = refl
same_lines zero (suc m) (c ∷ cs) h p q = elim p [ ]
same_lines (suc n) zero [] h p q = refl
same_lines (suc n) zero (c ∷ cs) h p q = elim q [ ]
same_lines (suc n) (suc m) [] h p q = refl
same_lines (suc n) (suc m) (c ∷ cs) h p q = elim (Option-cases (find_byte b'\n' (c ∷ cs))) [
  | inl last ↦ rw (parse_lines, last) refl
  | inr (zero, empty) ↦ rw (parse_lines, empty) refl
  | inr (suc e, there) ↦
      parse_lines_line n e (c ∷ cs) h there
      ∙ same_lines n m (drop (suc e + 1) (c ∷ cs)) (parse_line (c ∷ cs) (suc e) h)
          (omega (arith, length-drop (suc e + 1) (c ∷ cs)))
          (omega (arith, length-drop (suc e + 1) (c ∷ cs)))
      ∙ sym (parse_lines_line m e (c ∷ cs) h there)
]

-- The loop over the lines ends: with more rounds than bytes nothing changes.
pub parse_lines_enough :
    (rounds : ℕ) (text : List ℕ) (h : HeaderMap)
    → length text ≤ rounds
    → parse_lines rounds text h ≡ parse_lines (length text) text h
parse_lines_enough rounds text h fuel = same_lines rounds (length text) text h fuel (omega arith)
