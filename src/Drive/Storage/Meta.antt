-- ===== src/Drive/Storage/Meta.antt =====
-- The checkpoint of an upload, written and read back.
use cloudisk_server.Base.{
  ℕ, suc, ◌+◌, ◌-◌, ◌/◌, ◌%◌, ◌^◌, ◌<◌, ◌≡◌, refl, ap, ◌∙◌, List, [], ◌∷◌, ◌++◌, Bool, true, some,
  Bool-cases, inl, inr, ltb, min, arith, length, length-append, drop, take-append_here,
  drop-append_ge, same_bytes,
}
use cloudisk_server.Base.Bytes.{codes, digits, read_digits, skip_spaces}
use cloudisk_server.Base.Bytes.Numbers.{AllDigits, digits-AllDigits, read_digits-digits}
use cloudisk_server.Drive.Protocol.{find_byte}
use cloudisk_server.Drive.Protocol.Headers.{Lacks, find_byte-append}
use cloudisk_server.Drive.Storage.{
  FilePath, Store, exists, put, Checkpoint, decimal, meta_text, write_meta, unsigned_digits,
  signed_digits, stoull, meta_line, meta_lines, read_meta, resume_at, update_progress,
}
use cloudisk_server.Drive.Storage.Files.{content-put}

stoull_digits :
    (xs : List ℕ)
    → AllDigits xs
    → 0 < length xs
    → read_digits 0 xs < 2 ^ 64
    → stoull xs ≡ some (read_digits 0 xs)
unfolding stoull signed_digits unsigned_digits skip_spaces
stoull_digits [] h p q = elim p [ ]
stoull_digits (c ∷ cs) h p q = ground arith

digits_some : (f n : ℕ) → 0 < length (digits (suc f) n)
unfolding digits
digits_some f n = elim (Bool-cases (ltb n 10)) [
  | inl small ↦ rw small (omega arith)
  | inr big ↦ rw big (omega (arith, length-append (digits f (n / 10)) ((48 + n % 10) ∷ [])))
]

stoull-decimal : (n : ℕ) → n < 2 ^ 64 → stoull (decimal n) ≡ some n
unfolding decimal
stoull-decimal n h =
    let value : read_digits 0 (digits (suc n) n) ≡ n = read_digits-digits (suc n) n (omega arith) in
    stoull_digits (digits (suc n) n) (digits-AllDigits (suc n) n) (digits_some n n)
      (omega (arith, value, h))
    ∙ ap some value

Lacks-digits : (xs : List ℕ) → AllDigits xs → Lacks b'\n' xs
Lacks-digits [] h = tt
Lacks-digits (c ∷ cs) h = (ground arith, Lacks-digits cs h.2)

-- A line is read, and the loop goes on behind it.
meta_lines_line :
    (rounds : ℕ) (line more : List ℕ) (c c' : Checkpoint)
    → Lacks b'\n' line
    → meta_line line c ≡ some c'
    → meta_lines (suc rounds) (line ++ b'\n' ∷ more) c ≡ meta_lines rounds more c'
unfolding meta_lines
meta_lines_line rounds [] more c c' h e = rw (meta_lines, find_byte-append b'\n' [] more h, e) refl
meta_lines_line rounds (x ∷ xs) more c c' h e =
    rw
      (
        meta_lines,
        find_byte-append b'\n' (x ∷ xs) more h,
        take-append_here (length (x ∷ xs)) (x ∷ xs) (b'\n' ∷ more) refl,
        e,
        behind,
      )
      refl
  where
    behind : drop (length (x ∷ xs) + 1) (x ∷ (xs ++ b'\n' ∷ more)) ≡ more
    behind =
        drop-append_ge (length (x ∷ xs) + 1) (x ∷ xs) (b'\n' ∷ more) (omega arith)
        ∙ ap (λ (i : ℕ). drop i (b'\n' ∷ more)) {x = length (x ∷ xs) + 1 - length (x ∷ xs)} {y = 1}
            (omega arith)

meta_line_path :
    (path : FilePath) (c : Checkpoint)
    → meta_line (codes "path=" ++ path) c ≡ some (record c { final_path = path })
unfolding meta_line find_byte same_bytes
meta_line_path path c = refl

meta_line_total :
    (n : ℕ) (c : Checkpoint)
    → n < 2 ^ 64
    → meta_line (codes "total=" ++ decimal n) c ≡ some (record c { total = n })
unfolding meta_line find_byte same_bytes
meta_line_total n c h = rw (stoull-decimal n h) refl

meta_line_received :
    (n : ℕ) (c : Checkpoint)
    → n < 2 ^ 64
    → meta_line (codes "received=" ++ decimal n) c ≡ some (record c { received = n })
unfolding meta_line find_byte same_bytes
meta_line_received n c h = rw (stoull-decimal n h) refl

Lacks-decimal : (n : ℕ) → Lacks b'\n' (decimal n)
unfolding decimal
Lacks-decimal n = Lacks-digits (digits (suc n) n) (digits-AllDigits (suc n) n)

-- The three lines, with at least a round for each of them and one more.
meta_lines-meta_text :
    (c c0 : Checkpoint) (rounds : ℕ)
    → Lacks b'\n' c.final_path
    → c.total < 2 ^ 64
    → c.received < 2 ^ 64
    → meta_lines (suc (suc (suc (suc rounds)))) (meta_text c) c0
      ≡ some (record c0 { final_path = c.final_path; total = c.total; received = c.received })
unfolding meta_text
meta_lines-meta_text c c0 rounds clean p q =
    let c1 : Checkpoint = record c0 { final_path = c.final_path } in
    let c2 : Checkpoint = record c1 { total = c.total } in
    let c3 : Checkpoint = record c2 { received = c.received } in
    let line3 = codes "received=" ++ decimal c.received in
    let line2 = codes "total=" ++ decimal c.total in
    let more2 = line3 ++ b'\n' ∷ [] in
    let more1 = line2 ++ b'\n' ∷ more2 in
    meta_lines_line (suc (suc (suc rounds))) (codes "path=" ++ c.final_path) more1 c0 c1
      (refl, (refl, (refl, (refl, (refl, clean))))) (meta_line_path c.final_path c0)
    ∙ meta_lines_line (suc (suc rounds)) line2 more2 c1 c2
        (refl, (refl, (refl, (refl, (refl, (refl, Lacks-decimal c.total))))))
        (meta_line_total c.total c1 p)
    ∙ meta_lines_line (suc rounds) line3 [] c2 c3
        (
          refl,
          (refl, (refl, (refl, (refl, (refl, (refl, (refl, (refl, Lacks-decimal c.received)))))))),
        )
        (meta_line_received c.received c2 q)
    ∙ (unfold meta_lines in refl)

exists-put :
    (path : FilePath) (bytes : List ℕ) (fs : Store) → exists path (put path bytes fs) ≡ true
unfolding exists
exists-put path bytes fs = rw (exists, content-put path bytes fs) refl

long_enough :
    (c : Checkpoint) → (rounds : ℕ) × (length (meta_text c) ≡ suc (suc (suc (suc rounds))))
unfolding meta_text
long_enough c = (length (drop 4 (meta_text c)), refl)

-- A checkpoint whose path has no line break comes back from its file, with the total and the count
-- of bytes that were received.
pub read_meta-write_meta :
    (c : Checkpoint) (final_path : FilePath) (fs : Store)
    → Lacks b'\n' c.final_path
    → c.total < 2 ^ 64
    → c.received < 2 ^ 64
    → read_meta c.meta_path final_path (write_meta c fs)
      ≡ some (record c { active = true; temp_path = [] })
unfolding read_meta write_meta
read_meta-write_meta c final_path fs clean p q =
    let (rounds, size) = long_enough c in
    rw (read_meta, write_meta, content-put c.meta_path (meta_text c) fs, size)
      (meta_lines-meta_text c _ rounds clean p q
        ∙ ap (λ (b : Bool). some (record c { active = b; temp_path = [] }))
            (exists-put c.meta_path (meta_text c) fs))

-- After `n` bytes of the upload `c` have been noted, an upload `c'` that is prepared with the same
-- checkpoint file goes on at `n`, or at its own total if that is smaller, whatever the total of `c`
-- was. The final path of `c` has no line break; its total and `n` are below 2 ^ 64.
pub resume_at-update_progress :
    (c c' : Checkpoint) (n : ℕ) (fs : Store)
    → c'.meta_path ≡ c.meta_path
    → Lacks b'\n' c.final_path
    → c.total < 2 ^ 64
    → n < 2 ^ 64
    → resume_at c' (update_progress c n fs)
      ≡ some (record c' { received = min n c'.total }, update_progress c n fs)
unfolding resume_at update_progress write_meta
resume_at-update_progress c c' n fs same clean p q =
    let noted : Checkpoint = record c { received = n } in
    let after = put c.meta_path (meta_text noted) fs in
    let there : exists c'.meta_path after ≡ true =
      ap (λ (path : FilePath). exists path after) same
      ∙ exists-put c.meta_path (meta_text noted) fs in
    let found : read_meta c'.meta_path c'.final_path after
        ≡ some (record noted { active = true; temp_path = [] }) =
      ap (λ (path : FilePath). read_meta path c'.final_path after) same
      ∙ read_meta-write_meta noted c'.final_path fs clean p q in
    rw (resume_at, there, found) refl
