-- ===== src/Drive/Storage/Transfer.antt =====
-- A file that is uploaded in parts and then read back.
use cloudisk_server.Base.{
  ℕ, zero, suc, ◌+◌, ◌-◌, ◌%◌, ◌≡◌, refl, sym, ap, ◌∙◌, List, [], ◌∷◌, ◌++◌, append-nil, some,
  Bool-cases, inl, inr, leb, min, arith, length, length-take, length-drop, take, drop, take_all,
  drop_all, drop-drop,
}
use cloudisk_server.Drive.Storage.{
  FilePath, Store, content, file_size, overwrite, read_chunk, mmap_threshold,
}
use cloudisk_server.Drive.Storage.Files.{overwrite_front}
use native.Mathlib.Nat.{div-add-mod}

overwrite_end : (old bytes : List ℕ) → overwrite (length old) bytes old ≡ old ++ bytes
overwrite_end old bytes =
    overwrite_front old bytes old (take_all (length old) old (omega arith))
    ∙ ap (λ (back : List ℕ). old ++ (bytes ++ back))
        (drop_all (length old + length bytes) old (omega arith))
    ∙ ap (λ (back : List ℕ). old ++ back) (append-nil bytes)

take_nil : (n : ℕ) → take {A = ℕ} n [] ≡ []
take_nil zero = refl
take_nil (suc n) = refl

take-min : (n : ℕ) (xs : List ℕ) → take (min n (length xs)) xs ≡ take n xs
take-min zero xs = ap (λ (k : ℕ). take k xs) {x = min 0 (length xs)} {y = 0} (omega arith)
take-min (suc n) [] = ap (λ (k : ℕ). take k []) {x = min (suc n) 0} {y = 0} (omega arith)
take-min (suc n) (x ∷ xs) =
    ap (λ (k : ℕ). take k (x ∷ xs)) {x = min (suc n) (suc (length xs))}
      {y = suc (min n (length xs))} (omega arith)
    ∙ ap (◌∷◌ x) (take-min n xs)

-- Bytes of a mapping that is long enough.
take-mapped : (n p : ℕ) (xs : List ℕ) → take n (drop p (take (p + n) xs)) ≡ take n (drop p xs)
take-mapped n zero xs =
    ap (λ (k : ℕ). take n (take k xs)) {x = 0 + n} {y = n} (omega arith)
    ∙ take_all n (take n xs) (omega (arith, length-take n xs))
take-mapped n (suc p) [] = ap (λ (t : List ℕ). take n (drop (suc p) t)) (take_nil (suc p + n))
take-mapped n (suc p) (x ∷ xs) =
    ap (λ (k : ℕ). take n (drop (suc p) (take k (x ∷ xs)))) {x = suc p + n} {y = suc (p + n)}
      (omega arith)
    ∙ take-mapped n p xs

-- read_chunk gives the bytes of the file from the offset on, as many as are asked for and there are,
-- whichever of its two ways it reads them in.
pub read_chunk-content :
    (page : ℕ) (path : FilePath) (offset count : ℕ) (fs : Store) (bytes : List ℕ)
    → content path fs ≡ some bytes
    → read_chunk page path offset count fs ≡ take count (drop offset bytes)
unfolding read_chunk file_size
read_chunk-content page path offset count fs bytes e =
    elim (Bool-cases (leb (length bytes) offset)) [
      | inl behind ↦
          rw (read_chunk, file_size, e, behind)
            (sym
              (ap (take count) (drop_all offset bytes (ground (arith, behind))) ∙ take_nil count))
      | inr inside ↦ elim (Bool-cases (leb mmap_threshold (length bytes))) [
        | inl large ↦
            rw (read_chunk, file_size, e, inside, large)
              (take-mapped to_read (offset % page) (drop (offset - offset % page) bytes)
                ∙ ap (take to_read) page_start
                ∙ all_there)
        | inr small ↦ rw (read_chunk, file_size, e, inside, small) all_there
      ]
    ]
  where
    to_read : ℕ
    to_read = min count (length bytes - offset)

    page_start : drop (offset % page) (drop (offset - offset % page) bytes) ≡ drop offset bytes
    page_start =
        sym (drop-drop (offset - offset % page) (offset % page) bytes)
        ∙ ap (λ (k : ℕ). drop k bytes) {x = offset - offset % page + offset % page} {y = offset}
            (omega (arith, div-add-mod offset page))

    all_there : take to_read (drop offset bytes) ≡ take count (drop offset bytes)
    all_there =
        ap (λ (k : ℕ). take k (drop offset bytes)) {x = to_read}
          {y = min count (length (drop offset bytes))} (omega (arith, length-drop offset bytes))
        ∙ take-min count (drop offset bytes)
