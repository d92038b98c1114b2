-- ===== src/Drive/Storage/Files.antt =====
-- The files of the store by their paths.
use cloudisk_server.Base.{
  ℕ, ◌+◌, ◌-◌, ap, ap₂, ◌++◌, length, take, drop, replicate, append-nil, length-take, ◌≡◌, ◌≢◌,
  refl, sym, take-append-drop, ◌∙◌, List, [], ◌∷◌, true, false, none, some, Bool-cases, inl, inr,
  same_bytes, same_bytes→eq, arith,
}
use cloudisk_server.Drive.Storage.{FilePath, Store, content, remove, put, overwrite}

pub same_bytes_refl : (a : List ℕ) → same_bytes a a ≡ true
unfolding same_bytes
same_bytes_refl [] = refl
same_bytes_refl (x ∷ xs) = ground (arith, same_bytes_refl xs)

pub content-put :
    (path : FilePath) (bytes : List ℕ) (fs : Store) → content path (put path bytes fs) ≡ some bytes
unfolding put content
content-put path bytes fs = rw (same_bytes_refl path) refl

pub content-remove : (path : FilePath) (fs : Store) → content path (remove path fs) ≡ none
unfolding remove content
content-remove path [] = refl
content-remove path (f ∷ fs) = elim (Bool-cases (same_bytes f.0 path)) [
  | inl here ↦ rw (remove, here) (content-remove path fs)
  | inr other ↦ rw (remove, other, content, other) (content-remove path fs)
]

pub same_bytes_ne : (a b : List ℕ) → a ≢ b → same_bytes a b ≡ false
same_bytes_ne a b h = elim (Bool-cases (same_bytes a b)) [
  | inl same ↦ absurd (h (same_bytes→eq a b same))
  | inr other ↦ other
]

-- Another file is not touched.
pub content-remove_other :
    (path other : FilePath) (fs : Store)
    → path ≢ other
    → content other (remove path fs) ≡ content other fs
unfolding remove content
content-remove_other path other [] h = refl
content-remove_other path other (f ∷ fs) h = elim (Bool-cases (same_bytes f.0 path)) [
  | inl here ↦
      let different : same_bytes f.0 other ≡ false =
        same_bytes_ne f.0 other (λ e. h (sym (same_bytes→eq f.0 path here) ∙ e)) in
      rw (remove, here, content, different) (content-remove_other path other fs h)
  | inr there ↦ elim (Bool-cases (same_bytes f.0 other)) [
    | inl found ↦ rw (remove, there, content, found) refl
    | inr not_found ↦ rw (remove, there, content, not_found) (content-remove_other path other fs h)
  ]
]

pub content-put_other :
    (path other : FilePath) (bytes : List ℕ) (fs : Store)
    → path ≢ other
    → content other (put path bytes fs) ≡ content other fs
unfolding put content
content-put_other path other bytes fs h =
    rw (put, content, same_bytes_ne path other h) (content-remove_other path other fs h)

-- Bytes written behind a part leave the part.
pub overwrite_front :
    (front bytes old : List ℕ)
    → take (length front) old ≡ front
    → overwrite (length front) bytes old
      ≡ front ++ (bytes ++ drop (length front + length bytes) old)
unfolding overwrite
overwrite_front front [] old e =
    sym (take-append-drop (length front) old)
    ∙ ap (λ (t : List ℕ). t ++ drop (length front) old) e
    ∙ ap (λ (n : ℕ). front ++ drop n old) {x = length front} {y = length front + 0} (omega arith)
overwrite_front front (b ∷ bs) old e =
    ap₂
      (λ (t : List ℕ) (n : ℕ).
        (t ++ replicate n 0) ++ ((b ∷ bs) ++ drop (length front + length (b ∷ bs)) old))
      e none_missing
    ∙ ap (λ (t : List ℕ). t ++ ((b ∷ bs) ++ drop (length front + length (b ∷ bs)) old))
        (append-nil front)
  where
    none_missing : length front - length old ≡ 0
    none_missing = omega (arith, length-take (length front) old, ap length e)
