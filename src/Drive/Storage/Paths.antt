-- ===== src/Drive/Storage/Paths.antt =====
-- What the check of a path lets through.
use cloudisk_server.Base.{
  ℕ, ◌≡◌, ◌↔◌, refl, sym, ap, ◌∙◌, List, [], ◌∷◌, ◌++◌, Bool, true, false, Option, none, some,
  Bool-cases, inl, inr, ◌==◌, if◌then◌else◌, arith, subst,
}
use cloudisk_server.Drive.Storage.{FilePath, slash, starts_with, sanitize_path}

starts_with-append : (xs ys : List ℕ) → starts_with xs (xs ++ ys) ≡ true
unfolding starts_with
starts_with-append [] ys = refl
starts_with-append (x ∷ xs) ys = ground (arith, starts_with-append xs ys)

starts_with_rest : (xs ys : List ℕ) → starts_with xs ys ≡ true → (s : List ℕ) × (ys ≡ xs ++ s)
unfolding starts_with
starts_with_rest [] ys h = (ys, refl)
starts_with_rest (x ∷ xs) [] h = absurd (ground arith)
starts_with_rest (x ∷ xs) (y ∷ ys) h = elim (Bool-cases (x == y)) [
  | inl same ↦
      let (s, e) = starts_with_rest xs ys (ground (arith, h, same)) in
      let first : x ≡ y = ground (arith, same) in
      (s, ap (λ (c : ℕ). c ∷ ys) (sym first) ∙ ap (◌∷◌ x) e)
  | inr other ↦ absurd (ground (arith, h, other))
]

module _ (weakly_canonical : FilePath → FilePath) where
  sanitize_path_inside :
      (base relative target : FilePath)
      → sanitize_path weakly_canonical base relative ≡ some target
      → (s : List ℕ) × (target ≡ weakly_canonical (slash base relative))
        × (target ≡ weakly_canonical base ++ s)
  unfolding sanitize_path
  sanitize_path_inside base relative target e =
      by_test (starts_with (weakly_canonical base) path) refl e
    where
      path : FilePath
      path = weakly_canonical (slash base relative)

      by_test :
          (b : Bool)
          → starts_with (weakly_canonical base) path ≡ b
          → ◌≡◌ {A = Option FilePath} (if b then some path else none) (some target)
          → (s : List ℕ) × (target ≡ path) × (target ≡ weakly_canonical base ++ s)
      by_test false t r = absurd (ground (arith, r))
      by_test true t r =
          let (s, rest) = starts_with_rest (weakly_canonical base) path t in
          let same : target ≡ path =
            ap (λ (o : Option FilePath). elim o [ none ↦ target | some p ↦ p ]) (sym r) in
          (s, same, same ∙ rest)

  -- sanitize_path gives a target exactly when the canonical target continues the canonical base as a
  -- text; nothing asks that the base ends there at a separator.
  pub sanitize_path_iff :
      (base relative target : FilePath)
      → (sanitize_path weakly_canonical base relative ≡ some target) ↔ (
          (s : List ℕ) × (target ≡ weakly_canonical (slash base relative))
          × (target ≡ weakly_canonical base ++ s))
  unfolding sanitize_path
  sanitize_path_iff base relative target = (
    sanitize_path_inside base relative target,
    λ r.
        let starts : starts_with (weakly_canonical base) (weakly_canonical (slash base relative))
            ≡ true =
          subst (λ (t : List ℕ). starts_with (weakly_canonical base) t ≡ true) (sym r.2 ∙ r.1)
            (starts_with-append (weakly_canonical base) r.0) in
        rw (sanitize_path, starts) (ap some (sym r.1)),
  )
