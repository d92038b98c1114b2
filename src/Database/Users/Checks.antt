-- ===== src/Database/Users/Checks.antt =====
-- What a log-in and a reconnection are checked against.
use cloudisk_server.Base.{
  ◌<◌, ◌≡◌, ◌↔◌, refl, sym, ap, ap₂, subst, ◌∙◌, List, [], ◌∷◌, none, some, true, Bool-cases, inl,
  inr, ltb, lt→ltb, ℤ, pos, ok, length, same_bytes, same_bytes→eq, same_bytes_refl, arith, ok_inj,
}
use cloudisk_server.Database.{Text, Row, Platform, Reply, failed, no_result, rows}
use cloudisk_server.Database.Users.{
  math_token, token_query, math_user, ciphertext_query, token_update,
}

-- The reply whose first row has `stored` as its first cell.
abbrev pub Stored : Text → Row → List Row → Reply
Stored stored cells rs = rows ((some stored ∷ cells) ∷ rs)

module _ (p : Platform) where
  -- What the database must answer, and the state it is then in.
  abbrev pub TokenStored : Text → Text → p.Db → p.Db → Type 0
  TokenStored name token d d' =
      (cells : Row) × (rs : List Row) × (p.query (token_query p name) d
        ≡ (Stored token cells rs, d'))
      × (0 < length token)

  token_stored :
      (name token : Text) (d d' : p.Db) (r : Reply × p.Db)
      → ltb (length (token_query p name)) 300 ≡ true
      → p.query (token_query p name) d ≡ r
      → math_token p name token d ≡ ok (pos 0, d')
      → TokenStored name token d d'
  unfolding math_token
  token_stored name token d d' (failed, d1) s e h = absurd (ground (arith, s, e, h))
  token_stored name token d d' (no_result, d1) s e h = absurd (ground (arith, s, e, h))
  token_stored name token d d' (rows [], d1) s e h = absurd (ground (arith, s, e, h))
  token_stored name token d d' (rows ([] ∷ rs), d1) s e h = absurd (ground (arith, s, e, h))
  token_stored name token d d' (rows ((none ∷ cells) ∷ rs), d1) s e h =
      absurd (ground (arith, s, e, h))
  token_stored name token d d' (rows ((some [] ∷ cells) ∷ rs), d1) s e h =
      absurd (ground (arith, s, e, h))
  token_stored name token d d' (rows ((some (c ∷ cs) ∷ cells) ∷ rs), d1) s e h =
      elim (Bool-cases (same_bytes (c ∷ cs) token)) [
        | inl same ↦
            let eq : c ∷ cs ≡ token = same_bytes→eq (c ∷ cs) token same in
            let run : math_token p name token d ≡ ok (pos 0, d1) = ground (arith, s, e, same) in
            let end : d1 ≡ d' = ap (λ (r : ℤ × p.Db). r.1) (ok_inj (sym run ∙ h)) in
            (
              cells,
              rs,
              e ∙ ap₂ (λ (t : Text) (x : p.Db). (Stored t cells rs, x)) eq end,
              subst (λ (t : Text). 0 < length t) eq (omega arith),
            )
        | inr other ↦ absurd (ground (arith, s, e, h, other))
      ]

  -- If the query fits its buffer then math_token returns 0 exactly where the first row of the
  -- database's answer holds the very token that was sent, and that token is not empty.
  pub math_token_iff :
      (name token : Text) (d d' : p.Db)
      → length (token_query p name) < 300
      → (math_token p name token d ≡ ok (pos 0, d')) ↔ TokenStored name token d d'
  unfolding math_token
  math_token_iff name token d d' short =
      (token_stored name token d d' (p.query (token_query p name) d) (lt→ltb _ _ short) refl, back)
    where
      small : ltb (length (token_query p name)) 300 ≡ true
      small = lt→ltb _ _ short

      back : TokenStored name token d d' → math_token p name token d ≡ ok (pos 0, d')
      back (cells, rs, e, l) = ground (arith, small, e, same_bytes_refl token)

  -- What the database must answer to a log-in, and the state it is in once it has been sent the
  -- new token. Whether it takes the token is not looked at.
  abbrev pub PasswordStored : Text → Text → Text → p.Db → p.Db → Type 0
  PasswordStored name password token d d' =
      (d1 : p.Db) × (cells : Row) × (rs : List Row) × (p.query (ciphertext_query p name) d
        ≡ (Stored password cells rs, d1))
      × (0 < length password)
      × (d' ≡ (p.query (token_update p name token) d1).1)

  password_stored :
      (name password token : Text) (d d' : p.Db) (r : Reply × p.Db)
      → ltb (length (ciphertext_query p name)) 300 ≡ true
      → ltb (length (token_update p name token)) 200 ≡ true
      → p.query (ciphertext_query p name) d ≡ r
      → math_user p name password token d ≡ ok (pos 0, d')
      → PasswordStored name password token d d'
  unfolding math_user
  password_stored name password token d d' (failed, d1) s u e h = absurd (ground (arith, s, e, h))
  password_stored name password token d d' (no_result, d1) s u e h =
      absurd (ground (arith, s, e, h))
  password_stored name password token d d' (rows [], d1) s u e h = absurd (ground (arith, s, e, h))
  password_stored name password token d d' (rows ([] ∷ rs), d1) s u e h =
      absurd (ground (arith, s, e, h))
  password_stored name password token d d' (rows ((none ∷ cells) ∷ rs), d1) s u e h =
      absurd (ground (arith, s, e, h))
  password_stored name password token d d' (rows ((some [] ∷ cells) ∷ rs), d1) s u e h =
      absurd (ground (arith, s, e, h))
  password_stored name password token d d' (rows ((some (c ∷ cs) ∷ cells) ∷ rs), d1) s u e h =
      elim (Bool-cases (same_bytes (c ∷ cs) password)) [
        | inl same ↦
            let eq : c ∷ cs ≡ password = same_bytes→eq (c ∷ cs) password same in
            let run : math_user p name password token d
                ≡ ok (pos 0, (p.query (token_update p name token) d1).1) =
              ground (arith, s, u, e, same) in
            let end = ap (λ (r : ℤ × p.Db). r.1) (ok_inj (sym h ∙ run)) in
            (
              d1,
              cells,
              rs,
              e ∙ ap (λ (t : Text). (Stored t cells rs, d1)) eq,
              subst (λ (t : Text). 0 < length t) eq (omega arith),
              end,
            )
        | inr other ↦ absurd (ground (arith, s, e, h, other))
      ]

  -- If the query and the update fit their buffers then math_user returns 0 exactly where the first
  -- row of the database's answer holds the very ciphertext that was sent, and that is not empty; the
  -- database is then left as the update with the new token leaves it.
  pub math_user_iff :
      (name password token : Text) (d d' : p.Db)
      → length (ciphertext_query p name) < 300
      → length (token_update p name token) < 200
      → (math_user p name password token d ≡ ok (pos 0, d'))
        ↔ PasswordStored name password token d d'
  unfolding math_user
  math_user_iff name password token d d' short short' = (
    password_stored name password token d d' (p.query (ciphertext_query p name) d) small small'
        refl,
    back,
  )
    where
      small : ltb (length (ciphertext_query p name)) 300 ≡ true
      small = lt→ltb _ _ short

      small' : ltb (length (token_update p name token)) 200 ≡ true
      small' = lt→ltb _ _ short'

      back :
          PasswordStored name password token d d'
          → math_user p name password token d ≡ ok (pos 0, d')
      back (d1, cells, rs, e, l, f) = ground (arith, small, small', e, f, same_bytes_refl password)
