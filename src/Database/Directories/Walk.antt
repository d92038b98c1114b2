-- ===== src/Database/Directories/Walk.antt =====
-- The loop over an absolute path in cd_func of src/sql.c, at an empty component.
use cloudisk_server.Base.{
  ℕ, zero, suc, ◌+◌, ◌-◌, ◌≤◌, ◌<◌, ◌≡◌, refl, sym, ap, subst, ◌∙◌, List, [], ◌∷◌, ◌==◌, ◌||◌, true,
  false, Bool-cases, inl, inr, ℤ, ok, ok_inj, drop, set, arith,
}
use cloudisk_server.Base.Action.{Action}
use cloudisk_server.Database.{Text, Platform}
use cloudisk_server.Database.Directories.{Walked, byte_at, scan, look_up, walk}

-- A NUL stays where it is when another is written.
byte_at-set : (bs : List ℕ) (i k : ℕ) → byte_at bs k ≡ ok 0 → byte_at (set bs i 0) k ≡ ok 0
unfolding byte_at
byte_at-set [] i k e = e
byte_at-set (b ∷ bs) zero zero e = refl
byte_at-set (b ∷ bs) zero (suc k) e = e
byte_at-set (b ∷ bs) (suc i) zero e = e
byte_at-set (b ∷ bs) (suc i) (suc k) e = byte_at-set bs i k e

byte_at-set_here : (bs : List ℕ) (i b : ℕ) → byte_at bs i ≡ ok b → byte_at (set bs i 0) i ≡ ok 0
unfolding byte_at
byte_at-set_here [] i b e = absurd (ground arith)
byte_at-set_here (x ∷ bs) zero b e = refl
byte_at-set_here (x ∷ bs) (suc i) b e = byte_at-set_here bs i b e

-- Below a byte that is there all bytes are.
byte_at-below :
    (bs : List ℕ) (i k b : ℕ) → i ≤ k → byte_at bs k ≡ ok b → (x : ℕ) × (byte_at bs i ≡ ok x)
unfolding byte_at
byte_at-below [] i k b h e = absurd (ground arith)
byte_at-below (x ∷ bs) zero k b h e = (x, refl)
byte_at-below (x ∷ bs) (suc i) zero b h e = absurd (omega arith)
byte_at-below (x ∷ bs) (suc i) (suc k) b h e = byte_at-below bs i k b (omega arith) e

strictly_below :
    (bs : List ℕ) (i k b : ℕ)
    → i ≤ k
    → byte_at bs i ≡ ok b
    → (b == 0) ≡ false
    → byte_at bs k ≡ ok 0
    → i < k
strictly_below bs i k b h at more e = elim (Bool-cases (i == k)) [
  | inl same ↦
      let here : i ≡ k = ground (arith, same) in
      let nul : b ≡ 0 = ok_inj (sym at ∙ ap (byte_at bs) here ∙ e) in
      absurd (ground (arith, nul, more))
  | inr other ↦ ground (arith, other, h)
]

-- The inner loop ends at the first NUL at the latest.
scan-ends : (bs : List ℕ) (k : ℕ) → byte_at bs k ≡ ok 0 → (n : ℕ) × (scan bs ≡ ok n) × (n ≤ k)
unfolding byte_at scan
scan-ends [] k e = absurd (ground arith)
scan-ends (b ∷ bs) zero e =
    let nul : b ≡ 0 = ok_inj e in
    let stop : ((b == b'/') || (b == 0)) ≡ true = ground (arith, nul) in
    (0, rw (scan, stop) refl, omega arith)
scan-ends (b ∷ bs) (suc k) e = elim (Bool-cases ((b == b'/') || (b == 0))) [
  | inl stop ↦ (0, rw (scan, stop) refl, omega arith)
  | inr on ↦
      let (n, run, le) = scan-ends bs k e in (suc n, rw (scan, on, run) refl, omega (arith, le))
]

scan-stops :
    (bs : List ℕ) (i k : ℕ)
    → i ≤ k
    → byte_at bs k ≡ ok 0
    → (n : ℕ) × (scan (drop i bs) ≡ ok n) × (i + n ≤ k)
unfolding byte_at
scan-stops bs zero k h e = let (n, run, le) = scan-ends bs k e in (n, run, omega (arith, le))
scan-stops [] (suc i) k h e = absurd (ground arith)
scan-stops (b ∷ bs) (suc i) zero h e = absurd (omega arith)
scan-stops (b ∷ bs) (suc i) (suc k) h e =
    let (n, run, le) = scan-stops bs i k (omega arith) e in (n, run, omega (arith, le))

scan-slash : (bs : List ℕ) (i : ℕ) → byte_at bs i ≡ ok b'/' → scan (drop i bs) ≡ ok 0
unfolding byte_at scan
scan-slash [] i e = absurd (ground arith)
scan-slash (b ∷ bs) zero e =
    let here : b ≡ b'/' = ok_inj e in
    let stop : ((b == b'/') || (b == 0)) ≡ true = ground (arith, here) in rw (scan, stop) refl
scan-slash (b ∷ bs) (suc i) e = scan-slash bs i e

module _ (p : Platform) (name : Text) where
  look_up-at_nul :
      (next : ℤ → ℕ → Action p.Db Walked) (code : ℤ) (pre pcur : ℕ) (text : List ℕ) (d : p.Db)
      → byte_at text pre ≡ ok 0
      → look_up p next name code pre pcur text d ≡ next code pre d
  unfolding look_up
  look_up-at_nul next code pre pcur text d e = rw (look_up, e) refl

  -- At the end of the text the loop is over.
  walk-end :
      (rounds : ℕ) (code : ℤ) (pre pcur : ℕ) (text : List ℕ) (d : p.Db)
      → 0 < rounds
      → byte_at text pcur ≡ ok 0
      → walk p rounds name code pre pcur text d ≡ ok (record { ret = code; text = text }, d)
  unfolding walk
  walk-end zero code pre pcur text d h e = absurd (omega arith)
  walk-end (suc rounds) code pre pcur text d h e = rw (walk, e) refl

  -- Once `pre` stands at a NUL nothing more is looked up.
  walk-at_nul :
      (rounds : ℕ) (code : ℤ) (pre pcur k : ℕ) (text : List ℕ) (d : p.Db)
      → byte_at text pre ≡ ok 0
      → byte_at text k ≡ ok 0
      → pcur ≤ k
      → k - pcur < rounds
      → (left : List ℕ) × (walk p rounds name code pre pcur text d
          ≡ ok (record { ret = code; text = left }, d))
  unfolding walk
  walk-at_nul zero code pre pcur k text d nul e h f = absurd (omega arith)
  walk-at_nul (suc rounds) code pre pcur k text d nul e h f =
      let (first, at) = byte_at-below text pcur k 0 h e in
      elim (Bool-cases (first == 0)) [
        | inl over ↦ (text, rw (walk, at, over) refl)
        | inr more ↦
            let (n, stops, le) = scan-stops text pcur k h e in
            let (stop, at_stop) = byte_at-below text (pcur + n) k 0 le e in
            let room = strictly_below text pcur k first h at more e in
            elim (Bool-cases (stop == 0)) [
              | inl end ↦
                  let here : byte_at text (pcur + n) ≡ ok 0 =
                    at_stop ∙ ap ok {x = stop} {y = 0} (ground (arith, end)) in
                  (
                    text,
                    rw
                        (
                          walk,
                          at,
                          more,
                          stops,
                          at_stop,
                          end,
                          look_up-at_nul (λ c q. walk p rounds name c q (pcur + n) text) code pre
                              (pcur + n) text d nul,
                        )
                        (walk-end rounds code pre (pcur + n) text d (omega (arith, room, f)) here),
                  )
              | inr slash ↦
                  let inside = strictly_below text (pcur + n) k stop le at_stop slash e in
                  let cut = set text (pcur + n) 0 in
                  let (left, run) =
                    walk-at_nul rounds code pre (suc (pcur + n)) k cut d
                      (byte_at-set text (pcur + n) pre nul) (byte_at-set text (pcur + n) k e)
                      (omega (arith, inside)) (omega (arith, inside, f)) in
                  (
                    left,
                    rw
                        (
                          walk,
                          at,
                          more,
                          stops,
                          at_stop,
                          slash,
                          look_up-at_nul (λ c q. walk p rounds name c q (suc (pcur + n)) cut) code
                              pre (suc (pcur + n)) cut d (byte_at-set text (pcur + n) pre nul),
                        )
                        run,
                  )
            ]
      ]

  -- In the loop over an absolute path, where `pre` and `pcur` stand at a '/', so that a component is
  -- empty, and the text ends at a NUL at `k`: with a round for each byte up to there and one more the
  -- loop ends, whatever components follow; it has sent no query, and its result is the directory that
  -- it had reached.
  pub walk-double_slash :
      (rounds : ℕ) (code : ℤ) (pre k : ℕ) (text : List ℕ) (d : p.Db)
      → byte_at text pre ≡ ok b'/'
      → byte_at text k ≡ ok 0
      → pre < k
      → k - pre < rounds
      → (left : List ℕ) × (walk p rounds name code pre pre text d
          ≡ ok (record { ret = code; text = left }, d))
  unfolding walk
  walk-double_slash zero code pre k text d at e h f = absurd (omega arith)
  walk-double_slash (suc rounds) code pre k text d at e h f =
      let cut = set text pre 0 in
      let nul : byte_at cut pre ≡ ok 0 = byte_at-set_here text pre b'/' at in
      let (left, run) =
        walk-at_nul rounds code pre (suc pre) k cut d nul (byte_at-set text pre k e) (omega arith)
          (omega arith) in
      (
        left,
        rw
            (
              walk,
              at,
              scan-slash text pre at,
              ap (byte_at text) {x = pre + 0} {y = pre} (omega arith) ∙ at,
            )
            (subst
              (λ (j : ℕ).
                look_up p (λ c q. walk p rounds name c q (suc j) (set text j 0)) name code pre
                  (suc j) (set text j 0) d
                ≡ ok (record { ret = code; text = left }, d))
              {x = pre} {y = pre + 0} (omega arith)
              (look_up-at_nul (λ c q. walk p rounds name c q (suc pre) cut) code pre (suc pre) cut d
                  nul
                ∙ run)),
      )
