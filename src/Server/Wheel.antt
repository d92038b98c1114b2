-- ===== src/Server/Wheel.antt =====
-- The timing wheel: how long a client that says nothing stays connected.
use cloudisk_server.Base.{
  ℕ, zero, suc, ◌+◌, ◌%◌, ◌≤◌, ◌<◌, ◌≡◌, ◌≢◌, refl, sym, ap, ◌∙◌, List, [], ◌∷◌, Bool-cases, inl,
  inr, true, false, pos, minus_one, eqb_ℤ, dec, ok, Ensures, arith, subst, if◌then◌else◌, length,
  length-append, lt→ltb, ltb, ◌++◌, get_elem?,
}
use cloudisk_server.Base.Runs
use mathlib.Core.Option
use mathlib.Core.Option.{Option, none, some}
use cloudisk_server.Base.Bytes.{codes}
use cloudisk_server.Database.{Platform}
use cloudisk_server.Database.Users.{llog, values}
use cloudisk_server.Server.{World, Client, closes, unwatches}
use cloudisk_server.Server.Sessions.{dashes}
use cloudisk_server.Server.Loop.{Sweep, sweep, turn}

-- What the sweep of a place does to a client.
abbrev pub swept : ℕ → Client → Client
swept round c =
    if eqb_ℤ c.rotate (pos round)
    then record c { state = 0; code = pos 0; rotate = minus_one }
    else c

module _ (p : Platform) where
  -- Each slot is swept for itself.
  abbrev Sweeps : ℕ → List Client → List Client → Type 0
  Sweeps round cs cs' = (i : ℕ) → get_elem? cs' i ≡ Option.map (swept round) (get_elem? cs i)

  sweep-Sweeps :
      (round j : ℕ) (cs : List Client) (s : Sweep p)
      → Ensures (λ r. Sweeps round cs r.0) (sweep p round j cs s)
  unfolding sweep
  sweep-Sweeps round j [] s = λ i. refl
  sweep-Sweeps round j (c ∷ cs) s = elim (Bool-cases (eqb_ℤ c.rotate (pos round))) [
    | inl hit ↦ rw hit (
        Runs.Ensures-after _ (llog p (codes "Timeout") c.name dashes (codes "Disconnect") s.db) _
          λ l.
            Runs.Ensures->>= (λ r. Sweeps round cs r.0) _ (sweep p round (j + 1) cs _) _
              (sweep-Sweeps round (j + 1) cs _) (λ r t. dropped hit r.0 t))
    | inr miss ↦ rw miss (
        Runs.Ensures->>= (λ r. Sweeps round cs r.0) _ (sweep p round (j + 1) cs s) _
          (sweep-Sweeps round (j + 1) cs s) (λ r t. kept miss r.0 t))
  ]
    where
      dropped :
          eqb_ℤ c.rotate (pos round) ≡ true
          → (cs' : List Client) → Sweeps round cs cs'
          → Sweeps round (c ∷ cs) (record c { state = 0; code = pos 0; rotate = minus_one } ∷ cs')
      dropped hit cs' t zero = rw hit refl
      dropped hit cs' t (suc i) = t i

      kept :
          eqb_ℤ c.rotate (pos round) ≡ false
          → (cs' : List Client) → Sweeps round cs cs'
          → Sweeps round (c ∷ cs) (c ∷ cs')
      kept miss cs' t zero = rw miss refl
      kept miss cs' t (suc i) = t i

  -- A turn moves the wheel on by one place and sweeps each client at the new place.
  record Turned (w w' : World p) : Type 0 where
    moved : w'.round ≡ (w.round + 1) % 5
    swept_all : Sweeps ((w.round + 1) % 5) w.clients w'.clients

  turn-Turned : (w : World p) → Ensures (λ r. Turned w r.1) (turn p w)
  unfolding turn
  turn-Turned w =
      Runs.Ensures->>= (λ r. Sweeps ((w.round + 1) % 5) w.clients r.0) _
        (sweep p ((w.round + 1) % 5) 0 w.clients _) _
        (sweep-Sweeps ((w.round + 1) % 5) 0 w.clients _)
        (λ r t. record { moved = refl; swept_all = t })

  -- `n` turns with nothing between them.
  abbrev pub Turns : ℕ → World p → World p → Type 0
  Turns zero w u = w ≡ u
  Turns (suc n) w u = (v : World p) × (turn p w ≡ ok (tt, v)) × Turns n v u

  abbrev pub client_of : World p → ℕ → Option Client
  client_of w fd = get_elem? w.clients fd

  turned : {w v : World p} → turn p w ≡ ok (tt, v) → Turned w v
  turned {w} e = subst (Ensures (λ r. Turned w r.1)) e (turn-Turned w)

  stays :
      (w v : World p) (fd q : ℕ) (c : Client)
      → Turned w v
      → client_of w fd ≡ some c
      → c.rotate ≡ pos q
      → (w.round + 1) % 5 ≢ q
      → client_of v fd ≡ some c
  stays w v fd q c t e at ne =
      t.swept_all fd ∙ ap (Option.map (swept ((w.round + 1) % 5))) e ∙ ap some same
    where
      same : swept ((w.round + 1) % 5) c ≡ c
      same = ground (arith, ne)

  -- After `k` quiet turns, `n` more, up to four in all.
  idle_stays :
      (n k q fd : ℕ) (c : Client) (w u : World p)
      → Turns n w u
      → client_of w fd ≡ some c
      → c.rotate ≡ pos q
      → q < 5
      → w.round ≡ (q + k) % 5
      → k + n ≤ 4
      → (client_of u fd ≡ some c) × (u.round ≡ (q + (k + n)) % 5)
  idle_stays zero k q fd c w u t e at lt r h = (
    ap (λ (x : World p). client_of x fd) (sym t) ∙ e,
    ap (λ (x : World p). x.round) (sym t) ∙ r ∙ ap (λ (m : ℕ). (q + m) % 5) (omega arith),
  )
  idle_stays (suc n) k q fd c w u t e at lt r h =
      let step = turned t.1 in
      let rest =
        idle_stays n (k + 1) q fd c t.0 u t.2 (stays w t.0 fd q c step e at (omega (arith, r))) at
          lt (omega (arith, step.moved, r)) (omega arith) in
      (rest.0, rest.1 ∙ ap (λ (m : ℕ). (q + m) % 5) (omega arith))

  idle_client :
      (fd : ℕ) (c : Client) (w u v : World p)
      → w.round < 5
      → client_of w fd ≡ some c
      → c.rotate ≡ pos w.round
      → Turns 4 w u
      → turn p u ≡ ok (tt, v)
      → (client_of u fd ≡ some c)
        × (client_of v fd ≡ some (record c { state = 0; code = pos 0; rotate = minus_one }))
  idle_client fd c w u v lt e at four fifth = (before.0, after)
    where
      before : (client_of u fd ≡ some c) × (u.round ≡ (w.round + (0 + 4)) % 5)
      before = idle_stays 4 0 w.round fd c w u four e at lt (omega arith) (omega arith)

      due : swept ((u.round + 1) % 5) c ≡ record c { state = 0; code = pos 0; rotate = minus_one }
      due = ground (arith, before.1)

      after : client_of v fd ≡ some (record c { state = 0; code = pos 0; rotate = minus_one })
      after =
          (turned fifth).swept_all fd
          ∙ ap (Option.map (swept ((u.round + 1) % 5))) before.0
          ∙ ap some due

  -- Names as main stores them, in 30 bytes.
  abbrev pub AllNamesFit : List Client → Type 0
  AllNamesFit [] = Unit
  AllNamesFit (c ∷ cs) = (length c.name < 30) × AllNamesFit cs

  timeout_logged :
      (name : List ℕ) (d : p.Db)
      → length name < 30
      → (d' : p.Db) × (llog p (codes "Timeout") name dashes (codes "Disconnect") d ≡ ok (tt, d'))
  unfolding llog
  timeout_logged name d h = ((p.query text d).1, rw short refl)
    where
      text : List ℕ
      text =
          codes "insert into Login(action,name,ip_port,result) values"
          ++ values p (codes "Timeout") name dashes (codes "Disconnect")

      short : ltb (length text) 300 ≡ true
      short = lt→ltb _ _ (simp length-append (omega arith))

  sweep_returns :
      (round j : ℕ) (cs : List Client) (s : Sweep p)
      → AllNamesFit cs
      → (cs' : List Client) × (s' : Sweep p) × (sweep p round j cs s ≡ ok (cs', s'))
        × AllNamesFit cs'
  unfolding sweep
  sweep_returns round j [] s h = ([], s, refl, tt)
  sweep_returns round j (c ∷ cs) s h = elim (Bool-cases (eqb_ℤ c.rotate (pos round))) [
    | inl hit ↦
        let l = timeout_logged c.name s.db h.0 in
        let r =
          sweep_returns round (j + 1) cs
            (record {
              client_sum = dec s.client_sum;
              db = l.0;
              effects = closes j ∷ unwatches j ∷ s.effects;
            })
            h.1 in
        (
          record c { state = 0; code = pos 0; rotate = minus_one } ∷ r.0,
          r.1,
          rw (hit, l.1, r.2) refl,
          (h.0, r.3),
        )
    | inr miss ↦
        let r = sweep_returns round (j + 1) cs s h.1 in
        (c ∷ r.0, r.1, rw (miss, r.2) refl, (h.0, r.3))
  ]

  -- If every stored name fits its 30 bytes then a turn of the wheel returns, and the names still fit.
  pub turn_returns :
      (w : World p)
      → AllNamesFit w.clients
      → (v : World p) × (turn p w ≡ ok (tt, v)) × AllNamesFit v.clients
  unfolding turn
  turn_returns w h =
      let r =
        sweep_returns ((w.round + 1) % 5) 0 w.clients
          (record { client_sum = w.client_sum; db = w.db; effects = w.effects }) h in
      (
        record w {
          round = (w.round + 1) % 5;
          clients = r.0;
          client_sum = r.1.client_sum;
          db = r.1.db;
          effects = r.1.effects;
        },
        rw r.2 refl,
        r.3,
      )

  -- So can it several times.
  Turns-return :
      (n : ℕ) (w : World p)
      → AllNamesFit w.clients
      → (v : World p) × Turns n w v × AllNamesFit v.clients
  Turns-return zero w h = (w, refl, h)
  Turns-return (suc n) w h =
      let t = turn_returns w h in let r = Turns-return n t.0 t.2 in (r.0, (t.0, t.1, r.1), r.2)

  -- Suppose that every stored name fits its 30 bytes, that the wheel stands at one of its five
  -- places, and that the client at `fd` is at that place, as one that has just been served is. Then
  -- the wheel can be turned five times. If nothing else happens, the client is unchanged after four
  -- turns, and the fifth drops it: its state is 0 and it has no place on the wheel.
  pub idle_dropped :
      (fd : ℕ) (c : Client) (w : World p)
      → AllNamesFit w.clients
      → w.round < 5
      → client_of w fd ≡ some c
      → c.rotate ≡ pos w.round
      → (u : World p) × (v : World p) × Turns 4 w u
        × (turn p u ≡ ok (tt, v))
        × (client_of u fd ≡ some c)
        × (client_of v fd ≡ some (record c { state = 0; code = pos 0; rotate = minus_one }))
  idle_dropped fd c w fits lt e at =
      let four = Turns-return 4 w fits in
      let fifth = turn_returns four.0 four.2 in
      let seen = idle_client fd c w four.0 fifth.0 lt e at four.1 fifth.1 in
      (four.0, fifth.0, four.1, fifth.1, seen.0, seen.1)
