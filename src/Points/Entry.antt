-- ===== src/Points/Entry.antt =====
-- No file is opened for a client that the token check does not let in.
use cloudisk_server.Base.{
  ℕ, zero, suc, ◌+◌, ◌≡◌, refl, sym, subst, List, [], ◌∷◌, Bool, true, false, Bool-cases, inl, inr,
  ◌==◌, if◌then◌else◌, ℤ, pos, minus_one, eqb_ℤ, ltb_ℤ, ok, Ensures, arith, length, set, replicate,
  ok_inj,
}
use cloudisk_server.Base.Runs
use cloudisk_server.Base.Bytes.{memcpy, string_at}
use cloudisk_server.Wire.{Train, Recv, one_recv}
use cloudisk_server.Database.{Platform}
use cloudisk_server.Server.{size}
use cloudisk_server.Points.{
  Task, no_task, PointEffect, Points, socket_num, nth_point, OpenedPoint, math_token, disconnect,
  take_token, take_part, take_input, input_slots, read_part, give_output, output_slots,
  accept_point, any_free, PointReady, connection, input, output, on_point, serve_points,
  first_points,
}

-- A file has been opened.
abbrev pub some_opened : List PointEffect → Bool
some_opened [] = false
some_opened (PointEffect.opens path ∷ es) = true
some_opened (PointEffect.closes_file fd ∷ es) = some_opened es
some_opened (PointEffect.sends fd bytes ∷ es) = some_opened es
some_opened (PointEffect.watches_input fd ∷ es) = some_opened es
some_opened (PointEffect.watches_output fd ∷ es) = some_opened es
some_opened (PointEffect.unwatches_input fd ∷ es) = some_opened es
some_opened (PointEffect.unwatches_output fd ∷ es) = some_opened es

-- No slot is in state 2.
abbrev pub NoneEntered : List Task → Type 0
NoneEntered [] = Unit
NoneEntered (t ∷ ts) = ((t.state == 2) ≡ false) × NoneEntered ts

NoneEntered-set :
    (ts : List Task) (j : ℕ) (t : Task)
    → NoneEntered ts
    → (t.state == 2) ≡ false
    → NoneEntered (set ts j t)
NoneEntered-set [] j t h e = tt
NoneEntered-set (x ∷ xs) zero t h e = (e, h.1)
NoneEntered-set (x ∷ xs) (suc j) t h e = (h.0, NoneEntered-set xs j t h.1 e)

NoneEntered-nth :
    (ts : List Task) (j : ℕ) (t : Task)
    → NoneEntered ts
    → nth_point ts j ≡ ok t
    → (t.state == 2) ≡ false
unfolding nth_point
NoneEntered-nth [] j t h e = absurd (ground arith)
NoneEntered-nth (x ∷ xs) zero t h e = subst (λ (y : Task). (y.state == 2) ≡ false) (ok_inj e) h.0
NoneEntered-nth (x ∷ xs) (suc j) t h e = NoneEntered-nth xs j t h.1 e

module _ {p : Platform} where
  record IsRefused (s : Points p) : Type 0 where
    waiting : NoneEntered s.tasks
    shut : some_opened s.effects ≡ false

  disconnect-IsRefused :
      (j : ℕ) (t : Task) (s : Points p) → IsRefused s → IsRefused (disconnect j t s)
  unfolding disconnect
  disconnect-IsRefused j t s h = record {
    waiting = NoneEntered-set s.tasks j no_task h.waiting refl;
    shut = elim (Bool-cases (ltb_ℤ (pos 0) t.fd)) [
      | inl file ↦ rw file h.shut
      | inr none_open ↦ rw none_open h.shut
    ];
  }

  take_token-IsRefused :
      (j : ℕ) (t : Task) (s : Points p)
      → IsRefused s
      → Ensures (λ r. IsRefused r.1) (take_token minus_one j t s)
  unfolding take_token
  take_token-IsRefused j t s h = Runs.Ensures-after _ (size s.train.len) _ λ n.
      Runs.Ensures-after _ (memcpy s.info s.train.buf n) _ λ info.
        Runs.Ensures-after _ (string_at 0 info) _ λ name.
          Runs.Ensures-after _ (math_token p name s.db) _
            λ db. record { waiting = h.waiting; shut = h.shut }

  take_part-IsRefused :
      (opened : OpenedPoint) (j : ℕ) (t : Task) (s : Points p)
      → IsRefused s
      → (t.state == 2) ≡ false
      → Ensures (λ r. IsRefused r.1) (take_part opened j t s)
  unfolding take_part
  take_part-IsRefused opened j t s h e = rw (take_part, e) (disconnect-IsRefused j t s h)

  take_input-IsRefused :
      (opened : OpenedPoint) (j : ℕ) (t : Task) (es : List Recv) (s : Points p)
      → IsRefused s
      → (t.state == 2) ≡ false
      → Ensures (λ r. IsRefused r.2) (take_input opened minus_one j t es s)
  unfolding take_input
  take_input-IsRefused opened j t es s h e = Runs.Ensures-after _ (one_recv s.train es) _ λ a.
      let s1 : Points p = record s { train = a.train } in
      let h1 : IsRefused s1 = record { waiting = h.waiting; shut = h.shut } in
      Runs.Ensures-if _ (eqb_ℤ a.ret minus_one) _ _ (λ _. disconnect-IsRefused j t s1 h1)
        λ _.
          Runs.Ensures->>= (λ (r : Bool × Points p). IsRefused r.1) _ _ _
            (Runs.Ensures-if _ (eqb_ℤ a.train.ctl_code (pos 1)) _ _
              (λ _. take_token-IsRefused j t s1 h1) (λ _. take_part-IsRefused opened j t s1 h1 e))
            λ r u. u

  input_slots-IsRefused :
      (left j : ℕ) (fd : ℤ) (opened : OpenedPoint) (es : List Recv) (s : Points p)
      → IsRefused s
      → Ensures IsRefused (input_slots left j fd opened minus_one es s)
  unfolding input_slots
  input_slots-IsRefused zero j fd opened es s h = h
  input_slots-IsRefused (suc left) j fd opened es s h =
      Runs.Ensures-reads _ (nth_point s.tasks j) _ λ t e.
        let idle = NoneEntered-nth s.tasks j t h.waiting e in
        Runs.Ensures-if _ (eqb_ℤ t.cfd fd) _ _
          (λ _.
            Runs.Ensures->>= (λ (r : Bool × List Recv × Points p). IsRefused r.2) _
              (take_input opened minus_one j t es s) _ (take_input-IsRefused opened j t es s h idle)
              λ r u.
                Runs.Ensures-if _ r.0 _ _ (λ _. u)
                  (λ _. input_slots-IsRefused left (j + 1) fd opened r.1 r.2 u))
          (λ _. input_slots-IsRefused left (j + 1) fd opened es s h)

  give_output-IsRefused :
      (sent : Bool) (j : ℕ) (t : Task) (s : Points p)
      → IsRefused s
      → (t.state == 2) ≡ false
      → Ensures IsRefused (give_output sent j t s)
  unfolding give_output
  give_output-IsRefused sent j t s h e =
      Runs.Ensures-if _ (ltb_ℤ t.place t.stop) _ _
        (λ _. Runs.Ensures-after _ (read_part t s.train) _ λ train.
          after sent _ _
            (record { waiting = NoneEntered-set s.tasks j _ h.waiting e; shut = h.shut }))
        (λ _. disconnect-IsRefused j t _ (record { waiting = h.waiting; shut = h.shut }))
    where
      after :
          (b : Bool) (u : Task) (s1 : Points p)
          → IsRefused s1
          → IsRefused (if b then s1 else disconnect j u s1)
      after true u s1 k = k
      after false u s1 k = disconnect-IsRefused j u s1 k

  output_slots-IsRefused :
      (left j : ℕ) (fd : ℤ) (sent : Bool) (s : Points p)
      → IsRefused s
      → Ensures IsRefused (output_slots left j fd sent s)
  unfolding output_slots
  output_slots-IsRefused zero j fd sent s h = h
  output_slots-IsRefused (suc left) j fd sent s h =
      Runs.Ensures-reads _ (nth_point s.tasks j) _ λ t e.
        Runs.Ensures->>= IsRefused _ _ _
          (Runs.Ensures-if IsRefused (eqb_ℤ t.cfd fd) _ _
            (λ _. give_output-IsRefused sent j t s h (NoneEntered-nth s.tasks j t h.waiting e))
            (λ _. h))
          λ s' u. output_slots-IsRefused left (j + 1) fd sent s' u

accept_point-NoneEntered :
    (fd : ℤ) (ts : List Task) → NoneEntered ts → NoneEntered (accept_point fd ts)
unfolding accept_point
accept_point-NoneEntered fd [] h = tt
accept_point-NoneEntered fd (t ∷ ts) h = elim (Bool-cases (eqb_ℤ t.cfd (pos 0))) [
  | inl free ↦ rw (accept_point, free) (refl, h.1)
  | inr used ↦ rw (accept_point, used) (h.0, accept_point-NoneEntered fd ts h.1)
]

-- In each message with a token, the caller of math_token reads -1.
abbrev pub AllRefused : List PointReady → Type 0
AllRefused [] = Unit
AllRefused (connection fd ∷ es) = AllRefused es
AllRefused (output fd sent ∷ es) = AllRefused es
AllRefused (input fd stream opened given ∷ es) = (given ≡ minus_one) × AllRefused es

module _ {p : Platform} where
  on_point-IsRefused :
      (e : PointReady) (s : Points p)
      → AllRefused (e ∷ [])
      → IsRefused s
      → Ensures IsRefused (on_point e s)
  unfolding on_point
  on_point-IsRefused (connection fd) s r h = elim (Bool-cases (any_free s.tasks)) [
    | inl room ↦
        rw (on_point, room)
          (record { waiting = accept_point-NoneEntered fd s.tasks h.waiting; shut = h.shut })
    | inr full ↦ rw (on_point, full) h
  ]
  on_point-IsRefused (input fd es opened given) s r h =
      subst (λ (g : ℤ). Ensures IsRefused (input_slots (length s.tasks) 0 fd opened g es s))
        (sym r.0) (input_slots-IsRefused (length s.tasks) 0 fd opened es s h)
  on_point-IsRefused (output fd sent) s r h = output_slots-IsRefused (length s.tasks) 0 fd sent s h

  serve_points-IsRefused :
      (es : List PointReady) (s : Points p)
      → AllRefused es
      → IsRefused s
      → Ensures IsRefused (serve_points es s)
  unfolding serve_points
  serve_points-IsRefused [] s r h = h
  serve_points-IsRefused (connection fd ∷ es) s r h =
      Runs.Ensures->>= IsRefused IsRefused (on_point (connection fd) s) _
        (on_point-IsRefused (connection fd) s tt h) λ s' u. serve_points-IsRefused es s' r u
  serve_points-IsRefused (input fd stream opened given ∷ es) s r h =
      Runs.Ensures->>= IsRefused IsRefused (on_point (input fd stream opened given) s) _
        (on_point-IsRefused (input fd stream opened given) s (r.0, tt) h)
        λ s' u. serve_points-IsRefused es s' r.1 u
  serve_points-IsRefused (output fd sent ∷ es) s r h =
      Runs.Ensures->>= IsRefused IsRefused (on_point (output fd sent) s) _
        (on_point-IsRefused (output fd sent) s tt h) λ s' u. serve_points-IsRefused es s' r u

replicate-NoneEntered : (n : ℕ) → NoneEntered (replicate n no_task)
replicate-NoneEntered zero = tt
replicate-NoneEntered (suc n) = (refl, replicate-NoneEntered n)

-- From the program's start, over any sequence of events that returns: if every reading of what
-- math_token leaves is -1, then no file has been opened, whatever the clients have sent.
pub serve_points_refused :
    (p : Platform) (es : List PointReady) (train : Train) (info bq : List ℕ) (db : p.Db)
    (s : Points p)
    → AllRefused es
    → serve_points es (first_points train info bq db) ≡ ok s
    → some_opened s.effects ≡ false
unfolding first_points
serve_points_refused p es train info bq db s refused run =
    let end : IsRefused s = subst (Ensures IsRefused) run (
      serve_points-IsRefused es (first_points train info bq db) refused
        (record { waiting = replicate-NoneEntered socket_num; shut = refl })) in
    end.shut
