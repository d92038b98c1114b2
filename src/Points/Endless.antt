-- ===== src/Points/Endless.antt =====
-- A part of a file is never finished: nothing moves `pos`.
use cloudisk_server.Base.{
  ℕ, zero, suc, ◌+◌, ◌≤◌, ◌≡◌, refl, ap, ap₂, ◌∙◌, List, [], ◌∷◌, ◌++◌, Bool, true, false, some, ℤ,
  pos, eqb_ℤ, ltb_ℤ, ok, arith, length, drop, set, replicate, drop_all, drop-drop, le→leb,
}
use cloudisk_server.Base.Bytes.{write_at, int_bytes}
use cloudisk_server.Wire.{Train}
use cloudisk_server.Wire.Frame.{frame}
use cloudisk_server.Database.{Platform}
use cloudisk_server.Points.{
  Task, PointEffect, Points, sends, nth_point, read_part, train_bytes, give_output, output_slots,
  output, on_point, serve_points,
}

-- No slot of these has the descriptor.
abbrev pub NoneHas : ℤ → List Task → Type 0
NoneHas fd [] = Unit
NoneHas fd (t ∷ ts) = (eqb_ℤ t.cfd fd ≡ false) × NoneHas fd ts

nth_point-drop :
    (ts more : List Task) (j : ℕ) (t : Task) → drop j ts ≡ t ∷ more → nth_point ts j ≡ ok t
unfolding nth_point
nth_point-drop ts more zero t e = ap (λ (x : List Task). nth_point x 0) e
nth_point-drop [] more (suc j) t e = absurd (ground arith)
nth_point-drop (x ∷ xs) more (suc j) t e = nth_point-drop xs more j t e

-- A slot that is served up to its file's end, while `pos` is still below `end`.
pub record IsRead (t : Task) (fd : ℤ) (bytes : List ℕ) : Type 0 where
  pub socket : eqb_ℤ t.cfd fd ≡ true
  pub file : t.content ≡ some bytes
  pub at_end : length bytes ≤ t.offset
  pub below : ltb_ℤ t.place t.stop ≡ true

read_part_empty :
    (t : Task) (fd : ℤ) (bytes : List ℕ) (train : Train)
    → IsRead t fd bytes
    → read_part t train ≡ ok (record train { len = pos 0; ctl_code = t.number })
unfolding read_part write_at
read_part_empty t fd bytes train h =
    rw
      (
        read_part,
        h.file,
        drop_all t.offset bytes h.at_end,
        le→leb 0 (length train.buf) (omega arith),
      )
      refl

replicate-cons :
    (n : ℕ) (x : PointEffect) (xs : List PointEffect)
    → replicate n x ++ (x ∷ xs) ≡ x ∷ (replicate n x ++ xs)
replicate-cons zero x xs = refl
replicate-cons (suc n) x xs = ap (◌∷◌ x) (replicate-cons n x xs)

set-append_here :
    (front : List Task) (t x : Task) (ts : List Task)
    → set (front ++ t ∷ ts) (length front) x ≡ front ++ x ∷ ts
set-append_here [] t x ts = refl
set-append_here (y ∷ front) t x ts = ap (◌∷◌ y) (set-append_here front t x ts)

drop-append_here : (front more : List Task) → drop (length front) (front ++ more) ≡ more
drop-append_here [] more = refl
drop-append_here (y ∷ front) more = drop-append_here front more

module _ {p : Platform} where
  -- The slots in front, none of which has the descriptor, are passed over.
  output_slots-front :
      (others more : List Task) (j : ℕ) (fd : ℤ) (sent : Bool) (s : Points p)
      → NoneHas fd others
      → drop j s.tasks ≡ others ++ more
      → output_slots (length (others ++ more)) j fd sent s
        ≡ output_slots (length more) (j + length others) fd sent s
  unfolding output_slots
  output_slots-front [] more j fd sent s h e =
      ap (λ (k : ℕ). output_slots (length more) k fd sent s) {x = j} {y = j + 0} (omega arith)
  output_slots-front (t ∷ ts) more j fd sent s h e =
      rw (nth_point-drop s.tasks (ts ++ more) j t e, h.0)
        (output_slots-front ts more (j + 1) fd sent s h.1 (drop-drop j 1 s.tasks ∙ ap (drop 1) e)
          ∙ ap (λ (k : ℕ). output_slots (length more) k fd sent s) {x = j + 1 + length ts}
              {y = j + suc (length ts)} (omega arith))

  output_slots-NoneHas :
      (others : List Task) (j : ℕ) (fd : ℤ) (sent : Bool) (s : Points p)
      → NoneHas fd others
      → drop j s.tasks ≡ others
      → output_slots (length others) j fd sent s ≡ ok s
  unfolding output_slots
  output_slots-NoneHas [] j fd sent s h e = refl
  output_slots-NoneHas (t ∷ ts) j fd sent s h e =
      rw (nth_point-drop s.tasks ts j t e, h.0)
        (output_slots-NoneHas ts (j + 1) fd sent s h.1 (drop-drop j 1 s.tasks ∙ ap (drop 1) e))

  -- What one more output leaves.
  abbrev served : List Task → Task → List Task → Points p → Points p
  served front t ts s = record s {
    tasks = front ++ t ∷ ts;
    train = record s.train { len = pos 0; ctl_code = t.number };
    effects = sends t.cfd (frame (pos 0) t.number []) ∷ s.effects;
  }

  give_output-served :
      (front : List Task) (t : Task) (ts : List Task) (fd : ℤ) (bytes : List ℕ) (s : Points p)
      → s.tasks ≡ front ++ t ∷ ts
      → IsRead t fd bytes
      → give_output true (length front) t s ≡ ok (served front t ts s)
  unfolding give_output train_bytes
  give_output-served front t ts fd bytes s e h =
      rw
        (
          give_output,
          h.below,
          read_part_empty t fd bytes s.train h,
          e,
          set-append_here front t (record t { offset = t.offset + 0 }) ts,
        )
        (ap₂
          (λ (o : ℕ) (out : List ℕ). ok (record s {
            tasks = front ++ record t { offset = o } ∷ ts;
            train = record s.train { len = pos 0; ctl_code = t.number };
            effects = sends t.cfd out ∷ s.effects;
          }))
          {x = t.offset + 0} {y = t.offset} (omega arith) (unfold int_bytes in refl))

  round-served :
      (front : List Task) (t : Task) (ts : List Task) (fd : ℤ) (bytes : List ℕ) (s : Points p)
      → s.tasks ≡ front ++ t ∷ ts
      → IsRead t fd bytes
      → NoneHas fd front
      → NoneHas fd ts
      → on_point (output fd true) s ≡ ok (served front t ts s)
  unfolding on_point output_slots
  round-served front t ts fd bytes s e h before others =
      let here : drop (length front) s.tasks ≡ t ∷ ts =
        ap (drop (length front)) e ∙ drop-append_here front (t ∷ ts) in
      let behind : drop (length front + 1) (front ++ t ∷ ts) ≡ ts =
        drop-drop (length front) 1 (front ++ t ∷ ts)
        ∙ ap (drop 1) (drop-append_here front (t ∷ ts)) in
      ap (λ (x : List Task). output_slots (length x) 0 fd true s) e
      ∙ output_slots-front front (t ∷ ts) 0 fd true s before e
      ∙ ap (λ (j : ℕ). output_slots (suc (length ts)) j fd true s) {x = 0 + length front}
          {y = length front} (omega arith)
      ∙ rw
          (
            nth_point-drop s.tasks ts (length front) t here,
            h.socket,
            give_output-served front t ts fd bytes s e h,
          )
          (output_slots-NoneHas ts (length front + 1) fd true (served front t ts s) others behind)

  -- A slot, anywhere in the table, whose file has been read to its end and whose `pos` is below `end`,
  -- the only one with its descriptor: any number of outputs that succeed each send one more message
  -- of length 0, and leave the slot as it is; it is never given up.
  pub serve_points_endless :
      (n : ℕ) (front : List Task) (t : Task) (ts : List Task) (fd : ℤ) (bytes : List ℕ)
      (s : Points p)
      → s.tasks ≡ front ++ t ∷ ts
      → IsRead t fd bytes
      → NoneHas fd front
      → NoneHas fd ts
      → (r : Points p) × (serve_points (replicate n (output fd true)) s ≡ ok r)
        × (r.tasks ≡ front ++ t ∷ ts)
        × (r.effects ≡ replicate n (sends t.cfd (frame (pos 0) t.number [])) ++ s.effects)
  unfolding serve_points
  serve_points_endless zero front t ts fd bytes s e h before others = (s, refl, e, refl)
  serve_points_endless (suc n) front t ts fd bytes s e h before others =
      let (r, run, tasks, out) =
        serve_points_endless n front t ts fd bytes (served front t ts s) refl h before others in
      (
        r,
        rw (round-served front t ts fd bytes s e h before others) run,
        tasks,
        out ∙ replicate-cons n (sends t.cfd (frame (pos 0) t.number [])) s.effects,
      )
