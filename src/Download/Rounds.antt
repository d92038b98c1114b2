-- ===== src/Download/Rounds.antt =====
-- How a file leaves in parts, one with each round of the loop over the slots.
use cloudisk_server.Base.{
  ℕ, zero, suc, ◌+◌, ◌-◌, ◌≤◌, ◌<◌, ◌≡◌, refl, sym, ap, ◌∙◌, subst, List, [], ◌∷◌, ◌++◌, true,
  false, Bool-cases, inl, inr, ltb, ◌==◌, ℤ, pos, eqb_ℤ, ltb_ℤ, dec, Outcome, ok, arith, min, ap₂,
  length, length-take, length-drop, set, replicate, drop, take, drop_all, drop-drop,
}
use cloudisk_server.Base.Runs
use cloudisk_server.Wire.Frame.{frame}
use cloudisk_server.Upload.{add_int}
use cloudisk_server.Upload.Chunks.{concat}
use cloudisk_server.Download.{
  CdInfo, no_info, Session, DownEffect, sends, nth_info, disconnect, close_files, send_train,
  del_task, end_file, send_part, normal_slice, send_slot,
}
use cloudisk_server.Download.Slots.{nth_info-set}

-- The messages that have gone out, the last first.
abbrev pub sent : List DownEffect → List (ℕ × List ℕ)
sent [] = []
sent (DownEffect.sends fd bytes ∷ es) = (fd, bytes) ∷ sent es
sent (DownEffect.opens fd path ∷ es) = sent es
sent (DownEffect.unmaps fd ∷ es) = sent es
sent (DownEffect.closes_file fd ∷ es) = sent es
sent (DownEffect.closes_socket fd ∷ es) = sent es
sent (DownEffect.watches_input fd ∷ es) = sent es
sent (DownEffect.watches_output fd ∷ es) = sent es
sent (DownEffect.unwatches_input fd ∷ es) = sent es
sent (DownEffect.unwatches_output fd ∷ es) = sent es
sent (DownEffect.reports ret ∷ es) = sent es

-- The messages for parts of a file, behind what has gone out before.
abbrev pub trains : ℕ → ℤ → List (List ℕ) → List (ℕ × List ℕ) → List (ℕ × List ℕ)
trains fd cfd [] out = out
trains fd cfd (b ∷ bs) out = trains fd cfd bs ((fd, frame (pos (length b)) cfd b) ∷ out)

abbrev pub AllParts : ℕ → List (List ℕ) → Type 0
AllParts slice [] = Unit
AllParts slice (b ∷ bs) = ((0 < length b) × (length b ≤ slice)) × AllParts slice bs

-- Rounds of the loop for one slot, as it is at each of them.
unfoldable pub slot_rounds : ℕ → ℕ → ℕ → Session → Outcome Session
unfolding nth_info send_slot
slot_rounds zero slice k s = ok s
slot_rounds (suc n) slice k s =
    Runs.◌>>=◌ (nth_info s.client.cdinfo k)
      λ c. Runs.◌>>=◌ (send_slot slice k c s) λ r. slot_rounds n slice k r.1

-- A file that is read and sent up to `p`.
pub record IsReading (c : CdInfo) (p : ℕ) : Type 0 where
  pub state : c.state ≡ 1
  pub place : c.place ≡ pos p
  pub offset : c.offset ≡ p
  pub whole : c.file.filesize ≡ pos (length c.content)

-- All of a file from `p` on has gone out to `fd` with code `cfd`, then a message of length 0, and
-- the slot is free.
pub record Delivered (slice k fd : ℕ) (cfd : ℤ) (bytes : List ℕ) (out : List (ℕ × List ℕ))
    (r : Session) : Type 0 where
  pub parts : List (List ℕ)
  pub sizes : AllParts slice parts
  pub in_order : concat parts ≡ bytes
  pub sends_all : sent r.effects ≡ (fd, frame (pos 0) cfd []) ∷ trains fd cfd parts out
  pub free : nth_info r.client.cdinfo k ≡ ok no_info

sent-close_files : (cs : List CdInfo) (es : List DownEffect) → sent (close_files cs es) ≡ sent es
unfolding close_files
sent-close_files [] es = refl
sent-close_files (c ∷ cs) es = elim (Bool-cases (c.state == 1)) [
  | inl one ↦ rw one (sent-close_files cs _)
  | inr other ↦ elim (Bool-cases (c.state == 2)) [
    | inl two ↦ rw (other, two) (sent-close_files cs _)
    | inr idle ↦ rw (other, idle) (sent-close_files cs _)
  ]
]

slot_rounds_idle :
    (n slice k : ℕ) (s : Session)
    → nth_info s.client.cdinfo k ≡ ok no_info
    → slot_rounds n slice k s ≡ ok s
unfolding slot_rounds send_slot
slot_rounds_idle zero slice k s e = refl
slot_rounds_idle (suc n) slice k s e = rw e (slot_rounds_idle n slice k s e)

nth_info-replicate : (n k : ℕ) (c : CdInfo) → k < n → nth_info (replicate n c) k ≡ ok c
unfolding nth_info
nth_info-replicate zero k c h = elim h [ ]
nth_info-replicate (suc n) zero c h = refl
nth_info-replicate (suc n) (suc k) c h = nth_info-replicate n k c (omega arith)

-- The round that finds the file sent.
end_file-Delivered :
    (slice k : ℕ) (c : CdInfo) (s : Session)
    → k < 10
    → nth_info s.client.cdinfo k ≡ ok c
    → s.sendings ≡ []
    → c.state ≡ 1
    → Delivered slice k s.client.download_fd c.cfd [] (sent s.effects) (end_file k c s).1
unfolding end_file send_train del_task disconnect
end_file-Delivered slice k c s h e clear one =
    elim (Bool-cases (eqb_ℤ (dec s.client.task_num) (pos 0))) [
      | inl last ↦
          rw (clear, last)
            (record {
              parts = [];
              sizes = tt;
              in_order = refl;
              sends_all = sent-close_files s.client.cdinfo _;
              free = nth_info-replicate 10 k no_info h;
            })
      | inr more ↦
          rw (clear, more)
            (record {
              parts = [];
              sizes = tt;
              in_order = refl;
              sends_all = rw one refl;
              free = nth_info-set s.client.cdinfo k c no_info e;
            })
    ]

taken_and_rest : (n : ℕ) (xs : List ℕ) → take n xs ++ drop (length (take n xs)) xs ≡ xs
taken_and_rest zero xs = refl
taken_and_rest (suc n) [] = refl
taken_and_rest (suc n) (x ∷ xs) = ap (◌∷◌ x) (taken_and_rest n xs)

in_order_step :
    (slice o p : ℕ) (xs rest : List ℕ)
    → o ≡ p
    → rest ≡ drop (p + length (take slice (drop o xs))) xs
    → take slice (drop o xs) ++ rest ≡ drop p xs
in_order_step slice o p xs rest e r =
    let m = length (take slice (drop o xs)) in
    ap (λ (t : List ℕ). take slice (drop o xs) ++ t) (r ∙ rw e (drop-drop p _ xs))
    ∙ taken_and_rest slice (drop o xs)
    ∙ ap (λ (x : ℕ). drop x xs) e

-- What a round leaves that sends a part.
abbrev with_part : ℕ → ℕ → CdInfo → Session → Session
with_part slice k c s =
    let bytes = take slice (drop c.offset c.content) in
    let n = length bytes in
    record {
      client = record s.client {
        cdinfo =
            set s.client.cdinfo k (record c { place = add_int c.place n; offset = c.offset + n });
      };
      effects = sends s.client.download_fd (frame (pos n) c.cfd bytes) ∷ s.effects;
      sendings = [];
    }

left_test :
    (c : CdInfo) (p : ℕ) → IsReading c p → ltb_ℤ c.place c.file.filesize ≡ ltb p (length c.content)
left_test c p r = rw (r.place, r.whole) (ap₂ ltb (omega arith) (omega arith))

round_part :
    (n slice k : ℕ) (c : CdInfo) (s : Session)
    → nth_info s.client.cdinfo k ≡ ok c
    → s.sendings ≡ []
    → c.state ≡ 1
    → ltb_ℤ c.place c.file.filesize ≡ true
    → slot_rounds (suc n) slice k s ≡ slot_rounds n slice k (with_part slice k c s)
unfolding slot_rounds send_slot normal_slice send_part send_train
round_part n slice k c s e clear one more = rw (e, one, more, clear) refl

round_end :
    (n slice k : ℕ) (c : CdInfo) (s : Session)
    → nth_info s.client.cdinfo k ≡ ok c
    → c.state ≡ 1
    → ltb_ℤ c.place c.file.filesize ≡ false
    → slot_rounds (suc n) slice k s ≡ slot_rounds n slice k (end_file k c s).1
unfolding slot_rounds send_slot normal_slice
round_end n slice k c s e one done = rw (e, one, done) refl

-- A slot in state 1 whose file is sent up to `p`, with a slice of at least a byte and sends that
-- succeed: one round for each byte left and one more are enough for the rest of the file to go out
-- in order, in parts that are not empty and no longer than the slice, then the message of length 0,
-- and for the slot to be free.
pub slot_rounds-Delivered :
    (n slice k p : ℕ) (c : CdInfo) (s : Session)
    → 0 < slice
    → k < 10
    → nth_info s.client.cdinfo k ≡ ok c
    → s.sendings ≡ []
    → IsReading c p
    → length c.content - p < n
    → (r : Session) × (slot_rounds n slice k s ≡ ok r)
      × Delivered slice k s.client.download_fd c.cfd (drop p c.content) (sent s.effects) r
slot_rounds-Delivered zero slice k p c s pos_slice low e clear reading fuel = elim fuel [ ]
slot_rounds-Delivered (suc n) slice k p c s pos_slice low e clear reading fuel =
    elim (Bool-cases (ltb p (length c.content))) [
      | inr done ↦
          let last = end_file-Delivered slice k c s low e clear reading.state in
          (
            (end_file k c s).1,
            round_end n slice k c s e reading.state (left_test c p reading ∙ done)
                ∙ slot_rounds_idle n slice k _ last.free,
            subst
                (λ bytes.
                  Delivered slice k s.client.download_fd c.cfd bytes (sent s.effects)
                    (end_file k c s).1)
                (sym (drop_all p c.content (ground arith))) last,
          )
      | inl more ↦
          let bytes = take slice (drop c.offset c.content) in
          let m = length bytes in
          let size : m ≡ min slice (length c.content - p) = omega (
            arith,
            length-take slice (drop c.offset c.content),
            length-drop c.offset c.content,
            reading.offset,
          ) in
          let some_bytes : 0 < m = ground (arith, size) in
          let s1 = with_part slice k c s in
          let c' : CdInfo = record c { place = add_int c.place m; offset = c.offset + m } in
          let (r, run, d) =
            slot_rounds-Delivered n slice k (p + m) c' s1 pos_slice low
              (nth_info-set s.client.cdinfo k c c' e) refl
              (record {
                state = reading.state;
                place = ap (λ (x : ℤ). add_int x m) reading.place;
                offset = ap (λ (x : ℕ). x + m) reading.offset;
                whole = reading.whole;
              })
              (ground (arith, some_bytes)) in
          (
            r,
            round_part n slice k c s e clear reading.state (left_test c p reading ∙ more) ∙ run,
            record {
              parts = bytes ∷ d.parts;
              sizes = ((some_bytes, omega (arith, size)), d.sizes);
              in_order =
                  in_order_step slice c.offset p c.content (concat d.parts) reading.offset
                    d.in_order;
              sends_all = d.sends_all;
              free = d.free;
            },
          )
    ]
