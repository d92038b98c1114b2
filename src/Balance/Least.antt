-- ===== src/Balance/Least.antt =====
-- math_task chooses a thread with the least load.
use cloudisk_server.Base.{
  ℕ, zero, suc, ◌+◌, ◌<◌, ◌≡◌, refl, ◌∙◌, ap, sym, subst, List, [], ◌∷◌, if◌then◌else◌, ℤ, pos,
  minus_one, ltb_ℤ, ◌≤ℤ◌, ◌<ℤ◌, ok, Option, some, Bool-cases, inl, inr, get_elem?, arith,
}
use cloudisk_server.Balance.{Worker, least_busy, math_task}

some_inj : {a b : Worker} → ◌≡◌ {A = Option Worker} (some a) (some b) → a ≡ b
some_inj e = ground arith

-- No thread of the list has a load below the one's; the first `k` have a greater one.
abbrev AtLeast : ℤ → List Worker → Type 0
AtLeast b ws = (j : ℕ) (v : Worker) → get_elem? ws j ≡ some v → b ≤ℤ v.busy_num

abbrev Before : ℤ → ℕ → List Worker → Type 0
Before b k ws = (j : ℕ) (v : Worker) → get_elem? ws j ≡ some v → j < k → b <ℤ v.busy_num

-- What the loop comes to over `ws`: nothing better, or the first of the best.
data Least (i m : ℕ) (best : Worker) (ws : List Worker) (r : ℕ × Worker) : Type 0 where
  stays : r.0 ≡ m → r.1 ≡ best → AtLeast best.busy_num ws → Least i m best ws r
  moves :
      (k : ℕ)
      → r.0 ≡ i + k
      → get_elem? ws k ≡ some r.1
      → r.1.busy_num <ℤ best.busy_num
      → AtLeast r.1.busy_num ws
      → Before r.1.busy_num k ws
      → Least i m best ws r

AtLeast-cons :
    (b : ℤ) (w : Worker) (ws : List Worker) → b ≤ℤ w.busy_num → AtLeast b ws → AtLeast b (w ∷ ws)
AtLeast-cons b w ws h t zero v e = subst (λ (x : Worker). b ≤ℤ x.busy_num) (some_inj e) h
AtLeast-cons b w ws h t (suc j) v e = t j v e

Before-cons :
    (b : ℤ) (k : ℕ) (w : Worker) (ws : List Worker)
    → b <ℤ w.busy_num
    → Before b k ws
    → Before b (suc k) (w ∷ ws)
Before-cons b k w ws h t zero v e lt = subst (λ (x : Worker). b <ℤ x.busy_num) (some_inj e) h
Before-cons b k w ws h t (suc j) v e lt = t j v e (omega arith)

least_busy-Least :
    (i m : ℕ) (best : Worker) (ws : List Worker) → Least i m best ws (least_busy i m best ws)
unfolding least_busy
least_busy-Least i m best [] = stays refl refl (λ j v e. absurd (ground arith))
least_busy-Least i m best (w ∷ ws) = elim (Bool-cases (ltb_ℤ w.busy_num best.busy_num)) [
  | inl below ↦
      rw below (better (ground arith) (least_busy (i + 1) i w ws) (least_busy-Least (i + 1) i w ws))
  | inr above ↦
      rw above
        (worse (ground arith) (least_busy (i + 1) m best ws) (least_busy-Least (i + 1) m best ws))
]
  where
    better :
        w.busy_num <ℤ best.busy_num
        → (r : ℕ × Worker) → Least (i + 1) i w ws r
        → Least i m best (w ∷ ws) r
    better lt r (stays a b t) =
        moves 0 (omega (arith, a)) (ap some (sym b))
          (subst (λ (x : Worker). x.busy_num <ℤ best.busy_num) (sym b) lt)
          (subst (λ (x : Worker). AtLeast x.busy_num (w ∷ ws)) (sym b)
            (AtLeast-cons _ w ws (omega arith) t))
          (λ j v e h. absurd (omega arith))
    better lt r (moves k a at l t f) =
        moves (suc k) (omega (arith, a)) at (omega arith) (AtLeast-cons _ w ws (omega arith) t)
          (Before-cons _ k w ws l f)

    worse :
        best.busy_num ≤ℤ w.busy_num
        → (r : ℕ × Worker) → Least (i + 1) m best ws r
        → Least i m best (w ∷ ws) r
    worse le r (stays a b t) = stays a b (AtLeast-cons _ w ws le t)
    worse le r (moves k a at l t f) =
        moves (suc k) (omega (arith, a)) at l (AtLeast-cons _ w ws (omega arith) t)
          (Before-cons _ k w ws (omega arith) f)

-- A thread of the array with the least load, the first of them, and its index.
pub record FirstLeast (ws : List Worker) (i : ℕ) (v : Worker) : Type 0 where
  there : get_elem? ws i ≡ some v
  least : AtLeast v.busy_num ws
  first : Before v.busy_num i ws

Least-FirstLeast :
    (w : Worker) (ws : List Worker) (r : ℕ × Worker)
    → Least 1 0 w ws r
    → FirstLeast (w ∷ ws) r.0 r.1
Least-FirstLeast w ws r (stays a b t) = record {
  there = ap (get_elem? (w ∷ ws)) a ∙ ap some (sym b);
  least =
      subst (λ (x : Worker). AtLeast x.busy_num (w ∷ ws)) (sym b)
        (AtLeast-cons _ w ws (omega arith) t);
  first = λ j v e h. absurd (omega (arith, a));
}
Least-FirstLeast w ws r (moves k a at l t f) =
    let e : r.0 ≡ suc k = omega (arith, a) in
    record {
      there = ap (get_elem? (w ∷ ws)) e ∙ at;
      least = AtLeast-cons _ w ws (omega arith) t;
      first = subst (λ (i : ℕ). Before r.1.busy_num i (w ∷ ws)) (sym e) (Before-cons _ k w ws l f);
    }

-- math_task on at least one thread: among the threads there is one, the first of those with the
-- least load, whose index the function returns if its load is below the limit; if that load is
-- not below the limit, the function returns -1.
pub math_task-least :
    (w : Worker) (ws : List Worker) (task_num : ℤ)
    → (i : ℕ) × (v : Worker) × FirstLeast (w ∷ ws) i v
      × (math_task (w ∷ ws) task_num
          ≡ (if ltb_ℤ v.busy_num task_num then ok (pos i) else ok minus_one))
unfolding math_task
math_task-least w ws task_num =
    let r = least_busy 1 0 w ws in
    (r.0, r.1, Least-FirstLeast w ws r (least_busy-Least 1 0 w ws), refl)
