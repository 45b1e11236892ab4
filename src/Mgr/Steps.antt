-- ===== src/Mgr/Steps.antt =====
-- What the loops of src/mgr.rs over the parts of a transaction do, without their counter: every step
-- is taken in turn, up to the first error or panic.
use pi_db.Base.{
  nat_eqb, if◌then◌else◌, Bool-cases, nat_eq, list_eq, pair_eq, length, ℕ, zero, suc, ◌+◌, ◌-◌, ◌≡◌,
  refl, sym, ap, ◌∙◌, ◌≢◌, inl, inr, List, [], ◌∷◌, ◌++◌, map, arith,
}
use pi_db.Mgr.{Verdict, passed, failed, panicked}
use pi_db.Mgr.Phases.{Progress, left, all_done, broken, stopped, count_down, then_count_down}

module _ {W : Type 0} where
  -- the steps in turn
  unfoldable pub run_all : List (W → Verdict × W) → W → Verdict × W
  run_all [] w = (passed, w)
  run_all (s ∷ steps) w =
      let (r, w') = s w in
      let rest = run_all steps w' in
      elim r [ panicked ↦ (panicked, w') | failed e ↦ (failed e, w') | passed ↦ rest ]

  -- where the loop stands after the steps, with `n` more to come
  abbrev pub after : Verdict × W → ℕ → Progress × W
  after (panicked, w) n = (stopped, w)
  after (failed e, w) n = (broken e, w)
  after (passed, w) zero = (all_done, w)
  after (passed, w) (suc n) = (left (suc n), w)

  abbrev pub and_then : Verdict × W → (W → Verdict × W) → Verdict × W
  and_then (panicked, w) f = (panicked, w)
  and_then (failed e, w) f = (failed e, w)
  and_then (passed, w) f = f w

  run_all_step :
      (s : W → Verdict × W) (steps : List (W → Verdict × W)) (w : W)
      → run_all (s ∷ steps) w ≡ and_then (s w) (run_all steps)
  unfolding run_all
  run_all_step s steps w = ground arith

  and_then_same :
      (p : Verdict × W) (f g h : W → Verdict × W)
      → ((w : W) → f w ≡ and_then (g w) h)
      → and_then p f ≡ and_then (and_then p g) h
  and_then_same (panicked, w) f g h q = refl
  and_then_same (failed e, w) f g h q = refl
  and_then_same (passed, w) f g h q = q w

  run_all_nil :
      (b : List (W → Verdict × W)) (w : W) → run_all b w ≡ and_then (run_all [] w) (run_all b)
  unfolding run_all
  run_all_nil b w = refl

  pub run_all-append :
      (a b : List (W → Verdict × W)) (w : W)
      → run_all (a ++ b) w ≡ and_then (run_all a w) (run_all b)
  run_all-append [] b w = run_all_nil b w
  run_all-append (s ∷ a) b w =
      run_all_step s (a ++ b) w
      ∙ and_then_same (s w) (run_all (a ++ b)) (run_all a) (run_all b) (run_all-append a b)
      ∙ ap (λ p. and_then p (run_all b)) (sym (run_all_step s a w))

module _ {X W : Type 0} (step : X → W → Verdict × W) where
  last :
      (xs : List X) (m : ℕ) (w : W)
      → length xs ≡ 0
      → m ≡ 0
      → (all_done, w) ≡ after (run_all (map step xs) w) m
  unfolding run_all
  last [] m w a b = rw b refl
  last (x ∷ xs) m w a b = absurd (ground arith)

  -- the loop with its counter, from what one step gives
  abbrev turn : List X → ℕ → Verdict × W → Progress × W
  turn xs n (panicked, w) = (stopped, w)
  turn xs n (failed e, w) = (broken e, w)
  turn xs n (passed, w) = if nat_eqb n 1 then (all_done, w) else count_down step xs (n - 1) w

  count_down-turn :
      (x : X) (xs : List X) (n : ℕ) (w : W) → count_down step (x ∷ xs) n w ≡ turn xs n (step x w)
  unfolding count_down
  count_down-turn x xs n w = ground arith

  turn-after :
      (p : Verdict × W) (xs : List X) (n m : ℕ)
      → n ≡ suc (length xs) + m
      → ((w : W) → n ≢ 1 → count_down step xs (n - 1) w ≡ after (run_all (map step xs) w) m)
      → turn xs n p ≡ after (and_then p (run_all (map step xs))) m
  turn-after (panicked, w) xs n m h ih = refl
  turn-after (failed e, w) xs n m h ih = refl
  turn-after (passed, w) xs n m h ih = elim (Bool-cases (nat_eqb n 1)) [
    | inl one ↦ rw one (last xs m w (ground arith) (ground arith))
    | inr more ↦ rw more (ih w (λ q. ground arith))
  ]

  count_down_nil :
      (n m : ℕ) (w : W) → n ≡ m → n ≢ 0 → count_down step [] n w ≡ after (run_all [] w) m
  unfolding count_down run_all
  count_down_nil zero m w e z = absurd (z refl)
  count_down_nil (suc n) m w e z = rw⁻¹ e refl

  pub count_down-after :
      (xs : List X) (n m : ℕ) (w : W)
      → n ≡ length xs + m
      → n ≢ 0
      → count_down step xs n w ≡ after (run_all (map step xs) w) m
  count_down-after [] n m w e z = count_down_nil n m w (omega arith) z
  count_down-after (x ∷ xs) n m w e z =
      count_down-turn x xs n w
      ∙ turn-after (step x w) xs n m (omega arith)
          (λ u one. count_down-after xs (n - 1) m u (omega arith) (λ q. absurd (ground arith)))
      ∙ ap (λ p. after p m) (sym (run_all_step (step x) (map step xs) w))

  following :
      (p : Verdict × W) (xs : List X) (n m : ℕ)
      → n ≡ length xs + m
      → then_count_down step xs (after p n) ≡ after (and_then p (run_all (map step xs))) m
  following (panicked, w) xs n m h = refl
  following (failed e, w) xs n m h = refl
  following (passed, w) xs zero m h = last xs m w (omega arith) (omega arith)
  following (passed, w) xs (suc n) m h = count_down-after xs (suc n) m w h (λ q. ground arith)

  -- a loop that follows the steps before it
  pub then_count_down-after :
      (before : List (W → Verdict × W)) (xs : List X) (n m : ℕ) (w : W)
      → n ≡ length xs + m
      → then_count_down step xs (after (run_all before w) n)
        ≡ after (run_all (before ++ map step xs) w) m
  then_count_down-after before xs n m w h =
      following (run_all before w) xs n m h
      ∙ ap (λ p. after p m) (sym (run_all-append before (map step xs) w))
