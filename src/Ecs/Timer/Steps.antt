-- ===== src/Ecs/Timer/Steps.antt =====
-- libs/lib_ecs/AEntityManager.cpp: how often the loop of `addTime` runs the fixed systems.
use native.Mathlib.Nat.{zero-mul, suc-mul}
use project_e.Common.{
  ℕ, zero, suc, ◌+◌, ◌-◌, ◌*◌, ◌≤◌, ◌<◌, ◌≡◌, ap, ◌∙◌, true, false, some, List, [], ◌∷◌, ◌++◌,
  arith, leb, ltb, ◌==◌, replicate, append-snoc, append-nil, Bool-cases, inl, inr,
}
use project_e.Ecs.Timer.{Clock, Run, fixed_systems, Timer, fixed_loop}

-- Exact times: whole numbers of a unit, none of them negative
unfoldable pub ticks : Clock ℕ
ticks = record {
  origin = 0;
  add = λ a b. a + b;
  sub = λ a b. a - b;
  reached = λ a b. leb b a;
  is_zero = λ a. a == 0;
  is_positive = λ a. ltb 0 a;
}

abbrev pub timer : {T : Type 0} → T → T → T → T → T → List (Run T) → Timer T
timer passed since f delta fixed runs = record {
  time_passed = passed;
  since_last_fixed_update = since;
  fixed_update_time = f;
  delta_time = delta;
  fixed_delta_time = fixed;
  runs = runs;
}

-- Going down by `f` from a time, `reached` holds this often and then no more.
pub data Steps {T : Type 0} (clock : Clock T) (f : T) : T → ℕ → T → Type 0 where
  ends : {t : T} → clock.reached t f ≡ false → Steps clock f t 0 t
  goes_on :
      {t rest : T} {n : ℕ}
      → clock.reached t f ≡ true
      → Steps clock f (clock.sub t f) n rest
      → Steps clock f t (suc n) rest

-- The loop, from a timer with these fields
pub fixed_loop-Steps :
    {T : Type 0} (clock : Clock T) (passed since rest f delta fixed : T) (runs : List (Run T))
    (fuel count n : ℕ)
    → Steps clock f since n rest
    → n ≤ fuel
    → fixed_loop clock fuel count (timer passed since f delta fixed runs)
      ≡ some
          (count + n, timer passed rest f delta fixed (runs ++ replicate n (fixed_systems fixed)))
unfolding fixed_loop
fixed_loop-Steps clock passed since rest f delta fixed runs zero count zero (ends stop) h =
    rw (stop, append-nil runs)
      (ap (λ k. some (k, timer passed since f delta fixed runs)) (omega arith))
fixed_loop-Steps clock passed since rest f delta fixed runs (suc fuel) count zero (ends stop) h =
    rw (stop, append-nil runs)
      (ap (λ k. some (k, timer passed since f delta fixed runs)) (omega arith))
fixed_loop-Steps clock passed since rest f delta fixed runs zero count (suc n) (goes_on go more) h =
    absurd (omega arith)
fixed_loop-Steps clock passed since rest f delta fixed runs (suc fuel) count (suc n)
      (goes_on go more) h =
    let later =
      fixed_loop-Steps clock passed (clock.sub since f) rest f delta fixed
        (runs ++ fixed_systems fixed ∷ []) fuel (suc count) n more (omega arith) in
    rw go (
      later ∙ λ i. some (
        count_eq i,
        timer passed rest f delta fixed
            (append-snoc runs (fixed_systems fixed) (replicate n (fixed_systems fixed)) i),
      ))
  where
    count_eq : suc count + n ≡ count + suc n
    count_eq = omega arith

-- The quotient and the rest of a time by the fixed update time, step by step
pub record Quotient (f t : ℕ) : Type 0 where
  pub n : ℕ
  pub rest : ℕ
  pub steps : Steps ticks f t n rest
  pub exact : n * f + rest ≡ t
  pub below : rest < f
  pub bound : n ≤ t

none_whole : (f t : ℕ) → t < f → Quotient f t
unfolding ticks
none_whole f t under = record {
  n = 0;
  rest = t;
  steps = ends (ground arith);
  exact = omega (arith, zero-mul f);
  below = under;
  bound = omega arith;
}

one_more : (f t : ℕ) → 0 < f → f ≤ t → Quotient f (t - f) → Quotient f t
unfolding ticks
one_more f t pos over q = record {
  n = suc q.n;
  rest = q.rest;
  steps = goes_on (ground arith) q.steps;
  exact = omega (arith, suc-mul q.n f, q.exact);
  below = q.below;
  bound = omega (arith, q.bound);
}

pub quotient : (fuel f t : ℕ) → 0 < f → t ≤ fuel → Quotient f t
quotient zero f t pos h = none_whole f t (omega arith)
quotient (suc fuel) f t pos h = elim (Bool-cases (leb f t)) [
  | inl over ↦ one_more f t pos (ground arith) (quotient fuel f (t - f) pos (ground arith))
  | inr under ↦ none_whole f t (ground arith)
]
