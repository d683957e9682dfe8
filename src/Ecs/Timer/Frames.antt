-- ===== src/Ecs/Timer/Frames.antt =====
-- libs/lib_ecs/AEntityManager.cpp: the fixed updates of many frames.
use native.Mathlib.Nat.{add-mul}
use project_e.Common.{
  ℕ, zero, suc, ◌+◌, ◌*◌, ◌≡◌, refl, ap, ◌∙◌, ◌<◌, Option, some, List, [], ◌∷◌, ◌++◌, arith, length,
  replicate, false, ◌==◌, ◌>>=◌,
}
use project_e.Ecs.Timer.{Run, systems, fixed_systems, Timer, add_time}
use project_e.Ecs.Timer.Steps.{ticks, timer, fixed_loop-Steps, quotient}

-- One `addTime` for each frame, with the time of the frame; what the calls return is added up.
pub frames : List ℕ → Timer ℕ → Option (ℕ × Timer ℕ)
frames [] t = some (0, t)
frames (time ∷ times) t = do
  (n, t') ← add_time ticks (t.since_last_fixed_update + time) time t
  (m, t'') ← frames times t'
  some (n + m, t'')

abbrev pub total : List ℕ → ℕ
total [] = 0
total (time ∷ times) = time + total times

-- How often the fixed systems and the systems have run
abbrev pub fixed_runs : List (Run ℕ) → ℕ
fixed_runs [] = 0
fixed_runs (systems d ∷ rs) = fixed_runs rs
fixed_runs (fixed_systems d ∷ rs) = 1 + fixed_runs rs

abbrev pub system_runs : List (Run ℕ) → ℕ
system_runs [] = 0
system_runs (systems d ∷ rs) = 1 + system_runs rs
system_runs (fixed_systems d ∷ rs) = system_runs rs

-- The frames have ended: what was returned is how many fixed update times have passed, the fixed
-- systems have run as often, the systems once in each frame, and what is left is below one.
pub record Advanced (times : List ℕ) (t : Timer ℕ) (outcome : Option (ℕ × Timer ℕ)) : Type 0 where
  pub n : ℕ
  pub result : Timer ℕ
  pub returned : outcome ≡ some (n, result)
  pub exact :
      n * t.fixed_update_time + result.since_last_fixed_update
      ≡ t.since_last_fixed_update + total times
  pub below : result.since_last_fixed_update < t.fixed_update_time
  pub same : result.fixed_update_time ≡ t.fixed_update_time
  pub passed : result.time_passed ≡ t.time_passed + total times
  pub fixed : fixed_runs result.runs ≡ fixed_runs t.runs + n
  pub each : system_runs result.runs ≡ system_runs t.runs + length times

fixed_runs-replicate :
    (rs : List (Run ℕ)) (d e n : ℕ)
    → (fixed_runs ((rs ++ systems d ∷ []) ++ replicate n (fixed_systems e)) ≡ fixed_runs rs + n)
      × (system_runs ((rs ++ systems d ∷ []) ++ replicate n (fixed_systems e)) ≡ system_runs rs + 1)
fixed_runs-replicate [] d e zero = (omega arith, omega arith)
fixed_runs-replicate [] d e (suc n) =
    (omega (arith, fixed_runs-replicate [] d e n), omega (arith, fixed_runs-replicate [] d e n))
fixed_runs-replicate (systems x ∷ rs) d e n =
    (omega (arith, fixed_runs-replicate rs d e n), omega (arith, fixed_runs-replicate rs d e n))
fixed_runs-replicate (fixed_systems x ∷ rs) d e n =
    (omega (arith, fixed_runs-replicate rs d e n), omega (arith, fixed_runs-replicate rs d e n))

add_time-Advanced :
    (time : ℕ) (t : Timer ℕ)
    → 0 < t.fixed_update_time
    → Advanced (time ∷ []) t (add_time ticks (t.since_last_fixed_update + time) time t)
unfolding add_time ticks
add_time-Advanced time t pos =
    let since = t.since_last_fixed_update + time in
    let f = t.fixed_update_time in
    let q = quotient since f since pos (omega arith) in
    let stays : (f == 0) ≡ false = ground arith in
    let rs = t.runs ++ systems time ∷ [] in
    let counted = fixed_runs-replicate t.runs time t.fixed_delta_time q.n in
    record {
      n = q.n;
      result =
          timer (t.time_passed + time) q.rest f time t.fixed_delta_time
            (rs ++ replicate q.n (fixed_systems t.fixed_delta_time));
      returned = rw stays (
          fixed_loop-Steps ticks (t.time_passed + time) since q.rest f time t.fixed_delta_time rs
            since 0 q.n q.steps q.bound
          ∙ ap
              (λ k. some (
                k,
                timer (t.time_passed + time) q.rest f time t.fixed_delta_time
                    (rs ++ replicate q.n (fixed_systems t.fixed_delta_time)),
              ))
              (omega arith));
      exact = omega (arith, q.exact);
      below = q.below;
      same = refl;
      passed = omega arith;
      fixed = counted.0;
      each = counted.1;
    }

-- With times that are exact and not negative and a fixed update time above 0, on a timer on which less
-- than that is left, any sequence of calls of `addTime` ends. However the time is cut into
-- frames, the counts that are returned add up to the number of whole fixed update times in what was left and
-- the times of the frames together; the fixed systems run as often, the systems once in each frame, and
-- the rest is left.
pub frames-Advanced :
    (times : List ℕ) (t : Timer ℕ)
    → 0 < t.fixed_update_time
    → t.since_last_fixed_update < t.fixed_update_time
    → Advanced times t (frames times t)
unfolding frames
frames-Advanced [] t pos under = record {
  n = 0;
  result = t;
  returned = refl;
  exact = omega arith;
  below = under;
  same = refl;
  passed = omega arith;
  fixed = omega arith;
  each = omega arith;
}
frames-Advanced (time ∷ times) t pos under =
    let a = add_time-Advanced time t pos in
    let r = frames-Advanced times a.result (rw a.same pos) (rw a.same a.below) in
    let later = rw a.same at (r.exact) in
    let product = add-mul a.n r.n t.fixed_update_time in
    record {
      n = a.n + r.n;
      result = r.result;
      returned = rw (a.returned, ◌>>=◌) (rw (r.returned, ◌>>=◌));
      exact = omega (arith, product, later, a.exact);
      below = rw a.same at (r.below);
      same = r.same ∙ a.same;
      passed = omega (arith, r.passed, a.passed);
      fixed = omega (arith, r.fixed, a.fixed);
      each = omega (arith, r.each, a.each);
    }
