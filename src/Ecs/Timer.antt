-- ===== src/Ecs/Timer.antt =====
-- libs/lib_ecs/AEntityManager.hpp and AEntityManager.cpp: `addTime`, which runs the systems once and
-- those of the fixed tree once for each whole `_fixedUpdateTime` that has passed. A time is of a type
-- `T` with the operations of `double` that the code uses; `runs` records the runs of the trees, each with the
-- delta time that it finds. The loop has fuel; `none` is a loop that is still running.
pub mod Steps
pub mod Frames
pub mod Examples
use project_e.Common.{
  ℕ, zero, suc, ◌+◌, Bool, true, false, Option, none, some, List, [], ◌∷◌, ◌++◌, if◌then◌else◌,
}

-- The operations of the type of times: 0, `+`, `-`, `>=`, `== 0` and `> 0`
pub record Clock (T : Type 0) : Type 0 where
  pub origin : T
  pub add : T → T → T
  pub sub : T → T → T
  pub reached : T → T → Bool
  pub is_zero : T → Bool
  pub is_positive : T → Bool

-- A run of `_systemTree` or of `_fixedSystemTree`
pub data Run (T : Type 0) : Type 0 where
  systems fixed_systems : T → Run T

pub record Timer (T : Type 0) : Type 0 where
  pub time_passed : T
  pub since_last_fixed_update : T
  pub fixed_update_time : T
  pub delta_time : T
  pub fixed_delta_time : T
  pub runs : List (Run T)

module _ {T : Type 0} (clock : Clock T) where
  -- `AEntityManager(fixedUpdateTime)`; a new tree has the delta time 0.
  unfoldable pub new_timer : T → Timer T
  new_timer fixed_update_time = record {
    time_passed = clock.origin;
    since_last_fixed_update = clock.origin;
    fixed_update_time = fixed_update_time;
    delta_time = clock.origin;
    fixed_delta_time =
        if clock.is_positive fixed_update_time then fixed_update_time else clock.origin;
    runs = [];
  }

  -- `_runSystems` and `_runFixedSystems`
  abbrev pub run_systems : Timer T → Timer T
  run_systems t = record t { runs = t.runs ++ systems t.delta_time ∷ [] }

  abbrev pub run_fixed_systems : Timer T → Timer T
  run_fixed_systems t = record t { runs = t.runs ++ fixed_systems t.fixed_delta_time ∷ [] }

  -- The body of the loop
  abbrev pub fixed_update : Timer T → Timer T
  fixed_update t =
      let ran = run_fixed_systems t in
      record ran {
        since_last_fixed_update = clock.sub ran.since_last_fixed_update ran.fixed_update_time;
      }

  unfoldable pub fixed_loop : ℕ → ℕ → Timer T → Option (ℕ × Timer T)
  fixed_loop zero count t =
      if clock.reached t.since_last_fixed_update t.fixed_update_time then none else some (count, t)
  fixed_loop (suc fuel) count t =
      let rest = fixed_loop fuel (suc count) (fixed_update t) in
      if clock.reached t.since_last_fixed_update t.fixed_update_time then rest else some (count, t)

  -- `addTime` without a fixed update time, and with one up to the loop
  abbrev pub add_time_once : T → Timer T → Timer T
  add_time_once time t = run_fixed_systems (
      run_systems (record t {
        time_passed = clock.add t.time_passed time;
        delta_time = time;
        fixed_delta_time = time;
      }))

  abbrev pub pass_time : T → Timer T → Timer T
  pass_time time t = run_systems (record t {
    time_passed = clock.add t.time_passed time;
    since_last_fixed_update = clock.add t.since_last_fixed_update time;
    delta_time = time;
  })

  -- `addTime`: the `if` around the loop asks what the loop asks first.
  unfoldable pub add_time : ℕ → T → Timer T → Option (ℕ × Timer T)
  unfolding fixed_loop
  add_time fuel time t =
      if clock.is_zero t.fixed_update_time
      then some (1, add_time_once time t)
      else fixed_loop fuel 0 (pass_time time t)
