-- ===== src/Ecs/Timer/Examples.antt =====
-- A timer with a fixed update every five units, three of which have passed.
use project_e.Common.{ℕ, [], ◌∷◌, arith}
use project_e.Ecs.Timer.{Timer}
use project_e.Ecs.Timer.Frames.{frames, Advanced, frames-Advanced}

abbrev started : Timer ℕ
started = record {
  time_passed = 3;
  since_last_fixed_update = 3;
  fixed_update_time = 5;
  delta_time = 3;
  fixed_delta_time = 5;
  runs = [];
}

frames-Advanced_example : Advanced (4 ∷ 9 ∷ []) started (frames (4 ∷ 9 ∷ []) started)
frames-Advanced_example = frames-Advanced (4 ∷ 9 ∷ []) started (omega arith) (omega arith)
