-- ===== src/Ecs/Pos.antt =====
-- libs/lib_ecs/Chunks/ChunkPos.hpp and ChunkPos.cpp: a position in a pool of chunks. `chunkPos_t`,
-- the tuple of the two indices, is the same record here, as the two convert into one another.
use project_e.Common.{ℕ, ◌≡◌, refl, ◌⊎◌, ◌↔◌, Bool, true, false, not, ◌&&◌, ◌||◌, arith, ltb, ◌==◌}

pub record Pos : Type 0 where
  pub chunk_index : ℕ
  pub elem_index : ℕ

-- `operator==`, `operator<` and the four that are defined by these
unfoldable pub eq_pos : Pos → Pos → Bool
eq_pos a b = a.chunk_index == b.chunk_index && a.elem_index == b.elem_index

unfoldable pub ne_pos : Pos → Pos → Bool
unfolding eq_pos
ne_pos a b = not (eq_pos b a)

unfoldable pub lt_pos : Pos → Pos → Bool
lt_pos a b =
    ltb a.chunk_index b.chunk_index
    || (a.chunk_index == b.chunk_index && ltb a.elem_index b.elem_index)

unfoldable pub gt_pos : Pos → Pos → Bool
unfolding lt_pos
gt_pos a b = lt_pos b a

unfoldable pub le_pos : Pos → Pos → Bool
unfolding lt_pos
le_pos a b = not (lt_pos b a)

unfoldable pub ge_pos : Pos → Pos → Bool
unfolding lt_pos
ge_pos a b = not (lt_pos a b)

pub eq_pos_iff : (a b : Pos) → (eq_pos a b ≡ true) ↔ (a ≡ b)
unfolding eq_pos
eq_pos_iff a b = (λ h. ground arith, λ h. ground arith)

pub eq_pos_refl : (a : Pos) → eq_pos a a ≡ true
eq_pos_refl a = (eq_pos_iff a a).1 refl

-- `operator<` is transitive.
pub lt_pos_trans : (a b c : Pos) → lt_pos a b ≡ true → lt_pos b c ≡ true → lt_pos a c ≡ true
unfolding lt_pos
lt_pos_trans a b c h k = ground arith

-- `operator<` is irreflexive and connected, and the other operators are those that belong to it.
pub lt_pos_order :
    (a b : Pos)
    → (lt_pos a a ≡ false)
      × ((lt_pos a b ≡ true) ⊎ (a ≡ b) ⊎ (lt_pos b a ≡ true))
      × (lt_pos a b && lt_pos b a ≡ false)
      × (le_pos a b ≡ (lt_pos a b || eq_pos a b))
      × (ge_pos a b ≡ le_pos b a)
      × (gt_pos a b ≡ not (le_pos a b))
      × (ne_pos a b ≡ not (eq_pos a b))
unfolding lt_pos le_pos ge_pos gt_pos ne_pos eq_pos
lt_pos_order a b = (
  ground arith,
  ground arith,
  ground arith,
  ground arith,
  ground arith,
  ground arith,
  ground arith,
)
