-- ===== src/Ecs/Manager/Start.antt =====
-- libs/lib_ecs/EntityManager.hpp: a manager before its first entity.
use project_e.Common.{ℕ, ◌^◌, ◌≤◌, ◌≡◌, List, [], ◌∷◌, arith, length, All, All-get_elem?}
use project_e.Ecs.Pos.{Pos}
use project_e.Ecs.Archetypes.{ArchetypePool, get_chunk_count}
use project_e.Ecs.Manager.{Manager}
use project_e.Ecs.Manager.Pools.{IsPool, Used}
use project_e.Ecs.Manager.Links.{Inv}

-- A well formed pool without chunks
abbrev pub IsNew : List ℕ → ArchetypePool → Type 0
IsNew ws pool = IsPool ws pool × (get_chunk_count pool ≡ 0)

nothing-Used : (ws : List ℕ) (pool : ArchetypePool) (p : Pos) → IsNew ws pool → ¬ Used p pool
nothing-Used ws pool p new u = absurd (omega (arith, new.1, u.inside))

-- Registered pools without chunks, at most 256 of them, and a pointer pool without chunks make a
-- valid manager.
pub start-Inv :
    (m : Manager)
    → IsNew (1 ∷ []) m.ptrs
    → All (λ pool. (ws : List ℕ) × IsNew ws pool) m.pools
    → length m.pools ≤ 2 ^ 8
    → Inv m
start-Inv m new_ptrs new_pools few = record {
  ptrs_valid = new_ptrs.0;
  pools_valid = λ k pool at. let (ws, new) = All-get_elem? _ m.pools k new_pools at in (ws, new.0);
  few = few;
  entity = λ ptr used. absurd (nothing-Used (1 ∷ []) m.ptrs ptr new_ptrs used);
  handle = λ k slot pool at used.
      let (ws, new) = All-get_elem? _ m.pools k new_pools at in
      absurd (nothing-Used ws pool slot new used);
}
