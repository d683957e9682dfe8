-- ===== src/Ecs/Queries/Runs.antt =====
-- libs/lib_ecs/Systems/AMonoSystem.hpp and ADualSystem.hpp: what the systems over one query and over two
-- operate on.
use project_e.Common.{
  ◌||◌, ℕ, Bool, false, Option, none, some, List, [], ◌∷◌, get_elem?, ◌==◌, if◌then◌else◌, ◌>>=◌,
}
use project_e.Ecs.Components.{ComponentPool, get_component}
use project_e.Ecs.Archetypes.{ArchetypePool}
use project_e.Ecs.Queries.{
  Query, try_add_entity_pool, first_pool, Place, map_query, cross, self_cross,
}

-- `AMonoSystem::run` operates on what `map` visits; `AStatusMonoSystem`, whose first component is the
-- status, on those of these places that have the status asked for.
unfoldable pub status_of : Option ComponentPool → ℕ → ℕ → Option ℕ
status_of none k i = none
status_of (some c) k i = do
  values ← get_component c.pools (record { chunk_index = k; elem_index = i })
  get_elem? values 0

module _ (pools : List ArchetypePool) (status : ℕ) where
  unfoldable pub has_status : Query → Place → Bool
  unfolding status_of first_pool
  has_status q p = elim (get_elem? q.arrays p.array) [
    | none ↦ false
    | some refs ↦ elim (status_of (first_pool pools refs) p.chunk p.index) [
      | none ↦ false
      | some found ↦ found == status
    ]
  ]

  -- `_innerOperate`, for each place in turn
  unfoldable pub inner_operate : Query → List Place → List Place
  unfolding has_status
  inner_operate q [] = []
  inner_operate q (p ∷ ps) =
      let rest = inner_operate q ps in if has_status q p then p ∷ rest else rest

  unfoldable pub run_status : Query → List Place
  unfolding inner_operate map_query
  run_status q = inner_operate q (map_query pools q)

-- `ADualSystem::tryAddEntityPool`
unfoldable pub dual_try_add : ℕ → ArchetypePool → Query → Query → Bool × Query × Query
unfolding try_add_entity_pool
dual_try_add archetype pool q1 q2 =
    let (added1, q1') = try_add_entity_pool archetype pool q1 in
    let (added2, q2') = try_add_entity_pool archetype pool q2 in (added1 || added2, q1', q2')

-- `ADualSystem::run` and `ASelfDualSystem::run`
unfoldable pub run_dual : List ArchetypePool → Query → Query → List (Place × Place)
unfolding cross
run_dual pools q1 q2 = cross pools false q1 q2

unfoldable pub run_self_dual : List ArchetypePool → Query → List (Place × Place)
unfolding self_cross
run_self_dual pools q1 = self_cross pools q1
