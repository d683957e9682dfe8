-- ===== src/Ecs/Queries/Examples.antt =====
-- Two archetypes and a query on them, for the theorems on queries.
use project_e.Common.{◌+◌, ◌≡◌, refl, false, ◌&&◌, [], ◌∷◌, ◌++◌, arith, ◌==◌, if◌then◌else◌}
use project_e.Ecs.Components.{ComponentPool}
use project_e.Ecs.Components
use project_e.Ecs.Archetypes.{ArchetypePool}
use project_e.Ecs.Queries.{
  Query, place, cross, self_cross, try_add_entity_pool, initialize_query, chunk_count_of,
  vector_size, first_pool,
}
use project_e.Ecs.Queries.Runs.{run_status}
use project_e.Ecs.Queries.Loops.{bit, count}
use project_e.Ecs.Queries.Names.{
  AreDistinct, find_all, add_found, arrays_of, try_add_entity_pool-find_all,
  initialize_query-arrays_of,
}
use project_e.Ecs.Queries.Visits.{same_place, in_query, is_status, status_at, run_status-count}
use project_e.Ecs.Queries.Cross.{same_places, in_cross, one_vector, cross-count, self_cross-count}

-- An archetype of one component, with a chunk of two elements and one of three
abbrev speed : ComponentPool
speed = record {
  name = "speed";
  pools =
      (record { elem_count = 2; elems = 1 ∷ 2 ∷ [] }
        ∷ record { elem_count = 3; elems = 3 ∷ 4 ∷ 5 ∷ [] }
        ∷ [])
      ∷ [];
}

abbrev mobile : ArchetypePool
mobile = record { name = "mobile"; chunk_size = 2; components = speed ∷ []; free_pos = [] }

abbrev query : Query
query = record { names = "speed" ∷ []; arrays = [] }

mobile-AreDistinct : AreDistinct mobile.components
mobile-AreDistinct name = ground arith

try_add_entity_pool-find_all_example :
    try_add_entity_pool 0 mobile query ≡ add_found (find_all 0 query.names mobile.components) query
try_add_entity_pool-find_all_example =
    try_add_entity_pool-find_all 0 mobile query mobile-AreDistinct

initialize_query-arrays_of_example :
    initialize_query 0 (mobile ∷ mobile ∷ []) query
    ≡ record query { arrays = query.arrays ++ arrays_of 0 query.names (mobile ∷ mobile ∷ []) }
initialize_query-arrays_of_example =
    initialize_query-arrays_of 0 (mobile ∷ mobile ∷ []) query
      (mobile-AreDistinct, (mobile-AreDistinct, tt))

abbrev ready : Query
ready = record query { arrays = (record { archetype = 0; component = 0 } ∷ []) ∷ [] }

cross-count_example :
    count (same_places (place 0 1 2, place 0 0 1)) (cross (mobile ∷ []) false ready ready)
    ≡ bit (in_cross (mobile ∷ []) false ready ready (place 0 1 2) (place 0 0 1))
cross-count_example = cross-count (mobile ∷ []) false ready ready (place 0 1 2) (place 0 0 1)

self_cross-count_example :
    count (same_places (place 0 0 1, place 0 1 1)) (self_cross (mobile ∷ []) ready)
      + count (same_places (place 0 1 1, place 0 0 1)) (self_cross (mobile ∷ []) ready)
    ≡ (if (place 0 0 1).index == (place 0 1 1).index
        then (if one_vector ready (place 0 0 1) (place 0 1 1) then 0 else 2)
        else 1)
unfolding chunk_count_of vector_size first_pool Components.chunk_count
self_cross-count_example =
    self_cross-count (mobile ∷ []) ready (place 0 0 1) (place 0 1 1) refl refl

run_status-count_example :
    count (same_place (place 0 1 2)) (run_status (mobile ∷ []) 5 ready)
    ≡ bit (
        is_status 5 (status_at (mobile ∷ []) ready (place 0 1 2))
        && in_query (mobile ∷ []) ready (place 0 1 2))
run_status-count_example = run_status-count (mobile ∷ []) 5 ready (place 0 1 2)
