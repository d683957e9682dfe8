-- ===== src/Ecs/Examples.antt =====
-- Small inputs for the theorems on positions, chunks, components, archetypes and the manager.
use project_e.Common.{ℕ, ◌≡◌, refl, sym, ap, subst, Option, none, some, List, true, [], ◌∷◌, arith}
use project_e.Ecs.Pos.{Pos}
use project_e.Ecs.Chunks.{ChunkPool}
use project_e.Ecs.Chunks.Access.{IsGrid}
use project_e.Ecs.Archetypes.{ArchetypePool, get_chunk_count}
use project_e.Ecs.Manager.{Manager, find_pool, create_entity, destroy_entity, destroy_entities}
use project_e.Ecs.Manager.Links.{Inv}
use project_e.Ecs.Systems.{Node, node, nil, cons, add_system, run_node}
use project_e.Ecs.Systems.Order.{always}
use project_e.Ecs.Manager.Start.{IsNew, start-Inv}
use project_e.Ecs.Manager.Create.{Created, create_entity-Created}
use mathlib.Core.Option
use project_e.Ecs.Manager.Batch.{create_entities}
use project_e.Ecs.Manager.Batch.Made.{create_entities-BatchCreated}
use project_e.Ecs.Manager.Batch.Outcome.{BatchCreated}
use project_e.Ecs.Components.{set_component_at_indexes}
use project_e.Ecs.Components.Fields.{set_fields, set_fields-set_component_at_indexes}
use project_e.Ecs.Manager.Mass.Destroyed.{DestroyedAll, destroy_entities-DestroyedAll}
use project_e.Ecs.Manager.Reach.{
  Call, creates, destroys, run, destroyed_in, AreAllowed, OnNext, Ran, run-Ran,
}
use project_e.Ecs.Manager.Destroy.{Destroyed, destroy_entity-Destroyed}

abbrev at : ℕ → ℕ → Pos
at c e = record { chunk_index = c; elem_index = e }

-- A pool of two chunks of two elements
abbrev grid : ChunkPool
grid =
    record { elem_count = 2; elems = 1 ∷ 2 ∷ [] }
    ∷ record { elem_count = 2; elems = 3 ∷ 4 ∷ [] }
    ∷ []

grid-IsGrid : IsGrid 2 2 grid
grid-IsGrid = record { chunks = refl; sizes = (refl, (refl, tt)); counts = (refl, (refl, tt)) }

set_fields-set_component_at_indexes_example :
    set_fields (grid ∷ grid ∷ []) (at 0 1 ∷ at 1 0 ∷ []) (7 ∷ 8 ∷ [])
    ≡ set_component_at_indexes (grid ∷ grid ∷ []) (at 0 1 ∷ at 1 0 ∷ []) (7 ∷ 8 ∷ [])
set_fields-set_component_at_indexes_example =
    set_fields-set_component_at_indexes (grid ∷ grid ∷ []) (at 0 1 ∷ at 1 0 ∷ []) (7 ∷ 8 ∷ []) refl

-- Pools of an archetype with a health component, and of the pointers, before the first entity
abbrev players : ArchetypePool
players = record {
  name = "Player";
  chunk_size = 2;
  components =
      record { name = "EntityStatus"; pools = [] ∷ [] }
      ∷ record { name = "ChunkPos"; pools = [] ∷ [] ∷ [] }
      ∷ record { name = "Health"; pools = [] ∷ [] }
      ∷ [];
  free_pos = [];
}

abbrev pointers : ArchetypePool
pointers = record players { name = "EntityPtr" }

abbrev start : Manager
start = record { pools = players ∷ []; ptrs = pointers }

no_chunks : IsGrid 0 2 []
no_chunks = record { chunks = refl; sizes = tt; counts = tt }

players-IsNew : IsNew (1 ∷ []) players
unfolding get_chunk_count
players-IsNew = (
  record {
    shape = record {
      widths_eq = refl;
      grids = ((no_chunks, tt), ((no_chunks, (no_chunks, tt)), ((no_chunks, tt), tt)));
    };
    roomy = omega arith;
    free_in = λ p h. absurd (ground arith);
    distinct = tt;
  },
  refl,
)

pointers-IsNew : IsNew (1 ∷ []) pointers
unfolding get_chunk_count
pointers-IsNew = (
  record {
    shape = record { widths_eq = refl; grids = players-IsNew.0.shape.grids };
    roomy = omega arith;
    free_in = λ p h. absurd (ground arith);
    distinct = tt;
  },
  refl,
)

start-IsValid : Inv start
start-IsValid = start-Inv start pointers-IsNew ((1 ∷ [], players-IsNew), tt) (omega arith)

create_entity_example : Created start 0 7 (create_entity "Player" 7 start)
unfolding find_pool
create_entity_example = create_entity-Created start "Player" 7 0 start-IsValid refl

-- The manager with one player
one_player : Created start 0 7 (create_entity "Player" 7 start)
unfolding find_pool
one_player = create_entity-Created start "Player" 7 0 start-IsValid refl

destroy_entity_example :
    Destroyed one_player.result one_player.ptr
      (one_player.valid.entity one_player.ptr one_player.linked.ptr_used)
      (destroy_entity one_player.ptr one_player.result)
destroy_entity_example =
    destroy_entity-Destroyed one_player.result one_player.ptr
      (one_player.valid.entity one_player.ptr one_player.linked.ptr_used) one_player.valid

create_entities_example : BatchCreated start 0 3 7 (create_entities "Player" 3 7 start)
unfolding find_pool
create_entities_example = create_entities-BatchCreated start "Player" 3 7 0 start-IsValid refl

-- The manager with three players, in two chunks
three_players : BatchCreated start 0 3 7 (create_entities "Player" 3 7 start)
unfolding find_pool
three_players = create_entities-BatchCreated start "Player" 3 7 0 start-IsValid refl

abbrev pools_of : Option (List Pos × Manager) → List ArchetypePool
pools_of none = []
pools_of (some (slots, m)) = m.pools

players_named : find_pool "Player" three_players.result.pools ≡ some 0
unfolding find_pool create_entities project_e.Ecs.Archetypes.add_chunk
    project_e.Ecs.Components.set_component_at_indexes project_e.Ecs.Components.set_component
    project_e.Ecs.Components.add_chunk project_e.Ecs.Chunks.set_elem project_e.Ecs.Chunks.add_chunk
    project_e.Ecs.Components.set_components_at_indexes
players_named = sym (ap (λ o. find_pool "Player" (pools_of o)) three_players.returned)

destroy_entities_example :
    DestroyedAll three_players.result 0 three_players.pool three_players.slots three_players.handles
      (destroy_entities three_players.handles "Player" three_players.result)
destroy_entities_example =
    destroy_entities-DestroyedAll three_players.result "Player" 0 three_players.pool
      three_players.slots three_players.handles three_players.popped.valid players_named
      three_players.found three_players.popped.made three_players.distinct.1

-- A player is created, and destroyed by its handle.
nothing_left : (r : Option Manager) → OnNext (AreAllowed []) r
nothing_left none = tt
nothing_left (some m) = tt

abbrev born_and_gone : List Call
born_and_gone = creates "Player" 7 ∷ destroys one_player.ptr ∷ []

born_and_gone-AreAllowed : AreAllowed born_and_gone start
unfolding find_pool
born_and_gone-AreAllowed = (
  (0, refl),
  subst (OnNext (AreAllowed (destroys one_player.ptr ∷ [])))
      (sym (ap (Option.map (λ r. r.1)) one_player.returned))
      (one_player.valid.entity one_player.ptr one_player.linked.ptr_used, nothing_left _),
)

run-Ran_example : Ran start (destroyed_in born_and_gone) (run born_and_gone start)
run-Ran_example = run-Ran born_and_gone start born_and_gone-AreAllowed start-IsValid

batch_test :
    Option.map (λ r. r.0) (create_entities "Player" 3 7 start)
    ≡ some (at 0 0 ∷ at 0 1 ∷ at 1 0 ∷ [])
unfolding create_entities find_pool project_e.Ecs.Archetypes.add_chunk
    project_e.Ecs.Components.set_component_at_indexes project_e.Ecs.Components.set_component
    project_e.Ecs.Components.add_chunk project_e.Ecs.Chunks.set_elem project_e.Ecs.Chunks.add_chunk
    project_e.Ecs.Components.set_components_at_indexes
batch_test = refl

-- A root with one group in it, each with a system
abbrev systems : Node
systems = node "ROOT" true (1 ∷ []) (cons (node "RENDER" true (2 ∷ []) nil []) nil) (3 ∷ [])

run_test : run_node always (add_system 7 "RENDER" true systems).1 ≡ 1 ∷ 2 ∷ 7 ∷ 3 ∷ []
unfolding run_node add_system
run_test = refl
