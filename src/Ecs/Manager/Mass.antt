-- ===== src/Ecs/Manager/Mass.antt =====
-- libs/lib_ecs/EntityManager.hpp and EntityManager.cpp: the destruction of entities of several pools,
-- each pool found by the entry of the entity, and of everything. `destroy_entities`, of one pool, stands
-- in Ecs/Manager.
pub mod Resets
pub mod Frees
pub mod Destroyed
use project_e.Common.{ℕ, Option, none, some, List, [], ◌∷◌, ◌++◌, map, get_elem?, set, ◌>>=◌}
use project_e.Ecs.Pos.{Pos}
use project_e.Ecs.Archetypes.{
  ArchetypePool, pool_id_index, read, reset_entity_at_index, reset_entity_at_indexes,
  delete_everything,
}
use project_e.Ecs.Manager.{Manager, slots_of, to_id}

-- `getComponentsAtIndexes` of the pool ids of the pointer pool
ids_of : List Pos → ArchetypePool → Option (List ℕ)
ids_of [] ptrs = some []
ids_of (p ∷ ps) ptrs = do
  field ← read pool_id_index p ptrs
  id ← to_id field
  ids ← ids_of ps ptrs
  some (id ∷ ids)

-- The loop over the entities of `destroyEntities(cPosRange)`
release_each : List ℕ → List Pos → List ArchetypePool → Option (List ArchetypePool)
release_each [] slots pools = some pools
release_each (id ∷ ids) [] pools = none
release_each (id ∷ ids) (slot ∷ slots) pools = do
  pool ← get_elem? pools id
  pool' ← reset_entity_at_index slot pool
  release_each ids slots (set pools id (record pool' { free_pos = pool'.free_pos ++ slot ∷ [] }))

-- `destroyEntities(cPosRange)`
destroy_range : List Pos → Manager → Option Manager
unfolding release_each ids_of slots_of
destroy_range ps m = do
  slots ← slots_of ps m.ptrs
  ids ← ids_of ps m.ptrs
  pools ← release_each ids slots m.pools
  ptrs ← reset_entity_at_indexes ps (record m.ptrs { free_pos = m.ptrs.free_pos ++ ps })
  some (record { pools = pools; ptrs = ptrs })

-- `deleteEverything`
delete_all : Manager → Manager
delete_all m = record { pools = map delete_everything m.pools; ptrs = delete_everything m.ptrs }
