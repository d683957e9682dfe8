-- ===== src/Ecs/Archetypes.antt =====
-- libs/lib_ecs/Entities/ArchetypePool.hpp: the pool of all entities of one archetype, with its
-- component pools in the order of the archetype's types and its list of free positions. The
-- components that every archetype begins with (Entities/Aspect.hpp) are the status and the position.
pub mod Access
pub mod Widths
use Prim.Native.String.{String}
use text.Mathlib.Text.{◌==◌ as str_eq}
use project_e.Common.{
  ℕ, zero, suc, ◌+◌, ◌-◌, ◌≡◌, Option, none, some, List, [], ◌∷◌, ◌++◌, length, map, replicate,
  get_elem?, set, if◌then◌else◌, ◌>>=◌,
}
use project_e.Ecs.Pos.{Pos}
use project_e.Ecs.Components.{
  ComponentPool, get_component, set_component, reset_component, reset_component_at_indexes,
}
use project_e.Ecs.Components

pub record ArchetypePool : Type 0 where
  pub name : String
  pub chunk_size : ℕ
  pub components : List ComponentPool
  pub free_pos : List Pos

-- The places of `EntityStatus` and `ChunkPos` among the components, and that of `EntityPoolId` in
-- the archetype `EntityPtr`
abbrev pub status_index : ℕ
status_index = 0

abbrev pub position_index : ℕ
position_index = 1

abbrev pub pool_id_index : ℕ
pool_id_index = 2

-- The component at a place, read and written at a position
unfoldable pub read : ℕ → Pos → ArchetypePool → Option (List ℕ)
read i p pool = do c ← get_elem? pool.components i; get_component c.pools p

unfoldable pub write : ℕ → Pos → List ℕ → ArchetypePool → Option ArchetypePool
write i p vs pool = do
  c ← get_elem? pool.components i
  pools ← set_component c.pools p vs
  some (record pool { components = set pool.components i (record c { pools = pools }) })

-- `getComponentPool`
find_component : String → List ComponentPool → Option ComponentPool
find_component name [] = none
find_component name (c ∷ cs) = if str_eq c.name name then some c else find_component name cs

unfoldable pub get_component_pool : String → ArchetypePool → Option ComponentPool
unfolding find_component
get_component_pool name pool = find_component name pool.components

-- `getChunkCount` and `getTotalSize` ask the first component.
pub count_of : List ComponentPool → ℕ
unfolding Components.chunk_count
count_of [] = 0
count_of (c ∷ cs) = Components.chunk_count c.pools

unfoldable pub get_chunk_count : ArchetypePool → ℕ
unfolding count_of
get_chunk_count pool = count_of pool.components

size_of : List ComponentPool → ℕ
size_of [] = 0
size_of (c ∷ cs) = Components.elem_count c.pools

unfoldable pub get_total_size : ArchetypePool → ℕ
unfolding size_of
get_total_size pool = size_of pool.components

-- `getUsedSize`
unfoldable pub get_used_size : ArchetypePool → ℕ
unfolding get_total_size
get_used_size pool = get_total_size pool - length pool.free_pos

-- The positions (count, i), (count, i + 1), ... of a chunk, `n` of them
unfoldable pub chunk_positions : ℕ → ℕ → ℕ → List Pos
chunk_positions count zero i = []
chunk_positions count (suc n) i =
    record { chunk_index = count; elem_index = i } ∷ chunk_positions count n (i + 1)

pub add_chunks : ℕ → List ComponentPool → List ComponentPool
add_chunks n [] = []
add_chunks n (c ∷ cs) = record c { pools = Components.add_chunk n c.pools } ∷ add_chunks n cs

-- `addChunk`
unfoldable pub add_chunk : ArchetypePool → ArchetypePool
unfolding get_chunk_count chunk_positions add_chunks
add_chunk pool = record pool {
  components = add_chunks pool.chunk_size pool.components;
  free_pos = pool.free_pos ++ chunk_positions (get_chunk_count pool) pool.chunk_size 0;
}

-- `resetEntityAtIndex`
unfoldable pub reset_all : Pos → List ComponentPool → Option (List ComponentPool)
reset_all p [] = some []
reset_all p (c ∷ cs) = do
  pools ← reset_component c.pools p
  cs' ← reset_all p cs
  some (record c { pools = pools } ∷ cs')

unfoldable pub reset_entity_at_index : Pos → ArchetypePool → Option ArchetypePool
unfolding reset_all
reset_entity_at_index p pool = do
  cs ← reset_all p pool.components
  some (record pool { components = cs })

-- `resetEntityAtIndexes`: component by component
unfoldable pub reset_all_at : List Pos → List ComponentPool → Option (List ComponentPool)
reset_all_at ps [] = some []
reset_all_at ps (c ∷ cs) = do
  pools ← reset_component_at_indexes c.pools ps
  cs' ← reset_all_at ps cs
  some (record c { pools = pools } ∷ cs')

unfoldable pub reset_entity_at_indexes : List Pos → ArchetypePool → Option ArchetypePool
unfolding reset_all_at
reset_entity_at_indexes ps pool = do
  cs ← reset_all_at ps pool.components
  some (record pool { components = cs })

-- `deleteEverything`
unfoldable pub delete_components : List ComponentPool → List ComponentPool
delete_components [] = []
delete_components (c ∷ cs) = record c { pools = map (λ p. []) c.pools } ∷ delete_components cs

unfoldable pub delete_everything : ArchetypePool → ArchetypePool
unfolding delete_components
delete_everything pool = record pool {
  components = delete_components pool.components;
  free_pos = [];
}
