-- ===== src/Ecs/Components.antt =====
-- libs/lib_ecs/Components/ComponentPool.hpp: one pool of chunks for each field of the component.
-- A component is the list of its fields' values, and as many values as fields are given, as the
-- types of the source say.
pub mod Access
pub mod Fields
pub mod Rows
use Prim.Native.String.{String}
use project_e.Common.{
  ℕ, ◌≡◌, Option, none, some, List, [], ◌∷◌, ◌++◌, length, map, replicate, ◌>>=◌,
}
use project_e.Ecs.Pos.{Pos}
use project_e.Ecs.Chunks.{ChunkPool, get_elem, set_elem}
use project_e.Ecs.Chunks

pub record ComponentPool : Type 0 where
  pub name : String
  pub pools : List ChunkPool

-- `getComponentRef` and `getComponentVal`, read at once
unfoldable pub get_component : List ChunkPool → Pos → Option (List ℕ)
get_component [] p = some []
get_component (pool ∷ pools) p = do v ← get_elem pool p; vs ← get_component pools p; some (v ∷ vs)

-- `setComponentAtIndex`, and `ComponentRef::set` through the references to one position
unfoldable pub set_component : List ChunkPool → Pos → List ℕ → Option (List ChunkPool)
set_component [] p [] = some []
set_component (pool ∷ pools) p (v ∷ vs) = do
  pool' ← set_elem pool p v
  pools' ← set_component pools p vs
  some (pool' ∷ pools')
set_component _ p _ = none

-- `std::tuple<Ts...> {}`
abbrev pub zeros : List ChunkPool → List ℕ
zeros pools = replicate (length pools) 0

-- `resetComponentAtIndex`
unfoldable pub reset_component : List ChunkPool → Pos → Option (List ChunkPool)
reset_component pools p = set_component pools p (zeros pools)

-- `setComponentAtIndexes`
unfoldable pub set_component_at_indexes :
    List ChunkPool → List Pos → List ℕ → Option (List ChunkPool)
set_component_at_indexes pools [] vs = some pools
set_component_at_indexes pools (p ∷ ps) vs = do
  pools' ← set_component pools p vs
  set_component_at_indexes pools' ps vs

-- `setComponentsAtIndexes`
unfoldable pub set_components_at_indexes :
    List ChunkPool → List Pos → List (List ℕ) → Option (List ChunkPool)
set_components_at_indexes pools [] rows = some pools
set_components_at_indexes pools (p ∷ ps) [] = none
set_components_at_indexes pools (p ∷ ps) (vs ∷ rows) = do
  pools' ← set_component pools p vs
  set_components_at_indexes pools' ps rows

-- `getComponentsAtIndexes`
unfoldable pub get_components_at_indexes : List ChunkPool → List Pos → Option (List (List ℕ))
get_components_at_indexes pools [] = some []
get_components_at_indexes pools (p ∷ ps) = do
  vs ← get_component pools p
  rows ← get_components_at_indexes pools ps
  some (vs ∷ rows)

-- `resetComponentAtIndexes`
unfoldable pub reset_component_at_indexes : List ChunkPool → List Pos → Option (List ChunkPool)
reset_component_at_indexes pools [] = some pools
reset_component_at_indexes pools (p ∷ ps) = do
  pools' ← set_component pools p (zeros pools)
  reset_component_at_indexes pools' ps

-- `chunkCount` and `elemCount` ask the first pool.
unfoldable pub chunk_count : List ChunkPool → ℕ
chunk_count [] = 0
chunk_count (pool ∷ pools) = Chunks.chunk_count pool

unfoldable pub elem_count : List ChunkPool → ℕ
elem_count [] = 0
elem_count (pool ∷ pools) = Chunks.elem_count pool

-- `addChunk`
unfoldable pub add_chunk : ℕ → List ChunkPool → List ChunkPool
add_chunk n [] = []
add_chunk n (pool ∷ pools) = Chunks.add_chunk pool n ∷ add_chunk n pools
