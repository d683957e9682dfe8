-- ===== src/Ecs/Manager/Batch.antt =====
-- libs/lib_ecs/EntityManager.hpp and EntityManager.cpp: the creation of many entities at once. The
-- three texts of `_createEntities` do the same and differ in what they return. A view over the
-- first `count` free positions is read while the free lists do not change, so that it is a list.
pub mod Writes
pub mod Fill
pub mod Grow
pub mod Pops
pub mod Outcome
pub mod Made
use Prim.Native.String.{String}
use project_e.Common.{
  ℕ, zero, suc, Option, none, some, List, [], ◌∷◌, length, take, drop, map, get_elem?, set, ltb,
  if◌then◌else◌, ◌>>=◌,
}
use project_e.Ecs.Pos.{Pos}
use project_e.Ecs.Chunks.{ChunkPool}
use project_e.Ecs.Components.{set_component_at_indexes, set_components_at_indexes}
use project_e.Ecs.Archetypes.{ArchetypePool, status_index, position_index, pool_id_index, add_chunk}
use project_e.Ecs.Manager.{Manager, alive, find_pool, pool_id, pos_fields}

-- `while (freePos.size() < count) addChunk()`: a chunk has one position at least, so that `count`
-- chunks are enough.
unfoldable pub grow : ℕ → ℕ → ArchetypePool → Option ArchetypePool
grow zero count pool = if ltb (length pool.free_pos) count then none else some pool
grow (suc fuel) count pool =
    let rest = grow fuel count (add_chunk pool) in
    if ltb (length pool.free_pos) count then rest else some pool

-- One component pool of the archetype, replaced by what `f` makes of it
unfoldable pub update :
    ℕ → (List ChunkPool → Option (List ChunkPool)) → ArchetypePool → Option ArchetypePool
update i f pool = do
  c ← get_elem? pool.components i
  pools ← f c.pools
  some (record pool { components = set pool.components i (record c { pools = pools }) })

-- `setComponentAtIndexes` and `setComponentsAtIndexes` of the component at a place
unfoldable pub write_all : ℕ → List Pos → List ℕ → ArchetypePool → Option ArchetypePool
unfolding update
write_all i ps vs pool = update i (λ pools. set_component_at_indexes pools ps vs) pool

unfoldable pub write_each : ℕ → List Pos → List (List ℕ) → ArchetypePool → Option ArchetypePool
unfolding update
write_each i ps rows pool = update i (λ pools. set_components_at_indexes pools ps rows) pool

-- The writes to the entities' pool, and those to the pointer pool
unfoldable pub fill_entities : List Pos → List Pos → ℕ → ArchetypePool → Option ArchetypePool
unfolding write_all write_each
fill_entities slots handles status pool = do
  pool' ← write_all status_index slots (status ∷ []) pool
  write_each position_index slots (map pos_fields handles) pool'

unfoldable pub fill_ptrs : List Pos → List Pos → ℕ → ArchetypePool → Option ArchetypePool
unfolding write_all write_each
fill_ptrs handles slots id ptrs = do
  ptrs' ← write_all status_index handles (alive ∷ []) ptrs
  ptrs'' ← write_each position_index handles (map pos_fields slots) ptrs'
  write_all pool_id_index handles (id ∷ []) ptrs''

-- `erase` of the first `count` free positions
abbrev pub erase_free : ℕ → ArchetypePool → ArchetypePool
erase_free count pool = record pool { free_pos = drop count pool.free_pos }

-- `_createEntities` of the pool at index `k`: the positions that the two templates copy to `tempCopy`,
-- from which the entities are made
unfoldable pub create_batch : ℕ → ℕ → ℕ → Manager → Option (List Pos × Manager)
unfolding grow fill_entities fill_ptrs
create_batch k count status m = do
  found ← get_elem? m.pools k
  pool ← grow count count found
  ptrs ← grow count count m.ptrs
  let slots = take count pool.free_pos
  let handles = take count ptrs.free_pos
  pool' ← fill_entities slots handles status pool
  ptrs' ← fill_ptrs handles slots (pool_id k) ptrs
  some (
    slots,
    record { pools = set m.pools k (erase_free count pool'); ptrs = erase_free count ptrs' },
  )

-- `createEntities<TArch>(count, status)` and `createEntities<TArch, N>(status)`
unfoldable pub create_entities : String → ℕ → ℕ → Manager → Option (List Pos × Manager)
unfolding find_pool create_batch
create_entities name count status m = do k ← find_pool name m.pools; create_batch k count status m

-- What the view that `_createEntities` of EntityManager.cpp returns reads, once it is returned
unfoldable pub returned_view : ℕ → Manager → List Pos
returned_view count m = take count m.ptrs.free_pos
