-- ===== src/Ecs/Manager.antt =====
-- libs/lib_ecs/EntityManager.hpp and EntityManager.cpp, with the search for a pool by its name of
-- AEntityManager.cpp: entities of the registered pools, and one entry of the pointer pool for each.
-- The handle of an entity is the position of its entry. A null or an absent pool that is used, and a
-- position out of range, is `none`.
pub mod Free
pub mod Pools
pub mod Claims
pub mod Releases
pub mod Links
pub mod Carry
pub mod Extend
pub mod Create
pub mod Destroy
pub mod Start
pub mod Batch
pub mod Mass
pub mod Again
pub mod Reach
use Prim.Native.String.{String}
use text.Mathlib.Text.{◌==◌ as str_eq}
use project_e.Common.{
  ℕ, suc, ◌%◌, Option, none, some, List, [], ◌∷◌, ◌++◌, get_elem?, set, if◌then◌else◌, ◌^◌, ◌>>=◌,
}
use project_e.Ecs.Pos.{Pos}
use project_e.Ecs.Archetypes.{
  ArchetypePool, status_index, position_index, pool_id_index, read, write, add_chunk,
  reset_entity_at_indexes,
}

-- `EntityManager`: `_entityPools` and `_entityPtrPool`
pub record Manager : Type 0 where
  pub pools : List ArchetypePool
  pub ptrs : ArchetypePool

-- `ENT_ALIVE`
abbrev pub alive : ℕ
alive = 3

-- `_getEntityPool`: the index of the first pool of that name. The source pairs it with the pool, and
-- narrows it to eight bits.
unfoldable pub find_pool : String → List ArchetypePool → Option ℕ
find_pool name [] = none
find_pool name (pool ∷ pools) =
    if str_eq pool.name name then some 0 else (do k ← find_pool name pools; some (suc k))

abbrev pub pool_id : ℕ → ℕ
pool_id k = k % 2 ^ 8

-- The two fields of a `ChunkPos` component
abbrev pub pos_fields : Pos → List ℕ
pos_fields p = p.chunk_index ∷ p.elem_index ∷ []

unfoldable pub to_pos : List ℕ → Option Pos
to_pos (c ∷ e ∷ []) = some (record { chunk_index = c; elem_index = e })
to_pos _ = none

-- `if (freePos.empty()) addChunk()`
unfoldable pub ensure_free : ArchetypePool → ArchetypePool
ensure_free pool = elim pool.free_pos [ [] ↦ add_chunk pool | _ ↦ pool ]

-- `front()` and `erase(begin())` of a free list
unfoldable pub split_free : List Pos → Option (Pos × List Pos)
split_free [] = none
split_free (p ∷ ps) = some (p, ps)

-- The writes of `_createEntity` to the entity's pool, and those to the pointer pool
unfoldable pub claim_entity : Pos → Pos → ℕ → ArchetypePool → Option ArchetypePool
claim_entity slot ptr status pool = do
  pool' ← write status_index slot (status ∷ []) pool
  write position_index slot (pos_fields ptr) pool'

unfoldable pub claim_ptr : Pos → Pos → ℕ → ArchetypePool → Option ArchetypePool
claim_ptr ptr slot id ptrs = do
  ptrs' ← write status_index ptr (alive ∷ []) ptrs
  ptrs'' ← write position_index ptr (pos_fields slot) ptrs'
  write pool_id_index ptr (id ∷ []) ptrs''

-- `_createEntity<TArch>`, for the pool at index `k`: the position of the entity
unfoldable pub create_in : ℕ → ℕ → Manager → Option (Pos × Manager)
unfolding ensure_free split_free claim_entity claim_ptr
create_in k status m = do
  found ← get_elem? m.pools k
  let pool = ensure_free found
  let ptrs = ensure_free m.ptrs
  (slot, slots) ← split_free pool.free_pos
  (ptr, ptr_rest) ← split_free ptrs.free_pos
  pool' ← claim_entity slot ptr status pool
  ptrs' ← claim_ptr ptr slot (pool_id k) ptrs
  some (
    slot,
    record {
      pools = set m.pools k (record pool' { free_pos = slots });
      ptrs = record ptrs' { free_pos = ptr_rest };
    },
  )

-- `createEntity<TArch>`
unfoldable pub create_entity : String → ℕ → Manager → Option (Pos × Manager)
unfolding find_pool create_in
create_entity name status m = do k ← find_pool name m.pools; create_in k status m

-- `getComponentsAtIndexes` of the pointer pool's positions
unfoldable pub slots_of : List Pos → ArchetypePool → Option (List Pos)
slots_of [] ptrs = some []
slots_of (p ∷ ps) ptrs = do
  fields ← read position_index p ptrs
  slot ← to_pos fields
  slots ← slots_of ps ptrs
  some (slot ∷ slots)

-- `_destroyEntities(cPosRange, entityPool)`, for the pool at index `k`
unfoldable pub destroy_in : ℕ → List Pos → Manager → Option Manager
unfolding slots_of
destroy_in k ps m = do
  pool ← get_elem? m.pools k
  slots ← slots_of ps m.ptrs
  ptrs ← reset_entity_at_indexes ps (record m.ptrs { free_pos = m.ptrs.free_pos ++ ps })
  pool' ← reset_entity_at_indexes slots (record pool { free_pos = pool.free_pos ++ slots })
  some (record { pools = set m.pools k pool'; ptrs = ptrs })

unfoldable pub to_id : List ℕ → Option ℕ
to_id (id ∷ []) = some id
to_id _ = none

-- `destroyEntity(cPos)`: the pool is the one that the entry names.
unfoldable pub destroy_entity : Pos → Manager → Option Manager
unfolding destroy_in to_id
destroy_entity p m = do
  field ← read pool_id_index p m.ptrs
  k ← to_id field
  destroy_in k (p ∷ []) m

-- `destroyEntities(cPosArr, entityName)`: nothing happens if no pool has that name.
unfoldable pub destroy_entities : List Pos → String → Manager → Option Manager
unfolding find_pool destroy_in
destroy_entities ps name m = elim (find_pool name m.pools) [
  | none ↦ some m
  | some k ↦ destroy_in k ps m
]

-- `getEntityPool`
unfoldable pub get_entity_pool : String → Manager → Option ArchetypePool
unfolding find_pool
get_entity_pool name m = do k ← find_pool name m.pools; get_elem? m.pools k
