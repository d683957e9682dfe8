-- ===== src/Ecs/Queries.antt =====
-- libs/lib_ecs/Systems/Query.hpp, with AEntityManager.cpp's initializeQuery: the component pools that a query
-- has found, and the places that its loops visit, in their order. A pointer to a component pool is the
-- place of that pool: the archetype and the component in it. A loop that runs in parallel gives each
-- thread one array of pools; the places that the threads visit are those of the sequential loop. The
-- callbacks before and after a chunk and a pool are left out.
pub mod Loops
pub mod Runs
pub mod Visits
pub mod Cross
pub mod Names
pub mod Examples
use Prim.Native.String.{String}
use text.Mathlib.Text.{◌==◌ as str_eq}
use project_e.Common.{
  ◌||◌, ℕ, zero, suc, ◌+◌, Bool, true, false, not, ◌&&◌, Option, none, some, List, [], ◌∷◌, ◌++◌,
  length, get_elem?, ◌==◌, if◌then◌else◌, ◌>>=◌,
}
use project_e.Ecs.Chunks.{ChunkPool, Chunk}
use project_e.Ecs.Components.{ComponentPool, get_component}
use project_e.Ecs.Components
use project_e.Ecs.Archetypes.{ArchetypePool}

-- `C::IComponentPool *`
pub record PoolRef : Type 0 where
  pub archetype : ℕ
  pub component : ℕ

-- `Query<Ts...>`, with the names of `Ts`
pub record Query : Type 0 where
  pub names : List String
  pub arrays : List (List PoolRef)

-- The inner loop of `tryAddEntityPool`, from the component `i` on; `none` is its early return.
unfoldable pub scan_pools :
    ℕ → ℕ → String → ℕ → List ComponentPool → List PoolRef → Option (List PoolRef)
scan_pools limit archetype name i [] found = some found
scan_pools limit archetype name i (c ∷ cs) found =
    let skipped = scan_pools limit archetype name (suc i) cs found in
    let taken =
      scan_pools limit archetype name (suc i) cs
        (found ++ record { archetype = archetype; component = i } ∷ []) in
    if str_eq c.name name then (if length found == limit then none else taken) else skipped

unfoldable pub scan_names :
    ℕ → ℕ → List String → List ComponentPool → List PoolRef → Option (List PoolRef)
unfolding scan_pools
scan_names limit archetype [] cs found = some found
scan_names limit archetype (name ∷ names) cs found =
    scan_pools limit archetype name 0 cs found >>= scan_names limit archetype names cs

-- What `tryAddEntityPool` does with what it found
unfoldable pub add_array : Option (List PoolRef) → Query → Bool × Query
add_array none q = (false, q)
add_array (some found) q =
    if length found == length q.names
    then (true, record q { arrays = q.arrays ++ found ∷ [] })
    else (false, q)

unfoldable pub try_add_entity_pool : ℕ → ArchetypePool → Query → Bool × Query
unfolding scan_names add_array
try_add_entity_pool archetype pool q =
    add_array (scan_names (length q.names) archetype q.names pool.components []) q

-- `initializeQuery`, from the pool of index `archetype` on
unfoldable pub initialize_query : ℕ → List ArchetypePool → Query → Query
unfolding try_add_entity_pool
initialize_query archetype [] q = q
initialize_query archetype (pool ∷ pools) q =
    initialize_query (suc archetype) pools (try_add_entity_pool archetype pool q).1

-- `pools[0]`, and what `chunkCount` and the first of the raw vectors of a chunk say of it
unfoldable pub first_pool : List ArchetypePool → List PoolRef → Option ComponentPool
first_pool pools [] = none
first_pool pools (ref ∷ refs) = do
  pool ← get_elem? pools ref.archetype
  get_elem? pool.components ref.component

chunks_in : Option ComponentPool → ℕ
chunks_in none = 0
chunks_in (some c) = Components.chunk_count c.pools

unfoldable pub chunk_count_of : List ArchetypePool → List PoolRef → ℕ
unfolding chunks_in
chunk_count_of pools refs = chunks_in (first_pool pools refs)

first_vector : Option ComponentPool → ℕ → Option Chunk
first_vector none k = none
first_vector (some c) k = do pool ← get_elem? c.pools 0; get_elem? pool k

size_of_vector : Option Chunk → ℕ
size_of_vector none = 0
size_of_vector (some c) = length c.elems

unfoldable pub vector_size : List ArchetypePool → List PoolRef → ℕ → ℕ
unfolding first_vector size_of_vector
vector_size pools refs k = size_of_vector (first_vector (first_pool pools refs) k)

-- A visited place: the array of pools, the chunk, and the index in its vectors
pub record Place : Type 0 where
  pub array : ℕ
  pub chunk : ℕ
  pub index : ℕ

abbrev pub place : ℕ → ℕ → ℕ → Place
place n k i = record { array = n; chunk = k; index = i }

-- `for (size_t i = 0; i < n; ++i)`, and a loop over the arrays from the index `n` on
unfoldable pub for_range {ℓ} : {V : Type ℓ} → ℕ → (ℕ → List V) → List V
for_range zero f = []
for_range (suc n) f = for_range n f ++ f n

unfoldable pub for_arrays {ℓ} :
    {V : Type ℓ} → ℕ → List (List PoolRef) → (ℕ → List PoolRef → List V) → List V
for_arrays n [] f = []
for_arrays n (refs ∷ rest) f = f n refs ++ for_arrays (suc n) rest f

module _ (pools : List ArchetypePool) where
  -- The loop in `map` over the vectors of a chunk, that of `cMap` over the chunks, and that of `pMap`
  map_vectors : ℕ → List PoolRef → ℕ → List Place
  unfolding vector_size
  map_vectors n refs k = for_range (vector_size pools refs k) (λ i. place n k i ∷ [])

  c_map : ℕ → List PoolRef → List Place
  unfolding map_vectors chunk_count_of
  c_map n refs = for_range (chunk_count_of pools refs) (map_vectors n refs)

  p_map : List (List PoolRef) → List Place
  unfolding c_map
  p_map arrays = for_arrays 0 arrays c_map

  -- `map`
  unfoldable pub map_query : Query → List Place
  unfolding p_map
  map_query q = p_map q.arrays

-- `_crossOperate`
unfoldable pub cross_operate {ℓ} : {V : Type ℓ} → ℕ → ℕ → (ℕ → ℕ → V) → List V
cross_operate size1 size2 visit = for_range size1 (λ i. for_range size2 (λ j. visit i j ∷ []))

-- `_selfCrossOperate`: the second index goes up to the first one, whatever the second size is.
unfoldable pub self_cross_operate {ℓ} : {V : Type ℓ} → ℕ → Bool → (ℕ → ℕ → V) → List V
self_cross_operate size1 same visit =
    for_range size1 (λ i. for_range (suc i) (λ j. if same && i == j then [] else visit i j ∷ []))

-- The comparison of the addresses of the first vectors
unfoldable pub same_pool : List PoolRef → List PoolRef → Bool
same_pool (r ∷ rs) (s ∷ ss) = r.archetype == s.archetype && r.component == s.component
same_pool _ _ = false

unfoldable pub same_vecs : List PoolRef → ℕ → List PoolRef → ℕ → Bool
unfolding same_pool
same_vecs refs1 k refs2 l = same_pool refs1 refs2 && k == l

module _ (pools : List ArchetypePool) where
  -- `_cross`
  unfoldable pub cross_chunks :
      Bool → ℕ → List PoolRef → ℕ → List PoolRef → ℕ → ℕ → List (Place × Place)
  unfolding cross_operate self_cross_operate vector_size same_vecs
  cross_chunks self n refs1 m refs2 k l =
      if self
      then self_cross_operate (vector_size pools refs1 k) (same_vecs refs1 k refs2 l)
          (λ i j. (place n k i, place m l j))
      else cross_operate (vector_size pools refs1 k) (vector_size pools refs2 l)
          (λ i j. (place n k i, place m l j))

  -- `cross`
  unfoldable pub cross : Bool → Query → Query → List (Place × Place)
  unfolding cross_chunks chunk_count_of
  cross self q1 q2 = for_arrays 0 q1.arrays (λ n refs1. for_arrays 0 q2.arrays (λ m refs2.
      for_range (chunk_count_of pools refs1)
        (λ k. for_range (chunk_count_of pools refs2) (λ l. cross_chunks self n refs1 m refs2 k l))))

  -- `selfCross`
  unfoldable pub self_cross : Query → List (Place × Place)
  unfolding cross
  self_cross q = cross true q q

-- `map`, `selfCross` and `cross` on the pools of an entity manager
unfoldable pub map_manager : List ArchetypePool → Query → Query × List Place
unfolding initialize_query map_query
map_manager pools q = let q' = initialize_query 0 pools q in (q', map_query pools q')

unfoldable pub self_cross_manager : List ArchetypePool → Query → Query × List (Place × Place)
unfolding initialize_query self_cross
self_cross_manager pools q = let q' = initialize_query 0 pools q in (q', self_cross pools q')

unfoldable pub cross_manager :
    List ArchetypePool → Query → List String → Query × List (Place × Place)
unfolding initialize_query cross
cross_manager pools q others =
    let q' = initialize_query 0 pools q in
    let other = initialize_query 0 pools (record { names = others; arrays = [] }) in
    (q', cross pools false q' other)
