-- ===== src/Ecs/Queries/Names.antt =====
-- libs/lib_ecs/Systems/Query.hpp: `tryAddEntityPool` and the lookup of each name by itself, and
-- libs/lib_ecs/AEntityManager.cpp: `initializeQuery`.
use Prim.Native.String.{String}
use text.Mathlib.Text.{◌==◌ as str_eq}
use mathlib.Core.List.{append_assoc, append-nil}
use project_e.Common.{
  All, ◌∙◌, ℕ, suc, ◌+◌, ◌≤◌, ◌<◌, ◌≡◌, refl, sym, ap, Bool, true, false, Option, none, some, List,
  [], ◌∷◌, ◌++◌, length, length-append, arith, ◌==◌, if◌then◌else◌, Bool-cases, inl, inr, ◌>>=◌,
}
use project_e.Ecs.Components.{ComponentPool}
use project_e.Ecs.Archetypes.{ArchetypePool}
use project_e.Ecs.Queries.{
  initialize_query, PoolRef, Query, scan_pools, scan_names, add_array, try_add_entity_pool,
}
use project_e.Ecs.Queries.Loops.{bit}

-- How often a component has a name, and the first one that does, from the component `i` on
abbrev pub count_name : String → List ComponentPool → ℕ
count_name name [] = 0
count_name name (c ∷ cs) = bit (str_eq c.name name) + count_name name cs

abbrev pub index_of : ℕ → String → ℕ → List ComponentPool → Option PoolRef
index_of archetype name i [] = none
index_of archetype name i (c ∷ cs) =
    if str_eq c.name name
    then some (record { archetype = archetype; component = i })
    else index_of archetype name (suc i) cs

-- All components that the names ask for, in the order of the names
abbrev pub find_all : ℕ → List String → List ComponentPool → Option (List PoolRef)
find_all archetype [] cs = some []
find_all archetype (name ∷ names) cs = do
  ref ← index_of archetype name 0 cs
  refs ← find_all archetype names cs
  some (ref ∷ refs)

abbrev pub AreDistinct : List ComponentPool → Type 0
AreDistinct cs = (name : String) → count_name name cs ≤ 1

abbrev found_one : Option PoolRef → List PoolRef
found_one none = []
found_one (some ref) = ref ∷ []

abbrev found_all : ℕ → List String → List ComponentPool → List PoolRef
found_all archetype [] cs = []
found_all archetype (name ∷ names) cs =
    found_one (index_of archetype name 0 cs) ++ found_all archetype names cs

length-found_one : (o : Option PoolRef) → length (found_one o) ≤ 1
length-found_one none = omega arith
length-found_one (some ref) = omega arith

scan_pools-absent :
    (limit archetype : ℕ) (name : String) (i : ℕ) (cs : List ComponentPool) (found : List PoolRef)
    → count_name name cs ≡ 0
    → scan_pools limit archetype name i cs found ≡ some found
unfolding scan_pools
scan_pools-absent limit archetype name i [] found h = refl
scan_pools-absent limit archetype name i (c ∷ cs) found h =
    ground (arith, scan_pools-absent limit archetype name (suc i) cs found)

scan_pools-index_of :
    (limit archetype : ℕ) (name : String) (i : ℕ) (cs : List ComponentPool) (found : List PoolRef)
    → count_name name cs ≤ 1
    → length found < limit
    → scan_pools limit archetype name i cs found
      ≡ some (found ++ found_one (index_of archetype name i cs))
unfolding scan_pools
scan_pools-index_of limit archetype name i [] found one room = ap some (sym (append-nil found))
scan_pools-index_of limit archetype name i (c ∷ cs) found one room =
    elim (Bool-cases (str_eq c.name name)) [
      | inl hit ↦
          let full =
            scan_pools-absent limit archetype name (suc i) cs
              (found ++ record { archetype = archetype; component = i } ∷ []) (ground arith) in
          ground (arith, full)
      | inr miss ↦
          rw miss (scan_pools-index_of limit archetype name (suc i) cs found (ground arith) room)
    ]

scan_names-found_all :
    (limit archetype : ℕ) (names : List String) (cs : List ComponentPool) (found : List PoolRef)
    → AreDistinct cs
    → length found + length names ≤ limit
    → scan_names limit archetype names cs found ≡ some (found ++ found_all archetype names cs)
unfolding scan_names
scan_names-found_all limit archetype [] cs found one room = ap some (sym (append-nil found))
scan_names-found_all limit archetype (name ∷ names) cs found one room =
    let first =
      scan_pools-index_of limit archetype name 0 cs found (one name) (omega (arith, room)) in
    let rest =
      scan_names-found_all limit archetype names cs
        (found ++ found_one (index_of archetype name 0 cs)) one
        (omega (
          arith,
          length-append found (found_one (index_of archetype name 0 cs)),
          length-found_one (index_of archetype name 0 cs),
          room,
        )) in
    rw (first, rest) (ap some (append_assoc found _ _))

length-found_all :
    (archetype : ℕ) (names : List String) (cs : List ComponentPool)
    → length (found_all archetype names cs) ≤ length names
length-found_all archetype [] cs = omega arith
length-found_all archetype (name ∷ names) cs = omega (
  arith,
  length-append (found_one (index_of archetype name 0 cs)) (found_all archetype names cs),
  length-found_one (index_of archetype name 0 cs),
  length-found_all archetype names cs,
)

-- What an answer of `find_all` says of the components found, for so many names
abbrev Finds : List PoolRef → ℕ → Option (List PoolRef) → Type 0
Finds found count none = length found < count
Finds found count (some refs) = (found ≡ refs) × (length refs ≡ count)

one_more-Finds :
    (o : Option PoolRef) (r : Option (List PoolRef)) (found : List PoolRef) (count : ℕ)
    → length found ≤ count
    → Finds found count r
    → Finds (found_one o ++ found) (suc count) (do ref ← o; refs ← r; some (ref ∷ refs))
one_more-Finds none r found count most f = omega (arith, most)
one_more-Finds (some ref) none found count most f = omega (arith, f)
one_more-Finds (some ref) (some refs) found count most (e, n) = (ap (ref ∷◌) e, omega (arith, n))

find_all-Finds :
    (archetype : ℕ) (names : List String) (cs : List ComponentPool)
    → Finds (found_all archetype names cs) (length names) (find_all archetype names cs)
find_all-Finds archetype [] cs = (refl, refl)
find_all-Finds archetype (name ∷ names) cs =
    one_more-Finds (index_of archetype name 0 cs) (find_all archetype names cs)
      (found_all archetype names cs) (length names) (length-found_all archetype names cs)
      (find_all-Finds archetype names cs)

-- What `tryAddEntityPool` should do, for all the components that were asked for, if they are there
abbrev pub add_found : Option (List PoolRef) → Query → Bool × Query
add_found none q = (false, q)
add_found (some refs) q = (true, record q { arrays = q.arrays ++ refs ∷ [] })

add_array-add_found :
    (found : List PoolRef) (r : Option (List PoolRef)) (q : Query)
    → Finds found (length q.names) r
    → add_array (some found) q ≡ add_found r q
unfolding add_array
add_array-add_found found none q short = rw (not_full) refl
  where
    not_full : (length found == length q.names) ≡ false
    not_full = ground arith
add_array-add_found found (some refs) q (e, n) = rw (e, n, full) refl
  where
    full : (length q.names == length q.names) ≡ true
    full = ground arith

-- On a pool in which no two components have one name, `tryAddEntityPool` adds the first component of
-- each of the query's names, in the order of the names, and says so, if there is one for every name, and
-- leaves the query as it was if not.
pub try_add_entity_pool-find_all :
    (archetype : ℕ) (pool : ArchetypePool) (q : Query)
    → AreDistinct pool.components
    → try_add_entity_pool archetype pool q
      ≡ add_found (find_all archetype q.names pool.components) q
unfolding try_add_entity_pool
try_add_entity_pool-find_all archetype pool q one =
    rw
      (scan_names-found_all (length q.names) archetype q.names pool.components [] one (omega arith))
      (add_array-add_found (found_all archetype q.names pool.components) _ q
        (find_all-Finds archetype q.names pool.components))

-- The arrays that the pools give
abbrev pub new_array : Option (List PoolRef) → List (List PoolRef)
new_array none = []
new_array (some refs) = refs ∷ []

abbrev pub arrays_of : ℕ → List String → List ArchetypePool → List (List PoolRef)
arrays_of archetype names [] = []
arrays_of archetype names (pool ∷ pools) =
    new_array (find_all archetype names pool.components) ++ arrays_of (suc archetype) names pools

add_found-new_array :
    (r : Option (List PoolRef)) (q : Query)
    → (add_found r q).1 ≡ record q { arrays = q.arrays ++ new_array r }
add_found-new_array none q = ap (λ arrays. record q { arrays = arrays }) (sym (append-nil q.arrays))
add_found-new_array (some refs) q = refl

-- Where in every pool no two components have one name, `initializeQuery` adds an array for each pool
-- that has all the query's components, in the order of the pools, behind the arrays that the query
-- has: a query that is initialised again has every array twice.
pub initialize_query-arrays_of :
    (archetype : ℕ) (pools : List ArchetypePool) (q : Query)
    → All (λ pool. AreDistinct pool.components) pools
    → initialize_query archetype pools q
      ≡ record q { arrays = q.arrays ++ arrays_of archetype q.names pools }
unfolding initialize_query
initialize_query-arrays_of archetype [] q one =
    ap (λ arrays. record q { arrays = arrays }) (sym (append-nil q.arrays))
initialize_query-arrays_of archetype (pool ∷ pools) q (one, ones) =
    ap (λ r. initialize_query (suc archetype) pools r.1)
      (try_add_entity_pool-find_all archetype pool q one)
    ∙ ap (initialize_query (suc archetype) pools)
        (add_found-new_array (find_all archetype q.names pool.components) q)
    ∙ initialize_query-arrays_of (suc archetype) pools _ ones
    ∙ ap (λ arrays. record q { arrays = arrays })
        (append_assoc q.arrays (new_array (find_all archetype q.names pool.components)) _)
