-- ===== src/Ecs/Queries/Visits.antt =====
-- libs/lib_ecs/Systems/Query.hpp: which places `map` visits, and AMonoSystem.hpp: those of one status.
use project_e.Common.{
  Option, none, some, Option-cases, inl, inr, ◌>>=◌, ap, ◌∙◌, ℕ, ◌≡◌, refl, ◌∙◌, Bool, true, false,
  ◌&&◌, List, [], ◌∷◌, get_elem?, arith, ltb, ◌==◌, if◌then◌else◌,
}
use project_e.Ecs.Archetypes.{ArchetypePool}
use project_e.Ecs.Queries.{
  PoolRef, Query, Place, place, chunk_count_of, vector_size, first_pool, map_vectors, c_map, p_map,
  map_query,
}
use project_e.Ecs.Components.{get_component}
use project_e.Ecs.Pos.{Pos}
use project_e.Ecs.Queries.Runs.{status_of, has_status, inner_operate, run_status}
use project_e.Ecs.Queries.Loops.{bit, on, count, count-for_range, count-for_arrays}

abbrev pub same_place : Place → Place → Bool
same_place p q = p.array == q.array && (p.chunk == q.chunk && p.index == q.index)

-- Whether a place is one of the places of an array of pools, and of a query
abbrev pub in_vectors : List ArchetypePool → Place → List PoolRef → Bool
in_vectors pools p refs =
    ltb p.chunk (chunk_count_of pools refs) && ltb p.index (vector_size pools refs p.chunk)

abbrev pub in_query : List ArchetypePool → Query → Place → Bool
in_query pools q p = on (in_vectors pools p) (get_elem? q.arrays p.array)

pub and_assoc_true : (a b c : Bool) → bit ((a && b) && (c && true)) ≡ bit (a && (b && c))
and_assoc_true a b c = ground arith

-- `map` visits each place of the query's component pools once, and no other place.
pub map_query-count :
    (pools : List ArchetypePool) (q : Query) (p : Place)
    → count (same_place p) (map_query pools q) ≡ bit (in_query pools q p)
unfolding map_query p_map c_map map_vectors
map_query-count pools q p =
    count-for_arrays (same_place p) p.array true (in_vectors pools p) q.arrays (c_map pools)
      (λ n refs.
        count-for_range (same_place p) p.chunk (chunk_count_of pools refs) (p.array == n)
          (λ k. ltb p.index (vector_size pools refs k)) (map_vectors pools n refs)
          (λ k.
            count-for_range (same_place p) p.index (vector_size pools refs k)
              (p.array == n && p.chunk == k) (λ i. true) (λ i. place n k i ∷ []) (λ i. ground arith)
            ∙ and_assoc_true (p.array == n) (p.chunk == k)
                (ltb p.index (vector_size pools refs k))))

same_parts :
    (p q : Place)
    → same_place p q ≡ true
    → (p.array ≡ q.array) × (p.chunk ≡ q.chunk) × (p.index ≡ q.index)
same_parts p q h = ground arith

same_place-≡ : (p q : Place) → same_place p q ≡ true → p ≡ q
same_place-≡ p q h =
    let (array, chunk, index) = same_parts p q h in
    ap (λ n. place n p.chunk p.index) array
    ∙ ap (λ k. place q.array k p.index) chunk
    ∙ ap (place q.array q.chunk) index

-- One more place, where two places that are the same have or have not what is asked for
one_more :
    (same has_p has_r : Bool) (test : Place → Bool) (r : Place) (rest kept : List Place)
    → test r ≡ same
    → (same ≡ true → has_p ≡ has_r)
    → count test kept ≡ (if has_p then count test rest else 0)
    → count test (if has_r then r ∷ kept else kept) ≡ (if has_p then count test (r ∷ rest) else 0)
one_more true has_p true test r rest kept e alike h = ground arith
one_more true has_p false test r rest kept e alike h = ground arith
one_more false has_p true test r rest kept e alike h = ground arith
one_more false has_p false test r rest kept e alike h = ground arith

count-inner_operate :
    (pools : List ArchetypePool) (status : ℕ) (q : Query) (p : Place) (ps : List Place)
    → count (same_place p) (inner_operate pools status q ps)
      ≡ (if has_status pools status q p then count (same_place p) ps else 0)
unfolding inner_operate
count-inner_operate pools status q p [] = ground arith
count-inner_operate pools status q p (r ∷ ps) =
    one_more (same_place p r) (has_status pools status q p) (has_status pools status q r)
      (same_place p) r ps (inner_operate pools status q ps) refl
      (λ same. ap (has_status pools status q) (same_place-≡ p r same))
      (count-inner_operate pools status q p ps)

-- The status that stands at a place: the first value of the component that the first reference of the
-- place's array names
abbrev pub values_in : List ArchetypePool → List PoolRef → Pos → Option ℕ
values_in pools refs p = do
  ref ← get_elem? refs 0
  pool ← get_elem? pools ref.archetype
  component ← get_elem? pool.components ref.component
  values ← get_component component.pools p
  get_elem? values 0

abbrev pub status_at : List ArchetypePool → Query → Place → Option ℕ
status_at pools q p = do
  refs ← get_elem? q.arrays p.array
  values_in pools refs (record { chunk_index = p.chunk; elem_index = p.index })

status_of-values_in :
    (pools : List ArchetypePool) (refs : List PoolRef) (k i : ℕ)
    → status_of (first_pool pools refs) k i
      ≡ values_in pools refs (record { chunk_index = k; elem_index = i })
unfolding status_of first_pool
status_of-values_in pools [] k i = refl
status_of-values_in pools (ref ∷ refs) k i = elim (Option-cases (get_elem? pools ref.archetype)) [
  | inl e ↦ rw (e, status_of, first_pool) refl
  | inr (pool, e) ↦
      rw (e, first_pool)
        (elim (Option-cases (get_elem? pool.components ref.component)) [
          | inl e' ↦ rw (e', status_of) refl
          | inr (c, e') ↦ rw (e', status_of) refl
        ])
]

-- Whether a status stands there, and is the one asked for
abbrev pub is_status : ℕ → Option ℕ → Bool
is_status status none = false
is_status status (some found) = found == status

is_status-elim :
    (status : ℕ) (v : Option ℕ)
    → (elim v [ none ↦ false | some found ↦ found == status ]) ≡ is_status status v
is_status-elim status none = refl
is_status-elim status (some found) = refl

has_status_lem :
    (pools : List ArchetypePool) (status : ℕ) (q : Query) (p : Place)
    → has_status pools status q p ≡ is_status status (status_at pools q p)
unfolding has_status
has_status_lem pools status q p = elim (Option-cases (get_elem? q.arrays p.array)) [
  | inl e ↦ rw (e, has_status) refl
  | inr (refs, e) ↦
      rw (e, has_status, status_of-values_in pools refs p.chunk p.index)
        (is_status-elim status
          (values_in pools refs (record { chunk_index = p.chunk; elem_index = p.index })))
]

-- A system that asks for a status operates once on each place of its query's component pools where the
-- status asked for stands, as the first value of the component that the query's first name found there,
-- and on no other place.
pub run_status-count :
    (pools : List ArchetypePool) (status : ℕ) (q : Query) (p : Place)
    → count (same_place p) (run_status pools status q)
      ≡ bit (is_status status (status_at pools q p) && in_query pools q p)
unfolding run_status
run_status-count pools status q p =
    count-inner_operate pools status q p (map_query pools q)
    ∙ rw (has_status_lem pools status q p) (
        asked (in_query pools q p) (is_status status (status_at pools q p))
          (map_query-count pools q p))
  where
    asked : {n : ℕ} (b has : Bool) → n ≡ bit b → (if has then n else 0) ≡ bit (has && b)
    asked b true e = e
    asked b false e = refl
