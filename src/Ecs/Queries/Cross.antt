-- ===== src/Ecs/Queries/Cross.antt =====
-- libs/lib_ecs/Systems/Query.hpp: which pairs of places `cross` and `selfCross` visit, and how often.
use project_e.Common.{
  ◌∙◌, ℕ, suc, ◌+◌, ◌≡◌, refl, ◌∙◌, Bool, true, false, not, ◌&&◌, Option, none, some, List, [], ◌∷◌,
  get_elem?, arith, ltb, leb, ◌==◌, if◌then◌else◌,
}
use project_e.Ecs.Archetypes.{ArchetypePool}
use project_e.Ecs.Queries.{
  PoolRef, Query, Place, place, chunk_count_of, vector_size, cross_operate, self_cross_operate,
  same_vecs, cross_chunks, cross, self_cross, same_pool,
}
use project_e.Ecs.Queries.Loops.{bit, on, count, count-for_range, count-for_arrays}
use project_e.Ecs.Queries.Visits.{same_place, in_vectors, in_query, and_assoc_true}

up_to :
    (a b c : Bool) (j i : ℕ)
    → bit ((a && b) && (ltb j (suc i) && c)) ≡ bit (a && (b && (leb j i && c)))
up_to true true c j i = ground arith
up_to true false c j i = refl
up_to false b c j i = refl

module _ {ℓ} {V : Type ℓ} (test : V → Bool) (i j : ℕ) (b : Bool) (visit : ℕ → ℕ → V) where
  one_visit :
      (skip b' c d : Bool) (v : V)
      → test v ≡ (b' && (c && d))
      → count test (if skip then [] else v ∷ []) ≡ bit ((b' && c) && (d && not skip))
  one_visit true b' c d v e = ground arith
  one_visit false b' c d v e = rw e (ground arith)

  count-cross_operate :
      (size1 size2 : ℕ)
      → ((i' j' : ℕ) → test (visit i' j') ≡ (b && (i == i' && j == j')))
      → count test (cross_operate size1 size2 visit) ≡ bit (b && (ltb i size1 && ltb j size2))
  unfolding cross_operate
  count-cross_operate size1 size2 h =
      count-for_range test i size1 b (λ _. ltb j size2) _
        (λ i'.
          count-for_range test j size2 (b && i == i') (λ _. true) (λ j'. visit i' j' ∷ [])
            (λ j'. one_visit false b (i == i') (j == j') (visit i' j') (h i' j'))
          ∙ and_assoc_true b (i == i') (ltb j size2))

  count-self_cross_operate :
      (size1 : ℕ) (same : Bool)
      → ((i' j' : ℕ) → test (visit i' j') ≡ (b && (i == i' && j == j')))
      → count test (self_cross_operate size1 same visit)
        ≡ bit (b && (ltb i size1 && (leb j i && not (same && i == j))))
  unfolding self_cross_operate
  count-self_cross_operate size1 same h =
      count-for_range test i size1 b (λ i'. leb j i' && not (same && i' == j)) _
        (λ i'.
          count-for_range test j (suc i') (b && i == i') (λ j'. not (same && i' == j')) _
            (λ j'. one_visit (same && i' == j') b (i == i') (j == j') (visit i' j') (h i' j'))
          ∙ up_to b (i == i') (not (same && i' == j)) j i')

and_assoc : (a b c : Bool) → bit ((a && b) && c) ≡ bit (a && (b && c))
and_assoc true b c = refl
and_assoc false b c = refl

-- What `_cross` visits of two chunks
abbrev pub in_pair : List ArchetypePool → Bool → Place → Place → List PoolRef → List PoolRef → Bool
in_pair pools self p q refs1 refs2 =
    if self
    then ltb p.index (vector_size pools refs1 p.chunk)
      && (leb q.index p.index && not (same_vecs refs1 p.chunk refs2 q.chunk && p.index == q.index))
    else ltb p.index (vector_size pools refs1 p.chunk)
      && ltb q.index (vector_size pools refs2 q.chunk)

abbrev pub same_places : Place × Place → Place × Place → Bool
same_places pair other = same_place pair.0 other.0 && same_place pair.1 other.1

count-cross_chunks :
    (pools : List ArchetypePool) (self : Bool) (p q : Place) (n : ℕ) (refs1 : List PoolRef) (m : ℕ)
    (refs2 : List PoolRef) (k l : ℕ)
    → count (same_places (p, q)) (cross_chunks pools self n refs1 m refs2 k l)
      ≡ bit (
          ((p.array == n && q.array == m) && p.chunk == k)
          && (q.chunk == l
              && in_pair pools self
                  (place p.array k p.index)
                  (place q.array l q.index)
                  refs1
                  refs2))
unfolding cross_chunks
count-cross_chunks pools true p q n refs1 m refs2 k l =
    count-self_cross_operate (same_places (p, q)) p.index q.index
      (((p.array == n && q.array == m) && p.chunk == k) && q.chunk == l) _ _ _ (λ i j. ground arith)
    ∙ and_assoc _ (q.chunk == l) _
count-cross_chunks pools false p q n refs1 m refs2 k l =
    count-cross_operate (same_places (p, q)) p.index q.index
      (((p.array == n && q.array == m) && p.chunk == k) && q.chunk == l) _ _ _ (λ i j. ground arith)
    ∙ and_assoc _ (q.chunk == l) _

-- What `cross` visits of two arrays of pools, and of two queries
abbrev pub in_arrays :
    List ArchetypePool → Bool → Place → Place → List PoolRef → List PoolRef → Bool
in_arrays pools self p q refs1 refs2 =
    ltb p.chunk (chunk_count_of pools refs1)
    && (ltb q.chunk (chunk_count_of pools refs2) && in_pair pools self p q refs1 refs2)

abbrev pub in_cross : List ArchetypePool → Bool → Query → Query → Place → Place → Bool
in_cross pools self q1 q2 p q =
    on (λ refs1. on (λ refs2. in_arrays pools self p q refs1 refs2) (get_elem? q2.arrays q.array))
      (get_elem? q1.arrays p.array)

-- `cross` visits the pairs of two queries' places once each, the first from the one and the second
-- from the other, and no other pair. For `selfCross`, which crosses a query with itself, the pairs are
-- those where the second index is at most the first, and less in one and the same vector; the second
-- index is not compared with the size of its own vector.
pub cross-count :
    (pools : List ArchetypePool) (self : Bool) (q1 q2 : Query) (p q : Place)
    → count (same_places (p, q)) (cross pools self q1 q2) ≡ bit (in_cross pools self q1 q2 p q)
unfolding cross
cross-count pools self q1 q2 p q =
    let t = same_places (p, q) in
    count-for_arrays t p.array true _ q1.arrays _ (λ n refs1.
      count-for_arrays t q.array (p.array == n) (in_arrays pools self p q refs1) q2.arrays _
        (λ m refs2.
          count-for_range t p.chunk (chunk_count_of pools refs1) (p.array == n && q.array == m)
            (λ k.
              ltb q.chunk (chunk_count_of pools refs2)
              && in_pair pools self (place p.array k p.index) q refs1 refs2)
            _
            (λ k.
              count-for_range t q.chunk (chunk_count_of pools refs2)
                ((p.array == n && q.array == m) && p.chunk == k)
                (λ l.
                  in_pair pools self (place p.array k p.index) (place q.array l q.index) refs1
                    refs2)
                _ (λ l. count-cross_chunks pools self p q n refs1 m refs2 k l)
              ∙ and_assoc _ (p.chunk == k) _)
          ∙ and_assoc (p.array == n) (q.array == m) _))

-- Whether two places are in the vectors of one chunk
abbrev pub one_vector : Query → Place → Place → Bool
one_vector q a b =
    on (λ refs1. on (λ refs2. same_vecs refs1 a.chunk refs2 b.chunk) (get_elem? q.arrays b.array))
      (get_elem? q.arrays a.array)

same_vecs_sym :
    (refs1 refs2 : List PoolRef) (k l : ℕ) → same_vecs refs1 k refs2 l ≡ same_vecs refs2 l refs1 k
unfolding same_vecs same_pool
same_vecs_sym [] [] k l = refl
same_vecs_sym [] (s ∷ ss) k l = refl
same_vecs_sym (r ∷ rs) [] k l = refl
same_vecs_sym (r ∷ rs) (s ∷ ss) k l = ground arith

both_orders :
    (same : Bool) (i j : ℕ)
    → bit (leb j i && not (same && i == j)) + bit (leb i j && not (same && j == i))
      ≡ (if i == j then (if same then 0 else 2) else 1)
both_orders true i j = ground arith
both_orders false i j = ground arith

in_arrays_self :
    (pools : List ArchetypePool) (p q : Place) (refs1 refs2 : List PoolRef)
    → in_vectors pools p refs1 ≡ true
    → in_vectors pools q refs2 ≡ true
    → in_arrays pools true p q refs1 refs2
      ≡ (leb q.index p.index && not (same_vecs refs1 p.chunk refs2 q.chunk && p.index == q.index))
in_arrays_self pools p q refs1 refs2 in_p in_q = ground arith

visited_pairs :
    (pools : List ArchetypePool) (a b : Place) (o1 o2 : Option (List PoolRef))
    → on (in_vectors pools a) o1 ≡ true
    → on (in_vectors pools b) o2 ≡ true
    → bit (on (λ refs1. on (λ refs2. in_arrays pools true a b refs1 refs2) o2) o1)
        + bit (on (λ refs1. on (λ refs2. in_arrays pools true b a refs1 refs2) o1) o2)
      ≡ (if a.index == b.index
          then (if on (λ refs1. on (λ refs2. same_vecs refs1 a.chunk refs2 b.chunk) o2) o1
              then 0
              else 2)
          else 1)
visited_pairs pools a b none o2 in_a in_b = cc
visited_pairs pools a b (some refs1) none in_a in_b = cc
visited_pairs pools a b (some refs1) (some refs2) in_a in_b =
    rw
      (
        in_arrays_self pools a b refs1 refs2 in_a in_b,
        in_arrays_self pools b a refs2 refs1 in_b in_a,
        same_vecs_sym refs2 refs1 b.chunk a.chunk,
      )
      (both_orders (same_vecs refs1 a.chunk refs2 b.chunk) a.index b.index)

-- Two places of a query that are visited by `selfCross`: where the indices differ they are visited once, in the one
-- or in the other order; where they are equal, the places are not visited together in one
-- vector, and twice in two vectors.
pub self_cross-count :
    (pools : List ArchetypePool) (q : Query) (a b : Place)
    → in_query pools q a ≡ true
    → in_query pools q b ≡ true
    → count (same_places (a, b)) (self_cross pools q)
        + count (same_places (b, a)) (self_cross pools q)
      ≡ (if a.index == b.index then (if one_vector q a b then 0 else 2) else 1)
unfolding self_cross
self_cross-count pools q a b in_a in_b =
    rw (cross-count pools true q q a b, cross-count pools true q q b a)
      (visited_pairs pools a b (get_elem? q.arrays a.array) (get_elem? q.arrays b.array) in_a in_b)
