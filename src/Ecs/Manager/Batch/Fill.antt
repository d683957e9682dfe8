-- ===== src/Ecs/Manager/Batch/Fill.antt =====
-- libs/lib_ecs/EntityManager.hpp: the writes of a batch to the pools of its entities and handles.
use project_e.Common.{
  ℕ, ◌≡◌, refl, ap, ◌∙◌, sym, true, false, Option, some, List, [], ◌∷◌, arith, length, map, All,
  get_elem?, set, ◌==◌, ==_iff, Bool-cases, inl, inr, subst, All-get_elem?, All-set, length-map,
  get_elem?-map, map-set, get_elem?-set, ◌>>=◌,
}
use project_e.Ecs.Pos.{Pos}
use project_e.Ecs.Chunks.{ChunkPool}
use project_e.Ecs.Chunks.Access.{InGrid}
use project_e.Ecs.Components.{ComponentPool, set_components_at_indexes}
use project_e.Ecs.Archetypes.{
  ArchetypePool, read, get_chunk_count, status_index, position_index, pool_id_index,
}
use project_e.Ecs.Archetypes.Widths.{IsArchetype, SameFrame, width}
use project_e.Ecs.Manager.{pos_fields, alive}
use project_e.Ecs.Manager.Free.{mem_pos, Distinct}
use project_e.Ecs.Manager.Pools.{IsPool}
use project_e.Ecs.Manager.Claims.{frame_trans}
use project_e.Ecs.Manager.Batch.{update, write_all, write_each, fill_entities, fill_ptrs}
use project_e.Ecs.Manager.Batch.Writes.{
  Holds, Holds-along, Holds-same, Put, set_components_total, set_component_each,
}

-- Component `i` has the rows at the positions; all else of the pool stays.
pub record Filled (widths : List ℕ) (count : ℕ) (pool : ArchetypePool) (i : ℕ) (ps : List Pos)
    (rows : List (List ℕ)) (outcome : Option ArchetypePool) : Type 0 where
  pub result : ArchetypePool
  pub returned : outcome ≡ some result
  pub shape : IsArchetype widths count result
  pub frame : SameFrame pool result
  pub apart : (j : ℕ) (q : Pos) → mem_pos q ps ≡ false → read j q result ≡ read j q pool
  pub others : (j : ℕ) (q : Pos) → (i == j) ≡ false → read j q result ≡ read j q pool
  pub holds : Holds (λ q. read i q result) ps rows

each_same :
    {w : ℕ} (ps : List Pos) (vs : List ℕ)
    → length vs ≡ w
    → All (λ r. length r ≡ w) (map (λ p. vs) ps)
each_same [] vs n = tt
each_same (p ∷ ps) vs n = (n, each_same ps vs n)

each_pair : (ps : List Pos) → All (λ r. length r ≡ 2) (map pos_fields ps)
each_pair [] = tt
each_pair (p ∷ ps) = (refl, each_pair ps)

module _ {widths : List ℕ} {count : ℕ} (pool : ArchetypePool) (s : IsArchetype widths count pool)
    (ps : List Pos) (inside : All (InGrid count pool.chunk_size) ps) (d : Distinct ps) where
  update_total :
      (i : ℕ) (f : List ChunkPool → Option (List ChunkPool)) (rows : List (List ℕ)) {w : ℕ}
      → get_elem? widths i ≡ some w
      → ((c : ComponentPool)
          → get_elem? pool.components i ≡ some c
          → length c.pools ≡ w
          → Put count pool.chunk_size c.pools ps rows (f c.pools))
      → Filled widths count pool i ps rows (update i f pool)
  unfolding update read
  update_total i f rows e put =
      let (c, at, wide) =
        get_elem?-map width pool.components i (ap (λ ws. get_elem? ws i) s.widths_eq ∙ e) in
      let w = put c at wide in
      let c' : ComponentPool = record c { pools = w.result } in
      let now : get_elem? (set pool.components i c') i ≡ some c' =
        ground (arith, get_elem?-set pool.components i i c' at) in
      record {
        result = record pool { components = set pool.components i c' };
        returned = rw (at, ◌>>=◌) (rw (w.returned, ◌>>=◌));
        shape = record {
          widths_eq = map-set width pool.components i c' at w.width ∙ s.widths_eq;
          grids = All-set _ pool.components i c' s.grids w.grids;
        };
        frame = record { name_eq = refl; chunk_size_eq = refl; free_pos_eq = refl };
        apart = λ j q h. rw (get_elem?-set pool.components i j c' at) (elim (Bool-cases (i == j)) [
          | inl hit ↦
              let at' = subst (λ k. get_elem? pool.components k ≡ some c) ((==_iff i j).0 hit) at in
              rw (hit, at') (w.apart q h)
          | inr miss ↦ rw miss
        ]);
        others = λ j q h. rw (get_elem?-set pool.components i j c' at, h);
        holds = Holds-along _ _ ps rows (λ q. rw now) w.holds;
      }

  pub write_each_total :
      (i : ℕ) (rows : List (List ℕ)) {w : ℕ}
      → get_elem? widths i ≡ some w
      → All (λ vs. length vs ≡ w) rows
      → length rows ≡ length ps
      → Filled widths count pool i ps rows (write_each i ps rows pool)
  unfolding write_each
  write_each_total i rows e ws n =
      update_total i (λ pools. set_components_at_indexes pools ps rows) rows e
        λ c at wide.
          set_components_total count pool.chunk_size c.pools ps rows
            (All-get_elem? _ pool.components i s.grids at) inside d (rw wide ws) n

  pub write_all_total :
      (i : ℕ) (vs : List ℕ) {w : ℕ}
      → get_elem? widths i ≡ some w
      → length vs ≡ w
      → Filled widths count pool i ps (map (λ p. vs) ps) (write_all i ps vs pool)
  unfolding write_all write_each
  write_all_total i vs e n =
      let same : write_each i ps (map (λ p. vs) ps) pool ≡ write_all i ps vs pool =
        λ t. update i (λ pools. sym (set_component_each pools ps vs) t) pool in
      subst (Filled widths count pool i ps (map (λ p. vs) ps)) same
        (write_each_total i (map (λ p. vs) ps) e (each_same ps vs n) (length-map ps (λ p. vs)))

-- The writes to the entities' pool
pub record EntitiesFilled (ws : List ℕ) (pool : ArchetypePool) (slots handles : List Pos)
    (status : ℕ) : Type 0 where
  pub result : ArchetypePool
  pub returned : fill_entities slots handles status pool ≡ some result
  pub shape : IsArchetype (1 ∷ 2 ∷ ws) (get_chunk_count pool) result
  pub frame : SameFrame pool result
  pub statuses :
      (q : Pos) → mem_pos q slots ≡ true → read status_index q result ≡ some (status ∷ [])
  pub backs : Holds (λ q. read position_index q result) slots (map pos_fields handles)
  pub apart : (j : ℕ) (q : Pos) → mem_pos q slots ≡ false → read j q result ≡ read j q pool

pub fill_entities_total :
    (ws : List ℕ) (pool : ArchetypePool) (slots handles : List Pos) (status : ℕ)
    → IsPool ws pool
    → All (InGrid (get_chunk_count pool) pool.chunk_size) slots
    → Distinct slots
    → length handles ≡ length slots
    → EntitiesFilled ws pool slots handles status
unfolding fill_entities
fill_entities_total ws pool slots handles status v inside d n =
    let a = write_all_total pool v.shape slots inside d status_index (status ∷ []) refl refl in
    let b =
      write_each_total a.result a.shape slots (rw a.frame.chunk_size_eq inside) d position_index
        (map pos_fields handles) refl (each_pair handles) (length-map handles pos_fields ∙ n) in
    record {
      result = b.result;
      returned = rw (a.returned, ◌>>=◌) b.returned;
      shape = b.shape;
      frame = frame_trans a.frame b.frame;
      statuses = λ q h.
          b.others status_index q refl
          ∙ Holds-same (λ p. read status_index p a.result) slots (status ∷ []) q a.holds h;
      backs = b.holds;
      apart = λ j q h. b.apart j q h ∙ a.apart j q h;
    }

-- The writes to the pointer pool
pub record PtrsFilled (ptrs : ArchetypePool) (handles slots : List Pos) (id : ℕ) : Type 0 where
  pub result : ArchetypePool
  pub returned : fill_ptrs handles slots id ptrs ≡ some result
  pub shape : IsArchetype (1 ∷ 2 ∷ 1 ∷ []) (get_chunk_count ptrs) result
  pub frame : SameFrame ptrs result
  pub forths : Holds (λ q. read position_index q result) handles (map pos_fields slots)
  pub ids : (q : Pos) → mem_pos q handles ≡ true → read pool_id_index q result ≡ some (id ∷ [])
  pub apart : (j : ℕ) (q : Pos) → mem_pos q handles ≡ false → read j q result ≡ read j q ptrs

pub fill_ptrs_total :
    (ptrs : ArchetypePool) (handles slots : List Pos) (id : ℕ)
    → IsPool (1 ∷ []) ptrs
    → All (InGrid (get_chunk_count ptrs) ptrs.chunk_size) handles
    → Distinct handles
    → length slots ≡ length handles
    → PtrsFilled ptrs handles slots id
unfolding fill_ptrs
fill_ptrs_total ptrs handles slots id v inside d n =
    let a = write_all_total ptrs v.shape handles inside d status_index (alive ∷ []) refl refl in
    let b =
      write_each_total a.result a.shape handles (rw a.frame.chunk_size_eq inside) d position_index
        (map pos_fields slots) refl (each_pair slots) (length-map slots pos_fields ∙ n) in
    let f = frame_trans a.frame b.frame in
    let c =
      write_all_total b.result b.shape handles (rw f.chunk_size_eq inside) d pool_id_index (id ∷ [])
        refl refl in
    record {
      result = c.result;
      returned = rw (a.returned, ◌>>=◌) (rw (b.returned, ◌>>=◌) c.returned);
      shape = c.shape;
      frame = frame_trans f c.frame;
      forths =
          Holds-along _ _ handles (map pos_fields slots) (λ q. sym (c.others position_index q refl))
            b.holds;
      ids = λ q h. Holds-same (λ p. read pool_id_index p c.result) handles (id ∷ []) q c.holds h;
      apart = λ j q h. c.apart j q h ∙ b.apart j q h ∙ a.apart j q h;
    }
