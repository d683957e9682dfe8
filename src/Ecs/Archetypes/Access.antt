-- ===== src/Ecs/Archetypes/Access.antt =====
-- libs/lib_ecs/Entities/ArchetypePool.hpp: the components of one position, read after they are
-- written, and the shape that all operations keep.
use mathlib.Core.Path.{subst}
use project_e.Common.{
  ℕ, suc, ◌+◌, ◌<◌, ◌≡◌, refl, ap, sym, ◌∙◌, inl, inr, some, List, [], ◌∷◌, ◌++◌, arith, length,
  get_elem?, set, ◌==◌, All-get_elem?, All-set, get_elem?-map, map-set, get_elem?-set, Bool-cases,
  ==_iff, ◌>>=◌,
}
use project_e.Ecs.Pos.{Pos}
use project_e.Ecs.Chunks.{ChunkPool}
use project_e.Ecs.Chunks.Access.{InGrid}
use project_e.Ecs.Components.{ComponentPool, reset_component, reset_component_at_indexes}
use project_e.Ecs.Components.Access.{set_component_total}
use project_e.Ecs.Archetypes.{
  ArchetypePool, read, write, get_chunk_count, chunk_positions, add_chunk, reset_all,
  reset_entity_at_index, reset_entity_at_indexes, reset_all_at,
}
use project_e.Ecs.Archetypes.Widths.{
  width, IsArchetype, Rewritten, reset_components-AllZeroed, Zeroed, map-add_chunks,
  add_chunks-grids, at-add_chunks, count_of-grids,
}

module _ {widths : List ℕ} {count : ℕ} (pool : ArchetypePool)
    (s : IsArchetype widths count pool) where
  pub write_total :
      (i : ℕ) (p : Pos) (vs : List ℕ) {w : ℕ}
      → get_elem? widths i ≡ some w
      → length vs ≡ w
      → InGrid count pool.chunk_size p
      → Rewritten widths count pool i p vs
  unfolding write read
  write_total i p vs e n h =
      let (c, at, wide) =
        get_elem?-map width pool.components i (ap (λ ws. get_elem? ws i) s.widths_eq ∙ e) in
      let w =
        set_component_total count pool.chunk_size c.pools p vs
          (All-get_elem? _ pool.components i s.grids at) h (n ∙ sym wide) in
      let c' : ComponentPool = record c { pools = w.result } in
      record {
        result = record pool { components = set pool.components i c' };
        returned = rw (at, ◌>>=◌) (rw (w.returned, ◌>>=◌));
        shape = record {
          widths_eq = map-set width pool.components i c' at w.width ∙ s.widths_eq;
          grids = All-set _ pool.components i c' s.grids w.grids;
        };
        frame = record { name_eq = refl; chunk_size_eq = refl; free_pos_eq = refl };
        reads = λ j q. rw (get_elem?-set pool.components i j c' at) (elim (Bool-cases (i == j)) [
          | inl hit ↦
              let at' : get_elem? pool.components j ≡ some c =
                subst (λ k. get_elem? pool.components k ≡ some c) ((==_iff i j).0 hit) at in
              rw (hit, at') (w.reads q)
          | inr miss ↦ rw miss
        ]);
      }

  -- An entity's components are reset: every one of its fields is zero, and other entities stay.
  pub reset_entity_at_index-Zeroed :
      (p : Pos) → InGrid count pool.chunk_size p → Zeroed widths count pool p
  unfolding reset_entity_at_index reset_all read
  reset_entity_at_index-Zeroed p h =
      let r = reset_components-AllZeroed pool.chunk_size p pool.components s.grids h in
      record {
        result = record pool { components = r.result };
        returned = rw (r.returned, ◌>>=◌);
        shape = record { widths_eq = r.widths_same ∙ s.widths_eq; grids = r.grids };
        frame = record { name_eq = refl; chunk_size_eq = refl; free_pos_eq = refl };
        reads = r.reads;
      }

  -- The positions of a new chunk join the free ones; what could be read before reads as before.
  pub add_chunk-IsArchetype :
      (w : ℕ) (ws : List ℕ) → widths ≡ suc w ∷ ws → IsArchetype widths (count + 1) (add_chunk pool)
  unfolding add_chunk
  add_chunk-IsArchetype w ws e = record {
    widths_eq = map-add_chunks pool.chunk_size pool.components ∙ s.widths_eq;
    grids = add_chunks-grids count pool.chunk_size pool.components s.grids;
  }

  pub free_pos-add_chunk :
      (w : ℕ) (ws : List ℕ)
      → widths ≡ suc w ∷ ws
      → (add_chunk pool).free_pos ≡ pool.free_pos ++ chunk_positions count pool.chunk_size 0
  unfolding add_chunk get_chunk_count
  free_pos-add_chunk w ws e =
      rw (count_of-grids pool.chunk_size pool.components s.grids (s.widths_eq ∙ e))

  pub read-add_chunk :
      (j : ℕ) (q : Pos) → q.chunk_index < count → read j q (add_chunk pool) ≡ read j q pool
  unfolding add_chunk read
  read-add_chunk j q h = at-add_chunks pool.chunk_size pool.components j q s.grids h

-- The chunk count that a pool reports is that of its shape.
pub get_chunk_count-IsArchetype :
    {w count : ℕ} {ws : List ℕ} (pool : ArchetypePool)
    → IsArchetype (suc w ∷ ws) count pool
    → get_chunk_count pool ≡ count
unfolding get_chunk_count
get_chunk_count-IsArchetype pool s =
    count_of-grids pool.chunk_size pool.components s.grids s.widths_eq

pub chunk_size-add_chunk : (pool : ArchetypePool) → (add_chunk pool).chunk_size ≡ pool.chunk_size
unfolding add_chunk
chunk_size-add_chunk pool = refl

reset_component_at_indexes-one :
    (pools : List ChunkPool) (p : Pos)
    → reset_component_at_indexes pools (p ∷ []) ≡ reset_component pools p
unfolding reset_component_at_indexes reset_component
reset_component_at_indexes-one pools p = ground arith

reset_all_at-one : (p : Pos) (cs : List ComponentPool) → reset_all_at (p ∷ []) cs ≡ reset_all p cs
unfolding reset_all_at reset_all
reset_all_at-one p [] = refl
reset_all_at-one p (c ∷ cs) = rw (reset_component_at_indexes-one c.pools p, reset_all_at-one p cs)

-- Resetting a range of one position is resetting that position.
pub reset_entity_at_indexes-one :
    (p : Pos) (pool : ArchetypePool)
    → reset_entity_at_indexes (p ∷ []) pool ≡ reset_entity_at_index p pool
unfolding reset_entity_at_indexes reset_entity_at_index
reset_entity_at_indexes-one p pool = rw (reset_all_at-one p pool.components)
