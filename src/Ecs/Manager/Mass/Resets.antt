-- ===== src/Ecs/Manager/Mass/Resets.antt =====
-- libs/lib_ecs/Entities/ArchetypePool.hpp: all components reset at many positions.
use project_e.Common.{
  ℕ, zero, suc, ◌≡◌, refl, ◌∙◌, false, some, List, [], ◌∷◌, arith, length, map, All, get_elem?,
  ◌>>=◌,
}
use mathlib.Core.Path.{ap₂}
use project_e.Ecs.Pos.{Pos, eq_pos_iff}
use project_e.Ecs.Chunks.{ChunkPool}
use project_e.Ecs.Chunks.Access.{InGrid}
use project_e.Ecs.Components.{ComponentPool, get_component, reset_component_at_indexes}
use project_e.Ecs.Components.Access.{AreGrids, get_component-reset}
use project_e.Ecs.Archetypes.{ArchetypePool, read, reset_all_at, reset_entity_at_indexes}
use project_e.Ecs.Archetypes.Widths.{IsArchetype, SameFrame, width}
use project_e.Ecs.Manager.Free.{mem_pos}

-- The fields of a component after the positions were reset: what stands elsewhere stays.
record FieldsReset (count size : ℕ) (pools : List ChunkPool) (ps : List Pos) : Type 0 where
  result : List ChunkPool
  returned : reset_component_at_indexes pools ps ≡ some result
  grids : AreGrids count size result
  width : length result ≡ length pools
  apart : (q : Pos) → mem_pos q ps ≡ false → get_component result q ≡ get_component pools q

reset_fields_total :
    (count size : ℕ) (pools : List ChunkPool) (ps : List Pos)
    → AreGrids count size pools
    → All (InGrid count size) ps
    → FieldsReset count size pools ps
unfolding reset_component_at_indexes
reset_fields_total count size pools [] gs hs = record {
  result = pools;
  returned = refl;
  grids = gs;
  width = refl;
  apart = λ q h. refl;
}
reset_fields_total count size pools (p ∷ ps) gs hs =
    let w = get_component-reset count size pools p gs hs.0 in
    let r = reset_fields_total count size w.result ps w.grids hs.1 in
    record {
      result = r.result;
      returned = rw (w.returned, ◌>>=◌) r.returned;
      grids = r.grids;
      width = r.width ∙ w.width;
      apart = λ q h. ground (arith, r.apart q, w.reads q, eq_pos_iff p q, eq_pos_iff q p);
    }

record ComponentsReset (count size : ℕ) (ps : List Pos) (cs : List ComponentPool) : Type 0 where
  result : List ComponentPool
  returned : reset_all_at ps cs ≡ some result
  widths_same : map width result ≡ map width cs
  grids : All (λ c. AreGrids count size c.pools) result
  apart :
      (j : ℕ) (q : Pos)
      → mem_pos q ps ≡ false
      → (do c ← get_elem? result j; get_component c.pools q)
        ≡ (do c ← get_elem? cs j; get_component c.pools q)

reset_components_total :
    {count : ℕ} (size : ℕ) (ps : List Pos) (cs : List ComponentPool)
    → All (λ c. AreGrids count size c.pools) cs
    → All (InGrid count size) ps
    → ComponentsReset count size ps cs
unfolding reset_all_at
reset_components_total size ps [] gs hs = record {
  result = [];
  returned = refl;
  widths_same = refl;
  grids = tt;
  apart = λ j q h. refl;
}
reset_components_total {count} size ps (c ∷ cs) gs hs =
    let w = reset_fields_total count size c.pools ps gs.0 hs in
    let r = reset_components_total size ps cs gs.1 hs in
    record {
      result = record c { pools = w.result } ∷ r.result;
      returned = rw (w.returned, ◌>>=◌) (rw (r.returned, ◌>>=◌));
      widths_same = ap₂ ◌∷◌ w.width r.widths_same;
      grids = (w.grids, r.grids);
      apart = elim [ zero ↦ λ q h. w.apart q h | suc j ↦ λ q h. r.apart j q h ];
    }

pub record PoolReset (widths : List ℕ) (count : ℕ) (pool : ArchetypePool) (ps : List Pos)
    : Type 0 where
  pub result : ArchetypePool
  pub returned : reset_entity_at_indexes ps pool ≡ some result
  pub shape : IsArchetype widths count result
  pub frame : SameFrame pool result
  pub apart : (j : ℕ) (q : Pos) → mem_pos q ps ≡ false → read j q result ≡ read j q pool

pub reset_pool_total :
    {widths : List ℕ} {count : ℕ} (pool : ArchetypePool) (ps : List Pos)
    → IsArchetype widths count pool
    → All (InGrid count pool.chunk_size) ps
    → PoolReset widths count pool ps
unfolding reset_entity_at_indexes read
reset_pool_total pool ps s hs =
    let r = reset_components_total pool.chunk_size ps pool.components s.grids hs in
    record {
      result = record pool { components = r.result };
      returned = rw (r.returned, ◌>>=◌);
      shape = record { widths_eq = r.widths_same ∙ s.widths_eq; grids = r.grids };
      frame = record { name_eq = refl; chunk_size_eq = refl; free_pos_eq = refl };
      apart = r.apart;
    }
