-- ===== src/Ecs/Archetypes/Widths.antt =====
-- libs/lib_ecs/Entities/ArchetypePool.hpp: the shape of an archetype's pools, and what writes, resets and
-- new chunks leave of it.
use mathlib.Core.Option
use mathlib.Core.Path.{ap₂}
use project_e.Common.{
  ℕ, zero, suc, ◌+◌, ◌<◌, ◌≡◌, refl, ◌&&◌, some, List, [], ◌∷◌, arith, length, replicate, map,
  get_elem?, if◌then◌else◌, ◌==◌, All, ◌>>=◌,
}
use project_e.Ecs.Pos.{Pos, eq_pos}
use project_e.Ecs.Chunks.{ChunkPool}
use project_e.Ecs.Chunks.Access.{InGrid}
use project_e.Ecs.Components.{
  ComponentPool, get_component, set_component, reset_component, reset_component_at_indexes,
}
use project_e.Ecs.Components
use project_e.Ecs.Components.Access.{
  AreGrids, get_component-reset, add_chunk-AreGrids, length-add_chunk, get_component-add_chunk,
}
use project_e.Ecs.Archetypes.{
  ArchetypePool, read, write, count_of, add_chunks, reset_all, reset_entity_at_index,
}

abbrev pub width : ComponentPool → ℕ
width c = length c.pools

-- Component `i` has as many fields as `widths` says, and each field's pool has `count` chunks.
pub record IsArchetype (widths : List ℕ) (count : ℕ) (pool : ArchetypePool) : Type 0 where
  pub widths_eq : map width pool.components ≡ widths
  pub grids : All (λ c. AreGrids count pool.chunk_size c.pools) pool.components

-- All of a pool but its components stays.
pub record SameFrame (pool pool' : ArchetypePool) : Type 0 where
  pub name_eq : pool'.name ≡ pool.name
  pub chunk_size_eq : pool'.chunk_size ≡ pool.chunk_size
  pub free_pos_eq : pool'.free_pos ≡ pool.free_pos

-- A write that succeeded: the shape is kept, and every other read is as before.
pub record Rewritten (widths : List ℕ) (count : ℕ) (pool : ArchetypePool) (i : ℕ) (p : Pos)
    (vs : List ℕ) : Type 0 where
  pub result : ArchetypePool
  pub returned : write i p vs pool ≡ some result
  pub shape : IsArchetype widths count result
  pub frame : SameFrame pool result
  pub reads :
      (j : ℕ) (q : Pos)
      → read j q result ≡ (if i == j && eq_pos p q then some vs else read j q pool)

-- The component lists before and after `reset_all`.
pub record AllZeroed (count size : ℕ) (p : Pos) (cs : List ComponentPool) : Type 0 where
  pub result : List ComponentPool
  pub returned : reset_all p cs ≡ some result
  pub widths_same : map width result ≡ map width cs
  pub grids : All (λ c. AreGrids count size c.pools) result
  pub reads :
      (j : ℕ) (q : Pos)
      → (do c ← get_elem? result j; get_component c.pools q) ≡ (
          if eq_pos p q
          then Option.map (λ c. replicate (width c) 0) (get_elem? cs j)
          else (do c ← get_elem? cs j; get_component c.pools q))

pub reset_components-AllZeroed :
    {count : ℕ} (size : ℕ) (p : Pos) (cs : List ComponentPool)
    → All (λ c. AreGrids count size c.pools) cs
    → InGrid count size p
    → AllZeroed count size p cs
unfolding reset_all reset_component
reset_components-AllZeroed size p [] gs h = record {
  result = [];
  returned = refl;
  widths_same = refl;
  grids = tt;
  reads = λ j q. ground arith;
}
reset_components-AllZeroed {count} size p (c ∷ cs) gs h =
    let w = get_component-reset count size c.pools p gs.0 h in
    let r = reset_components-AllZeroed size p cs gs.1 h in
    record {
      result = record c { pools = w.result } ∷ r.result;
      returned = rw (w.returned, ◌>>=◌) (rw (r.returned, ◌>>=◌));
      widths_same = ap₂ ◌∷◌ w.width r.widths_same;
      grids = (w.grids, r.grids);
      reads = elim [ zero ↦ λ q. w.reads q | suc j ↦ λ q. r.reads j q ];
    }

pub record Zeroed (widths : List ℕ) (count : ℕ) (pool : ArchetypePool) (p : Pos) : Type 0 where
  pub result : ArchetypePool
  pub returned : reset_entity_at_index p pool ≡ some result
  pub shape : IsArchetype widths count result
  pub frame : SameFrame pool result
  pub reads :
      (j : ℕ) (q : Pos)
      → read j q result ≡ (
          if eq_pos p q
          then Option.map (λ c. replicate (width c) 0) (get_elem? pool.components j)
          else read j q pool)

pub map-add_chunks :
    (size : ℕ) (cs : List ComponentPool) → map width (add_chunks size cs) ≡ map width cs
unfolding add_chunks
map-add_chunks size [] = refl
map-add_chunks size (c ∷ cs) = ap₂ ◌∷◌ (length-add_chunk size c.pools) (map-add_chunks size cs)

pub add_chunks-grids :
    (count size : ℕ) (cs : List ComponentPool)
    → All (λ c. AreGrids count size c.pools) cs
    → All (λ c. AreGrids (count + 1) size c.pools) (add_chunks size cs)
unfolding add_chunks
add_chunks-grids count size [] gs = tt
add_chunks-grids count size (c ∷ cs) gs =
    (add_chunk-AreGrids count size c.pools gs.0, add_chunks-grids count size cs gs.1)

pub at-add_chunks :
    {count : ℕ} (size : ℕ) (cs : List ComponentPool) (j : ℕ) (q : Pos)
    → All (λ c. AreGrids count size c.pools) cs
    → q.chunk_index < count
    → (do c ← get_elem? (add_chunks size cs) j; get_component c.pools q)
      ≡ (do c ← get_elem? cs j; get_component c.pools q)
unfolding add_chunks
at-add_chunks size [] j q gs h = refl
at-add_chunks {count} size (c ∷ cs) zero q gs h =
    get_component-add_chunk count size c.pools q gs.0 h
at-add_chunks {count} size (c ∷ cs) (suc j) q gs h = at-add_chunks size cs j q gs.1 h

pub count_of-grids :
    {count : ℕ} (size : ℕ) (cs : List ComponentPool) {w : ℕ} {ws : List ℕ}
    → All (λ c. AreGrids count size c.pools) cs
    → map width cs ≡ suc w ∷ ws
    → count_of cs ≡ count
unfolding count_of Components.chunk_count
count_of-grids size [] gs e = cc
count_of-grids {count} size (c ∷ cs) {w} gs e = go c.pools gs.0 (cc e)
  where
    go :
        (pools : List ChunkPool)
        → AreGrids count size pools
        → length pools ≡ suc w
        → Components.chunk_count pools ≡ count
    go [] g h = absurd (omega arith)
    go (pool ∷ pools) g h = g.0.chunks
