-- ===== src/Ecs/Components/Access.antt =====
-- libs/lib_ecs/Components/ComponentPool.hpp: a whole component read after it is written.
use project_e.Common.{
  ℕ, suc, ◌+◌, ◌<◌, ◌≡◌, refl, ap, false, some, List, [], ◌∷◌, arith, length, if◌then◌else◌, ◌==◌,
  All, length-replicate, Bool-cases, inl, inr, ◌>>=◌,
}
use project_e.Ecs.Pos.{Pos, eq_pos}
use project_e.Ecs.Chunks.{ChunkPool, get_elem, set_elem}
use project_e.Ecs.Chunks
use project_e.Ecs.Chunks.Access.{
  IsGrid, InGrid, get_elem_total, set_elem_total, add_chunk-IsGrid, get_elem-add_chunk,
}
use project_e.Ecs.Components.{get_component, set_component, add_chunk, zeros}

-- Every field's pool is a grid of the same form.
abbrev pub AreGrids : ℕ → ℕ → List ChunkPool → Type 0
AreGrids count size = All (IsGrid count size)

-- The result of a write at one position: the other positions keep what they held.
pub record Written (count size : ℕ) (pools : List ChunkPool) (p : Pos) (vs : List ℕ) : Type 0 where
  pub result : List ChunkPool
  pub returned : set_component pools p vs ≡ some result
  pub grids : AreGrids count size result
  pub width : length result ≡ length pools
  pub reads :
      (q : Pos) → get_component result q ≡ (if eq_pos p q then some vs else get_component pools q)

get_component_total :
    (count size : ℕ) (pools : List ChunkPool) (p : Pos)
    → AreGrids count size pools
    → InGrid count size p
    → (vs : List ℕ) × (get_component pools p ≡ some vs) × (length vs ≡ length pools)
unfolding get_component
get_component_total count size [] p gs h = ([], refl, refl)
get_component_total count size (pool ∷ pools) p gs h =
    let (v, e) = get_elem_total pool gs.0 p h in
    let (vs, f, n) = get_component_total count size pools p gs.1 h in
    (v ∷ vs, rw (e, ◌>>=◌) (rw (f, ◌>>=◌)), ap suc n)

-- Setting a whole component, with a value for each field, at a position of its pools of one form
-- succeeds, keeps the form, and reading gives these values there and what was there before at
-- every other position.
pub set_component_total :
    (count size : ℕ) (pools : List ChunkPool) (p : Pos) (vs : List ℕ)
    → AreGrids count size pools
    → InGrid count size p
    → length vs ≡ length pools
    → Written count size pools p vs
unfolding get_component set_component
set_component_total count size [] p [] gs h n = record {
  result = [];
  returned = refl;
  grids = tt;
  width = refl;
  reads = λ q. ground arith;
}
set_component_total count size [] p (v ∷ vs) gs h n = absurd (omega arith)
set_component_total count size (pool ∷ pools) p [] gs h n = absurd (omega arith)
set_component_total count size (pool ∷ pools) p (v ∷ vs) gs h n =
    let (pool', e, g, r) = set_elem_total pool gs.0 p v h in
    let w = set_component_total count size pools p vs gs.1 h (omega arith) in
    record {
      result = pool' ∷ w.result;
      returned = rw (e, ◌>>=◌) (rw (w.returned, ◌>>=◌));
      grids = (g, w.grids);
      width = ap suc w.width;
      reads = λ q. elim (Bool-cases (eq_pos p q)) [
        | inl hit ↦ rw (r q, w.reads q, hit)
        | inr miss ↦ rw (r q, w.reads q, miss)
      ];
    }

pub get_component-reset :
    (count size : ℕ) (pools : List ChunkPool) (p : Pos)
    → AreGrids count size pools
    → InGrid count size p
    → Written count size pools p (zeros pools)
get_component-reset count size pools p gs h =
    set_component_total count size pools p (zeros pools) gs h (length-replicate (length pools) 0)

pub add_chunk-AreGrids :
    (count size : ℕ) (pools : List ChunkPool)
    → AreGrids count size pools
    → AreGrids (count + 1) size (add_chunk size pools)
unfolding add_chunk
add_chunk-AreGrids count size [] gs = tt
add_chunk-AreGrids count size (pool ∷ pools) gs =
    (add_chunk-IsGrid count size pool gs.0, add_chunk-AreGrids count size pools gs.1)

pub length-add_chunk :
    (size : ℕ) (pools : List ChunkPool) → length (add_chunk size pools) ≡ length pools
unfolding add_chunk
length-add_chunk size [] = refl
length-add_chunk size (pool ∷ pools) = ap suc (length-add_chunk size pools)

-- A new chunk changes nothing that could be read before.
pub get_component-add_chunk :
    (count size : ℕ) (pools : List ChunkPool) (q : Pos)
    → AreGrids count size pools
    → q.chunk_index < count
    → get_component (add_chunk size pools) q ≡ get_component pools q
unfolding get_component add_chunk
get_component-add_chunk count size [] q gs h = refl
get_component-add_chunk count size (pool ∷ pools) q gs h =
    let e : (q.chunk_index == count) ≡ false = ground arith in
    let f = get_elem-add_chunk count size pool q gs.0 in
    let old : get_elem (Chunks.add_chunk pool size) q ≡ get_elem pool q = rw e at f in
    rw (old, get_component-add_chunk count size pools q gs.1 h)
