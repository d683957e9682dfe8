-- ===== src/Ecs/Chunks/Access.antt =====
-- libs/lib_ecs/Chunks: reading after writing, and the grid that a pool of equal chunks is.
use project_e.Common.{
  ℕ, zero, suc, ◌+◌, ◌<◌, ◌≡◌, refl, ◌∙◌, none, some, [], ◌∷◌, arith, length, get_elem?, set,
  replicate, if◌then◌else◌, ◌==◌, ltb, All, All-get_elem?, All-set, All-append, length-set,
  get_elem?-set, get_elem?_total, get_elem?-append, length-append, length-replicate, ◌*◌, ◌>>=◌,
}
use project_e.Ecs.Pos.{Pos, eq_pos}
use project_e.Ecs.Chunks.{
  Chunk, ChunkPool, new_chunk, get_elem, set_elem, reset_at_chunk_pos, add_chunk, elem_count,
}

-- `count` chunks of `size` elements each.
pub record IsGrid (count size : ℕ) (pool : ChunkPool) : Type 0 where
  pub chunks : length pool ≡ count
  pub sizes : All (λ c. length c.elems ≡ size) pool
  pub counts : All (λ c. c.elem_count ≡ size) pool

abbrev pub InGrid : ℕ → ℕ → Pos → Type 0
InGrid count size p = (p.chunk_index < count) × (p.elem_index < size)

-- A write inside the pool, seen from its parts.
set_elem_parts :
    (pool : ChunkPool) (p : Pos) (v : ℕ) {c : Chunk} {old : ℕ}
    → get_elem? pool p.chunk_index ≡ some c
    → get_elem? c.elems p.elem_index ≡ some old
    → set_elem pool p v
      ≡ some (set pool p.chunk_index (record c { elems = set c.elems p.elem_index v }))
unfolding set_elem
set_elem_parts pool p v e f = rw (e, ◌>>=◌) (rw (f, ◌>>=◌))

module _ {count size : ℕ} (pool : ChunkPool) (g : IsGrid count size pool) (p : Pos) where
  -- The chunk and the element at a position of the grid.
  grid_parts :
      InGrid count size p
      → (c : Chunk) × (old : ℕ) × (get_elem? pool p.chunk_index ≡ some c)
        × (get_elem? c.elems p.elem_index ≡ some old)
  grid_parts (h, k) =
      let (c, e) = get_elem?_total pool p.chunk_index (omega (arith, g.chunks)) in
      let size_c : length c.elems ≡ size = All-get_elem? _ pool p.chunk_index g.sizes e in
      let (old, f) = get_elem?_total c.elems p.elem_index (omega arith) in (c, old, e, f)

  pub get_elem_total : InGrid count size p → (v : ℕ) × (get_elem pool p ≡ some v)
  unfolding get_elem
  get_elem_total h = let (c, old, e, f) = grid_parts h in (old, rw (e, ◌>>=◌) f)

  -- A write at a position inside a pool of equal chunks succeeds, keeps the form of the pool, and
  -- changes what is read at that position only.
  pub set_elem_total :
      (v : ℕ)
      → InGrid count size p
      → (pool' : ChunkPool) × (set_elem pool p v ≡ some pool')
        × IsGrid count size pool'
        × ((q : Pos) → get_elem pool' q ≡ (if eq_pos p q then some v else get_elem pool q))
  unfolding get_elem eq_pos
  set_elem_total v h =
      let (c, old, e, f) = grid_parts h in
      let c' : Chunk = record c { elems = set c.elems p.elem_index v } in
      (
        set pool p.chunk_index c',
        set_elem_parts pool p v e f,
        record {
          chunks = length-set pool p.chunk_index c' ∙ g.chunks;
          sizes =
              All-set _ pool p.chunk_index c' g.sizes
                (length-set c.elems p.elem_index v ∙ All-get_elem? _ pool p.chunk_index g.sizes e);
          counts =
              All-set _ pool p.chunk_index c' g.counts
                (All-get_elem? _ pool p.chunk_index g.counts e);
        },
        λ q. ground (
          arith,
          get_elem?-set pool p.chunk_index q.chunk_index c' e,
          get_elem?-set c.elems p.elem_index q.elem_index v f,
        ),
      )

  pub reset_at_chunk_pos-set_elem : reset_at_chunk_pos pool p ≡ set_elem pool p 0
  unfolding reset_at_chunk_pos set_elem
  reset_at_chunk_pos-set_elem = refl

pub add_chunk-IsGrid :
    (count size : ℕ) (pool : ChunkPool)
    → IsGrid count size pool
    → IsGrid (count + 1) size (add_chunk pool size)
unfolding add_chunk
add_chunk-IsGrid count size pool g = record {
  chunks = omega (arith, length-append {0} pool (new_chunk size ∷ []), g.chunks);
  sizes = All-append _ pool _ g.sizes (length-replicate size 0, tt);
  counts = All-append _ pool _ g.counts (refl, tt);
}

get_elem?-replicate : (n i v : ℕ) → get_elem? (replicate n v) i ≡ (if ltb i n then some v else none)
get_elem?-replicate zero i v = ground arith
get_elem?-replicate (suc n) zero v = ground arith
get_elem?-replicate (suc n) (suc i) v = ground (arith, get_elem?-replicate n i v)

-- After `addChunk` on a pool of equal chunks the new chunk reads zero at each of its elements and
-- has no others, and every position of another chunk reads as before.
pub get_elem-add_chunk :
    (count size : ℕ) (pool : ChunkPool) (q : Pos)
    → IsGrid count size pool
    → get_elem (add_chunk pool size) q ≡ (
        if q.chunk_index == count
        then (if ltb q.elem_index size then some 0 else none)
        else get_elem pool q)
unfolding get_elem add_chunk
get_elem-add_chunk count size pool q g = ground (
  arith,
  get_elem?-append pool (new_chunk size) q.chunk_index,
  get_elem?-replicate size q.elem_index 0,
  g.chunks,
)

-- A pool of chunks of one size reports the number of its chunks times that size.
pub elem_count-IsGrid :
    (size : ℕ) (pool : ChunkPool)
    → All (λ c. c.elem_count ≡ size) pool
    → elem_count pool ≡ length pool * size
unfolding elem_count
elem_count-IsGrid size [] h = omega arith
elem_count-IsGrid size (c ∷ cs) h = grind (arith, elem_count-IsGrid size cs h.1)
