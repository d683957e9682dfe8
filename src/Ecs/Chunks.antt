-- ===== src/Ecs/Chunks.antt =====
-- libs/lib_ecs/Chunks: StandardChunk.hpp with AChunk.hpp, and StandardChunkPool.hpp with
-- AChunkPool.hpp. An element of a chunk is its bit pattern, a number, and `T {0}` is the pattern 0.
-- An access out of range, which is undefined in the source, is `none`.
pub mod Access
use mathlib.Core.Option
use project_e.Common.{
  ℕ, zero, suc, ◌+◌, ◌≡◌, Bool, true, false, Option, none, some, List, [], ◌∷◌, ◌++◌, length,
  get_elem?, set, replicate, if◌then◌else◌, ◌>>=◌,
}
use project_e.Ecs.Pos.{Pos}

-- `StandardChunk<T>`, of type `STDCHUNK`
pub record Chunk : Type 0 where
  pub elem_count : ℕ
  pub elems : List ℕ

unfoldable pub new_chunk : ℕ → Chunk
new_chunk n = record { elem_count = n; elems = replicate n 0 }

unfoldable pub chunk_get : Chunk → ℕ → Option ℕ
chunk_get c i = get_elem? c.elems i

-- `*getElem(i) = v`
unfoldable pub chunk_set : Chunk → ℕ → ℕ → Option Chunk
chunk_set c i v = do _ ← get_elem? c.elems i; some (record c { elems = set c.elems i v })

-- `resetAtIndex`
unfoldable pub reset_at_index : Chunk → ℕ → Option Chunk
unfolding chunk_set
reset_at_index c i = chunk_set c i 0

-- `StandardChunkPool<T>`
abbrev pub ChunkPool : Type 0
ChunkPool = List Chunk

unfoldable pub get_elem : ChunkPool → Pos → Option ℕ
unfolding chunk_get
get_elem pool p = do c ← get_elem? pool p.chunk_index; chunk_get c p.elem_index

-- `*getElem(pos) = v`
unfoldable pub set_elem : ChunkPool → Pos → ℕ → Option ChunkPool
unfolding chunk_set
set_elem pool p v = do
  c ← get_elem? pool p.chunk_index
  c' ← chunk_set c p.elem_index v
  some (set pool p.chunk_index c')

-- `resetAtChunkPos`
unfoldable pub reset_at_chunk_pos : ChunkPool → Pos → Option ChunkPool
unfolding reset_at_index
reset_at_chunk_pos pool p = do
  c ← get_elem? pool p.chunk_index
  c' ← reset_at_index c p.elem_index
  some (set pool p.chunk_index c')

-- `setValueAtIndexes`, the same text for a vector, a span and a range of positions
unfoldable pub set_value_at_indexes : ChunkPool → List Pos → ℕ → Option ChunkPool
unfolding set_elem
set_value_at_indexes pool [] v = some pool
set_value_at_indexes pool (p ∷ ps) v = do pool' ← set_elem pool p v; set_value_at_indexes pool' ps v

-- `setValuesAtIndexes`; a vector of values that is too short is read out of range.
unfoldable pub set_values_at_indexes : ChunkPool → List Pos → List ℕ → Option ChunkPool
unfolding set_elem
set_values_at_indexes pool [] vs = some pool
set_values_at_indexes pool (p ∷ ps) [] = none
set_values_at_indexes pool (p ∷ ps) (v ∷ vs) = do
  pool' ← set_elem pool p v
  set_values_at_indexes pool' ps vs

-- `getValuesAtIndexes`
unfoldable pub get_values_at_indexes : ChunkPool → List Pos → Option (List ℕ)
unfolding get_elem
get_values_at_indexes pool [] = some []
get_values_at_indexes pool (p ∷ ps) = do
  v ← get_elem pool p
  vs ← get_values_at_indexes pool ps
  some (v ∷ vs)

-- `elemCount`
unfoldable pub elem_count : ChunkPool → ℕ
elem_count [] = 0
elem_count (c ∷ cs) = c.elem_count + elem_count cs

-- `chunkCount`
abbrev pub chunk_count : ChunkPool → ℕ
chunk_count pool = length pool

-- `addChunk`
unfoldable pub add_chunk : ChunkPool → ℕ → ChunkPool
unfolding new_chunk
add_chunk pool n = pool ++ new_chunk n ∷ []

-- `deleteEverything`
abbrev pub delete_everything : ChunkPool → ChunkPool
delete_everything pool = []
