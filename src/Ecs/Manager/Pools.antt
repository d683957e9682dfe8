-- ===== src/Ecs/Manager/Pools.antt =====
-- libs/lib_ecs: which positions of a pool are in use, and how claiming a free one and giving one back
-- change that.
use project_e.Common.{
  ℕ, zero, suc, ◌+◌, ◌<◌, ◌≡◌, refl, ap, ◌∙◌, Bool, Bool-cases, inl, inr, true, false, ◌&&◌, ◌||◌,
  List, [], ◌∷◌, ◌++◌, arith, ltb, leb, ◌==◌,
}
use project_e.Ecs.Pos.{Pos}
use project_e.Ecs.Chunks.Access.{InGrid}
use project_e.Ecs.Archetypes.{ArchetypePool, read, get_chunk_count, chunk_positions, add_chunk}
use project_e.Ecs.Archetypes.Access.{
  add_chunk-IsArchetype, free_pos-add_chunk, read-add_chunk, get_chunk_count-IsArchetype,
  chunk_size-add_chunk,
}
use project_e.Ecs.Archetypes.Widths.{IsArchetype}
use project_e.Ecs.Manager.{ensure_free}
use project_e.Ecs.Manager.Free.{
  mem_pos, Distinct, mem_pos-append, mem_pos-chunk_positions, chunk_positions-Distinct,
  Distinct-append,
}

-- A pool of an archetype whose further components have the widths `ws`: its free positions are
-- positions of the pool, each listed once.
pub record IsPool (ws : List ℕ) (pool : ArchetypePool) : Type 0 where
  pub shape : IsArchetype (1 ∷ 2 ∷ ws) (get_chunk_count pool) pool
  pub roomy : 0 < pool.chunk_size
  pub free_in :
      (p : Pos) → mem_pos p pool.free_pos ≡ true → InGrid (get_chunk_count pool) pool.chunk_size p
  pub distinct : Distinct pool.free_pos

-- A position of the pool that is not free.
pub record Used (p : Pos) (pool : ArchetypePool) : Type 0 where
  pub inside : InGrid (get_chunk_count pool) pool.chunk_size p
  pub taken : mem_pos p pool.free_pos ≡ false

-- The pool has grown by free positions only.
pub record Grown (ws : List ℕ) (pool pool' : ArchetypePool) : Type 0 where
  pub valid : IsPool ws pool'
  pub kept : (q : Pos) → Used q pool → Used q pool'
  pub only : (q : Pos) → Used q pool' → Used q pool
  pub reads : (j : ℕ) (q : Pos) → Used q pool → read j q pool' ≡ read j q pool
  pub slot : Pos
  pub rest : List Pos
  pub free_eq : pool'.free_pos ≡ slot ∷ rest

pub chunk_positions-cons :
    (count n i : ℕ) → 0 < n → (p : Pos) × (ps : List Pos) × (chunk_positions count n i ≡ p ∷ ps)
unfolding chunk_positions
chunk_positions-cons count zero i h = absurd (omega arith)
chunk_positions-cons count (suc n) i h = (_, _, refl)

-- The pool has changed, but what is in use is the same and reads the same.
pub record Stable (ws : List ℕ) (pool pool' : ArchetypePool) : Type 0 where
  pub valid : IsPool ws pool'
  pub kept : (q : Pos) → Used q pool → Used q pool'
  pub only : (q : Pos) → Used q pool' → Used q pool
  pub reads : (j : ℕ) (q : Pos) → Used q pool → read j q pool' ≡ read j q pool

-- A pool with one more chunk and its positions behind the free ones.
module _ (ws : List ℕ) (pool pool' : ArchetypePool) (v : IsPool ws pool)
    (shape : IsArchetype (1 ∷ 2 ∷ ws) (get_chunk_count pool + 1) pool')
    (size_eq : pool'.chunk_size ≡ pool.chunk_size)
    (free_eq : pool'.free_pos
      ≡ pool.free_pos ++ chunk_positions (get_chunk_count pool) pool.chunk_size 0) where
  count_eq : get_chunk_count pool' ≡ get_chunk_count pool + 1
  count_eq = get_chunk_count-IsArchetype pool' shape

  in_chunk : Pos → Bool
  in_chunk p =
      p.chunk_index == get_chunk_count pool
      && (leb 0 p.elem_index && ltb p.elem_index (0 + pool.chunk_size))

  mem_chunk :
      (p : Pos) → mem_pos p (chunk_positions (get_chunk_count pool) pool.chunk_size 0) ≡ in_chunk p
  unfolding in_chunk
  mem_chunk p = mem_pos-chunk_positions p (get_chunk_count pool) pool.chunk_size 0

  mem_free : (p : Pos) → mem_pos p pool'.free_pos ≡ (mem_pos p pool.free_pos || in_chunk p)
  mem_free p =
      ap (mem_pos p) free_eq
      ∙ mem_pos-append p pool.free_pos (chunk_positions (get_chunk_count pool) pool.chunk_size 0)
      ∙ ap (λ b. mem_pos p pool.free_pos || b) (mem_chunk p)

  extended-IsPool : IsPool ws pool'
  unfolding in_chunk
  extended-IsPool = record {
    shape = rw count_eq shape;
    roomy = rw size_eq v.roomy;
    free_in = λ p h.
        rw (count_eq, size_eq)
          (elim (Bool-cases (mem_pos p pool.free_pos)) [
            | inl old ↦ (omega (arith, (v.free_in p old).0), (v.free_in p old).1)
            | inr new ↦ ground (arith, mem_free p)
          ]);
    distinct = rw free_eq (
        Distinct-append pool.free_pos (chunk_positions (get_chunk_count pool) pool.chunk_size 0)
          v.distinct (chunk_positions-Distinct (get_chunk_count pool) pool.chunk_size 0)
          λ p h. ground (arith, mem_chunk p, v.free_in p h));
  }

  extended_kept : (q : Pos) → Used q pool → Used q pool'
  unfolding in_chunk
  extended_kept q u = record {
    inside = rw (count_eq, size_eq) (omega (arith, u.inside));
    taken = ground (arith, mem_free q, u.inside, u.taken);
  }

  extended_only : (q : Pos) → Used q pool' → Used q pool
  unfolding in_chunk
  extended_only q u =
      let inside = rw (count_eq, size_eq) at (u.inside) in
      record {
        inside = ground (arith, mem_free q, u.taken, inside);
        taken = ground (arith, mem_free q, u.taken);
      }

pub add_chunk-Stable :
    (ws : List ℕ) (pool : ArchetypePool) → IsPool ws pool → Stable ws pool (add_chunk pool)
add_chunk-Stable ws pool v =
    let shape = add_chunk-IsArchetype pool v.shape 0 (2 ∷ ws) refl in
    let size = chunk_size-add_chunk pool in
    let free = free_pos-add_chunk pool v.shape 0 (2 ∷ ws) refl in
    record {
      valid = extended-IsPool ws pool (add_chunk pool) v shape size free;
      kept = extended_kept ws pool (add_chunk pool) v shape size free;
      only = extended_only ws pool (add_chunk pool) v shape size free;
      reads = λ j q u. read-add_chunk pool v.shape j q u.inside.0;
    }

pub add_chunk-Grown :
    (ws : List ℕ) (pool : ArchetypePool)
    → IsPool ws pool
    → pool.free_pos ≡ []
    → Grown ws pool (add_chunk pool)
add_chunk-Grown ws pool v e =
    let stable = add_chunk-Stable ws pool v in
    let free : (add_chunk pool).free_pos
        ≡ chunk_positions (get_chunk_count pool) pool.chunk_size 0 =
      free_pos-add_chunk pool v.shape 0 (2 ∷ ws) refl
      ∙ ap (λ ps. ps ++ chunk_positions (get_chunk_count pool) pool.chunk_size 0) e in
    let (p, ps, first) = chunk_positions-cons (get_chunk_count pool) pool.chunk_size 0 v.roomy in
    record {
      valid = stable.valid;
      kept = stable.kept;
      only = stable.only;
      reads = stable.reads;
      slot = p;
      rest = ps;
      free_eq = free ∙ first;
    }

pub ensure_free-Grown :
    (ws : List ℕ) (pool : ArchetypePool) → IsPool ws pool → Grown ws pool (ensure_free pool)
unfolding ensure_free
ensure_free-Grown ws pool v = go pool.free_pos refl
  where
    go :
        (free : List Pos)
        → pool.free_pos ≡ free
        → Grown ws pool (elim free [ [] ↦ add_chunk pool | _ ↦ pool ])
    go [] e = add_chunk-Grown ws pool v e
    go (p ∷ ps) e = record {
      valid = v;
      kept = λ q u. u;
      only = λ q u. u;
      reads = λ j q u. refl;
      slot = p;
      rest = ps;
      free_eq = e;
    }
