-- ===== src/Ecs/Manager/Releases.antt =====
-- libs/lib_ecs/EntityManager.cpp: giving back one position of a pool.
use project_e.Common.{
  ℕ, ◌≡◌, refl, ap, sym, ◌∙◌, inl, inr, false, ◌||◌, some, List, [], ◌∷◌, ◌++◌, arith, Bool-cases,
  subst,
}
use project_e.Ecs.Pos.{Pos, eq_pos, eq_pos_iff}
use project_e.Ecs.Chunks.Access.{InGrid}
use project_e.Ecs.Archetypes.{ArchetypePool, read, get_chunk_count, reset_entity_at_indexes}
use project_e.Ecs.Archetypes.Access.{
  reset_entity_at_index-Zeroed, get_chunk_count-IsArchetype, reset_entity_at_indexes-one,
}
use project_e.Ecs.Archetypes.Widths.{IsArchetype}
use project_e.Ecs.Manager.Free.{mem_pos, mem_pos-append, Distinct-snoc}
use project_e.Ecs.Manager.Pools.{IsPool, Used}
use project_e.Ecs.Manager.Claims.{read-free_pos, shape-free_pos}

-- The pool with `p` at the end of its free list
abbrev pub freed : Pos → ArchetypePool → ArchetypePool
freed p pool = record pool { free_pos = pool.free_pos ++ p ∷ [] }

-- A position in use has become the last free one; nothing else has changed its use or its contents.
pub record Freed (ws : List ℕ) (pool : ArchetypePool) (p : Pos) (pool' : ArchetypePool)
    : Type 0 where
  pub valid : IsPool ws pool'
  pub free_eq : pool'.free_pos ≡ pool.free_pos ++ p ∷ []
  pub kept : (q : Pos) → Used q pool → eq_pos p q ≡ false → Used q pool'
  pub only : (q : Pos) → Used q pool' → Used q pool
  pub gone : (q : Pos) → Used q pool' → eq_pos p q ≡ false
  pub reads : (j : ℕ) (q : Pos) → eq_pos p q ≡ false → read j q pool' ≡ read j q pool

pub record Released (ws : List ℕ) (pool : ArchetypePool) (p : Pos) : Type 0 where
  pub result : ArchetypePool
  pub returned : reset_entity_at_indexes (p ∷ []) (freed p pool) ≡ some result
  pub freed : Freed ws pool p result

module _ (ws : List ℕ) (pool pool' : ArchetypePool) (p : Pos) (v : IsPool ws pool) (u : Used p pool)
    (shape : IsArchetype (1 ∷ 2 ∷ ws) (get_chunk_count pool) pool')
    (size_eq : pool'.chunk_size ≡ pool.chunk_size)
    (free_eq : pool'.free_pos ≡ pool.free_pos ++ p ∷ [])
    (reads : (j : ℕ) (q : Pos) → eq_pos p q ≡ false → read j q pool' ≡ read j q pool) where
  freed_mem :
      (q : Pos) → mem_pos q pool'.free_pos ≡ (mem_pos q pool.free_pos || (eq_pos q p || false))
  freed_mem q = ap (mem_pos q) free_eq ∙ mem_pos-append q pool.free_pos (p ∷ [])

  pub freed-Freed : Freed ws pool p pool'
  freed-Freed =
      let n = get_chunk_count pool in
      let count_eq : get_chunk_count pool' ≡ n = get_chunk_count-IsArchetype pool' shape in
      record {
        valid = record {
          shape = rw count_eq shape;
          roomy = rw size_eq v.roomy;
          free_in = λ q h.
              rw (count_eq, size_eq)
                (elim (Bool-cases (eq_pos q p)) [
                  | inl same ↦
                      subst (InGrid n pool.chunk_size) (sym ((eq_pos_iff q p).0 same)) u.inside
                  | inr other ↦ v.free_in q (ground (arith, freed_mem q))
                ]);
          distinct = rw free_eq (Distinct-snoc pool.free_pos p v.distinct u.taken);
        };
        free_eq = free_eq;
        kept = λ q w h. record {
          inside = rw (count_eq, size_eq) w.inside;
          taken = ground (arith, freed_mem q, w.taken, eq_pos_iff p q, eq_pos_iff q p);
        };
        only = λ q w. record {
          inside = rw (count_eq, size_eq) at (w.inside);
          taken = ground (arith, freed_mem q, w.taken);
        };
        gone = λ q w. ground (arith, freed_mem q, w.taken, eq_pos_iff p q, eq_pos_iff q p);
        reads = reads;
      }

pub release_total :
    (ws : List ℕ) (pool : ArchetypePool) (p : Pos)
    → IsPool ws pool
    → Used p pool
    → Released ws pool p
release_total ws pool p v u =
    let r =
      reset_entity_at_index-Zeroed (freed p pool)
        (shape-free_pos (pool.free_pos ++ p ∷ []) pool v.shape) p u.inside in
    record {
      result = r.result;
      returned = reset_entity_at_indexes-one p (freed p pool) ∙ r.returned;
      freed =
          freed-Freed ws pool r.result p v u r.shape r.frame.chunk_size_eq r.frame.free_pos_eq
            λ j q h. ground (arith, r.reads j q, read-free_pos j q (pool.free_pos ++ p ∷ []) pool);
    }

-- Putting a position in use on the free list, before its contents are reset
pub put_free-Freed :
    (ws : List ℕ) (pool : ArchetypePool) (p : Pos)
    → IsPool ws pool
    → Used p pool
    → Freed ws pool p (freed p pool)
put_free-Freed ws pool p v u =
    freed-Freed ws pool (freed p pool) p v u (shape-free_pos (pool.free_pos ++ p ∷ []) pool v.shape)
      refl refl λ j q h. read-free_pos j q (pool.free_pos ++ p ∷ []) pool
