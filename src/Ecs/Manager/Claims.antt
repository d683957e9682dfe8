-- ===== src/Ecs/Manager/Claims.antt =====
-- libs/lib_ecs/EntityManager.hpp: claiming the first free position of a pool, and giving one back.
use project_e.Common.{ℕ, ◌≡◌, refl, ap, ◌∙◌, false, ◌||◌, some, List, [], ◌∷◌, arith, subst, ◌>>=◌}
use project_e.Ecs.Pos.{Pos, eq_pos, eq_pos_iff, eq_pos_refl}
use project_e.Ecs.Chunks.Access.{InGrid}
use project_e.Ecs.Archetypes.{
  ArchetypePool, read, get_chunk_count, status_index, position_index, pool_id_index,
}
use project_e.Ecs.Archetypes.Access.{write_total, get_chunk_count-IsArchetype}
use project_e.Ecs.Archetypes.Widths.{IsArchetype, SameFrame}
use project_e.Ecs.Manager.{claim_entity, claim_ptr, pos_fields, alive}
use project_e.Ecs.Manager.Free.{mem_pos, Distinct}
use project_e.Ecs.Manager.Pools.{IsPool, Used}

pub read-free_pos :
    (j : ℕ) (q : Pos) (ps : List Pos) (pool : ArchetypePool)
    → read j q (record pool { free_pos = ps }) ≡ read j q pool
unfolding read
read-free_pos j q ps pool = refl

pub get_chunk_count-free_pos :
    (ps : List Pos) (pool : ArchetypePool)
    → get_chunk_count (record pool { free_pos = ps }) ≡ get_chunk_count pool
unfolding get_chunk_count
get_chunk_count-free_pos ps pool = refl

pub shape-free_pos :
    {widths : List ℕ} {count : ℕ} (ps : List Pos) (pool : ArchetypePool)
    → IsArchetype widths count pool
    → IsArchetype widths count (record pool { free_pos = ps })
shape-free_pos ps pool s = record { widths_eq = s.widths_eq; grids = s.grids }

-- `p` has come into use, and nothing else has changed its use.
pub record Claimed (ws : List ℕ) (pool : ArchetypePool) (p : Pos) (pool' : ArchetypePool)
    : Type 0 where
  pub valid : IsPool ws pool'
  pub now : Used p pool'
  pub fresh : (q : Pos) → Used q pool → eq_pos p q ≡ false
  pub kept : (q : Pos) → Used q pool → Used q pool'
  pub only : (q : Pos) → Used q pool' → eq_pos p q ≡ false → Used q pool

pub claim-Claimed :
    (ws : List ℕ) (pool pool' : ArchetypePool) (p : Pos) (ps : List Pos)
    → IsPool ws pool
    → pool.free_pos ≡ p ∷ ps
    → IsArchetype (1 ∷ 2 ∷ ws) (get_chunk_count pool) pool'
    → SameFrame pool pool'
    → Claimed ws pool p (record pool' { free_pos = ps })
claim-Claimed ws pool pool' p ps v e s f =
    let count_eq : get_chunk_count (record pool' { free_pos = ps }) ≡ get_chunk_count pool =
      get_chunk_count-free_pos ps pool' ∙ get_chunk_count-IsArchetype pool' s in
    let mem : (q : Pos) → mem_pos q pool.free_pos ≡ (eq_pos q p || mem_pos q ps) =
      λ q. ap (mem_pos q) e in
    let d : Distinct (p ∷ ps) = subst Distinct e v.distinct in
    record {
      valid = record {
        shape = rw count_eq (shape-free_pos ps pool' s);
        roomy = rw f.chunk_size_eq v.roomy;
        free_in = λ q h. rw (count_eq, f.chunk_size_eq) (v.free_in q (ground (arith, mem q)));
        distinct = d.1;
      };
      now = record {
        inside =
            rw (count_eq, f.chunk_size_eq) (v.free_in p (ground (arith, mem p, eq_pos_refl p)));
        taken = d.0;
      };
      fresh = λ q u. ground (arith, mem q, u.taken, eq_pos_iff p q, eq_pos_iff q p);
      kept = λ q u. record {
        inside = rw (count_eq, f.chunk_size_eq) u.inside;
        taken = ground (arith, mem q, u.taken);
      };
      only = λ q u h. record {
        inside = rw (count_eq, f.chunk_size_eq) at (u.inside);
        taken = ground (arith, mem q, u.taken, eq_pos_iff p q, eq_pos_iff q p);
      };
    }

-- The writes to the entity's pool
pub record EntityClaimed (ws : List ℕ) (pool : ArchetypePool) (slot ptr : Pos) (status : ℕ)
    : Type 0 where
  pub result : ArchetypePool
  pub returned : claim_entity slot ptr status pool ≡ some result
  pub shape : IsArchetype (1 ∷ 2 ∷ ws) (get_chunk_count pool) result
  pub frame : SameFrame pool result
  pub status_set : read status_index slot result ≡ some (status ∷ [])
  pub position_set : read position_index slot result ≡ some (pos_fields ptr)
  pub reads : (j : ℕ) (q : Pos) → eq_pos slot q ≡ false → read j q result ≡ read j q pool

pub frame_trans : {a b c : ArchetypePool} → SameFrame a b → SameFrame b c → SameFrame a c
frame_trans f g = record {
  name_eq = g.name_eq ∙ f.name_eq;
  chunk_size_eq = g.chunk_size_eq ∙ f.chunk_size_eq;
  free_pos_eq = g.free_pos_eq ∙ f.free_pos_eq;
}

pub claim_entity_total :
    (ws : List ℕ) (pool : ArchetypePool) (slot ptr : Pos) (status : ℕ)
    → IsPool ws pool
    → InGrid (get_chunk_count pool) pool.chunk_size slot
    → EntityClaimed ws pool slot ptr status
unfolding claim_entity
claim_entity_total ws pool slot ptr status v h =
    let a = write_total pool v.shape status_index slot (status ∷ []) refl refl h in
    let h' : InGrid (get_chunk_count pool) a.result.chunk_size slot = rw a.frame.chunk_size_eq h in
    let b = write_total a.result a.shape position_index slot (pos_fields ptr) refl refl h' in
    record {
      result = b.result;
      returned = rw (a.returned, ◌>>=◌) b.returned;
      shape = b.shape;
      frame = frame_trans a.frame b.frame;
      status_set =
          ground (arith, b.reads status_index slot, a.reads status_index slot, eq_pos_refl slot);
      position_set = ground (arith, b.reads position_index slot, eq_pos_refl slot);
      reads = λ j q miss. ground (arith, b.reads j q, a.reads j q);
    }

-- The writes to the pointer pool
pub record PtrClaimed (ptrs : ArchetypePool) (ptr slot : Pos) (id : ℕ) : Type 0 where
  pub result : ArchetypePool
  pub returned : claim_ptr ptr slot id ptrs ≡ some result
  pub shape : IsArchetype (1 ∷ 2 ∷ 1 ∷ []) (get_chunk_count ptrs) result
  pub frame : SameFrame ptrs result
  pub position_set : read position_index ptr result ≡ some (pos_fields slot)
  pub id_set : read pool_id_index ptr result ≡ some (id ∷ [])
  pub reads : (j : ℕ) (q : Pos) → eq_pos ptr q ≡ false → read j q result ≡ read j q ptrs

pub claim_ptr_total :
    (ptrs : ArchetypePool) (ptr slot : Pos) (id : ℕ)
    → IsPool (1 ∷ []) ptrs
    → InGrid (get_chunk_count ptrs) ptrs.chunk_size ptr
    → PtrClaimed ptrs ptr slot id
unfolding claim_ptr
claim_ptr_total ptrs ptr slot id v h =
    let n = get_chunk_count ptrs in
    let a = write_total ptrs v.shape status_index ptr (alive ∷ []) refl refl h in
    let ha : InGrid n a.result.chunk_size ptr = rw a.frame.chunk_size_eq h in
    let b = write_total a.result a.shape position_index ptr (pos_fields slot) refl refl ha in
    let hb : InGrid n b.result.chunk_size ptr = rw b.frame.chunk_size_eq ha in
    let c = write_total b.result b.shape pool_id_index ptr (id ∷ []) refl refl hb in
    record {
      result = c.result;
      returned = rw (a.returned, ◌>>=◌) (rw (b.returned, ◌>>=◌) c.returned);
      shape = c.shape;
      frame = frame_trans a.frame (frame_trans b.frame c.frame);
      position_set =
          ground (arith, c.reads position_index ptr, b.reads position_index ptr, eq_pos_refl ptr);
      id_set = ground (arith, c.reads pool_id_index ptr, eq_pos_refl ptr);
      reads = λ j q miss. ground (arith, c.reads j q, b.reads j q, a.reads j q);
    }
