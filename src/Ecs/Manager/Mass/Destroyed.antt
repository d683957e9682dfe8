-- ===== src/Ecs/Manager/Mass/Destroyed.antt =====
-- libs/lib_ecs/EntityManager.cpp: what the destruction of many entities of one pool comes to.
use Prim.Native.String.{String}
use project_e.Common.{
  ℕ, ◌≡◌, refl, ap, ◌∙◌, true, false, Option, some, List, [], ◌∷◌, ◌++◌, arith, get_elem?, set,
  set-set, subst, get_elem?-set, All, ◌>>=◌,
}
use project_e.Ecs.Pos.{Pos}
use project_e.Ecs.Chunks.Access.{InGrid}
use project_e.Ecs.Archetypes.{ArchetypePool, get_chunk_count}
use project_e.Ecs.Manager.{Manager, find_pool, to_pos, slots_of, destroy_in, destroy_entities}
use project_e.Ecs.Manager.Free.{mem_pos, mem_pos-append, Distinct}
use project_e.Ecs.Manager.Pools.{IsPool, Used, Stable}
use project_e.Ecs.Manager.Links.{Inv}
use project_e.Ecs.Manager.Batch.Grow.{rewritten-Stable, each_member}
use project_e.Ecs.Manager.Batch.Pops.{AreMade, refitted-Inv, refitted-Entity}
use project_e.Ecs.Manager.Mass.Resets.{PoolReset, reset_pool_total}
use project_e.Ecs.Manager.Mass.Frees.{Left, frees}

-- The handles and the positions are the last free ones of their pools, in order; the handles are no
-- longer in use, the manager is valid, and every other entity keeps its handle, its pool and its
-- position.
pub record DestroyedAll (m : Manager) (k : ℕ) (pool : ArchetypePool) (slots handles : List Pos)
    (outcome : Option Manager) : Type 0 where
  pub result : Manager
  pub pool' : ArchetypePool
  pub returned : outcome ≡ some result
  pub left : Left m handles result
  pub found : get_elem? result.pools k ≡ some pool'
  pub slot_free : pool'.free_pos ≡ pool.free_pos ++ slots
  pub ptr_free : result.ptrs.free_pos ≡ m.ptrs.free_pos ++ handles
  pub gone : (q : Pos) → Used q result.ptrs → mem_pos q handles ≡ false

slots_of-AreMade :
    (m : Manager) (k : ℕ) (slots handles : List Pos)
    → AreMade m k slots handles
    → slots_of handles m.ptrs ≡ some slots
unfolding slots_of to_pos
slots_of-AreMade m k [] [] a = refl
slots_of-AreMade m k [] (h ∷ handles) a = elim a [ ]
slots_of-AreMade m k (s ∷ slots) [] a = elim a [ ]
slots_of-AreMade m k (s ∷ slots) (h ∷ handles) ((e, k_eq, s_eq), a) =
    rw (e.linked.forth, ◌>>=◌)
      (rw (slots_of-AreMade m k slots handles a, ◌>>=◌) (ap (λ p. some (p ∷ slots)) s_eq))

-- A pool whose last free positions are reset
record Cleared (ws : List ℕ) (pool : ArchetypePool) (ps : List Pos) : Type 0 where
  reset : PoolReset (1 ∷ 2 ∷ ws) (get_chunk_count pool) pool ps
  stable : Stable ws pool reset.result

clear_total :
    (ws : List ℕ) (pool : ArchetypePool) (free ps : List Pos)
    → IsPool ws pool
    → pool.free_pos ≡ free ++ ps
    → Cleared ws pool ps
clear_total ws pool free ps v e =
    let sub : (q : Pos) → mem_pos q ps ≡ true → mem_pos q pool.free_pos ≡ true =
      λ q h. ap (mem_pos q) e ∙ ground (arith, mem_pos-append q free ps, h) in
    let inside : All (InGrid (get_chunk_count pool) pool.chunk_size) ps =
      each_member _ ps λ q h. v.free_in q (sub q h) in
    let r = reset_pool_total pool ps v.shape inside in
    record { reset = r; stable = rewritten-Stable pool r.result ps v sub r.shape r.frame r.apart }

destroy_in_total :
    (m : Manager) (k : ℕ) (pool : ArchetypePool) (slots handles : List Pos)
    → Inv m
    → get_elem? m.pools k ≡ some pool
    → AreMade m k slots handles
    → Distinct handles
    → DestroyedAll m k pool slots handles (destroy_in k handles m)
unfolding destroy_in
destroy_in_total m k pool slots handles i at a d =
    let pool' : ArchetypePool = record pool { free_pos = pool.free_pos ++ slots } in
    let ptrs' : ArchetypePool = record m.ptrs { free_pos = m.ptrs.free_pos ++ handles } in
    let m' : Manager = record { pools = set m.pools k pool'; ptrs = ptrs' } in
    let l : Left m handles m' = frees m k pool slots handles i at a d in
    let at' : get_elem? m'.pools k ≡ some pool' =
      ground (arith, get_elem?-set m.pools k k pool' at) in
    let (ws, v) = l.valid.pools_valid k pool' at' in
    let c = clear_total ws pool' pool.free_pos slots v refl in
    let p = clear_total (1 ∷ []) ptrs' m.ptrs.free_pos handles l.valid.ptrs_valid refl in
    let result : Manager = record { pools = set m.pools k c.reset.result; ptrs = p.reset.result } in
    let path : record { pools = set m'.pools k c.reset.result; ptrs = p.reset.result } ≡ result =
      ap (λ ps. record { pools = ps; ptrs = p.reset.result })
        (set-set m.pools k pool' c.reset.result) in
    let left : Left m handles
        (record { pools = set m'.pools k c.reset.result; ptrs = p.reset.result }) =
      record {
        valid = refitted-Inv m' k pool' c.reset.result p.reset.result l.valid at' c.stable p.stable;
        kept = λ q e apart.
            let (f, k_eq, s_eq) = l.kept q e apart in
            let (g, k_eq', s_eq') =
              refitted-Entity m' k pool' c.reset.result p.reset.result l.valid at' c.stable p.stable
                q f in
            (g, k_eq' ∙ k_eq, s_eq' ∙ s_eq);
      } in
    let ptr_free = p.reset.frame.free_pos_eq in
    record {
      result = result;
      pool' = c.reset.result;
      returned =
          rw (at, ◌>>=◌)
            (rw (slots_of-AreMade m k slots handles a, ◌>>=◌)
              (rw (p.reset.returned, ◌>>=◌) (rw (c.reset.returned, ◌>>=◌))));
      left = subst (Left m handles) path left;
      found = ground (arith, get_elem?-set m.pools k k c.reset.result at);
      slot_free = c.reset.frame.free_pos_eq;
      ptr_free = ptr_free;
      gone = λ q u.
          ground
            (arith, u.taken, ap (mem_pos q) ptr_free, mem_pos-append q m.ptrs.free_pos handles);
    }

-- In a valid manager with a pool of that name, `destroyEntities` on distinct handles of entities of that
-- pool succeeds and leaves a valid manager: the handles are no longer in use, they and the positions
-- are the last free ones of their pools, in order, and every other entity keeps its handle, its pool
-- and its position.
pub destroy_entities-DestroyedAll :
    (m : Manager) (name : String) (k : ℕ) (pool : ArchetypePool) (slots handles : List Pos)
    → Inv m
    → find_pool name m.pools ≡ some k
    → get_elem? m.pools k ≡ some pool
    → AreMade m k slots handles
    → Distinct handles
    → DestroyedAll m k pool slots handles (destroy_entities handles name m)
unfolding destroy_entities
destroy_entities-DestroyedAll m name k pool slots handles i e at a d =
    rw (e, destroy_entities) (destroy_in_total m k pool slots handles i at a d)
