-- ===== src/Ecs/Manager/Create.antt =====
-- libs/lib_ecs/EntityManager.hpp: `createEntity` keeps handles and entities linked.
use Prim.Native.String.{String}
use text.Mathlib.Text.{◌==◌ as str_eq}
use project_e.Common.{
  get_elem?_total, Option-cases, ℕ, ◌≡◌, ap, ◌∙◌, inl, inr, false, some, List, [], ◌∷◌, arith,
  get_elem?, set, Bool-cases, get_elem?-set, Option, ◌<◌, length, get_elem?-lt, ◌>>=◌,
}
use project_e.Ecs.Pos.{Pos, eq_pos}
use project_e.Ecs.Archetypes.{ArchetypePool, read, position_index, pool_id_index, status_index}
use project_e.Ecs.Manager.Extend.{Taken, Grown-Taken, slot-InGrid, created-Inv, kept-Entity}
use project_e.Ecs.Manager.{
  Manager, create_in, find_pool, create_entity, split_free, ensure_free, pool_id,
}
use project_e.Ecs.Manager.Pools.{Used, ensure_free-Grown}
use project_e.Ecs.Manager.Claims.{read-free_pos, claim_entity_total, claim_ptr_total, claim-Claimed}
use project_e.Ecs.Manager.Links.{Linked, Entity, Inv}

-- What a creation in the pool at `k` comes to: the new entity has the status and a new entry, the two
-- name one another, and every entity that there was keeps its entry, its pool and its position.
pub record Created (m : Manager) (k status : ℕ) (outcome : Option (Pos × Manager)) : Type 0 where
  pub slot : Pos
  pub ptr : Pos
  pub result : Manager
  pub pool : ArchetypePool
  pub returned : outcome ≡ some (slot, result)
  pub valid : Inv result
  pub found : get_elem? result.pools k ≡ some pool
  pub linked : Linked pool result.ptrs k slot ptr
  pub status_set : read status_index slot pool ≡ some (status ∷ [])
  pub ptr_new : (p : Pos) → Used p m.ptrs → eq_pos ptr p ≡ false
  pub kept : (p : Pos) (e : Entity m p) → (f : Entity result p) × (f.k ≡ e.k) × (f.slot ≡ e.slot)

create_in_total :
    (m : Manager) (k status : ℕ) {pool : ArchetypePool}
    → Inv m
    → get_elem? m.pools k ≡ some pool
    → Created m k status (create_in k status m)
unfolding create_in split_free
create_in_total m k status {pool} i at =
    let (ws, v) = i.pools_valid k pool at in
    let g = ensure_free-Grown ws pool v in
    let h = ensure_free-Grown (1 ∷ []) m.ptrs i.ptrs_valid in
    let ec =
      claim_entity_total ws (ensure_free pool) g.slot h.slot status g.valid
        (slot-InGrid ws pool (ensure_free pool) g) in
    let pc =
      claim_ptr_total (ensure_free m.ptrs) h.slot g.slot (pool_id k) h.valid
        (slot-InGrid (1 ∷ []) m.ptrs (ensure_free m.ptrs) h) in
    let pool' : ArchetypePool = record ec.result { free_pos = g.rest } in
    let ptrs' : ArchetypePool = record pc.result { free_pos = h.rest } in
    let t : Taken ws pool g.slot pool' =
      Grown-Taken ws pool (ensure_free pool) ec.result g
        (claim-Claimed ws (ensure_free pool) ec.result g.slot g.rest g.valid g.free_eq ec.shape
          ec.frame)
        ec.reads in
    let u : Taken (1 ∷ []) m.ptrs h.slot ptrs' =
      Grown-Taken (1 ∷ []) m.ptrs (ensure_free m.ptrs) pc.result h
        (claim-Claimed (1 ∷ []) (ensure_free m.ptrs) pc.result h.slot h.rest h.valid h.free_eq
          pc.shape pc.frame)
        pc.reads in
    let id_eq : pool_id k ≡ k = omega (arith, get_elem?-lt m.pools k at, i.few) in
    let new : Linked pool' ptrs' k g.slot h.slot = record {
      slot_used = t.now;
      ptr_used = u.now;
      back = read-free_pos position_index g.slot g.rest ec.result ∙ ec.position_set;
      forth = read-free_pos position_index h.slot h.rest pc.result ∙ pc.position_set;
      id =
          read-free_pos pool_id_index h.slot h.rest pc.result
          ∙ pc.id_set
          ∙ ap (λ n. some (n ∷ [])) id_eq;
    } in
    record {
      slot = g.slot;
      ptr = h.slot;
      result = record { pools = set m.pools k pool'; ptrs = ptrs' };
      pool = pool';
      returned =
          rw (at, ◌>>=◌)
            (rw (g.free_eq, ◌>>=◌)
              (rw (h.free_eq, ◌>>=◌) (rw (ec.returned, ◌>>=◌) (rw (pc.returned, ◌>>=◌)))));
      valid = created-Inv m k pool pool' ptrs' g.slot h.slot i at t u new;
      found = ground (arith, get_elem?-set m.pools k k pool' at);
      linked = new;
      status_set = read-free_pos status_index g.slot g.rest ec.result ∙ ec.status_set;
      ptr_new = u.fresh;
      kept = λ p e. kept-Entity m k pool pool' ptrs' g.slot h.slot i at t u new p e;
    }

pub find_pool-lt :
    (name : String) (pools : List ArchetypePool) (k : ℕ)
    → find_pool name pools ≡ some k
    → k < length pools
unfolding find_pool
find_pool-lt name [] k e = cc
find_pool-lt name (pool ∷ pools) k e = elim (Bool-cases (str_eq pool.name name)) [
  | inl hit ↦ ground arith
  | inr miss ↦ elim (Option-cases (find_pool name pools)) [
    | inl f ↦ ground arith
    | inr (j, f) ↦ ground (arith, find_pool-lt name pools j f)
  ]
]

-- In a valid manager with a pool of that name, `createEntity` gives the position of a new entity with
-- the status asked for and a handle that no entity had; handle and entity name one another, the manager
-- is valid, and every entity keeps its handle, its pool and its position.
pub create_entity-Created :
    (m : Manager) (name : String) (status k : ℕ)
    → Inv m
    → find_pool name m.pools ≡ some k
    → Created m k status (create_entity name status m)
unfolding create_entity
create_entity-Created m name status k i e =
    let (pool, at) = get_elem?_total m.pools k (find_pool-lt name m.pools k e) in
    rw (e, ◌>>=◌) (create_in_total m k status i at)
