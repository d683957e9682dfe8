-- ===== src/Ecs/Manager/Batch/Made.antt =====
-- libs/lib_ecs/EntityManager.hpp and EntityManager.cpp: what the creation of many entities comes to.
use Prim.Native.String.{String}
use project_e.Common.{
  ℕ, ◌≡◌, ap, ◌∙◌, sym, true, some, List, [], ◌∷◌, ◌++◌, arith, length, take, drop, get_elem?, set,
  set-set, subst, get_elem?-set, get_elem?_total, get_elem?-lt, length-take, take-append-drop,
  ◌>>=◌,
}
use project_e.Ecs.Pos.{Pos}
use project_e.Ecs.Archetypes.{ArchetypePool, read, status_index}
use project_e.Ecs.Manager.{Manager, find_pool, pool_id}
use project_e.Ecs.Manager.Create.{find_pool-lt}
use project_e.Ecs.Manager.Free.{mem_pos, Distinct}
use project_e.Ecs.Manager.Pools.{IsPool, Stable}
use project_e.Ecs.Manager.Claims.{read-free_pos}
use project_e.Ecs.Manager.Links.{Inv}
use project_e.Ecs.Manager.Batch.{erase_free, create_batch, create_entities, returned_view}
use project_e.Ecs.Manager.Batch.Fill.{fill_entities_total, fill_ptrs_total}
use project_e.Ecs.Manager.Batch.Grow.{
  grow_total, Stable-trans, mem_pos-take, take-Distinct, take-InGrid, rewritten-Stable,
}
use project_e.Ecs.Manager.Batch.Pops.{refitted-Inv, refitted-Entity, Paired, Popped, pops}
use project_e.Ecs.Manager.Batch.Outcome.{BatchCreated, holds-Paired, made_taken}

-- The pools grown and filled, before the positions leave the free lists
record Prepared (m : Manager) (k count status : ℕ) (ws : List ℕ) (pool : ArchetypePool)
    : Type 0 where
  slots : List Pos
  handles : List Pos
  filled : ArchetypePool
  ptrs : ArchetypePool
  returned :
      create_batch k count status m
      ≡ some (
        slots,
        record { pools = set m.pools k (erase_free count filled); ptrs = erase_free count ptrs },
      )
  many : length slots ≡ count
  distinct : Distinct slots × Distinct handles
  stable : Stable ws pool filled × Stable (1 ∷ []) m.ptrs ptrs
  split :
      (filled.free_pos ≡ slots ++ drop count filled.free_pos)
      × (ptrs.free_pos ≡ handles ++ drop count ptrs.free_pos)
  paired : Paired filled ptrs k slots handles
  statuses : (q : Pos) → mem_pos q slots ≡ true → read status_index q filled ≡ some (status ∷ [])

taken_split :
    (count : ℕ) (pool pool' : ArchetypePool)
    → pool'.free_pos ≡ pool.free_pos
    → pool'.free_pos ≡ take count pool.free_pos ++ drop count pool'.free_pos
taken_split count pool pool' e =
    sym (take-append-drop count pool'.free_pos)
    ∙ ap (λ ps. take count ps ++ drop count pool'.free_pos) e

prepare :
    (m : Manager) (k count status : ℕ) (ws : List ℕ) {pool : ArchetypePool}
    → Inv m
    → get_elem? m.pools k ≡ some pool
    → IsPool ws pool
    → Prepared m k count status ws pool
unfolding create_batch
prepare m k count status ws {pool} i at v =
    let g = grow_total ws count count pool v (omega arith) in
    let h = grow_total (1 ∷ []) count count m.ptrs i.ptrs_valid (omega arith) in
    let slots = take count g.result.free_pos in
    let handles = take count h.result.free_pos in
    let many : length slots ≡ count =
      omega (arith, length-take count g.result.free_pos, g.enough) in
    let many' : length handles ≡ count =
      omega (arith, length-take count h.result.free_pos, h.enough) in
    let gv = g.stable.valid in
    let hv = h.stable.valid in
    let ds = take-Distinct count g.result.free_pos gv.distinct in
    let dh = take-Distinct count h.result.free_pos hv.distinct in
    let e =
      fill_entities_total ws g.result slots handles status gv (take-InGrid g.result count gv) ds
        (many' ∙ sym many) in
    let f =
      fill_ptrs_total h.result handles slots (pool_id k) hv (take-InGrid h.result count hv) dh
        (many ∙ sym many') in
    let id_eq : pool_id k ≡ k = omega (arith, get_elem?-lt m.pools k at, i.few) in
    record {
      slots = slots;
      handles = handles;
      filled = e.result;
      ptrs = f.result;
      returned =
          rw (at, ◌>>=◌)
            (rw (g.returned, ◌>>=◌)
              (rw (h.returned, ◌>>=◌) (rw (e.returned, ◌>>=◌) (rw (f.returned, ◌>>=◌)))));
      many = many;
      distinct = (ds, dh);
      stable = (
        Stable-trans g.stable (
            rewritten-Stable g.result e.result slots gv (mem_pos-take count g.result.free_pos)
              e.shape e.frame e.apart),
        Stable-trans h.stable (
            rewritten-Stable h.result f.result handles hv (mem_pos-take count h.result.free_pos)
              f.shape f.frame f.apart),
      );
      split = (
        taken_split count g.result e.result e.frame.free_pos_eq,
        taken_split count h.result f.result f.frame.free_pos_eq,
      );
      paired =
          holds-Paired e.result f.result k slots handles e.backs f.forths
            λ q x. f.ids q x ∙ ap (λ n. some (n ∷ [])) id_eq;
      statuses = e.statuses;
    }

create_batch_total :
    (m : Manager) (k count status : ℕ) {pool : ArchetypePool}
    → Inv m
    → get_elem? m.pools k ≡ some pool
    → BatchCreated m k count status (create_batch k count status m)
unfolding returned_view
create_batch_total m k count status {pool} i at =
    let (ws, v) = i.pools_valid k pool at in
    let b = prepare m k count status ws i at v in
    let (t, u) = b.stable in
    let m' : Manager = record { pools = set m.pools k b.filled; ptrs = b.ptrs } in
    let at' : get_elem? m'.pools k ≡ some b.filled =
      ground (arith, get_elem?-set m.pools k k b.filled at) in
    let rest = drop count b.filled.free_pos in
    let result : Manager = record {
      pools = set m.pools k (erase_free count b.filled);
      ptrs = erase_free count b.ptrs;
    } in
    let r : Popped m' k b.slots b.handles result =
      subst (Popped m' k b.slots b.handles)
        (ap (λ ps. record { pools = ps; ptrs = erase_free count b.ptrs })
          (set-set m.pools k b.filled (erase_free count b.filled)))
        (pops ws m' k b.filled b.slots b.handles rest (drop count b.ptrs.free_pos)
          (refitted-Inv m k pool b.filled b.ptrs i at t u) at' t.valid b.split.0 b.split.1
          b.paired) in
    record {
      slots = b.slots;
      handles = b.handles;
      result = result;
      pool = erase_free count b.filled;
      returned = b.returned;
      many = b.many;
      distinct = b.distinct;
      found = ground (arith, get_elem?-set m.pools k k (erase_free count b.filled) at);
      statuses = λ q x. read-free_pos status_index q rest b.filled ∙ b.statuses q x;
      popped = record {
        valid = r.valid;
        made = r.made;
        fresh = λ q used. r.fresh q (u.kept q used);
        kept = λ q x.
            let (y, k_eq, s_eq) = refitted-Entity m k pool b.filled b.ptrs i at t u q x in
            let (z, k_eq', s_eq') = r.kept q y in (z, k_eq' ∙ k_eq, s_eq' ∙ s_eq);
      };
      view = λ q x.
          made_taken result k b.slots b.handles q r.made
            (mem_pos-take count result.ptrs.free_pos q x);
    }

-- In a valid manager with a pool of that name, `createEntities` ends and gives the positions of as many
-- new entities as asked for, all different, with the status asked for, each with a handle of its own
-- that no entity had; handles and entities name one another, the manager is valid, and every entity
-- keeps its handle, its pool and its position. None of the new handles is in the view that
-- `_createEntities` of EntityManager.cpp returns.
pub create_entities-BatchCreated :
    (m : Manager) (name : String) (count status k : ℕ)
    → Inv m
    → find_pool name m.pools ≡ some k
    → BatchCreated m k count status (create_entities name count status m)
unfolding create_entities
create_entities-BatchCreated m name count status k i e =
    let (pool, at) = get_elem?_total m.pools k (find_pool-lt name m.pools k e) in
    rw (e, ◌>>=◌) (create_batch_total m k count status i at)
