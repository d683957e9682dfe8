-- ===== src/Ecs/Manager/Carry.antt =====
-- libs/lib_ecs/EntityManager.hpp: a manager whose pool at one index and whose pointer pool are replaced
-- by pools in which what was in use still is and reads the same.
use project_e.Common.{
  ℕ, ◌≡◌, refl, ◌∙◌, inl, inr, some, arith, get_elem?, set, ◌==◌, ==_iff, if◌then◌else◌, Bool-cases,
  get_elem?-set,
}
use project_e.Ecs.Pos.{Pos}
use project_e.Ecs.Archetypes.{ArchetypePool, read, position_index, pool_id_index}
use project_e.Ecs.Manager.{Manager}
use project_e.Ecs.Manager.Pools.{Used}
use project_e.Ecs.Manager.Links.{Linked, Entity}

pub record Carries (pool pool' : ArchetypePool) : Type 0 where
  pub kept : (q : Pos) → Used q pool → Used q pool'
  pub reads : (j : ℕ) (q : Pos) → Used q pool → read j q pool' ≡ read j q pool

module _ (m : Manager) (k : ℕ) (pool pool' ptrs' : ArchetypePool)
    (at : get_elem? m.pools k ≡ some pool) (t : Carries pool pool') (u : Carries m.ptrs ptrs') where
  abbrev pub replaced : Manager
  replaced = record { pools = set m.pools k pool'; ptrs = ptrs' }

  pub found-replaced :
      (j : ℕ) → get_elem? replaced.pools j ≡ (if k == j then some pool' else get_elem? m.pools j)
  found-replaced j = get_elem?-set m.pools k j pool' at

  pub same-Linked : (s p : Pos) → Linked pool m.ptrs k s p → Linked pool' ptrs' k s p
  same-Linked s p l = record {
    slot_used = t.kept s l.slot_used;
    ptr_used = u.kept p l.ptr_used;
    back = t.reads position_index s l.slot_used ∙ l.back;
    forth = u.reads position_index p l.ptr_used ∙ l.forth;
    id = u.reads pool_id_index p l.ptr_used ∙ l.id;
  }

  pub other-Linked :
      (j : ℕ) (other : ArchetypePool) (s p : Pos)
      → Linked other m.ptrs j s p
      → Linked other ptrs' j s p
  other-Linked j other s p l = record {
    slot_used = l.slot_used;
    ptr_used = u.kept p l.ptr_used;
    back = l.back;
    forth = u.reads position_index p l.ptr_used ∙ l.forth;
    id = u.reads pool_id_index p l.ptr_used ∙ l.id;
  }

  -- Every entity that there was is still there, at the same place.
  pub replaced-Entity :
      (p : Pos) (e : Entity m p) → (f : Entity replaced p) × (f.k ≡ e.k) × (f.slot ≡ e.slot)
  replaced-Entity p e = elim (Bool-cases (k == e.k)) [
    | inl same ↦
        let k_eq : k ≡ e.k = (==_iff k e.k).0 same in
        let pool_eq : pool ≡ e.pool = ground (arith, at, e.found, k_eq) in
        (
          record {
            k = k;
            slot = e.slot;
            pool = pool';
            found = ground (arith, found-replaced k);
            linked = same-Linked e.slot p (rw (k_eq, pool_eq) e.linked);
          },
          k_eq,
          refl,
        )
    | inr other ↦ (
      record {
        k = e.k;
        slot = e.slot;
        pool = e.pool;
        found = rw (found-replaced e.k, other) e.found;
        linked = other-Linked e.k e.pool e.slot p e.linked;
      },
      refl,
      refl,
    )
  ]
