-- ===== src/Ecs/Manager/Destroy.antt =====
-- libs/lib_ecs/EntityManager.cpp: `destroyEntity` keeps handles and entities linked.
use project_e.Common.{
  ℕ, ◌≡◌, ◌≢◌, refl, sym, ◌∙◌, inl, inr, true, false, Option, some, List, [], ◌∷◌, ◌++◌, arith,
  get_elem?, set, ◌==◌, ==_iff, if◌then◌else◌, Bool-cases, subst, get_elem?-set, length-set, ◌>>=◌,
}
use project_e.Ecs.Pos.{Pos, eq_pos, eq_pos_iff}
use project_e.Ecs.Archetypes.{ArchetypePool, read, position_index, pool_id_index}
use project_e.Ecs.Manager.{Manager, to_pos, destroy_entity}
use project_e.Ecs.Manager.Free.{mem_pos, mem_pos-append}
use project_e.Ecs.Manager.Again.{Unsound, destroy_entity-Unsound}
use project_e.Ecs.Manager.Pools.{Used}
use project_e.Ecs.Manager.Releases.{Freed, release_total}
use project_e.Ecs.Manager.Links.{Linked, Entity, Handle, Inv, found-set, ptr_unique, slot_unique}

module _ {ws : List ℕ} (m : Manager) (k : ℕ) (pool : ArchetypePool) (slot ptr : Pos) (i : Inv m)
    (at : get_elem? m.pools k ≡ some pool) (old : Linked pool m.ptrs k slot ptr)
    (pool' ptrs' : ArchetypePool) (t : Freed ws pool slot pool')
    (u : Freed (1 ∷ []) m.ptrs ptr ptrs') where
  abbrev pub destroyed : Manager
  destroyed = record { pools = set m.pools k pool'; ptrs = ptrs' }

  found-destroyed :
      (j : ℕ) → get_elem? destroyed.pools j ≡ (if k == j then some pool' else get_elem? m.pools j)
  found-destroyed j = get_elem?-set m.pools k j pool' at

  slot_apart : (s q : Pos) → Linked pool m.ptrs k s q → eq_pos ptr q ≡ false → eq_pos slot s ≡ false
  slot_apart s q l apart = elim (Bool-cases (eq_pos slot s)) [
    | inl same ↦
        let same_ptr : ptr ≡ q =
          ptr_unique old
            (subst (λ x. Linked pool m.ptrs k x q) (sym ((eq_pos_iff slot s).0 same)) l) in
        ground (arith, (eq_pos_iff ptr q).1 same_ptr)
    | inr other ↦ other
  ]

  kept_same :
      (s q : Pos) → Linked pool m.ptrs k s q → eq_pos ptr q ≡ false → Linked pool' ptrs' k s q
  kept_same s q l apart =
      let far = slot_apart s q l apart in
      record {
        slot_used = t.kept s l.slot_used far;
        ptr_used = u.kept q l.ptr_used apart;
        back = t.reads position_index s far ∙ l.back;
        forth = u.reads position_index q apart ∙ l.forth;
        id = u.reads pool_id_index q apart ∙ l.id;
      }

  kept_other :
      (j : ℕ) (other : ArchetypePool) (s q : Pos)
      → Linked other m.ptrs j s q
      → eq_pos ptr q ≡ false
      → Linked other ptrs' j s q
  kept_other j other s q l apart = record {
    slot_used = l.slot_used;
    ptr_used = u.kept q l.ptr_used apart;
    back = l.back;
    forth = u.reads position_index q apart ∙ l.forth;
    id = u.reads pool_id_index q apart ∙ l.id;
  }

  pub kept-Entity :
      (q : Pos) (e : Entity m q)
      → eq_pos ptr q ≡ false
      → (f : Entity destroyed q) × (f.k ≡ e.k) × (f.slot ≡ e.slot)
  kept-Entity q e apart = elim (Bool-cases (k == e.k)) [
    | inl same ↦
        let k_eq : k ≡ e.k = (==_iff k e.k).0 same in
        let pool_eq : pool ≡ e.pool = ground (arith, at, e.found, k_eq) in
        (
          record {
            k = k;
            slot = e.slot;
            pool = pool';
            found = ground (arith, found-destroyed k);
            linked = kept_same e.slot q (rw (k_eq, pool_eq) e.linked) apart;
          },
          k_eq,
          refl,
        )
    | inr other ↦ (
      record {
        k = e.k;
        slot = e.slot;
        pool = e.pool;
        found = rw (found-destroyed e.k, other) e.found;
        linked = kept_other e.k e.pool e.slot q e.linked apart;
      },
      refl,
      refl,
    )
  ]

  same-Handle : (s : Pos) → Used s pool' → Handle destroyed k s pool'
  same-Handle s used =
      let h = i.handle k s pool at (t.only s used) in
      record {
        ptr = h.ptr;
        linked = kept_same s h.ptr h.linked (elim (Bool-cases (eq_pos ptr h.ptr)) [
          | inl same ↦
              let same_slot : slot ≡ s =
                slot_unique (subst (Linked pool m.ptrs k slot) ((eq_pos_iff ptr h.ptr).0 same) old)
                  h.linked in
              ground (arith, (eq_pos_iff slot s).1 same_slot, t.gone s used)
          | inr other ↦ other
        ]);
      }

  other-Handle :
      (j : ℕ) (s : Pos) (other : ArchetypePool)
      → j ≢ k
      → get_elem? m.pools j ≡ some other
      → Used s other
      → Handle destroyed j s other
  other-Handle j s other apart before used =
      let h = i.handle j s other before used in
      record {
        ptr = h.ptr;
        linked = kept_other j other s h.ptr h.linked (elim (Bool-cases (eq_pos ptr h.ptr)) [
          | inl same ↦
              let id =
                subst (λ q. read pool_id_index q m.ptrs ≡ some (k ∷ []))
                  ((eq_pos_iff ptr h.ptr).0 same) old.id in
              absurd (apart (ground (arith, id, h.linked.id)))
          | inr other ↦ other
        ]);
      }

  pub destroyed-Inv : Inv destroyed
  destroyed-Inv = record {
    ptrs_valid = u.valid;
    pools_valid = λ j other found. elim (found-set m k j other pool' at found) [
      | inl (_, other_eq) ↦ (ws, rw other_eq t.valid)
      | inr (_, before) ↦ i.pools_valid j other before
    ];
    few = omega (arith, length-set m.pools k pool', i.few);
    entity = λ q used. (kept-Entity q (i.entity q (u.only q used)) (u.gone q used)).0;
    handle = λ j s other found used. elim (found-set m k j other pool' at found) [
      | inl (j_eq, other_eq) ↦ rw (j_eq, other_eq) (same-Handle s (subst (Used s) other_eq used))
      | inr (apart, before) ↦ other-Handle j s other apart before used
    ];
  }

last_free : (p : Pos) (xs : List Pos) {ys : List Pos} → ys ≡ xs ++ p ∷ [] → mem_pos p ys ≡ true
last_free p xs e = rw e (ground (arith, mem_pos-append p xs (p ∷ []), eq_pos_iff p p))

-- What destroying the entity `e` of the entry `ptr` comes to: entry and position are the last free
-- ones of their pools, every other entity keeps its entry, its pool and its position, and the entry must not be
-- destroyed again.
pub record Destroyed (m : Manager) (ptr : Pos) (e : Entity m ptr) (outcome : Option Manager)
    : Type 0 where
  pub result : Manager
  pub pool : ArchetypePool
  pub returned : outcome ≡ some result
  pub valid : Inv result
  pub found : get_elem? result.pools e.k ≡ some pool
  pub ptr_free : result.ptrs.free_pos ≡ m.ptrs.free_pos ++ ptr ∷ []
  pub slot_free : pool.free_pos ≡ e.pool.free_pos ++ e.slot ∷ []
  pub kept :
      (q : Pos) (f : Entity m q)
      → eq_pos ptr q ≡ false
      → (g : Entity result q) × (g.k ≡ f.k) × (g.slot ≡ f.slot)
  pub again : Unsound (destroy_entity ptr result)

-- In a valid manager, `destroyEntity` on the handle of an entity succeeds and leaves a valid manager:
-- handle and position are the last free ones of their pools, and every other entity keeps its handle,
-- its pool and its position. Destroying the handle once more is not refused: it reads out of
-- range or leaves a manager that is not valid.
pub destroy_entity-Destroyed :
    (m : Manager) (ptr : Pos) (e : Entity m ptr) → Inv m → Destroyed m ptr e (destroy_entity ptr m)
unfolding destroy_entity to_pos
destroy_entity-Destroyed m ptr e i =
    let (ws, v) = i.pools_valid e.k e.pool e.found in
    let l = e.linked in
    let t = release_total ws e.pool e.slot v l.slot_used in
    let u = release_total (1 ∷ []) m.ptrs ptr i.ptrs_valid l.ptr_used in
    record {
      result = record { pools = set m.pools e.k t.result; ptrs = u.result };
      pool = t.result;
      returned =
          rw (l.id, ◌>>=◌)
            (rw (e.found, ◌>>=◌)
              (rw (l.forth, ◌>>=◌) (rw (u.returned, ◌>>=◌) (rw (t.returned, ◌>>=◌)))));
      valid = destroyed-Inv m e.k e.pool e.slot ptr i e.found l t.result u.result t.freed u.freed;
      found = ground (arith, get_elem?-set m.pools e.k e.k t.result e.found);
      ptr_free = u.freed.free_eq;
      slot_free = t.freed.free_eq;
      kept = λ q f apart.
          kept-Entity m e.k e.pool e.slot ptr i e.found l t.result u.result t.freed u.freed q f
            apart;
      again = destroy_entity-Unsound ptr _ (last_free ptr m.ptrs.free_pos u.freed.free_eq);
    }
