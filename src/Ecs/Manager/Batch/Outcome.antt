-- ===== src/Ecs/Manager/Batch/Outcome.antt =====
-- libs/lib_ecs/EntityManager.hpp: what the creation of many entities leaves.
use project_e.Common.{
  ℕ, ◌≡◌, refl, sym, true, false, Option, some, List, [], ◌∷◌, arith, length, map, get_elem?, subst,
  Bool-cases, inl, inr,
}
use project_e.Ecs.Pos.{Pos, eq_pos, eq_pos_iff, eq_pos_refl}
use project_e.Ecs.Archetypes.{ArchetypePool, read, status_index, position_index, pool_id_index}
use project_e.Ecs.Manager.{Manager, pos_fields}
use project_e.Ecs.Manager.Free.{mem_pos, Distinct}
use project_e.Ecs.Manager.Batch.{returned_view}
use project_e.Ecs.Manager.Batch.Writes.{Holds}
use project_e.Ecs.Manager.Batch.Pops.{Paired, AreMade, Popped}

-- The outcome of a batch in the pool at `k`: the positions of `count` new entities with the status, each
-- with a handle of its own that no entity had, in a valid manager in which every entity keeps its
-- handle, its pool and its position. The view of EntityManager.cpp has none of the new handles.
pub record BatchCreated (m : Manager) (k count status : ℕ) (outcome : Option (List Pos × Manager))
    : Type 0 where
  pub slots : List Pos
  pub handles : List Pos
  pub result : Manager
  pub pool : ArchetypePool
  pub returned : outcome ≡ some (slots, result)
  pub many : length slots ≡ count
  pub distinct : Distinct slots × Distinct handles
  pub found : get_elem? result.pools k ≡ some pool
  pub statuses : (q : Pos) → mem_pos q slots ≡ true → read status_index q pool ≡ some (status ∷ [])
  pub popped : Popped m k slots handles result
  pub view : (q : Pos) → mem_pos q (returned_view count result) ≡ true → mem_pos q handles ≡ false

pub holds-Paired :
    (pool ptrs : ArchetypePool) (k : ℕ) (slots handles : List Pos)
    → Holds (λ q. read position_index q pool) slots (map pos_fields handles)
    → Holds (λ q. read position_index q ptrs) handles (map pos_fields slots)
    → ((q : Pos) → mem_pos q handles ≡ true → read pool_id_index q ptrs ≡ some (k ∷ []))
    → Paired pool ptrs k slots handles
holds-Paired pool ptrs k [] [] b f d = tt
holds-Paired pool ptrs k [] (h ∷ handles) b f d = b
holds-Paired pool ptrs k (s ∷ slots) [] b f d = b
holds-Paired pool ptrs k (s ∷ slots) (h ∷ handles) b f d = (
  (b.0, f.0, d h (ground (arith, eq_pos_refl h))),
  holds-Paired pool ptrs k slots handles b.1 f.1 λ q m. d q (ground (arith, m)),
)

-- A handle is not free.
pub made_taken :
    (m : Manager) (k : ℕ) (slots handles : List Pos) (q : Pos)
    → AreMade m k slots handles
    → mem_pos q m.ptrs.free_pos ≡ true
    → mem_pos q handles ≡ false
made_taken m k [] [] q a h = refl
made_taken m k [] (x ∷ handles) q a h = elim a [ ]
made_taken m k (s ∷ slots) [] q a h = refl
made_taken m k (s ∷ slots) (x ∷ handles) q a h = elim (Bool-cases (eq_pos q x)) [
  | inl same ↦
      let taken =
        subst (λ y. mem_pos y m.ptrs.free_pos ≡ false) (sym ((eq_pos_iff q x).0 same))
          a.0.0.linked.ptr_used.taken in
      ground arith
  | inr other ↦ ground (arith, made_taken m k slots handles q a.1 h)
]
