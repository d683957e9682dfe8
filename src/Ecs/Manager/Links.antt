-- ===== src/Ecs/Manager/Links.antt =====
-- libs/lib_ecs/EntityManager.hpp: handles and entities point at one another.
use project_e.Common.{
  ℕ, ◌≤◌, ◌^◌, ◌≡◌, ◌≢◌, sym, ◌∙◌, ◌⊎◌, some, List, [], ◌∷◌, arith, length, get_elem?, set,
  get_elem?-set,
}
use project_e.Ecs.Pos.{Pos}
use project_e.Ecs.Archetypes.{ArchetypePool, read, position_index, pool_id_index}
use project_e.Ecs.Manager.{Manager, pos_fields}
use project_e.Ecs.Manager.Pools.{IsPool, Used}

-- Entry `ptr` and the entity at `slot` of the pool at index `k` are in use and name one another.
pub record Linked (pool ptrs : ArchetypePool) (k : ℕ) (slot ptr : Pos) : Type 0 where
  pub slot_used : Used slot pool
  pub ptr_used : Used ptr ptrs
  pub back : read position_index slot pool ≡ some (pos_fields ptr)
  pub forth : read position_index ptr ptrs ≡ some (pos_fields slot)
  pub id : read pool_id_index ptr ptrs ≡ some (k ∷ [])

-- What an entry in use stands for.
pub record Entity (m : Manager) (ptr : Pos) : Type 0 where
  pub k : ℕ
  pub slot : Pos
  pub pool : ArchetypePool
  pub found : get_elem? m.pools k ≡ some pool
  pub linked : Linked pool m.ptrs k slot ptr

-- The entry of an entity.
pub record Handle (m : Manager) (k : ℕ) (slot : Pos) (pool : ArchetypePool) : Type 0 where
  pub ptr : Pos
  pub linked : Linked pool m.ptrs k slot ptr

-- The pools are well formed, the index of each fits the eight bits of a pool id, and the entries in
-- use and the entities in use correspond one to one.
pub record Inv (m : Manager) : Type 0 where
  pub ptrs_valid : IsPool (1 ∷ []) m.ptrs
  pub pools_valid :
      (k : ℕ) (pool : ArchetypePool)
      → get_elem? m.pools k ≡ some pool
      → (ws : List ℕ) × IsPool ws pool
  pub few : length m.pools ≤ 2 ^ 8
  pub entity : (ptr : Pos) → Used ptr m.ptrs → Entity m ptr
  pub handle :
      (k : ℕ) (slot : Pos) (pool : ArchetypePool)
      → get_elem? m.pools k ≡ some pool
      → Used slot pool
      → Handle m k slot pool

pub pos_fields-injective : (p q : Pos) → some (pos_fields p) ≡ some (pos_fields q) → p ≡ q
pos_fields-injective p q e = ground arith

-- An entity has one entry.
pub ptr_unique :
    {pool ptrs : ArchetypePool} {k : ℕ} {slot p q : Pos}
    → Linked pool ptrs k slot p
    → Linked pool ptrs k slot q
    → p ≡ q
ptr_unique {p = p} {q = q} a b = pos_fields-injective p q (sym a.back ∙ b.back)

pub slot_unique :
    {pool ptrs : ArchetypePool} {k j : ℕ} {pool' : ArchetypePool} {p q ptr : Pos}
    → Linked pool ptrs k p ptr
    → Linked pool' ptrs j q ptr
    → p ≡ q
slot_unique {p = p} {q = q} a b = pos_fields-injective p q (sym a.forth ∙ b.forth)

-- The pool at an index after a pool was replaced.
pub found-set :
    (m : Manager) (k j : ℕ) (pool pool' : ArchetypePool) {old : ArchetypePool}
    → get_elem? m.pools k ≡ some old
    → get_elem? (set m.pools k pool') j ≡ some pool
    → ((j ≡ k) × (pool ≡ pool')) ⊎ ((j ≢ k) × (get_elem? m.pools j ≡ some pool))
found-set m k j pool pool' at h = ground (arith, get_elem?-set m.pools k j pool' at)
