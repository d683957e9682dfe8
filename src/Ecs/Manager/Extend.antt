-- ===== src/Ecs/Manager/Extend.antt =====
-- libs/lib_ecs/EntityManager.hpp: a manager in which one more position of a pool and one more entry
-- of the pointer pool are in use and name one another.
use project_e.Common.{
  ℕ, ◌≡◌, ap, ◌∙◌, inl, inr, false, some, List, [], ◌∷◌, arith, get_elem?, set, ◌==◌, if◌then◌else◌,
  Bool-cases, subst, length-set,
}
use project_e.Ecs.Pos.{Pos, eq_pos, eq_pos_iff, eq_pos_refl}
use project_e.Ecs.Chunks.Access.{InGrid}
use project_e.Ecs.Archetypes.{ArchetypePool, read, get_chunk_count}
use project_e.Ecs.Manager.{Manager}
use project_e.Ecs.Manager.Free.{mem_pos}
use project_e.Ecs.Manager.Pools.{IsPool, Used, Grown}
use project_e.Ecs.Manager.Carry.{
  Carries, found-replaced, same-Linked, other-Linked, replaced-Entity,
}
use project_e.Ecs.Manager.Claims.{Claimed, read-free_pos}
use project_e.Ecs.Manager.Links.{Linked, Entity, Handle, Inv, found-set}

-- A free position `p` of the pool has come into use; every position that was in use still is, and
-- reads as before.
pub record Taken (ws : List ℕ) (pool : ArchetypePool) (p : Pos) (pool' : ArchetypePool)
    : Type 0 where
  pub valid : IsPool ws pool'
  pub now : Used p pool'
  pub fresh : (q : Pos) → Used q pool → eq_pos p q ≡ false
  pub kept : (q : Pos) → Used q pool → Used q pool'
  pub only : (q : Pos) → Used q pool' → eq_pos p q ≡ false → Used q pool
  pub reads : (j : ℕ) (q : Pos) → Used q pool → read j q pool' ≡ read j q pool

Taken-Carries :
    {ws : List ℕ} {pool pool' : ArchetypePool} {p : Pos}
    → Taken ws pool p pool'
    → Carries pool pool'
Taken-Carries t = record { kept = t.kept; reads = t.reads }

pub Grown-Taken :
    (ws : List ℕ) (pool grown result : ArchetypePool) (g : Grown ws pool grown)
    → Claimed ws grown g.slot (record result { free_pos = g.rest })
    → ((j : ℕ) (q : Pos) → eq_pos g.slot q ≡ false → read j q result ≡ read j q grown)
    → Taken ws pool g.slot (record result { free_pos = g.rest })
Grown-Taken ws pool grown result g c reads = record {
  valid = c.valid;
  now = c.now;
  fresh = λ q u. c.fresh q (g.kept q u);
  kept = λ q u. c.kept q (g.kept q u);
  only = λ q u h. g.only q (c.only q u h);
  reads =
      λ j q u. read-free_pos j q g.rest result ∙ reads j q (c.fresh q (g.kept q u)) ∙ g.reads j q u;
}

pub slot-InGrid :
    (ws : List ℕ) (pool grown : ArchetypePool) (g : Grown ws pool grown)
    → InGrid (get_chunk_count grown) grown.chunk_size g.slot
slot-InGrid ws pool grown g =
    let v = g.valid in
    v.free_in g.slot (ground (arith, ap (mem_pos g.slot) g.free_eq, eq_pos_refl g.slot))

-- The manager after one entity of the pool at `k` was created.
module _ {ws : List ℕ} (m : Manager) (k : ℕ) (pool pool' ptrs' : ArchetypePool) (slot ptr : Pos)
    (i : Inv m) (at : get_elem? m.pools k ≡ some pool) (t : Taken ws pool slot pool')
    (u : Taken (1 ∷ []) m.ptrs ptr ptrs') (new : Linked pool' ptrs' k slot ptr) where
  abbrev pub created : Manager
  created = record { pools = set m.pools k pool'; ptrs = ptrs' }

  found-created :
      (j : ℕ) → get_elem? created.pools j ≡ (if k == j then some pool' else get_elem? m.pools j)
  found-created j = found-replaced m k pool pool' ptrs' at (Taken-Carries t) (Taken-Carries u) j

  kept_same : (s p : Pos) → Linked pool m.ptrs k s p → Linked pool' ptrs' k s p
  kept_same s p l = same-Linked m k pool pool' ptrs' at (Taken-Carries t) (Taken-Carries u) s p l

  kept_other :
      (j : ℕ) (other : ArchetypePool) (s p : Pos)
      → Linked other m.ptrs j s p
      → Linked other ptrs' j s p
  kept_other j other s p l =
      other-Linked m k pool pool' ptrs' at (Taken-Carries t) (Taken-Carries u) j other s p l

  -- Every entity that there was is still there, at the same place.
  pub kept-Entity :
      (p : Pos) (e : Entity m p) → (f : Entity created p) × (f.k ≡ e.k) × (f.slot ≡ e.slot)
  kept-Entity p e = replaced-Entity m k pool pool' ptrs' at (Taken-Carries t) (Taken-Carries u) p e

  created-Entity : (p : Pos) → Used p ptrs' → Entity created p
  created-Entity p used = elim (Bool-cases (eq_pos ptr p)) [
    | inl same ↦ record {
      k = k;
      slot = slot;
      pool = pool';
      found = ground (arith, found-created k);
      linked = subst (Linked pool' ptrs' k slot) ((eq_pos_iff ptr p).0 same) new;
    }
    | inr other ↦ (kept-Entity p (i.entity p (u.only p used other))).0
  ]

  same-Handle : (s : Pos) → Used s pool' → Handle created k s pool'
  same-Handle s used = elim (Bool-cases (eq_pos slot s)) [
    | inl same ↦ record {
      ptr = ptr;
      linked = subst (λ q. Linked pool' ptrs' k q ptr) ((eq_pos_iff slot s).0 same) new;
    }
    | inr other ↦
        let h = i.handle k s pool at (t.only s used other) in
        record { ptr = h.ptr; linked = kept_same s h.ptr h.linked }
  ]

  created-Handle :
      (j : ℕ) (s : Pos) (other : ArchetypePool)
      → get_elem? created.pools j ≡ some other
      → Used s other
      → Handle created j s other
  created-Handle j s other found used = elim (found-set m k j other pool' at found) [
    | inl (j_eq, other_eq) ↦ rw (j_eq, other_eq) (same-Handle s (subst (Used s) other_eq used))
    | inr (_, before) ↦
        let h = i.handle j s other before used in
        record { ptr = h.ptr; linked = kept_other j other s h.ptr h.linked }
  ]

  pub created-Inv : Inv created
  created-Inv = record {
    ptrs_valid = u.valid;
    pools_valid = λ j other found. elim (found-set m k j other pool' at found) [
      | inl (_, other_eq) ↦ (ws, rw other_eq t.valid)
      | inr (_, before) ↦ i.pools_valid j other before
    ];
    few = omega (arith, length-set m.pools k pool', i.few);
    entity = created-Entity;
    handle = created-Handle;
  }
