-- ===== src/Ecs/Manager/Batch/Pops.antt =====
-- libs/lib_ecs/EntityManager.hpp: positions that are filled come into use when they leave the free lists.
use project_e.Common.{
  ℕ, ◌≡◌, refl, ap, ◌∙◌, sym, inl, inr, false, some, List, [], ◌∷◌, ◌++◌, arith, get_elem?, set,
  set-same, set-set, subst, get_elem?-set, length-set,
}
use project_e.Ecs.Pos.{Pos, eq_pos_iff}
use project_e.Ecs.Archetypes.{ArchetypePool, read, position_index, pool_id_index}
use project_e.Ecs.Manager.{Manager, pos_fields}
use project_e.Ecs.Manager.Free.{mem_pos}
use project_e.Ecs.Manager.Pools.{IsPool, Used, Stable}
use project_e.Ecs.Manager.Claims.{claim-Claimed, read-free_pos}
use project_e.Ecs.Manager.Carry.{Carries, same-Linked, other-Linked, replaced-Entity}
use project_e.Ecs.Manager.Links.{Linked, Entity, Handle, Inv, found-set}
use project_e.Ecs.Manager.Extend.{Taken, created-Inv, kept-Entity}

Stable-Carries :
    {ws : List ℕ} {pool pool' : ArchetypePool} → Stable ws pool pool' → Carries pool pool'
Stable-Carries t = record { kept = t.kept; reads = t.reads }

-- The manager with its pools replaced by pools that differ where nothing is in use.
module _ {ws : List ℕ} (m : Manager) (k : ℕ) (pool pool' ptrs' : ArchetypePool) (i : Inv m)
    (at : get_elem? m.pools k ≡ some pool) (t : Stable ws pool pool')
    (u : Stable (1 ∷ []) m.ptrs ptrs') where
  abbrev pub refitted : Manager
  refitted = record { pools = set m.pools k pool'; ptrs = ptrs' }

  pub refitted-Entity :
      (p : Pos) (e : Entity m p) → (f : Entity refitted p) × (f.k ≡ e.k) × (f.slot ≡ e.slot)
  refitted-Entity p e =
      replaced-Entity m k pool pool' ptrs' at (Stable-Carries t) (Stable-Carries u) p e

  refitted-Handle :
      (j : ℕ) (s : Pos) (other : ArchetypePool)
      → get_elem? refitted.pools j ≡ some other
      → Used s other
      → Handle refitted j s other
  refitted-Handle j s other found used = elim (found-set m k j other pool' at found) [
    | inl (j_eq, other_eq) ↦
        let h = i.handle k s pool at (t.only s (subst (Used s) other_eq used)) in
        rw (j_eq, other_eq)
          record {
            ptr = h.ptr;
            linked =
                same-Linked m k pool pool' ptrs' at (Stable-Carries t) (Stable-Carries u) s h.ptr
                  h.linked;
          }
    | inr (_, before) ↦
        let h = i.handle j s other before used in
        record {
          ptr = h.ptr;
          linked =
              other-Linked m k pool pool' ptrs' at (Stable-Carries t) (Stable-Carries u) j other s
                h.ptr h.linked;
        }
  ]

  pub refitted-Inv : Inv refitted
  refitted-Inv = record {
    ptrs_valid = u.valid;
    pools_valid = λ j other found. elim (found-set m k j other pool' at found) [
      | inl (_, other_eq) ↦ (ws, rw other_eq t.valid)
      | inr (_, before) ↦ i.pools_valid j other before
    ];
    few = omega (arith, length-set m.pools k pool', i.few);
    entity = λ p used. (refitted-Entity p (i.entity p (u.only p used))).0;
    handle = refitted-Handle;
  }

-- Free positions at which an entity and its entry name one another
abbrev pub Paired : ArchetypePool → ArchetypePool → ℕ → List Pos → List Pos → Type 0
Paired pool ptrs k [] [] = Unit {0}
Paired pool ptrs k (s ∷ slots) (h ∷ handles) =
    ((read position_index s pool ≡ some (pos_fields h))
      × (read position_index h ptrs ≡ some (pos_fields s))
      × (read pool_id_index h ptrs ≡ some (k ∷ [])))
    × Paired pool ptrs k slots handles
Paired pool ptrs k _ _ = ⊥

Paired-free :
    (pool ptrs : ArchetypePool) (k : ℕ) (slots handles free ptr_free : List Pos)
    → Paired pool ptrs k slots handles
    → Paired (record pool { free_pos = free }) (record ptrs { free_pos = ptr_free }) k slots handles
unfolding read
Paired-free pool ptrs k [] [] free ptr_free p = tt
Paired-free pool ptrs k [] (h ∷ handles) free ptr_free p = p
Paired-free pool ptrs k (s ∷ slots) [] free ptr_free p = p
Paired-free pool ptrs k (s ∷ slots) (h ∷ handles) free ptr_free p =
    (p.0, Paired-free pool ptrs k slots handles free ptr_free p.1)

-- Each handle is the handle of an entity at the position beside it.
abbrev pub AreMade : Manager → ℕ → List Pos → List Pos → Type 0
AreMade m k [] [] = Unit {0}
AreMade m k (s ∷ slots) (h ∷ handles) =
    ((e : Entity m h) × (e.k ≡ k) × (e.slot ≡ s)) × AreMade m k slots handles
AreMade m k _ _ = ⊥

pub record Popped (m : Manager) (k : ℕ) (slots handles : List Pos) (result : Manager) : Type 0 where
  pub valid : Inv result
  pub made : AreMade result k slots handles
  pub fresh : (p : Pos) → Used p m.ptrs → mem_pos p handles ≡ false
  pub kept : (p : Pos) (e : Entity m p) → (f : Entity result p) × (f.k ≡ e.k) × (f.slot ≡ e.slot)

zero-Popped : (m : Manager) (k : ℕ) → Inv m → Popped m k [] [] m
zero-Popped m k i = record {
  valid = i;
  made = tt;
  fresh = λ p u. refl;
  kept = λ p e. (e, refl, refl);
}

-- The manager with these free lists in the pool at `k` and in the pointer pool
abbrev pub with_free : Manager → ℕ → ArchetypePool → List Pos → List Pos → Manager
with_free m k pool rest ptr_rest = record {
  pools = set m.pools k (record pool { free_pos = rest });
  ptrs = record m.ptrs { free_pos = ptr_rest };
}

pub with_free_same :
    (m : Manager) (k : ℕ) (pool : ArchetypePool) (rest ptr_rest : List Pos)
    → get_elem? m.pools k ≡ some pool
    → pool.free_pos ≡ rest
    → m.ptrs.free_pos ≡ ptr_rest
    → m ≡ with_free m k pool rest ptr_rest
with_free_same m k pool rest ptr_rest at e f =
    let same : m ≡ with_free m k pool pool.free_pos m.ptrs.free_pos =
      ap (λ ps. record m { pools = ps }) (sym (set-same m.pools k pool at)) in
    same ∙ (λ i. with_free m k pool (e i) (f i))

first-Taken :
    (ws : List ℕ) (pool : ArchetypePool) (p : Pos) (ps : List Pos)
    → IsPool ws pool
    → pool.free_pos ≡ p ∷ ps
    → Taken ws pool p (record pool { free_pos = ps })
first-Taken ws pool p ps v e =
    let c =
      claim-Claimed ws pool pool p ps v e v.shape
        record { name_eq = refl; chunk_size_eq = refl; free_pos_eq = refl } in
    record {
      valid = c.valid;
      now = c.now;
      fresh = c.fresh;
      kept = c.kept;
      only = c.only;
      reads = λ j q u. read-free_pos j q ps pool;
    }

pub pops :
    (ws : List ℕ) (m : Manager) (k : ℕ) (pool : ArchetypePool)
    (slots handles rest ptr_rest : List Pos)
    → Inv m
    → get_elem? m.pools k ≡ some pool
    → IsPool ws pool
    → pool.free_pos ≡ slots ++ rest
    → m.ptrs.free_pos ≡ handles ++ ptr_rest
    → Paired pool m.ptrs k slots handles
    → Popped m k slots handles (with_free m k pool rest ptr_rest)
pops ws m k pool [] [] rest ptr_rest i at v e f p =
    subst (Popped m k [] []) (with_free_same m k pool rest ptr_rest at e f) (zero-Popped m k i)
pops ws m k pool [] (h ∷ handles) rest ptr_rest i at v e f p = elim p [ ]
pops ws m k pool (s ∷ slots) [] rest ptr_rest i at v e f p = elim p [ ]
pops ws m k pool (s ∷ slots) (h ∷ handles) rest ptr_rest i at v e f p =
    let pool' : ArchetypePool = record pool { free_pos = slots ++ rest } in
    let ptrs' : ArchetypePool = record m.ptrs { free_pos = handles ++ ptr_rest } in
    let m' : Manager = record { pools = set m.pools k pool'; ptrs = ptrs' } in
    let t = first-Taken ws pool s (slots ++ rest) v e in
    let u = first-Taken (1 ∷ []) m.ptrs h (handles ++ ptr_rest) i.ptrs_valid f in
    let new : Linked pool' ptrs' k s h = record {
      slot_used = t.now;
      ptr_used = u.now;
      back = read-free_pos position_index s (slots ++ rest) pool ∙ p.0.0;
      forth = read-free_pos position_index h (handles ++ ptr_rest) m.ptrs ∙ p.0.1;
      id = read-free_pos pool_id_index h (handles ++ ptr_rest) m.ptrs ∙ p.0.2;
    } in
    let at' : get_elem? m'.pools k ≡ some pool' =
      ground (arith, get_elem?-set m.pools k k pool' at) in
    let r =
      pops ws m' k pool' slots handles rest ptr_rest
        (created-Inv m k pool pool' ptrs' s h i at t u new) at' t.valid refl refl
        (Paired-free pool m.ptrs k slots handles (slots ++ rest) (handles ++ ptr_rest) p.1) in
    let first : Entity m' h = record { k = k; slot = s; pool = pool'; found = at'; linked = new } in
    let all : Popped m k (s ∷ slots) (h ∷ handles) (with_free m' k pool' rest ptr_rest) = record {
      valid = r.valid;
      made = (r.kept h first, r.made);
      fresh = λ q used.
          ground (arith, r.fresh q (u.kept q used), u.fresh q used, eq_pos_iff h q, eq_pos_iff q h);
      kept = λ q x.
          let (y, k_eq, s_eq) = kept-Entity m k pool pool' ptrs' s h i at t u new q x in
          let (z, k_eq', s_eq') = r.kept q y in (z, k_eq' ∙ k_eq, s_eq' ∙ s_eq);
    } in
    subst (Popped m k (s ∷ slots) (h ∷ handles))
      (ap (λ ps. record { pools = ps; ptrs = record m.ptrs { free_pos = ptr_rest } })
        (set-set m.pools k pool' (record pool { free_pos = rest })))
      all
