-- ===== src/Ecs/Manager/Reach.antt =====
-- libs/lib_ecs/EntityManager.hpp and EntityManager.cpp: sequences of calls that create and destroy entities.
use Prim.Native.String.{String}
use mathlib.Core.Option
use project_e.Common.{
  ℕ, ◌≡◌, refl, ◌∙◌, sym, ap, subst, Bool, false, ◌||◌, Option, none, some, List, [], ◌∷◌, arith,
  get_elem?,
}
use project_e.Ecs.Pos.{Pos, eq_pos}
use project_e.Ecs.Archetypes.{ArchetypePool}
use project_e.Ecs.Manager.{Manager, find_pool, create_entity, destroy_entity, destroy_entities}
use project_e.Ecs.Manager.Free.{mem_pos, Distinct}
use project_e.Ecs.Manager.Links.{Inv, Entity}
use project_e.Ecs.Manager.Create.{create_entity-Created}
use project_e.Ecs.Manager.Destroy.{destroy_entity-Destroyed}
use project_e.Ecs.Manager.Batch.{create_entities}
use project_e.Ecs.Manager.Batch.Made.{create_entities-BatchCreated}
use project_e.Ecs.Manager.Batch.Pops.{AreMade}
use project_e.Ecs.Manager.Mass.Destroyed.{destroy_entities-DestroyedAll}

pub data Call : Type 0 where
  creates : (name : String) (status : ℕ) → Call
  creates_many : (name : String) (count status : ℕ) → Call
  destroys : (ptr : Pos) → Call
  destroys_many : (handles : List Pos) (name : String) → Call

abbrev pub call : Call → Manager → Option Manager
call (creates name status) m = Option.map (λ r. r.1) (create_entity name status m)
call (creates_many name count status) m =
    Option.map (λ r. r.1) (create_entities name count status m)
call (destroys ptr) m = destroy_entity ptr m
call (destroys_many handles name) m = destroy_entities handles name m

abbrev pub run : List Call → Manager → Option Manager
run [] m = some m
run (c ∷ cs) m = elim (call c m) [ none ↦ none | some m' ↦ run cs m' ]

-- Whether a call destroys the entity of a handle
abbrev pub destroyed_by : Call → Pos → Bool
destroyed_by (creates name status) q = false
destroyed_by (creates_many name count status) q = false
destroyed_by (destroys ptr) q = eq_pos ptr q
destroyed_by (destroys_many handles name) q = mem_pos q handles

abbrev pub destroyed_in : List Call → Pos → Bool
destroyed_in [] q = false
destroyed_in (c ∷ cs) q = destroyed_by c q || destroyed_in cs q

-- What a caller has to see to: the name is a pool's; a handle is an entity's; and handles that are destroyed
-- together are different ones, of entities of the pool named.
abbrev pub IsAllowed : Call → Manager → Type 0
IsAllowed (creates name status) m = (k : ℕ) × (find_pool name m.pools ≡ some k)
IsAllowed (creates_many name count status) m = (k : ℕ) × (find_pool name m.pools ≡ some k)
IsAllowed (destroys ptr) m = Entity m ptr
IsAllowed (destroys_many handles name) m =
    (k : ℕ) × (pool : ArchetypePool) × (slots : List Pos) × (find_pool name m.pools ≡ some k)
    × (get_elem? m.pools k ≡ some pool)
    × AreMade m k slots handles
    × Distinct handles

abbrev pub OnNext : (Manager → Type 0) → Option Manager → Type 0
OnNext P none = Unit
OnNext P (some m) = P m

abbrev pub AreAllowed : List Call → Manager → Type 0
AreAllowed [] m = Unit
AreAllowed (c ∷ cs) m = IsAllowed c m × OnNext (AreAllowed cs) (call c m)

-- A manager is returned, it is valid, and every entity that was not destroyed keeps its handle, its pool and
-- its position.
pub record Ran (m : Manager) (gone : Pos → Bool) (outcome : Option Manager) : Type 0 where
  pub result : Manager
  pub returned : outcome ≡ some result
  pub valid : Inv result
  pub kept :
      (q : Pos) (e : Entity m q)
      → gone q ≡ false
      → (f : Entity result q) × (f.k ≡ e.k) × (f.slot ≡ e.slot)

call-Ran : (c : Call) (m : Manager) → IsAllowed c m → Inv m → Ran m (destroyed_by c) (call c m)
call-Ran (creates name status) m (k, named) i =
    let made = create_entity-Created m name status k i named in
    record {
      result = made.result;
      returned = ap (Option.map (λ r. r.1)) made.returned;
      valid = made.valid;
      kept = λ q e spared. made.kept q e;
    }
call-Ran (creates_many name count status) m (k, named) i =
    let made = create_entities-BatchCreated m name count status k i named in
    record {
      result = made.result;
      returned = ap (Option.map (λ r. r.1)) made.returned;
      valid = made.popped.valid;
      kept = λ q e spared. made.popped.kept q e;
    }
call-Ran (destroys ptr) m e i =
    let done = destroy_entity-Destroyed m ptr e i in
    record { result = done.result; returned = done.returned; valid = done.valid; kept = done.kept }
call-Ran (destroys_many handles name) m (k, pool, slots, named, found, made, distinct) i =
    let done =
      destroy_entities-DestroyedAll m name k pool slots handles i named found made distinct in
    record {
      result = done.result;
      returned = done.returned;
      valid = done.left.valid;
      kept = done.left.kept;
    }

first_spared : (a b : Bool) → (a || b) ≡ false → (a ≡ false) × (b ≡ false)
first_spared a b h = (ground arith, ground arith)

-- Calls go on after a first one.
Ran-then :
    (m : Manager) (gone after : Pos → Bool) (r : Option Manager) (f : Manager → Option Manager)
    (P : Manager → Type 0)
    → Ran m gone r
    → OnNext P r
    → ((m' : Manager) → P m' → Inv m' → Ran m' after (f m'))
    → Ran m (λ q. gone q || after q) (elim r [ none ↦ none | some m' ↦ f m' ])
Ran-then m gone after none f P ran ok go = cc (ran.returned)
Ran-then m gone after (some m') f P ran ok go =
    let same : m' ≡ ran.result = ground (arith, ran.returned) in
    let rest = go m' ok (subst Inv (sym same) ran.valid) in
    record {
      result = rest.result;
      returned = rest.returned;
      valid = rest.valid;
      kept = λ q e spared.
          let (now, later) = first_spared (gone q) (after q) spared in
          let (f, k_eq, s_eq) =
            subst (λ x. (f : Entity x q) × (f.k ≡ e.k) × (f.slot ≡ e.slot)) (sym same)
              (ran.kept q e now) in
          let (g, k_eq', s_eq') = rest.kept q f later in (g, k_eq' ∙ k_eq, s_eq' ∙ s_eq);
    }

-- From a valid manager, any sequence of `createEntity`, `createEntities`, `destroyEntity` and
-- `destroyEntities`, where each call names a pool that there is, or handles of entities that there are
-- then, different ones and of the pool named where they are destroyed together, runs to its end and leaves a valid manager;
-- every entity at the start that no call destroys keeps its handle, its pool and its position.
pub run-Ran :
    (cs : List Call) (m : Manager) → AreAllowed cs m → Inv m → Ran m (destroyed_in cs) (run cs m)
run-Ran [] m ok i = record {
  result = m;
  returned = refl;
  valid = i;
  kept = λ q e spared. (e, refl, refl);
}
run-Ran (c ∷ cs) m (now, later) i =
    Ran-then m (destroyed_by c) (destroyed_in cs) (call c m) (run cs) (AreAllowed cs)
      (call-Ran c m now i) later (run-Ran cs)
