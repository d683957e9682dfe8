-- ===== src/Ecs/Manager/Again.antt =====
-- libs/lib_ecs/EntityManager.cpp: `destroyEntity` does not ask whether the handle is alive.
use mathlib.Core.Option.{some-injective}
use project_e.Common.{
  ℕ, ◌≡◌, refl, sym, ap, subst, true, Option, none, some, List, [], ◌∷◌, ◌++◌, arith, get_elem?,
  ◌>>=◌,
}
use project_e.Ecs.Pos.{Pos, eq_pos_iff}
use project_e.Ecs.Components.{ComponentPool}
use project_e.Ecs.Archetypes.{
  ArchetypePool, read, pool_id_index, reset_entity_at_indexes, reset_all_at,
}
use project_e.Ecs.Manager.{Manager, to_id, slots_of, destroy_in, destroy_entity}
use project_e.Ecs.Manager.Free.{mem_pos, mem_pos-append, Distinct}
use project_e.Ecs.Manager.Links.{Inv}

-- Nothing came of it, or a manager that is not valid.
abbrev pub Unsound : Option Manager → Type 0
Unsound none = Unit
Unsound (some m) = ¬ Inv m

after-Unsound {ℓ} :
    {A : Type ℓ} (x : Option A) (f : A → Option Manager)
    → ((a : A) → x ≡ some a → Unsound (f a))
    → Unsound (x >>= f)
after-Unsound none f h = tt
after-Unsound (some a) f h = h a refl

put_components :
    (x : Option (List ComponentPool)) (pool : ArchetypePool) {result : ArchetypePool}
    → (x >>= (λ cs. some (record pool { components = cs }))) ≡ some result
    → result.free_pos ≡ pool.free_pos
put_components none pool e = cc
put_components (some cs) pool e = ap (λ p. p.free_pos) (sym (some-injective _ _ e))

free_pos-reset_entity_at_indexes :
    (ps : List Pos) (pool : ArchetypePool) {result : ArchetypePool}
    → reset_entity_at_indexes ps pool ≡ some result
    → result.free_pos ≡ pool.free_pos
unfolding reset_entity_at_indexes
free_pos-reset_entity_at_indexes ps pool e = put_components (reset_all_at ps pool.components) pool e

repeated : (xs : List Pos) (p : Pos) → mem_pos p xs ≡ true → ¬ Distinct (xs ++ p ∷ [])
repeated [] p h d = cc
repeated (x ∷ xs) p h d =
    ground
      (arith, repeated xs p, d.1, d.0, mem_pos-append x xs (p ∷ []), eq_pos_iff p x, eq_pos_iff x p)

destroy_in-Unsound :
    (k : ℕ) (p : Pos) (m : Manager)
    → mem_pos p m.ptrs.free_pos ≡ true
    → Unsound (destroy_in k (p ∷ []) m)
unfolding destroy_in
destroy_in-Unsound k p m h = after-Unsound (get_elem? m.pools k) _ (λ pool at.
    after-Unsound (slots_of (p ∷ []) m.ptrs) _ (λ slots found.
      after-Unsound
        (reset_entity_at_indexes (p ∷ []) (record m.ptrs { free_pos = m.ptrs.free_pos ++ p ∷ [] }))
        _
        (λ ptrs e.
          after-Unsound
            (reset_entity_at_indexes slots (record pool { free_pos = pool.free_pos ++ slots })) _
            (λ pool' e' i. repeated m.ptrs.free_pos p h (
              subst Distinct (free_pos-reset_entity_at_indexes (p ∷ []) _ e)
                i.ptrs_valid.distinct)))))

-- Destroying a handle that is free never leaves a valid manager.
pub destroy_entity-Unsound :
    (p : Pos) (m : Manager) → mem_pos p m.ptrs.free_pos ≡ true → Unsound (destroy_entity p m)
unfolding destroy_entity
destroy_entity-Unsound p m h =
    after-Unsound (read pool_id_index p m.ptrs) _
      (λ field at. after-Unsound (to_id field) _ (λ k e. destroy_in-Unsound k p m h))
