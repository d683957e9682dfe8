-- ===== src/Ecs/Registry/Runs.antt =====
-- libs/lib_ecs/AEntityManager.cpp: every system is offered every pool, whichever is registered first.
use Prim.Native.String.{String}
use native.Mathlib.Nat.{mul-add, add-mul, mul-zero, mul-one}
use project_e.Common.{
  ℕ, ◌+◌, ◌*◌, ◌≡◌, sym, ap, ◌∙◌, Bool, true, ◌&&◌, List, [], ◌∷◌, ◌++◌, arith, ◌==◌, Bool-cases,
  inl, inr,
}
use project_e.Ecs.Systems.{Node, add_system, add_system_tree_node}
use project_e.Ecs.Systems.Order.{
  count, count-append, always, add_system-count, run_node-add_system_group,
}
use project_e.Ecs.Registry.{
  Registry, new_registry, register_in_node, offer_pools, offer_pools_to_node, register_system_group,
  register_system, register_system_node, register_fixed_system_group, register_fixed_system,
  register_fixed_system_node, register_entity_pool,
}
use project_e.Ecs.Registry.Offers.{
  offered, offered-append, one_if, offered-register_in_node, offered-offer_pools,
  offered-offer_pools_to_node,
}
use project_e.Ecs.Registry.Stands.{stands, stands-add_system_tree_node}

-- How often a system stands in the two trees
abbrev pub in_trees : ℕ → Registry → ℕ
in_trees x r = stands x r.tree + stands x r.fixed_tree

-- Every system was offered every pool, as often as the two are registered.
abbrev pub Offered : Registry → Type 0
Offered r = (x p : ℕ) → offered x p r.offers ≡ in_trees x r * count p r.pools

pub data Op : Type 0 where
  registers_system registers_fixed_system : ℕ → String → Bool → Op
  registers_node registers_fixed_node : Node → String → Bool → Bool → Op
  registers_group registers_fixed_group : String → String → Bool → Bool → Op
  registers_pool : ℕ → Op

abbrev pub step : Op → Registry → Bool × Registry
step (registers_system s group start) r = register_system s group start r
step (registers_fixed_system s group start) r = register_fixed_system s group start r
step (registers_node n target before inside) r = register_system_node n target before inside r
step (registers_fixed_node n target before inside) r =
    register_fixed_system_node n target before inside r
step (registers_group target name before inside) r =
    register_system_group target name before inside r
step (registers_fixed_group target name before inside) r =
    register_fixed_system_group target name before inside r
step (registers_pool pool) r = register_entity_pool pool r

-- Whether all of the calls have succeeded, and the registry after them
abbrev pub run : List Op → Registry → Bool × Registry
run [] r = (true, r)
run (op ∷ ops) r = let rest = run ops (step op r).1 in ((step op r).0 && rest.0, rest.1)

-- What stands in the trees has grown by `n`, which was offered the pools.
offered_more :
    (x p : ℕ) (os new : List (ℕ × ℕ)) (s t n c : ℕ)
    → offered x p os ≡ s * c
    → offered x p new ≡ n * c
    → t ≡ s + n
    → offered x p (os ++ new) ≡ t * c
offered_more x p os new s t n c old more grown =
    offered-append x p os new
    ∙ (λ i. old i + more i)
    ∙ sym (add-mul s n c)
    ∙ ap (λ k. k * c) (sym grown)

added_system :
    (x s : ℕ) (group : String) (start : Bool) (n : Node)
    → (add_system s group start n).0 ≡ true
    → stands x (add_system s group start n).1 ≡ stands x n + one_if (x == s)
added_system x s group start n h =
    let (found, grown) = add_system-count x s group start n in ground (arith, found, grown, h)

added_node :
    (x : ℕ) (n : Node) (target : String) (before inside : Bool) (m : Node)
    → (add_system_tree_node n target before inside m).0 ≡ true
    → stands x (add_system_tree_node n target before inside m).1 ≡ stands x m + stands x n
added_node x n target before inside m h =
    let grown = stands-add_system_tree_node x n target before inside m in rw h at (grown)

-- A pool is offered to all systems of both trees.
offered_pool :
    (x p pool : ℕ) (r : Registry)
    → Offered r
    → offered x p (register_entity_pool pool r).1.offers
      ≡ in_trees x r * count p (r.pools ++ pool ∷ [])
unfolding register_entity_pool
offered_pool x p pool r i =
    let a = register_in_node pool r.tree in
    let b = register_in_node pool r.fixed_tree in
    let first = offered-append x p r.offers a in
    let both = offered-append x p (r.offers ++ a) b in
    let in_a = offered-register_in_node x p pool r.tree in
    let in_b = offered-register_in_node x p pool r.fixed_tree in
    let more = ap (λ n. in_trees x r * n) (count-append p r.pools (pool ∷ [])) in
    let product = mul-add (in_trees x r) (count p r.pools) (count p (pool ∷ [])) in
    let old = i x p in
    elim (Bool-cases (p == pool)) [
      | inl same ↦
          let one : count p (pool ∷ []) ≡ 1 = ground arith in
          let last : in_trees x r * count p (pool ∷ []) ≡ in_trees x r =
            ap (λ n. in_trees x r * n) one ∙ mul-one (in_trees x r) in
          ground (arith, first, both, in_a, in_b, more, product, old, last)
      | inr other ↦
          let none : count p (pool ∷ []) ≡ 0 = ground arith in
          let last : in_trees x r * count p (pool ∷ []) ≡ 0 =
            ap (λ n. in_trees x r * n) none ∙ mul-zero (in_trees x r) in
          ground (arith, first, both, in_a, in_b, more, product, old, last)
    ]

step-Offered : (op : Op) (r : Registry) → Offered r → (step op r).0 ≡ true → Offered (step op r).1
unfolding register_system register_fixed_system register_system_node register_fixed_system_node
    register_system_group register_fixed_system_group register_entity_pool
step-Offered (registers_system s group start) r i h = λ x p.
    offered_more x p r.offers (offer_pools s r.pools) (in_trees x r) _ (one_if (x == s))
      (count p r.pools) (i x p) (offered-offer_pools x p s r.pools)
      (omega (arith, added_system x s group start r.tree h))
step-Offered (registers_fixed_system s group start) r i h = λ x p.
    offered_more x p r.offers (offer_pools s r.pools) (in_trees x r) _ (one_if (x == s))
      (count p r.pools) (i x p) (offered-offer_pools x p s r.pools)
      (omega (arith, added_system x s group start r.fixed_tree h))
step-Offered (registers_node n target before inside) r i h = λ x p.
    offered_more x p r.offers (offer_pools_to_node n r.pools) (in_trees x r) _ (stands x n)
      (count p r.pools) (i x p) (offered-offer_pools_to_node x p n r.pools)
      (omega (arith, added_node x n target before inside r.tree h))
step-Offered (registers_fixed_node n target before inside) r i h = λ x p.
    offered_more x p r.offers (offer_pools_to_node n r.pools) (in_trees x r) _ (stands x n)
      (count p r.pools) (i x p) (offered-offer_pools_to_node x p n r.pools)
      (omega (arith, added_node x n target before inside r.fixed_tree h))
step-Offered (registers_group target name before inside) r i h = λ x p.
    i x p
    ∙ ap (λ l. (count x l + stands x r.fixed_tree) * count p r.pools)
        (sym (run_node-add_system_group always target name before inside r.tree))
step-Offered (registers_fixed_group target name before inside) r i h = λ x p.
    i x p
    ∙ ap (λ l. (stands x r.tree + count x l) * count p r.pools)
        (sym (run_node-add_system_group always target name before inside r.fixed_tree))
step-Offered (registers_pool pool) r i h = λ x p. offered_pool x p pool r i

run_from : (ops : List Op) (r : Registry) → Offered r → (run ops r).0 ≡ true → Offered (run ops r).1
run_from [] r i h = i
run_from (op ∷ ops) r i h =
    run_from ops (step op r).1 (step-Offered op r i (ground arith)) (ground arith)

-- After any calls that register systems, nodes, groups and pools, each of which succeeds, on a manager
-- that is new, every pool was offered to every system as often as the two are registered: a system
-- that is registered before a pool is offered it as one that is registered after it.
pub run-Offered :
    (ops : List Op) → (run ops new_registry).0 ≡ true → Offered (run ops new_registry).1
run-Offered ops h = run_from ops new_registry (λ x p. sym (mul-zero (in_trees x new_registry))) h
