-- ===== src/Ecs/Registry/Offers.antt =====
-- libs/lib_ecs/AEntityManager.cpp: how often the registrations offer a pool to a system.
use native.Mathlib.Nat.{mul-add, mul-zero, mul-one}
use project_e.Common.{
  ℕ, ◌+◌, ◌*◌, ◌≡◌, sym, Bool, ◌&&◌, List, [], ◌∷◌, ◌++◌, arith, ◌==◌, if◌then◌else◌, Bool-cases,
  inl, inr,
}
use project_e.Ecs.Systems.{Node, Nodes, node, nil, cons, run_node}
use project_e.Ecs.Systems.Order.{count}
use project_e.Ecs.Registry.{
  offer_to, register_in_node, register_in_nodes, offer_pools, offer_pools_to_node,
}
use project_e.Ecs.Registry.Stands.{stands, stands_in, stands_parts, stands_cons}

-- How often a system was offered a pool
abbrev pub offered : ℕ → ℕ → List (ℕ × ℕ) → ℕ
offered x p [] = 0
offered x p (o ∷ os) = (if x == o.0 && p == o.1 then 1 else 0) + offered x p os

pub offered-append :
    (x p : ℕ) (xs ys : List (ℕ × ℕ)) → offered x p (xs ++ ys) ≡ offered x p xs + offered x p ys
offered-append x p [] ys = omega arith
offered-append x p (o ∷ xs) ys = omega (arith, offered-append x p xs ys)

abbrev pub one_if : Bool → ℕ
one_if b = if b then 1 else 0

module _ (x p : ℕ) where
  offered-offer_to :
      (pool : ℕ) (systems : List ℕ)
      → offered x p (offer_to pool systems) ≡ (if p == pool then count x systems else 0)
  unfolding offer_to
  offered-offer_to pool [] = ground arith
  offered-offer_to pool (s ∷ systems) = ground (arith, offered-offer_to pool systems)

  mutual
    unfolding register_in_node run_node

    pub offered-register_in_node :
        (pool : ℕ) (n : Node)
        → offered x p (register_in_node pool n) ≡ (if p == pool then stands x n else 0)
    offered-register_in_node pool (node own should_run starts children ends) = ground (
      arith,
      offered-append x p (offer_to pool starts)
          (register_in_nodes pool children ++ offer_to pool ends),
      offered-append x p (register_in_nodes pool children) (offer_to pool ends),
      offered-offer_to pool starts,
      offered-offer_to pool ends,
      offered-register_in_nodes pool children,
      stands_parts x own should_run starts ends children,
    )

    offered-register_in_nodes :
        (pool : ℕ) (ns : Nodes)
        → offered x p (register_in_nodes pool ns) ≡ (if p == pool then stands_in x ns else 0)
    offered-register_in_nodes pool nil = ground arith
    offered-register_in_nodes pool (cons c cs) = ground (
      arith,
      offered-append x p (register_in_node pool c) (register_in_nodes pool cs),
      offered-register_in_node pool c,
      offered-register_in_nodes pool cs,
      stands_cons x c cs,
    )

  pub offered-offer_pools :
      (system : ℕ) (pools : List ℕ)
      → offered x p (offer_pools system pools) ≡ one_if (x == system) * count p pools
  unfolding offer_pools
  offered-offer_pools system [] = omega arith
  offered-offer_pools system (pool ∷ pools) = elim (Bool-cases (x == system)) [
    | inl same ↦ ground (arith, offered-offer_pools system pools)
    | inr other ↦ ground (arith, offered-offer_pools system pools)
  ]

  pub offered-offer_pools_to_node :
      (n : Node) (pools : List ℕ)
      → offered x p (offer_pools_to_node n pools) ≡ stands x n * count p pools
  unfolding offer_pools_to_node
  offered-offer_pools_to_node n [] = sym (mul-zero (stands x n))
  offered-offer_pools_to_node n (pool ∷ pools) =
      let rest = offered-offer_pools_to_node n pools in
      let here = offered-register_in_node pool n in
      let both = offered-append x p (register_in_node pool n) (offer_pools_to_node n pools) in
      let product = mul-add (stands x n) (one_if (p == pool)) (count p pools) in
      elim (Bool-cases (p == pool)) [
        | inl same ↦ ground (arith, here, both, rest, product, mul-one (stands x n))
        | inr other ↦ ground (arith, here, both, rest, product, mul-zero (stands x n))
      ]
