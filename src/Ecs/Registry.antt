-- ===== src/Ecs/Registry.antt =====
-- libs/lib_ecs/AEntityManager.hpp and AEntityManager.cpp, and registerEntityPool of
-- Systems/SystemTree.cpp: the registration of systems, groups and pools. A pool and a system are
-- numbers, the pointers to them; `offers` records the calls of `tryAddEntityPool`, a system with a pool.
pub mod Stands
pub mod Offers
pub mod Runs
pub mod Examples
use Prim.Native.String.{String}
use project_e.Common.{ℕ, Bool, true, List, [], ◌∷◌, ◌++◌, map}
use project_e.Ecs.Systems.{
  Node, Nodes, node, nil, cons, new_node, add_system, add_system_group, add_system_tree_node,
}

-- `AEntityManager`: `_entityPools` and the roots of `_systemTree` and `_fixedSystemTree`
pub record Registry : Type 0 where
  pub pools : List ℕ
  pub tree : Node
  pub fixed_tree : Node
  pub offers : List (ℕ × ℕ)

-- `AEntityManager()`
abbrev pub new_registry : Registry
new_registry = record {
  pools = [];
  tree = new_node "ROOT";
  fixed_tree = new_node "FIXED_ROOT";
  offers = [];
}

-- `SystemTreeNode::registerEntityPool`
unfoldable pub offer_to : ℕ → List ℕ → List (ℕ × ℕ)
offer_to pool systems = map (λ system. (system, pool)) systems

unfoldable mutual
  unfolding offer_to

  pub register_in_node : ℕ → Node → List (ℕ × ℕ)
  register_in_node pool (node own should_run starts children ends) =
      let inner = register_in_nodes pool children in
      offer_to pool starts ++ (inner ++ offer_to pool ends)

  pub register_in_nodes : ℕ → Nodes → List (ℕ × ℕ)
  register_in_nodes pool nil = []
  register_in_nodes pool (cons c cs) = register_in_node pool c ++ register_in_nodes pool cs

-- The loops over `_entityPools` of the registrations
unfoldable pub offer_pools : ℕ → List ℕ → List (ℕ × ℕ)
offer_pools system pools = map (λ pool. (system, pool)) pools

unfoldable pub offer_pools_to_node : Node → List ℕ → List (ℕ × ℕ)
unfolding register_in_node
offer_pools_to_node n [] = []
offer_pools_to_node n (pool ∷ pools) = register_in_node pool n ++ offer_pools_to_node n pools

unfoldable pub register_system_group : String → String → Bool → Bool → Registry → Bool × Registry
unfolding add_system_group
register_system_group target name before inside r =
    let added = add_system_group target name before inside r.tree in
    (added.0, record r { tree = added.1 })

unfoldable pub register_system : ℕ → String → Bool → Registry → Bool × Registry
unfolding add_system offer_pools
register_system system group at_start r =
    let added = add_system system group at_start r.tree in
    (added.0, record r { tree = added.1; offers = r.offers ++ offer_pools system r.pools })

unfoldable pub register_system_node : Node → String → Bool → Bool → Registry → Bool × Registry
unfolding add_system_tree_node offer_pools_to_node
register_system_node n target before inside r =
    let added = add_system_tree_node n target before inside r.tree in
    (added.0, record r { tree = added.1; offers = r.offers ++ offer_pools_to_node n r.pools })

unfoldable pub register_fixed_system_group :
    String → String → Bool → Bool → Registry → Bool × Registry
unfolding add_system_group
register_fixed_system_group target name before inside r =
    let added = add_system_group target name before inside r.fixed_tree in
    (added.0, record r { fixed_tree = added.1 })

unfoldable pub register_fixed_system : ℕ → String → Bool → Registry → Bool × Registry
unfolding add_system offer_pools
register_fixed_system system group at_start r =
    let added = add_system system group at_start r.fixed_tree in
    (added.0, record r { fixed_tree = added.1; offers = r.offers ++ offer_pools system r.pools })

unfoldable pub register_fixed_system_node : Node → String → Bool → Bool → Registry → Bool × Registry
unfolding add_system_tree_node offer_pools_to_node
register_fixed_system_node n target before inside r =
    let added = add_system_tree_node n target before inside r.fixed_tree in
    (added.0, record r { fixed_tree = added.1; offers = r.offers ++ offer_pools_to_node n r.pools })

unfoldable pub register_entity_pool : ℕ → Registry → Bool × Registry
unfolding register_in_node
register_entity_pool pool r = (
  true,
  record r {
    pools = r.pools ++ pool ∷ [];
    offers = (r.offers ++ register_in_node pool r.tree) ++ register_in_node pool r.fixed_tree;
  },
)
