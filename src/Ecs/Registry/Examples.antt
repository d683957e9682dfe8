-- ===== src/Ecs/Registry/Examples.antt =====
-- A manager on which a pool is registered between two systems.
use project_e.Common.{refl, true, List, [], ◌∷◌}
use project_e.Ecs.Systems.{new_node}
use project_e.Ecs.Registry.{
  new_registry, register_system_group, register_system, register_fixed_system_node,
  register_entity_pool,
}
use project_e.Ecs.Registry.Runs.{
  Op, registers_system, registers_fixed_node, registers_pool, registers_group, run, Offered,
  run-Offered,
}

abbrev calls : List Op
calls =
    registers_group "ROOT" "PHYSICS" true true
    ∷ registers_system 1 "PHYSICS" true
    ∷ registers_pool 10
    ∷ registers_system 2 "ROOT" true
    ∷ registers_fixed_node (new_node "NET") "FIXED_ROOT" true true
    ∷ registers_pool 11
    ∷ []

run-Offered_example : Offered (run calls new_registry).1
unfolding register_system register_fixed_system_node register_entity_pool register_system_group
run-Offered_example = run-Offered calls refl
