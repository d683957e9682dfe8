-- ===== src/Ecs/Systems.antt =====
-- libs/lib_ecs/Systems/SystemTree.hpp and SystemTree.cpp: the tree of system groups, and the order in
-- which its systems run. A system is a number, the pointer to it. A start callback is taken by what it
-- leaves in `shouldRun`, from the group and the flag that it finds; a callback that changes more of the
-- tree is not modelled.
pub mod Order
use Prim.Native.String.{String}
use text.Mathlib.Text.{◌==◌ as str_eq}
use project_e.Common.{ℕ, ◌+◌, Bool, true, false, not, ◌||◌, List, [], ◌∷◌, ◌++◌, if◌then◌else◌}

-- `SystemTreeNode`: `_group`, `shouldRun`, `_startSystems`, `_children` and `_endSystems`
mutual
  pub data Node : Type 0 where
    node : String → Bool → List ℕ → Nodes → List ℕ → Node

  pub data Nodes : Type 0 where
    nil : Nodes
    cons : Node → Nodes → Nodes

-- `SystemTreeNode(newGroup)`
abbrev pub new_node : String → Node
new_node name = node name true [] nil []

unfoldable pub get_group : Node → String
get_group (node name should_run starts children ends) = name

-- `emplace_back` and `push_back`
unfoldable pub push_back : Node → Nodes → Nodes
push_back x nil = cons x nil
push_back x (cons c cs) = cons c (push_back x cs)

-- `addSystem`: whether a group of that name was found, and the node
unfoldable mutual
  pub add_system : ℕ → String → Bool → Node → Bool × Node
  add_system system name at_start (node own should_run starts children ends) =
      let deeper = add_system_nodes system name at_start children in
      if str_eq name own
      then (
        true,
        if at_start
            then node own should_run (starts ++ system ∷ []) children ends
            else node own should_run starts children (ends ++ system ∷ []),
      )
      else (deeper.0, node own should_run starts deeper.1 ends)

  pub add_system_nodes : ℕ → String → Bool → Nodes → Bool × Nodes
  add_system_nodes system name at_start nil = (false, nil)
  add_system_nodes system name at_start (cons c cs) =
      let here = add_system system name at_start c in
      let later = add_system_nodes system name at_start cs in
      if here.0 then (true, cons here.1 cs) else (later.0, cons here.1 later.1)

-- `addSystemTreeNode` with `addInside`
unfoldable mutual
  pub add_inside : Node → String → Bool → Node → Bool × Node
  add_inside x target before (node own should_run starts children ends) =
      let deeper = add_inside_nodes x target before children in
      if str_eq target own
      then (
        true,
        node own should_run starts (if before then cons x children else push_back x children) ends,
      )
      else (deeper.0, node own should_run starts deeper.1 ends)

  pub add_inside_nodes : Node → String → Bool → Nodes → Bool × Nodes
  add_inside_nodes x target before nil = (false, nil)
  add_inside_nodes x target before (cons c cs) =
      let here = add_inside x target before c in
      let later = add_inside_nodes x target before cs in
      if here.0 then (true, cons here.1 cs) else (later.0, cons here.1 later.1)

-- The loop over the children, without `addInside`
unfoldable pub add_near : Node → String → Bool → Nodes → Bool × Nodes
unfolding get_group
add_near x target before nil = (false, nil)
add_near x target before (cons c cs) =
    let later = add_near x target before cs in
    if str_eq (get_group c) target
    then (true, if before then cons x (cons c cs) else cons c (cons x cs))
    else (later.0, cons c later.1)

-- `addSystemTreeNode`
unfoldable pub add_system_tree_node : Node → String → Bool → Bool → Node → Bool × Node
unfolding add_near add_inside
add_system_tree_node x target before inside (node own should_run starts children ends) =
    let near = add_near x target before children in
    if inside
    then add_inside x target before (node own should_run starts children ends)
    else (near.0, node own should_run starts near.1 ends)

-- `addSystemGroup`, the same text for a new node
unfoldable pub add_system_group : String → String → Bool → Bool → Node → Bool × Node
unfolding add_system_tree_node
add_system_group target name before inside n =
    add_system_tree_node (new_node name) target before inside n

-- `runNode`: the systems that run, in order
module _ (on_start : String → Bool → Bool) where
  unfoldable mutual
    pub run_node : Node → List ℕ
    run_node (node own should_run starts children ends) =
        let inner = run_nodes children in
        if on_start own should_run then starts ++ (inner ++ ends) else []

    pub run_nodes : Nodes → List ℕ
    run_nodes nil = []
    run_nodes (cons c cs) = run_node c ++ run_nodes cs
