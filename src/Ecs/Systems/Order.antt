-- ===== src/Ecs/Systems/Order.antt =====
-- libs/lib_ecs/Systems/SystemTree.cpp: what insertions do to the order in which systems run.
use Prim.Native.String.{String}
use text.Mathlib.Text.{◌==◌ as str_eq}
use project_e.Common.{
  ℕ, ◌+◌, ◌≡◌, refl, sym, Bool, true, false, ◌||◌, ◌&&◌, List, [], ◌∷◌, ◌++◌, arith, ◌==◌,
  if◌then◌else◌, Bool-cases, inl, inr,
}
use project_e.Ecs.Systems.{
  Node, Nodes, node, nil, cons, new_node, push_back, get_group, add_system, add_system_nodes,
  add_inside, add_inside_nodes, add_near, add_system_tree_node, add_system_group, run_node,
  run_nodes,
}

-- Whether a group of that name stands in the tree
mutual
  pub occurs : String → Node → Bool
  occurs name (node own should_run starts children ends) =
      str_eq name own || occurs_in name children

  pub occurs_in : String → Nodes → Bool
  occurs_in name nil = false
  occurs_in name (cons c cs) = occurs name c || occurs_in name cs

-- How often a system stands in a list
abbrev pub count : ℕ → List ℕ → ℕ
count x [] = 0
count x (y ∷ ys) = (if x == y then 1 else 0) + count x ys

pub count-append : (x : ℕ) (xs ys : List ℕ) → count x (xs ++ ys) ≡ count x xs + count x ys
count-append x [] ys = omega arith
count-append x (z ∷ xs) ys = omega (arith, count-append x xs ys)

-- Every node runs.
abbrev pub always : String → Bool → Bool
always name should_run = true

mutual
  unfolding add_system occurs

  add_system-occurs_in :
      (system : ℕ) (name : String) (at_start : Bool) (n : Node)
      → (add_system system name at_start n).0 ≡ occurs name n
  add_system-occurs_in system name at_start (node own should_run starts children ends) =
      ground (arith, add_system_nodes-occurs_in system name at_start children)

  add_system_nodes-occurs_in :
      (system : ℕ) (name : String) (at_start : Bool) (ns : Nodes)
      → (add_system_nodes system name at_start ns).0 ≡ occurs_in name ns
  add_system_nodes-occurs_in system name at_start nil = refl
  add_system_nodes-occurs_in system name at_start (cons c cs) = ground (
    arith,
    add_system-occurs_in system name at_start c,
    add_system_nodes-occurs_in system name at_start cs,
  )

abbrev extra : Bool → ℕ → ℕ → ℕ
extra found x system = if found && x == system then 1 else 0

pub count_three :
    (x : ℕ) (xs ys zs : List ℕ)
    → count x (xs ++ (ys ++ zs)) ≡ count x xs + (count x ys + count x zs)
count_three x xs ys zs = omega (arith, count-append x xs (ys ++ zs), count-append x ys zs)

mutual
  unfolding add_system run_node

  count_node :
      (x system : ℕ) (name : String) (at_start : Bool) (n : Node)
      → count x (run_node always (add_system system name at_start n).1)
        ≡ count x (run_node always n) + extra (add_system system name at_start n).0 x system
  count_node x system name at_start (node own should_run starts children ends) =
      let inner = run_nodes always children in
      elim (Bool-cases (str_eq name own)) [
        | inl hit ↦ (elim (Bool-cases at_start) [
          | inl start ↦
              rw (hit, start)
                (ground (
                  arith,
                  count_three x (starts ++ system ∷ []) inner ends,
                  count_three x starts inner ends,
                  count-append x starts (system ∷ []),
                ))
          | inr end ↦
              rw (hit, end)
                (ground (
                  arith,
                  count_three x starts inner (ends ++ system ∷ []),
                  count_three x starts inner ends,
                  count-append x ends (system ∷ []),
                ))
        ])
        | inr miss ↦ rw miss (
            ground (
              arith,
              count_three x starts inner ends,
              count_three x starts
                  (run_nodes always (add_system_nodes system name at_start children).1) ends,
              count_nodes x system name at_start children,
            ))
      ]

  count_nodes :
      (x system : ℕ) (name : String) (at_start : Bool) (ns : Nodes)
      → count x (run_nodes always (add_system_nodes system name at_start ns).1)
        ≡ count x (run_nodes always ns)
          + extra (add_system_nodes system name at_start ns).0 x system
  count_nodes x system name at_start nil = refl
  count_nodes x system name at_start (cons c cs) =
      let c' = (add_system system name at_start c).1 in
      let cs' = (add_system_nodes system name at_start cs).1 in
      elim (Bool-cases (add_system system name at_start c).0) [
        | inl found ↦ rw found (
            ground (
              arith,
              count_node x system name at_start c,
              count-append x (run_node always c') (run_nodes always cs),
              count-append x (run_node always c) (run_nodes always cs),
            ))
        | inr not_found ↦ rw not_found (
            ground (
              arith,
              count_node x system name at_start c,
              count_nodes x system name at_start cs,
              count-append x (run_node always c') (run_nodes always cs'),
              count-append x (run_node always c) (run_nodes always cs),
            ))
      ]

-- `addSystem` succeeds exactly if a group of that name stands in the tree, and then the system runs
-- once more than before; every other system, and every system where there is no such group, runs as
-- often as before, provided that no callback stops a group.
pub add_system-count :
    (x system : ℕ) (name : String) (at_start : Bool) (n : Node)
    → ((add_system system name at_start n).0 ≡ occurs name n)
      × (count x (run_node always (add_system system name at_start n).1)
          ≡ count x (run_node always n) + (if occurs name n && x == system then 1 else 0))
add_system-count x system name at_start n =
    let found = add_system-occurs_in system name at_start n in
    (found, rw (sym found) (count_node x system name at_start n))

module _ (on_start : String → Bool → Bool) (x : Node) (idle : run_node on_start x ≡ []) where
  run_push_back : (ns : Nodes) → run_nodes on_start (push_back x ns) ≡ run_nodes on_start ns
  unfolding push_back run_node
  run_push_back nil = rw idle
  run_push_back (cons c cs) = rw (run_push_back cs)

  mutual
    unfolding add_inside run_node

    run_inside :
        (target : String) (before : Bool) (n : Node)
        → run_node on_start (add_inside x target before n).1 ≡ run_node on_start n
    run_inside target before (node own should_run starts children ends) =
        elim (Bool-cases (str_eq target own)) [
          | inl hit ↦ (elim (Bool-cases before) [
            | inl first ↦ rw (hit, first, idle)
            | inr last ↦ rw (hit, last, run_push_back children)
          ])
          | inr miss ↦ rw (miss, run_inside_nodes target before children)
        ]

    run_inside_nodes :
        (target : String) (before : Bool) (ns : Nodes)
        → run_nodes on_start (add_inside_nodes x target before ns).1 ≡ run_nodes on_start ns
    run_inside_nodes target before nil = refl
    run_inside_nodes target before (cons c cs) =
        elim (Bool-cases (add_inside x target before c).0) [
          | inl found ↦ rw (found, run_inside target before c)
          | inr not_found ↦
              rw (not_found, run_inside target before c, run_inside_nodes target before cs)
        ]

  run_near :
      (target : String) (before : Bool) (ns : Nodes)
      → run_nodes on_start (add_near x target before ns).1 ≡ run_nodes on_start ns
  unfolding add_near run_node
  run_near target before nil = refl
  run_near target before (cons c cs) = elim (Bool-cases (str_eq (get_group c) target)) [
    | inl hit ↦ elim (Bool-cases before) [
      | inl first ↦ rw (hit, first, idle)
      | inr second ↦ rw (hit, second, idle)
    ]
    | inr miss ↦ rw (miss, run_near target before cs)
  ]

  -- Adding a node whose systems do not run changes nothing in what runs, nor in its order, wherever it is
  -- added and whatever the callbacks are.
  pub run_node-add_system_tree_node :
      (target : String) (before inside : Bool) (n : Node)
      → run_node on_start (add_system_tree_node x target before inside n).1 ≡ run_node on_start n
  unfolding add_system_tree_node run_node
  run_node-add_system_tree_node target before true (node own should_run starts children ends) =
      run_inside target before (node own should_run starts children ends)
  run_node-add_system_tree_node target before false (node own should_run starts children ends) =
      rw (run_near target before children)

-- `addSystemGroup` does not change which systems run, nor their order, whatever the callbacks are.
pub run_node-add_system_group :
    (on_start : String → Bool → Bool) (target name : String) (before inside : Bool) (n : Node)
    → run_node on_start (add_system_group target name before inside n).1 ≡ run_node on_start n
unfolding add_system_group run_node
run_node-add_system_group on_start target name before inside n =
    let idle : run_node on_start (new_node name) ≡ [] = ground arith in
    run_node-add_system_tree_node on_start (new_node name) idle target before inside n
