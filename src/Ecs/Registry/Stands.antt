-- ===== src/Ecs/Registry/Stands.antt =====
-- libs/lib_ecs/Systems/SystemTree.cpp: how often a system stands in a tree to which a node was added.
use Prim.Native.String.{String}
use text.Mathlib.Text.{◌==◌ as str_eq}
use project_e.Common.{
  ℕ, ◌+◌, ◌≡◌, Bool, true, false, List, arith, if◌then◌else◌, Bool-cases, inl, inr,
}
use project_e.Ecs.Systems.{
  Node, Nodes, node, nil, cons, push_back, get_group, add_inside, add_inside_nodes, add_near,
  add_system_tree_node, run_node, run_nodes,
}
use project_e.Ecs.Systems.Order.{count, count-append, count_three, always}

-- How often a system stands in a node
abbrev pub stands : ℕ → Node → ℕ
stands x n = count x (run_node always n)

abbrev pub stands_in : ℕ → Nodes → ℕ
stands_in x ns = count x (run_nodes always ns)

pub stands_parts :
    (x : ℕ) (own : String) (should_run : Bool) (starts ends : List ℕ) (ns : Nodes)
    → stands x (node own should_run starts ns ends)
      ≡ count x starts + (stands_in x ns + count x ends)
unfolding run_node
stands_parts x own should_run starts ends ns = count_three x starts (run_nodes always ns) ends

pub stands_cons :
    (x : ℕ) (c : Node) (cs : Nodes) → stands_in x (cons c cs) ≡ stands x c + stands_in x cs
unfolding run_node
stands_cons x c cs = count-append x (run_node always c) (run_nodes always cs)

module _ (x : ℕ) (n : Node) where
  stands-push_back : (ns : Nodes) → stands_in x (push_back n ns) ≡ stands_in x ns + stands x n
  unfolding push_back
  stands-push_back nil = omega (arith, stands_cons x n nil)
  stands-push_back (cons c cs) =
      omega (arith, stands_cons x c (push_back n cs), stands_cons x c cs, stands-push_back cs)

  extra : Bool → ℕ
  extra found = if found then stands x n else 0

  mutual
    unfolding add_inside extra

    stands_inside :
        (target : String) (before : Bool) (m : Node)
        → stands x (add_inside n target before m).1
          ≡ stands x m + extra (add_inside n target before m).0
    stands_inside target before (node own should_run starts children ends) =
        let old = stands_parts x own should_run starts ends in
        elim (Bool-cases (str_eq target own)) [
          | inl hit ↦ (elim (Bool-cases before) [
            | inl first ↦
                rw (hit, first)
                  (omega (arith, old children, old (cons n children), stands_cons x n children))
            | inr last ↦
                rw (hit, last)
                  (omega
                    (arith, old children, old (push_back n children), stands-push_back children))
          ])
          | inr miss ↦ rw miss (
              omega (
                arith,
                old children,
                old (add_inside_nodes n target before children).1,
                stands_inside_nodes target before children,
              ))
        ]

    stands_inside_nodes :
        (target : String) (before : Bool) (ns : Nodes)
        → stands_in x (add_inside_nodes n target before ns).1
          ≡ stands_in x ns + extra (add_inside_nodes n target before ns).0
    stands_inside_nodes target before nil = omega arith
    stands_inside_nodes target before (cons c cs) =
        let c' = (add_inside n target before c).1 in
        let cs' = (add_inside_nodes n target before cs).1 in
        let here = stands_inside target before c in
        let later = stands_inside_nodes target before cs in
        elim (Bool-cases (add_inside n target before c).0) [
          | inl found ↦ rw found (ground (arith, here, stands_cons x c cs, stands_cons x c' cs))
          | inr missing ↦
              rw missing (ground (arith, here, later, stands_cons x c cs, stands_cons x c' cs'))
        ]

  stands_near :
      (target : String) (before : Bool) (ns : Nodes)
      → stands_in x (add_near n target before ns).1
        ≡ stands_in x ns + extra (add_near n target before ns).0
  unfolding add_near extra
  stands_near target before nil = omega arith
  stands_near target before (cons c cs) =
      let rest = (add_near n target before cs).1 in
      elim (Bool-cases (str_eq (get_group c) target)) [
        | inl hit ↦ elim (Bool-cases before) [
          | inl first ↦ rw (hit, first) (omega (arith, stands_cons x n (cons c cs)))
          | inr second ↦
              rw (hit, second)
                (omega (arith, stands_cons x c cs, stands_cons x c (cons n cs), stands_cons x n cs))
        ]
        | inr miss ↦
            rw miss (
              omega (arith, stands_cons x c cs, stands_cons x c rest, stands_near target before cs))
      ]

  -- A system stands in the tree as often as before, and as often as it stands in the node if that was
  -- added.
  pub stands-add_system_tree_node :
      (target : String) (before inside : Bool) (m : Node)
      → stands x (add_system_tree_node n target before inside m).1
        ≡ stands x m + (if (add_system_tree_node n target before inside m).0 then stands x n else 0)
  unfolding add_system_tree_node extra
  stands-add_system_tree_node target before true (node own should_run starts children ends) =
      stands_inside target before (node own should_run starts children ends)
  stands-add_system_tree_node target before false (node own should_run starts children ends) =
      omega (
        arith,
        stands_parts x own should_run starts ends children,
        stands_parts x own should_run starts ends (add_near n target before children).1,
        stands_near target before children,
      )
