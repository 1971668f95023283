-- ===== src/Tree/Tests.antt =====
-- The traversals of a tree of three levels with a null child.
use nvwa.Common.{[], ◌∷◌, some, ok, err, fault, ◌≡◌, refl, arith}
use nvwa.Tree.Defs.{Tree, node, none_left, null, child, visit}
use nvwa.Tree.BreadthFirst
use nvwa.Tree.DepthFirst
use nvwa.Tree.InOrder

abbrev three_levels : Tree
three_levels = node 1 (
    child (node 2 (null (child (node 3 none_left) none_left)))
      (child (node 4 (child (node 5 none_left) none_left)) none_left))

-- The same without the null child.
abbrev no_null : Tree
no_null = node 1 (
    child (node 2 (child (node 3 none_left) none_left))
      (child (node 4 (child (node 5 none_left) none_left)) none_left))

visit-preorder_example :
    DepthFirst.visit 5 (ok (DepthFirst.begin no_null)) ≡ ok (some (1 ∷ 2 ∷ 3 ∷ 4 ∷ 5 ∷ []))
unfolding DepthFirst.preorder DepthFirst.below DepthFirst.has_null DepthFirst.null_below
visit-preorder_example = DepthFirst.visit-preorder no_null 5 (omega arith)

visit-null_child : DepthFirst.visit 5 (ok (DepthFirst.begin three_levels)) ≡ err fault
unfolding DepthFirst.visit DepthFirst.increment DepthFirst.next_node DepthFirst.from_top
visit-null_child = refl

visit-in_order_example :
    visit InOrder.increment 5 (InOrder.begin three_levels) ≡ some (2 ∷ 3 ∷ 1 ∷ 5 ∷ 4 ∷ [])
unfolding InOrder.in_order InOrder.others
visit-in_order_example = InOrder.visit-in_order three_levels 5 (omega arith)

visit-level_order_example :
    visit BreadthFirst.increment 5 (BreadthFirst.begin three_levels) ≡ some (1 ∷ 2 ∷ 4 ∷ 3 ∷ 5 ∷ [])
unfolding BreadthFirst.depths BreadthFirst.at_depth BreadthFirst.at_depth_below BreadthFirst.height
    BreadthFirst.height_below
visit-level_order_example = BreadthFirst.visit-level_order three_levels 5 (omega arith)
