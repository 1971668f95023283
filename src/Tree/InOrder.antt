-- ===== src/Tree/InOrder.antt =====
-- `in_order_iteration`: the stack has, for each node above the current one, that node unless it has
-- been met, and the children that are left; the last one pushed comes first.
use mathlib.Core.List.{append_assoc, append-nil}
use nvwa.Common.{ℕ, List, [], ◌∷◌, ◌++◌, length, Option, none, some, ◌≡◌, refl, sym, ◌∙◌, ◌≤◌}
use nvwa.Tree.Defs.{Tree, node, Children, none_left, null, child, value, visit, visit-Ahead, Ahead}

abbrev pub Stack : Type 0
Stack = List (Option Tree × Children)

unfoldable pub find_leftmost_child : Tree → Stack → Tree × Stack
find_leftmost_child (node v none_left) stack = (node v none_left, stack)
find_leftmost_child (node v (null rest)) stack = (node v (null rest), (none, rest) ∷ stack)
find_leftmost_child (node v (child t rest)) stack =
    find_leftmost_child t ((some (node v (child t rest)), rest) ∷ stack)

-- The non-leftmost children of the top of the stack, or what comes next when it has been popped.
unfoldable pub from_top : Children → Stack → Option (Tree × Stack) → Option (Tree × Stack)
from_top none_left stack popped = popped
from_top (null rest) stack popped = from_top rest stack popped
from_top (child t rest) stack popped = some (find_leftmost_child t ((none, rest) ∷ stack))

-- The loop of `operator++`.
unfoldable pub next_node : Stack → Option (Tree × Stack)
next_node [] = none
next_node ((some current, rest) ∷ stack) = some (current, (none, rest) ∷ stack)
next_node ((none, rest) ∷ stack) = from_top rest stack (next_node stack)

abbrev pub increment : Tree → Stack → Option (Tree × Stack)
increment t stack = next_node stack

abbrev pub begin : Tree → Option (Tree × Stack)
begin root = some (find_leftmost_child root [])

-- What is below the leftmost child, the node, and what is below the other children.
unfoldable mutual
  pub in_order : Tree → List ℕ
  in_order (node v none_left) = v ∷ []
  in_order (node v (null rest)) = v ∷ others rest
  in_order (node v (child t rest)) = in_order t ++ v ∷ others rest

  pub others : Children → List ℕ
  others none_left = []
  others (null rest) = others rest
  others (child t rest) = in_order t ++ others rest

unfoldable stacked : Stack → List ℕ
stacked [] = []
stacked ((some t, rest) ∷ stack) = value t ∷ others rest ++ stacked stack
stacked ((none, rest) ∷ stack) = others rest ++ stacked stack

abbrev after : Tree → Stack → List ℕ
after t stack = stacked stack

find_leftmost_child-Ahead :
    (t : Tree) (stack : Stack)
    → in_order t ++ stacked stack
      ≡ value (find_leftmost_child t stack).0 ∷ stacked (find_leftmost_child t stack).1
unfolding find_leftmost_child in_order stacked
find_leftmost_child-Ahead (node v none_left) stack = refl
find_leftmost_child-Ahead (node v (null rest)) stack = refl
find_leftmost_child-Ahead (node v (child t rest)) stack =
    append_assoc (in_order t) (v ∷ others rest) (stacked stack)
    ∙ find_leftmost_child-Ahead t ((some (node v (child t rest)), rest) ∷ stack)

from_top-Ahead :
    (children : Children) (stack : Stack) (popped : Option (Tree × Stack))
    → Ahead increment after (stacked stack) popped
    → Ahead increment after (others children ++ stacked stack) (from_top children stack popped)
unfolding from_top others stacked
from_top-Ahead none_left stack popped ahead = ahead
from_top-Ahead (null rest) stack popped ahead = from_top-Ahead rest stack popped ahead
from_top-Ahead (child t rest) stack popped ahead =
    append_assoc (in_order t) (others rest) (stacked stack)
    ∙ find_leftmost_child-Ahead t ((none, rest) ∷ stack)

next_node-Ahead : (stack : Stack) → Ahead increment after (stacked stack) (next_node stack)
unfolding next_node stacked
next_node-Ahead [] = refl
next_node-Ahead ((some t, rest) ∷ stack) = refl
next_node-Ahead ((none, rest) ∷ stack) =
    from_top-Ahead rest stack (next_node stack) (next_node-Ahead stack)

-- The loop over in_order_iteration of a tree, with a round for each node, ends and meets what is
-- below the leftmost child of a node, then the node, then what is below its other children, from
-- left to right.
pub visit-in_order :
    (t : Tree) (fuel : ℕ)
    → length (in_order t) ≤ fuel
    → visit increment fuel (begin t) ≡ some (in_order t)
unfolding stacked
visit-in_order t fuel enough =
    visit-Ahead increment after (λ s stack. next_node-Ahead stack) fuel (in_order t) (begin t)
      (sym (append-nil (in_order t)) ∙ find_leftmost_child-Ahead t []) enough
