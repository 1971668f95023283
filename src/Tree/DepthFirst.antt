-- ===== src/Tree/DepthFirst.antt =====
-- `depth_first_iteration`: the stack has, for each node above the current one, the children that
-- are left; the last one pushed comes first. `operator++` dereferences the pointer to a child
-- before it compares the address with null, which is a fault when the pointer is null.
use mathlib.Core.List.{append_assoc, append-nil}
use nvwa.Common.{
  ℕ, zero, suc, Bool, true, false, ◌||◌, if◌then◌else◌, List, [], ◌∷◌, ◌++◌, length, Option, none,
  some, Result, ok, err, fault, ◌>>=◌, ◌≡◌, refl, ap, ap₂, sym, ◌∙◌, ◌≤◌, arith,
}
use nvwa.Tree.Defs.{Tree, node, Children, none_left, null, child, value, added}

-- The children of the top of the stack: the first one, or what comes next when the top has been
-- popped.
unfoldable pub from_top :
    Children
    → List Children
    → Result (Option (Tree × List Children))
    → Result (Option (Tree × List Children))
from_top none_left stack popped = popped
from_top (null rest) stack popped = err fault
from_top (child t rest) stack popped = ok (some (t, rest ∷ stack))

-- The loop of `operator++`.
unfoldable pub next_node : List Children → Result (Option (Tree × List Children))
next_node [] = ok none
next_node (top ∷ stack) = from_top top stack (next_node stack)

unfoldable pub increment : Tree → List Children → Result (Option (Tree × List Children))
increment (node v none_left) stack = next_node stack
increment (node v (null rest)) stack = next_node (null rest ∷ stack)
increment (node v (child t rest)) stack = next_node (child t rest ∷ stack)

abbrev pub begin : Tree → Option (Tree × List Children)
begin root = some (root, [])

-- The loop over the range: the values of the nodes that it meets, `none` when it has not ended.
unfoldable pub visit : ℕ → Result (Option (Tree × List Children)) → Result (Option (List ℕ))
visit fuel (err e) = err e
visit fuel (ok none) = ok (some [])
visit zero (ok (some (t, s))) = ok none
visit (suc n) (ok (some (t, s))) = do values ← visit n (increment t s); ok (added (value t) values)

-- A node, and then what is below its children.
unfoldable mutual
  pub preorder : Tree → List ℕ
  preorder (node v children) = v ∷ below children

  pub below : Children → List ℕ
  below none_left = []
  below (null rest) = below rest
  below (child t rest) = preorder t ++ below rest

-- Some node of the tree has a null child.
unfoldable mutual
  pub has_null : Tree → Bool
  has_null (node v children) = null_below children

  pub null_below : Children → Bool
  null_below none_left = false
  null_below (null rest) = true
  null_below (child t rest) = has_null t || null_below rest

unfoldable stacked : List Children → List ℕ
stacked [] = []
stacked (top ∷ stack) = below top ++ stacked stack

unfoldable null_stacked : List Children → Bool
null_stacked [] = false
null_stacked (top ∷ stack) = null_below top || null_stacked stack

abbrev after : Tree → List Children → List ℕ
after (node v children) stack = below children ++ stacked stack

abbrev null_after : Tree → List Children → Bool
null_after (node v children) stack = null_below children || null_stacked stack

-- The values are what is ahead, and the flag tells of a null child on the way.
abbrev Follows : List ℕ → Bool → Result (Option (Tree × List Children)) → Type 0
Follows values nulls (err e) = (nulls ≡ true) × (e ≡ fault)
Follows values nulls (ok none) = (values ≡ []) × (nulls ≡ false)
Follows values nulls (ok (some (t, s))) = (values ≡ value t ∷ after t s) × (nulls ≡ null_after t s)

or_assoc : (a b c : Bool) → ((a || b) || c) ≡ (a || (b || c))
or_assoc true b c = refl
or_assoc false b c = refl

or-false : (a : Bool) → (a || false) ≡ a
or-false true = refl
or-false false = refl

from_top-Follows :
    (children : Children) (stack : List Children) (popped : Result (Option (Tree × List Children)))
    → Follows (stacked stack) (null_stacked stack) popped
    → Follows
        (below children ++ stacked stack)
        (null_below children || null_stacked stack)
        (from_top children stack popped)
unfolding from_top below preorder stacked null_below has_null null_stacked
from_top-Follows none_left stack popped follows = follows
from_top-Follows (null rest) stack popped follows = (refl, refl)
from_top-Follows (child (node v children) rest) stack popped follows = (
  ap (λ l. v ∷ l) (append_assoc (below children) (below rest) (stacked stack)),
  or_assoc (null_below children) (null_below rest) (null_stacked stack),
)

next_node-Follows :
    (stack : List Children) → Follows (stacked stack) (null_stacked stack) (next_node stack)
unfolding next_node stacked null_stacked
next_node-Follows [] = (refl, refl)
next_node-Follows (top ∷ stack) =
    from_top-Follows top stack (next_node stack) (next_node-Follows stack)

increment-Follows :
    (t : Tree) (stack : List Children)
    → Follows (after t stack) (null_after t stack) (increment t stack)
unfolding increment below stacked null_below null_stacked
increment-Follows (node v none_left) stack = next_node-Follows stack
increment-Follows (node v (null rest)) stack = next_node-Follows (null rest ∷ stack)
increment-Follows (node v (child t rest)) stack = next_node-Follows (child t rest ∷ stack)

-- What the loop comes to.
abbrev met : Bool → List ℕ → Result (Option (List ℕ))
met nulls values = if nulls then err fault else ok (some values)

met-added :
    (v : ℕ) (nulls : Bool) (values : List ℕ)
    → (met nulls values >>= λ l. ok (added v l)) ≡ met nulls (v ∷ values)
met-added v true values = refl
met-added v false values = refl

visit-Follows :
    (n : ℕ) (values : List ℕ) (nulls : Bool) (at : Result (Option (Tree × List Children)))
    → Follows values nulls at
    → length values ≤ n
    → visit n at ≡ met nulls values
unfolding visit
visit-Follows n values nulls (err e) (null_met, is_fault) le = rw (null_met, is_fault) refl
visit-Follows n values nulls (ok none) (ended, no_null) le = rw (ended, no_null) refl
visit-Follows zero values nulls (ok (some (t, s))) (ahead, null_ahead) le =
    let long : length values ≡ suc (length (after t s)) = ap length ahead in ground arith
visit-Follows (suc n) values nulls (ok (some (t, s))) (ahead, null_ahead) le =
    let long : length values ≡ suc (length (after t s)) = ap length ahead in
    ap (λ r. r >>= λ l. ok (added (value t) l))
      (visit-Follows n (after t s) (null_after t s) (increment t s) (increment-Follows t s)
        (omega arith))
    ∙ met-added (value t) (null_after t s) (after t s)
    ∙ ap₂ met (sym null_ahead) (sym ahead)

-- The loop over depth_first_iteration of a tree, with a round for each node, ends. If no node has a
-- null child, it meets each node before what is below its children, those from left to right; else
-- operator++ dereferences a null pointer on the way, a fault.
pub visit-preorder :
    (t : Tree) (fuel : ℕ)
    → length (preorder t) ≤ fuel
    → visit fuel (ok (begin t)) ≡ (if has_null t then err fault else ok (some (preorder t)))
unfolding preorder stacked has_null null_stacked
visit-preorder (node v children) fuel enough =
    visit-Follows fuel (v ∷ below children) (null_below children) (ok (begin (node v children)))
      (ap (λ l. v ∷ l) (sym (append-nil (below children))), sym (or-false (null_below children)))
      enough
