-- ===== src/Tree/BreadthFirst.antt =====
-- `breadth_first_iteration`: the nodes of the level after the current one, and the next level.
use mathlib.Core.List.{append_assoc, append-nil}
use nvwa.Common.{
  ℕ, zero, suc, ◌+◌, max, List, [], ◌∷◌, ◌++◌, length, Option, none, some, ◌≡◌, refl, ap, ap₂,
  subst, sym, ◌∙◌, ◌≤◌, arith,
}
use nvwa.Tree.Defs.{Tree, node, Children, none_left, null, child, value, visit, visit-Ahead, Ahead}

abbrev pub Levels : Type 0
Levels = List Tree × List Tree

-- The children that are no null pointers.
unfoldable pub nodes_of : Children → List Tree
nodes_of none_left = []
nodes_of (null rest) = nodes_of rest
nodes_of (child t rest) = t ∷ nodes_of rest

unfoldable pub children : Tree → List Tree
children (node v below) = nodes_of below

-- The node after the current one, or the first of the next level.
unfoldable pub turn : List Tree → List Tree → Option (Tree × Levels)
turn (t ∷ later) next_level = some (t, (later, next_level))
turn [] (t ∷ later) = some (t, (later, []))
turn [] [] = none

unfoldable pub increment : Tree → Levels → Option (Tree × Levels)
increment current (later, next_level) = turn later (next_level ++ children current)

abbrev pub begin : Tree → Option (Tree × Levels)
begin root = some (root, ([], []))

-- The values of the nodes of a depth, from left to right.
unfoldable mutual
  pub at_depth : ℕ → Tree → List ℕ
  at_depth zero (node v below) = v ∷ []
  at_depth (suc d) (node v below) = at_depth_below d below

  pub at_depth_below : ℕ → Children → List ℕ
  at_depth_below d none_left = []
  at_depth_below d (null rest) = at_depth_below d rest
  at_depth_below d (child t rest) = at_depth d t ++ at_depth_below d rest

unfoldable mutual
  pub height : Tree → ℕ
  height (node v below) = suc (height_below below)

  pub height_below : Children → ℕ
  height_below none_left = zero
  height_below (null rest) = height_below rest
  height_below (child t rest) = max (height t) (height_below rest)

-- The values of `n` depths from `d` on.
unfoldable pub depths : ℕ → ℕ → Tree → List ℕ
depths zero d t = []
depths (suc n) d t = at_depth d t ++ depths n (suc d) t

-- The values of all nodes, those of a lesser depth first.
abbrev pub level_order : Tree → List ℕ
level_order t = depths (height t) 0 t

-- The same of several trees that stand side by side.
unfoldable forest_below : List Tree → List Tree
forest_below [] = []
forest_below (t ∷ ts) = children t ++ forest_below ts

unfoldable forest_height : List Tree → ℕ
forest_height [] = zero
forest_height (t ∷ ts) = max (height t) (forest_height ts)

values : List Tree → List ℕ
values [] = []
values (t ∷ ts) = value t ∷ values ts

unfoldable levels : ℕ → List Tree → List ℕ
levels zero ts = []
levels (suc n) ts = values ts ++ levels n (forest_below ts)

abbrev all_levels : List Tree → List ℕ
all_levels ts = levels (forest_height ts) ts

abbrev after : Tree → Levels → List ℕ
after t (later, next_level) =
    values later ++ all_levels (next_level ++ (children t ++ forest_below later))

forest_height-append :
    (xs ys : List Tree) → forest_height (xs ++ ys) ≡ max (forest_height xs) (forest_height ys)
unfolding forest_height
forest_height-append [] ys = omega arith
forest_height-append (x ∷ xs) ys = omega (arith, forest_height-append xs ys)

height_below-nodes_of : (below : Children) → height_below below ≡ forest_height (nodes_of below)
unfolding height_below nodes_of forest_height
height_below-nodes_of none_left = refl
height_below-nodes_of (null rest) = height_below-nodes_of rest
height_below-nodes_of (child t rest) = omega (arith, height_below-nodes_of rest)

height-children : (t : Tree) → height t ≡ suc (forest_height (children t))
unfolding height children
height-children (node v below) = ap (λ n. suc n) (height_below-nodes_of below)

forest_height-forest_below :
    (t : Tree) (ts : List Tree)
    → forest_height (t ∷ ts) ≡ suc (forest_height (forest_below (t ∷ ts)))
unfolding forest_height forest_below
forest_height-forest_below t [] =
    omega (arith, height-children t, forest_height-append (children t) [])
forest_height-forest_below t (u ∷ us) = omega (
  arith,
  height-children t,
  forest_height-append (children t) (forest_below (u ∷ us)),
  forest_height-forest_below u us,
)

-- The first level, and the others.
all_levels-forest_below :
    (t : Tree) (ts : List Tree)
    → all_levels (t ∷ ts) ≡ values (t ∷ ts) ++ all_levels (forest_below (t ∷ ts))
unfolding levels
all_levels-forest_below t ts = ap (λ n. levels n (t ∷ ts)) (forest_height-forest_below t ts)

turn-Ahead :
    (later next_level : List Tree)
    → Ahead increment after
        (values later ++ all_levels (next_level ++ forest_below later))
        (turn later next_level)
unfolding turn values forest_below levels forest_height
turn-Ahead (t ∷ later) next_level = refl
turn-Ahead [] (t ∷ later) = ap all_levels (append-nil (t ∷ later)) ∙ all_levels-forest_below t later
turn-Ahead [] [] = refl

increment-Ahead : (t : Tree) (s : Levels) → Ahead increment after (after t s) (increment t s)
unfolding increment
increment-Ahead t (later, next_level) =
    subst
      (λ l.
        Ahead increment after (values later ++ all_levels l)
          (turn later (next_level ++ children t)))
      (append_assoc next_level (children t) (forest_below later))
      (turn-Ahead later (next_level ++ children t))

-- The nodes of a depth below several trees.
deep : ℕ → List Tree → List ℕ
deep d [] = []
deep d (t ∷ ts) = at_depth d t ++ deep d ts

deep-append : (d : ℕ) (xs ys : List Tree) → deep d (xs ++ ys) ≡ deep d xs ++ deep d ys
unfolding deep
deep-append d [] ys = refl
deep-append d (x ∷ xs) ys =
    ap (λ l. at_depth d x ++ l) (deep-append d xs ys)
    ∙ sym (append_assoc (at_depth d x) (deep d xs) (deep d ys))

deep-nodes_of : (d : ℕ) (below : Children) → deep d (nodes_of below) ≡ at_depth_below d below
unfolding deep nodes_of at_depth_below
deep-nodes_of d none_left = refl
deep-nodes_of d (null rest) = deep-nodes_of d rest
deep-nodes_of d (child t rest) = ap (λ l. at_depth d t ++ l) (deep-nodes_of d rest)

deep-forest_below : (d : ℕ) (ts : List Tree) → deep d (forest_below ts) ≡ deep (suc d) ts
unfolding deep forest_below children at_depth
deep-forest_below d [] = refl
deep-forest_below d (node v below ∷ ts) =
    deep-append d (nodes_of below) (forest_below ts)
    ∙ ap₂ (λ a b. a ++ b) (deep-nodes_of d below) (deep-forest_below d ts)

deep-values : (ts : List Tree) → values ts ≡ deep 0 ts
unfolding deep values at_depth
deep-values [] = refl
deep-values (node v below ∷ ts) = ap (λ l. v ∷ l) (deep-values ts)

levels-depths :
    (n d : ℕ) (t : Tree) (ts : List Tree)
    → ((e : ℕ) → deep e ts ≡ at_depth (d + e) t)
    → levels n ts ≡ depths n d t
unfolding levels depths
levels-depths zero d t ts same = refl
levels-depths (suc n) d t ts same =
    ap₂ (λ a b. a ++ b)
      (deep-values ts ∙ same 0 ∙ ap (λ e. at_depth e t) {x = d + 0} {y = d} (omega arith))
      (levels-depths n (suc d) t (forest_below ts) (λ e.
        deep-forest_below e ts
        ∙ same (suc e)
        ∙ ap (λ k. at_depth k t) {x = d + suc e} {y = suc d + e} (omega arith)))

all_levels-level_order : (t : Tree) → all_levels (t ∷ []) ≡ level_order t
unfolding forest_height deep
all_levels-level_order t =
    ap (λ n. levels n (t ∷ [])) {x = max (height t) 0} {y = height t} (omega arith)
    ∙ levels-depths (height t) 0 t (t ∷ [])
        (λ e. append-nil (at_depth e t) ∙ ap (λ k. at_depth k t) {x = e} {y = 0 + e} (omega arith))

-- The loop over breadth_first_iteration of a tree, with a round for each node, ends and meets the
-- nodes of a lesser depth before those of a greater, and those of the same depth from left to
-- right.
pub visit-level_order :
    (t : Tree) (fuel : ℕ)
    → length (level_order t) ≤ fuel
    → visit increment fuel (begin t) ≡ some (level_order t)
unfolding values forest_below
visit-level_order t fuel enough =
    visit-Ahead increment after increment-Ahead fuel (level_order t) (begin t)
      (sym (all_levels-level_order t) ∙ all_levels-forest_below t []) enough
