-- ===== src/Tree/Defs.antt =====
-- A node is its value and its vector of children, of which each is a pointer, maybe null. The
-- traversals read the tree only; a pointer to a node is the node.
use nvwa.Common.{
  ℕ, zero, suc, List, [], ◌∷◌, length, Option, none, some, ◌≡◌, ap, sym, ◌∙◌, ◌≤◌, arith,
}

mutual
  pub data Tree : Type 0 where
    node : ℕ → Children → Tree

  pub data Children : Type 0 where
    none_left : Children
    null : Children → Children
    child : Tree → Children → Children

abbrev pub value : Tree → ℕ
value (node v children) = v

-- The values that a loop meets, with one before them.
abbrev pub added : ℕ → Option (List ℕ) → Option (List ℕ)
added v none = none
added v (some values) = some (v ∷ values)

-- A loop over a range, by the `operator++` of its iterator: the current node and the rest of the
-- state, or the end. The values of the nodes that it meets; `none` when it has not ended.
module _ {State : Type 0} (increment : Tree → State → Option (Tree × State)) where
  unfoldable pub visit : ℕ → Option (Tree × State) → Option (List ℕ)
  visit fuel none = some []
  visit zero (some (t, s)) = none
  visit (suc n) (some (t, s)) = added (value t) (visit n (increment t s))

  module _ (after : Tree → State → List ℕ) where
    -- The list is what the iterator has before it.
    abbrev pub Ahead : List ℕ → Option (Tree × State) → Type 0
    Ahead values none = values ≡ []
    Ahead values (some (t, s)) = values ≡ value t ∷ after t s

    -- When each step goes to the next of what is ahead, the loop meets it all.
    pub visit-Ahead :
        ((t : Tree) (s : State) → Ahead (after t s) (increment t s))
        → (n : ℕ) (values : List ℕ) (at : Option (Tree × State)) → Ahead values at
        → length values ≤ n
        → visit n at ≡ some values
    unfolding visit
    visit-Ahead step n values none ahead le = ap some (sym ahead)
    visit-Ahead step zero values (some (t, s)) ahead le =
        let long : length values ≡ suc (length (after t s)) = ap length ahead in ground arith
    visit-Ahead step (suc n) values (some (t, s)) ahead le =
        let long : length values ≡ suc (length (after t s)) = ap length ahead in
        ap (added (value t))
          (visit-Ahead step n (after t s) (increment t s) (step t s) (omega arith))
        ∙ ap some (sym ahead)
