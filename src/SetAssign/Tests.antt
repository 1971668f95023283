-- ===== src/SetAssign/Tests.antt =====
-- The theorems on the set functions at lists of numbers.
use nvwa.Common.{ℕ, true, ltb, List, [], ◌∷◌, ok, ◌≡◌, ◌⊎◌, inl, inr, refl, arith, lt→ltb, dec_lt}
use nvwa.SetAssign.Defs.{set_assign_union, set_assign_difference, union_loop, difference_loop}
use nvwa.SetAssign.Order.{IsStrictWeak, Sorted, Below}
use nvwa.SetAssign.Union.{IsUnion, set_assign_union-IsUnion}
use nvwa.SetAssign.Difference.{IsDifference, set_assign_difference-IsDifference}

less-between : (a b c : ℕ) → ltb a c ≡ true → (ltb a b ≡ true) ⊎ (ltb b c ≡ true)
less-between a b c h = elim (dec_lt a b) [
  | yes lt ↦ inl (lt→ltb a b lt)
  | no not_lt ↦ inr (ground arith)
]

-- The numbers are ordered.
less-IsStrictWeak : IsStrictWeak ltb
less-IsStrictWeak = record {
  irreflexive = λ a. ground arith;
  transitive = λ a b c h h'. ground arith;
  between = less-between;
}

abbrev odd : List ℕ
odd = 1 ∷ 3 ∷ 5 ∷ []

abbrev other : List ℕ
other = 2 ∷ 3 ∷ 8 ∷ []

odd-Sorted : Sorted ltb odd
unfolding Sorted Below
odd-Sorted = ((refl, (refl, tt)), ((refl, tt), (tt, tt)))

other-Sorted : Sorted ltb other
unfolding Sorted Below
other-Sorted = ((refl, (refl, tt)), ((refl, tt), (tt, tt)))

set_assign_union-IsUnion_example : IsUnion ltb odd other (set_assign_union ltb odd other)
set_assign_union-IsUnion_example =
    set_assign_union-IsUnion less-IsStrictWeak odd other odd-Sorted other-Sorted

set_assign_difference-IsDifference_example :
    IsDifference ltb odd other (set_assign_difference ltb odd other)
set_assign_difference-IsDifference_example =
    set_assign_difference-IsDifference less-IsStrictWeak odd other odd-Sorted other-Sorted

union-run : set_assign_union ltb odd other ≡ ok (1 ∷ 2 ∷ 3 ∷ 5 ∷ 8 ∷ [])
unfolding set_assign_union union_loop
union-run = refl

difference-run : set_assign_difference ltb odd other ≡ ok (1 ∷ 5 ∷ [])
unfolding set_assign_difference difference_loop
difference-run = refl
