-- ===== src/SetAssign/Defs.antt =====
-- The two functions on a container whose iterators outlive insertions and erasures of other
-- elements, such as `std::list`. Such a container is a list, cut at `first_dest`.
use nvwa.Common.{
  ℕ, zero, suc, ◌+◌, Bool, true, false, ltb, List, [], ◌∷◌, ◌++◌, length, Result, ok, err, fault,
}

module _ {ℓ} {A : Type ℓ} (comp : A → A → Bool) where
  -- The loop of `set_assign_union` and the copy behind it, with a round for each element.
  unfoldable pub union_loop : ℕ → List A → List A → List A → Result (List A)
  union_loop zero before dest src = err fault
  union_loop (suc fuel) before [] src = ok (before ++ src)
  union_loop (suc fuel) before (d ∷ dest) [] = ok (before ++ d ∷ dest)
  union_loop (suc fuel) before (d ∷ dest) (s ∷ src) = elim (comp d s) [
    | true ↦ union_loop fuel (before ++ d ∷ []) dest (s ∷ src)
    | false ↦ elim (comp s d) [
      | true ↦ union_loop fuel (before ++ s ∷ []) (d ∷ dest) src
      | false ↦ union_loop fuel (before ++ d ∷ []) dest src
    ]
  ]

  unfoldable pub set_assign_union : List A → List A → Result (List A)
  set_assign_union dest src = union_loop (length dest + length src + 1) [] dest src

  -- The loop of `set_assign_difference`.
  unfoldable pub difference_loop : ℕ → List A → List A → List A → Result (List A)
  difference_loop zero before dest src = err fault
  difference_loop (suc fuel) before [] src = ok before
  difference_loop (suc fuel) before (d ∷ dest) [] = ok (before ++ d ∷ dest)
  difference_loop (suc fuel) before (d ∷ dest) (s ∷ src) = elim (comp d s) [
    | true ↦ difference_loop fuel (before ++ d ∷ []) dest (s ∷ src)
    | false ↦ elim (comp s d) [
      | true ↦ difference_loop fuel before (d ∷ dest) src
      | false ↦ difference_loop fuel before dest src
    ]
  ]

  unfoldable pub set_assign_difference : List A → List A → Result (List A)
  set_assign_difference dest src = difference_loop (length dest + length src + 1) [] dest src

-- The overloads without a comparison, for unsigned numbers.
abbrev pub set_assign_union_less : List ℕ → List ℕ → Result (List ℕ)
set_assign_union_less = set_assign_union ltb

abbrev pub set_assign_difference_less : List ℕ → List ℕ → Result (List ℕ)
set_assign_difference_less = set_assign_difference ltb
