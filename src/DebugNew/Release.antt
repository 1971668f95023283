-- ===== src/DebugNew/Release.antt =====
-- What `free_pointer` does with the pointer of a block in the list.
use nvwa.Common.{
  ℕ, ◌+◌, ◌%◌, ◌^◌, ◌<◌, ◌==◌, not, Bool, Bool-cases, inl, inr, true, false, List, ◌∷◌, ◌++◌, ◌≡◌,
  refl, ◌∙◌, arith, some, Distinct, Distinct-middle, Every-Absent, Every-middle,
}
use nvwa.DebugNew.Alloc.{unlink, told_freed, free_block, free_pointer, at_least, returns, aborts}
use nvwa.DebugNew.Valid.{IsBlock, Records}
use nvwa.DebugNew.Memory.{
  Memory, Setup, Origin, freed, mismatch, check_tail, convert_user_ptr, printed, print_position,
  position, aligned_list_item_size, is_header,
}
use nvwa.Blocks.{find_block-head, total_size-middle}
use nvwa.DebugNew.Allocate.{printed_if-Records}
use nvwa.Links.{remove-IsRing}

module _ (setup : Setup) (m : Memory) (xs : List ℕ) (p : ℕ) (ys : List ℕ) where
  unlink-IsBlock : (q : ℕ) → (q == p) ≡ false → IsBlock setup m q → IsBlock setup (unlink p m) q
  unfolding unlink
  unlink-IsBlock q other (marked, tail, sized) = (rw other marked, tail, sized)

  pub unlink-Records : Records setup m (xs ++ p ∷ ys) → Records setup (unlink p m) (xs ++ ys)
  unfolding unlink Distinct
  unlink-Records records =
      let (p_absent, distinct) = Distinct-middle xs p ys records.ring.distinct.1 in
      let ((_, _, sized), others) = Every-middle (IsBlock setup m) xs p ys records.blocks in
      record {
        ring = remove-IsRing m.next m.prev setup.new_ptr_list xs p ys records.ring;
        blocks =
            Every-Absent (IsBlock setup m) (IsBlock setup (unlink p m)) p unlink-IsBlock (xs ++ ys)
              p_absent others;
        counted = rw (records.counted, total_size-middle m.size xs p ys) (omega arith);
      }

-- From a pointer that leads to a block in the list on.
module _ (setup : Setup) (m : Memory) (fuel usr_ptr p : ℕ) (caller : Origin) (is_array : Bool)
    (alignment : ℕ) where
  pub free_pointer-block :
      0 < usr_ptr
      → convert_user_ptr m usr_ptr (at_least alignment) ≡ some p
      → free_pointer setup fuel usr_ptr caller is_array alignment m
        ≡ free_block setup fuel usr_ptr p caller is_array m
  unfolding free_pointer
  free_pointer-block real leads =
      let other : (usr_ptr == 0) ≡ false = ground arith in rw (other, leads) refl

  pub free_block-unlink :
      m.is_array p ≡ is_array
      → check_tail setup m p ≡ true
      → free_block setup fuel usr_ptr p caller is_array m
        ≡ returns (told_freed usr_ptr p is_array (unlink p m))
  unfolding free_block
  free_block-unlink kind tail = elim (Bool-cases is_array) [
    | inl is ↦ rw (kind, tail, is) refl
    | inr isnt ↦ rw (kind, tail, isnt) refl
  ]

  -- `delete` of what `new[]` returned, and `delete[]` of what `new` returned, end the program.
  pub free_pointer-mismatch :
      0 < usr_ptr
      → convert_user_ptr m usr_ptr (at_least alignment) ≡ some p
      → m.is_array p ≡ not is_array
      → free_pointer setup fuel usr_ptr caller is_array alignment m
        ≡ aborts (
            printed
              (mismatch is_array usr_ptr (m.size p) (print_position caller 0) (position m p))
              m)
  unfolding free_block
  free_pointer-mismatch real leads kind =
      free_pointer-block real leads
      ∙ elim (Bool-cases is_array) [ inl is ↦ rw (kind, is) refl | inr isnt ↦ rw (kind, isnt) refl ]

pub told_freed-Records :
    (setup : Setup) (m : Memory) (usr_ptr : ℕ) (is_array : Bool) (xs : List ℕ) (p : ℕ) (ys : List ℕ)
    → Records setup m (xs ++ p ∷ ys)
    → Records setup (told_freed usr_ptr p is_array (unlink p m)) (xs ++ ys)
told_freed-Records setup m usr_ptr is_array xs p ys records =
    let after = unlink p m in
    printed_if-Records setup after (xs ++ ys) after.new_verbose_flag
      (freed is_array usr_ptr (after.size p) after.current_mem_alloc)
      (unlink-Records setup m xs p ys records)

module _ (setup : Setup) (m : Memory) (fuel : ℕ) (caller : Origin) (is_array : Bool) (alignment : ℕ)
    (xs : List ℕ) (p : ℕ) (ys : List ℕ) where
  pub free_pointer-unlink :
      Records setup m (xs ++ p ∷ ys)
      → m.is_array p ≡ is_array
      → 0 < p
      → p + aligned_list_item_size (at_least alignment) < 2 ^ 64
      → (p + aligned_list_item_size (at_least alignment)) % at_least alignment ≡ 0
      → free_pointer setup fuel
          (p + aligned_list_item_size (at_least alignment))
          caller
          is_array
          alignment
          m
        ≡ returns
            (told_freed (p + aligned_list_item_size (at_least alignment)) p is_array (unlink p m))
  free_pointer-unlink records kind real inside aligned =
      let usr_ptr = p + aligned_list_item_size (at_least alignment) in
      let ((marked, tail, sized), others) = Every-middle (IsBlock setup m) xs p ys records.blocks in
      free_pointer-block setup m fuel usr_ptr p caller is_array alignment (omega arith) (
        find_block-head (is_header m) p (aligned_list_item_size (at_least alignment))
          (at_least alignment) (rw marked refl) inside aligned)
      ∙ free_block-unlink setup m fuel usr_ptr p caller is_array alignment kind tail

  -- With the records in order, operator delete of the pointer of a block in the list, with the
  -- alignment and the form with which it was allocated, returns, and the list has the other
  -- blocks in their order, the records in order.
  pub free_pointer-Records :
      Records setup m (xs ++ p ∷ ys)
      → m.is_array p ≡ is_array
      → 0 < p
      → p + aligned_list_item_size (at_least alignment) < 2 ^ 64
      → (p + aligned_list_item_size (at_least alignment)) % at_least alignment ≡ 0
      → (m' : Memory) × (free_pointer setup fuel
            (p + aligned_list_item_size (at_least alignment))
            caller
            is_array
            alignment
            m
          ≡ returns m')
        × Records setup m' (xs ++ ys)
  free_pointer-Records records kind real inside aligned =
      let usr_ptr = p + aligned_list_item_size (at_least alignment) in
      (
        told_freed usr_ptr p is_array (unlink p m),
        free_pointer-unlink records kind real inside aligned,
        told_freed-Records setup m usr_ptr is_array xs p ys records,
      )
