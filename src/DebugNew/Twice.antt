-- ===== src/DebugNew/Twice.antt =====
-- `free_pointer` of a pointer that leads to no block, such as one that has been freed.
use nvwa.Common.{
  ℕ, ◌<◌, ◌==◌, Bool, true, false, not, none, some, List, [], ◌∷◌, length, ◌≡◌, refl, ap, ap₂, ◌∙◌,
  arith, Every, not,
}
use nvwa.DebugNew.Memory.{
  Memory, Setup, Origin, Message, invalid_pointer, check_start, check_found, print_position,
  printed, convert_user_ptr,
}
use nvwa.DebugNew.Reports.{is_intact, check_mem_corruption}
use nvwa.DebugNew.Alloc.{aborts, aborted, free_pointer, at_least}
use nvwa.DebugNew.Valid.{IsBlock, Records}
use nvwa.DebugNew.Allocate.{printed_if-Records}
use nvwa.DebugNew.Walks.{
  count_if, reported, corruption_lines, with_output, check_mem_corruption-lines,
}

module _ (setup : Setup) (m : Memory) where
  -- Of blocks in order there is nothing to say.
  count_if-intact :
      (ptrs : List ℕ)
      → Every (IsBlock setup m) ptrs
      → count_if (λ x. not (is_intact setup m x)) ptrs ≡ 0
  unfolding count_if Every
  count_if-intact [] every = refl
  count_if-intact (x ∷ xs) ((marked, tail, sized), every) =
      rw (marked, tail, count_if-intact xs every) refl

  reported-intact :
      (ptrs : List ℕ) (output : List Message)
      → Every (IsBlock setup m) ptrs
      → reported (corruption_lines setup m) ptrs output ≡ output
  unfolding reported corruption_lines Every
  reported-intact [] output every = refl
  reported-intact (x ∷ xs) output ((marked, tail, sized), every) =
      rw (marked, tail) (reported-intact xs output every)

  check_mem_corruption-intact :
      (ptrs : List ℕ) (fuel : ℕ)
      → Records setup m ptrs
      → length ptrs < fuel
      → check_mem_corruption setup fuel m
        ≡ some (0, printed (check_found 0) (printed check_start m))
  check_mem_corruption-intact ptrs fuel records lt =
      check_mem_corruption-lines setup m ptrs fuel records.ring lt
      ∙ ap₂ (λ n l. some (n, with_output m (check_found n ∷ l)))
          (count_if-intact ptrs records.blocks)
          (reported-intact ptrs (check_start ∷ m.output) records.blocks)

module _ (setup : Setup) (m : Memory) where
  -- A pointer that leads to no header.
  pub free_pointer-invalid :
      (ptrs : List ℕ) (fuel usr_ptr : ℕ) (caller : Origin) (is_array : Bool) (alignment : ℕ)
      → Records setup m ptrs
      → length ptrs < fuel
      → 0 < usr_ptr
      → convert_user_ptr m usr_ptr (at_least alignment) ≡ none
      → free_pointer setup fuel usr_ptr caller is_array alignment m
        ≡ aborts (
            printed (check_found 0) (
              printed check_start
                (printed (invalid_pointer is_array usr_ptr (print_position caller 0)) m)))
  unfolding free_pointer
  free_pointer-invalid ptrs fuel usr_ptr caller is_array alignment records lt real lost =
      let other : (usr_ptr == 0) ≡ false = ground arith in
      let message = invalid_pointer is_array usr_ptr (print_position caller 0) in
      rw (other, lost)
        (ap aborted (
          check_mem_corruption-intact setup (printed message m) ptrs fuel
            (printed_if-Records setup m ptrs true message records) lt))
