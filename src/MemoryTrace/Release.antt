-- ===== src/MemoryTrace/Release.antt =====
-- What `free_mem` does with the pointer of a block in the list.
use nvwa.Common.{
  ℕ, ◌+◌, ◌%◌, ◌^◌, ◌<◌, ◌≤◌, ◌==◌, ltb, Bool, Bool-cases, inl, inr, false, not, List, ◌∷◌, ◌++◌,
  some, ◌≡◌, refl, ◌∙◌, arith, Distinct, Distinct-middle, Every-Absent, Every-middle,
}
use nvwa.Blocks.{total_size-middle, IsPointer, IsPointer-find_block, IsPointer-positive}
use nvwa.Links.{remove-IsRing}
use nvwa.MemoryTrace.Defs.{
  Trace, freed, mismatch, aligned_list_node_size, is_header, convert_user_ptr, printed, returns,
  aborts, unlink, told_freed, free_block, free_mem,
}
use nvwa.MemoryTrace.Valid.{IsBlock, Records, printed_if-Records}

module _ (alloc_list : ℕ) (t : Trace) (xs : List ℕ) (p : ℕ) (ys : List ℕ) where
  unlink-IsBlock : (q : ℕ) → (q == p) ≡ false → IsBlock t q → IsBlock (unlink p t) q
  unfolding unlink
  unlink-IsBlock q other (marked, sized) = (rw other marked, sized)

  unlink-Records : Records alloc_list t (xs ++ p ∷ ys) → Records alloc_list (unlink p t) (xs ++ ys)
  unfolding unlink Distinct
  unlink-Records records =
      let (p_absent, distinct) = Distinct-middle xs p ys records.ring.distinct.1 in
      let ((marked, sized), others) = Every-middle (IsBlock t) xs p ys records.blocks in
      record {
        ring = remove-IsRing t.next t.prev alloc_list xs p ys records.ring;
        blocks =
            Every-Absent (IsBlock t) (IsBlock (unlink p t)) p unlink-IsBlock (xs ++ ys) p_absent
              others;
        counted = rw (records.counted, total_size-middle t.size xs p ys) (omega arith);
      }

  module _ (usr_ptr : ℕ) (is_array : Bool) (alignment : ℕ) where
    free_mem-block :
        Records alloc_list t (xs ++ p ∷ ys)
        → 16 ≤ alignment
        → 0 < p
        → usr_ptr < 2 ^ 64
        → (p + aligned_list_node_size alignment) % alignment ≡ 0
        → IsPointer (is_header t) t.is_array (aligned_list_node_size alignment) alignment p usr_ptr
        → free_mem usr_ptr is_array alignment t ≡ free_block usr_ptr p is_array t
    unfolding free_mem
    free_mem-block records wide real inside aligned pointer =
        let ((marked, sized), others) = Every-middle (IsBlock t) xs p ys records.blocks in
        let some_block : 0 < usr_ptr =
          IsPointer-positive (is_header t) t.is_array (aligned_list_node_size alignment) alignment p
            usr_ptr real pointer in
        let small : ltb alignment 16 ≡ false = ground arith in
        let other : (usr_ptr == 0) ≡ false = ground arith in
        let leads : convert_user_ptr t usr_ptr alignment ≡ some p =
          IsPointer-find_block (is_header t) t.is_array (aligned_list_node_size alignment) alignment
            p usr_ptr (rw marked refl) (λ array. rw (marked, array) refl) (omega arith) inside
            aligned pointer in
        rw (small, other, leads, free_mem) refl

    -- With the records in order, operator delete of the pointer of a block in the list, with
    -- the alignment and the form with which it was allocated, returns, and the list has the
    -- other blocks in their order, the records in order.
    pub free_mem-Records :
        Records alloc_list t (xs ++ p ∷ ys)
        → 16 ≤ alignment
        → 0 < p
        → p + aligned_list_node_size alignment + 8 < 2 ^ 64
        → (p + aligned_list_node_size alignment) % alignment ≡ 0
        → usr_ptr ≡ p + aligned_list_node_size alignment
        → t.is_array p ≡ is_array
        → (t' : Trace) × (free_mem usr_ptr is_array alignment t ≡ returns tt t')
          × Records alloc_list t' (xs ++ ys)
    unfolding free_block
    free_mem-Records records wide real inside aligned at kind =
        let freed_block = unlink p t in
        (
          told_freed usr_ptr p is_array freed_block,
          free_mem-block records wide real (omega arith) aligned (inl at)
              ∙ elim (Bool-cases is_array) [
                | inl is ↦ rw (kind, is) refl
                | inr isnt ↦ rw (kind, isnt) refl
              ],
          printed_if-Records alloc_list freed_block (xs ++ ys) freed_block.new_verbose_flag
              (freed is_array usr_ptr (freed_block.size p) freed_block.current_mem_alloc)
              (unlink-Records records),
        )

    -- In the other form it prints that and ends the program, also for the pointer after the count
    -- of an array.
    pub free_mem-mismatch :
        Records alloc_list t (xs ++ p ∷ ys)
        → 16 ≤ alignment
        → 0 < p
        → usr_ptr < 2 ^ 64
        → (p + aligned_list_node_size alignment) % alignment ≡ 0
        → IsPointer (is_header t) t.is_array (aligned_list_node_size alignment) alignment p usr_ptr
        → t.is_array p ≡ not is_array
        → free_mem usr_ptr is_array alignment t
          ≡ aborts (printed (mismatch is_array usr_ptr (t.size p)) t)
    unfolding free_block
    free_mem-mismatch records wide real inside aligned pointer kind =
        free_mem-block records wide real inside aligned pointer ∙ elim (Bool-cases is_array) [
          | inl is ↦ rw (kind, is) refl
          | inr isnt ↦ rw (kind, isnt) refl
        ]
