-- ===== src/DebugNew/Misuse.antt =====
-- Calls that do not fit: `delete` of an array, and a size so large that the sum wraps; and the
-- recorder, which puts the file and line into a block that was allocated without them.
use nvwa.Common.{
  ℕ, ◌+◌, ◌%◌, ◌^◌, ◌<◌, ◌==◌, Bool, false, not, Option, some, ok, List, ◌∷◌, ◌++◌, ◌≡◌, refl, ap,
  ap₂, subst, sym, ◌∙◌, arith, Every-middle, updated_self,
}
use nvwa.Blocks.{IsPointer, IsPointer-find_block, IsPointer-positive}
use nvwa.Bits.Words.{add_size}
use nvwa.DebugNew.Memory.{
  is_header, Memory, Setup, Origin, mismatch, allocated_from, position, print_position,
  aligned_list_item_size, convert_user_ptr, printed, printed_if, debug_new_alignment,
}
use nvwa.DebugNew.Alloc.{
  aborts, operator_new, free_pointer, at_least, or_throw, alloc_mem, place, process, named, stored,
}
use nvwa.DebugNew.Valid.{IsBlock, Records}
use nvwa.DebugNew.Allocate.{printed_if-Records}
use nvwa.DebugNew.Release.{free_pointer-mismatch}

module _ (setup : Setup) (m : Memory) (xs : List ℕ) (p : ℕ) (ys : List ℕ) where
  IsPointer-convert :
      (alignment usr_ptr : ℕ)
      → Records setup m (xs ++ p ∷ ys)
      → 8 < alignment
      → usr_ptr < 2 ^ 64
      → (p + aligned_list_item_size alignment) % alignment ≡ 0
      → IsPointer (is_header m) m.is_array (aligned_list_item_size alignment) alignment p usr_ptr
      → convert_user_ptr m usr_ptr alignment ≡ some p
  IsPointer-convert alignment usr_ptr records wide inside aligned pointer =
      let ((marked, tail, sized), others) = Every-middle (IsBlock setup m) xs p ys records.blocks in
      IsPointer-find_block (is_header m) m.is_array (aligned_list_item_size alignment) alignment p
        usr_ptr (rw marked refl) (λ array. rw (marked, array) refl) wide inside aligned pointer

  -- With the records in order, operator delete of an array in the list and operator delete[] of
  -- an object in the list, with the alignment with which it was allocated, print where the block
  -- was allocated and end the program, the list as it was. The pointer is that of the block or,
  -- for an array, that after a count of its elements of 8 bytes, or after one that takes as many
  -- bytes as the alignment, where no header stands at the place that the pointer itself would
  -- have it.
  pub free_pointer-Mismatch :
      (fuel usr_ptr alignment : ℕ) (caller : Origin) (is_array : Bool)
      → Records setup m (xs ++ p ∷ ys)
      → 0 < p
      → usr_ptr < 2 ^ 64
      → (p + aligned_list_item_size (at_least alignment)) % at_least alignment ≡ 0
      → IsPointer
          (is_header m)
          m.is_array
          (aligned_list_item_size (at_least alignment))
          (at_least alignment)
          p
          usr_ptr
      → m.is_array p ≡ not is_array
      → free_pointer setup fuel usr_ptr caller is_array alignment m
        ≡ aborts (
            printed
              (mismatch is_array usr_ptr (m.size p) (print_position caller 0) (position m p))
              m)
  free_pointer-Mismatch fuel usr_ptr alignment caller is_array records real inside aligned pointer
        kind =
      free_pointer-mismatch setup m fuel usr_ptr p caller is_array alignment
        (IsPointer-positive (is_header m) m.is_array (aligned_list_item_size (at_least alignment))
          (at_least alignment) p usr_ptr real pointer)
        (IsPointer-convert (at_least alignment) usr_ptr records (ground arith) inside aligned
          pointer)
        kind

  process-named :
      (usr_ptr line : ℕ) (origin : Origin)
      → 0 < usr_ptr
      → convert_user_ptr m usr_ptr debug_new_alignment ≡ some p
      → m.line p ≡ 0
      → process usr_ptr origin line m
        ≡ named p origin line (printed_if m.new_verbose_flag (allocated_from usr_ptr origin line) m)
  unfolding process
  process-named usr_ptr line origin real leads unnamed =
      let other : (usr_ptr == 0) ≡ false = ground arith in rw (other, leads, unnamed) refl

  -- With the records in order and a block in the list that was allocated without a line and with
  -- the default alignment, the recorder, given the pointer of the block or, for an array, that
  -- after the count of its elements as for operator delete, gives that block its file and line,
  -- and the records stay in order.
  pub process-Records :
      (usr_ptr line : ℕ) (origin : Origin)
      → Records setup m (xs ++ p ∷ ys)
      → 0 < p
      → usr_ptr < 2 ^ 64
      → (p + aligned_list_item_size debug_new_alignment) % debug_new_alignment ≡ 0
      → IsPointer
          (is_header m)
          m.is_array
          (aligned_list_item_size debug_new_alignment)
          debug_new_alignment
          p
          usr_ptr
      → m.line p ≡ 0
      → Records setup (process usr_ptr origin line m) (xs ++ p ∷ ys)
        × (position (process usr_ptr origin line m) p ≡ print_position (stored origin) line)
  process-Records usr_ptr line origin records real inside aligned pointer unnamed =
      let told = printed_if m.new_verbose_flag (allocated_from usr_ptr origin line) m in
      let records' =
        printed_if-Records setup m (xs ++ p ∷ ys) m.new_verbose_flag
          (allocated_from usr_ptr origin line) records in
      let names =
        process-named usr_ptr line origin
          (IsPointer-positive (is_header m) m.is_array (aligned_list_item_size debug_new_alignment)
            debug_new_alignment p usr_ptr real pointer)
          (IsPointer-convert debug_new_alignment usr_ptr records (omega arith) inside aligned
            pointer)
          unnamed in
      subst
        (λ n. Records setup n (xs ++ p ∷ ys) × (position n p ≡ print_position (stored origin) line))
        (sym names)
        (
          record { ring = records'.ring; blocks = records'.blocks; counted = records'.counted },
          ap₂ print_position (updated_self told.origin p (stored origin))
              (updated_self told.line p line),
        )

module _ (debug_new_alloc : ℕ → ℕ → Option ℕ) (setup : Setup) (m : Memory) where
  -- When the sum of the size, the control data and the tail wraps, and memory for the wrapped sum
  -- is granted, operator new returns a pointer although the block has fewer bytes than the
  -- control data and the tail.
  pub operator_new-wraps :
      (size bytes alignment ptr line : ℕ) (origin : Origin) (is_array : Bool)
      → size < 2 ^ 64
      → bytes < 2 ^ 64
      → aligned_list_item_size (at_least alignment) + setup.tailcheck < 2 ^ 64
      → size + aligned_list_item_size (at_least alignment) + setup.tailcheck ≡ 2 ^ 64 + bytes
      → debug_new_alloc bytes (at_least alignment) ≡ some ptr
      → ((operator_new debug_new_alloc setup size origin line is_array alignment m).0
          ≡ ok (ptr + aligned_list_item_size (at_least alignment)))
        × (bytes < aligned_list_item_size (at_least alignment) + setup.tailcheck)
  unfolding operator_new alloc_mem place
  operator_new-wraps size bytes alignment ptr line origin is_array sized few control wraps granted =
      let head = aligned_list_item_size (at_least alignment) in
      let sum : add_size (add_size size head) setup.tailcheck ≡ bytes = omega arith in
      (
        ap
              (λ n.
                (or_throw (
                  place setup size origin line is_array head m
                    (debug_new_alloc n (at_least alignment)))).0)
              sum
            ∙ ap (λ a. (or_throw (place setup size origin line is_array head m a)).0) granted,
        omega arith,
      )
