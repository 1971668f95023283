-- ===== src/DebugNew/Alloc.antt =====
-- `alloc_mem`, `free_pointer`, the recorder, and the operators that call them.
use nvwa.Common.{
  ℕ, zero, suc, ◌+◌, ◌-◌, ◌==◌, ltb, if◌then◌else◌, Bool, not, take, Option, none, some, updated,
  Result, ok, err, bad_alloc,
}
use nvwa.Bits.Words.{add_size, sub_size}
use nvwa.DebugNew.Memory.{
  Memory, Setup, Origin, file, addr, out_of_memory, allocated, invalid_pointer, mismatch, freed,
  placement_warning, allocated_from, exception_thrown, debug_new_alignment, debug_new_filename_len,
  debug_new_tailcheck_char, debug_new_magic, aligned_list_item_size, print_position, position,
  check_tail, convert_user_ptr, printed, printed_if,
}
use nvwa.DebugNew.Reports.{check_mem_corruption}

-- `memset`.
unfoldable pub fill : (ℕ → ℕ) → ℕ → ℕ → ℕ → ℕ → ℕ
fill byte at value zero = byte
fill byte at value (suc n) = fill (updated byte at value) (at + 1) value n

-- `strncpy`, of a file name, which comes with a line that is not zero, or the address of the caller.
abbrev pub stored : Origin → Origin
stored origin = elim origin [
  | file name ↦ file (take (debug_new_filename_len - 1) name)
  | addr a ↦ addr a
]

-- The control data, but for the links.
abbrev pub with_control : ℕ → ℕ → Origin → ℕ → Bool → ℕ → Memory → Memory
with_control ptr size origin line is_array head m = record m {
  origin = updated m.origin ptr (stored origin);
  line = updated m.line ptr line;
  is_array = updated m.is_array ptr is_array;
  size = updated m.size ptr size;
  head_size = updated m.head_size ptr head;
  magic = updated m.magic ptr debug_new_magic;
}

-- The four writes that put a block at the end of the list, and the counts.
unfoldable pub link : Setup → ℕ → Memory → Memory
link setup ptr m =
    let head = setup.new_ptr_list in
    let prev' = updated m.prev ptr (m.prev head) in
    let next' = updated m.next ptr head in
    record m {
      prev = updated prev' head ptr;
      next = updated next' (prev' head) ptr;
      current_mem_alloc = add_size m.current_mem_alloc (m.size ptr);
      total_mem_alloc_cnt_accum = add_size m.total_mem_alloc_cnt_accum 1;
    }

-- The block at `ptr` with its control data and its tail, in the list.
unfoldable pub enlist : Setup → ℕ → ℕ → Origin → ℕ → Bool → ℕ → Memory → Memory
enlist setup ptr size origin line is_array head m =
    let linked = link setup ptr (with_control ptr size origin line is_array head m) in
    record linked {
      byte = fill linked.byte (ptr + head + size) debug_new_tailcheck_char setup.tailcheck;
    }

-- The line that the verbose form prints of a new block.
abbrev pub announced : ℕ → ℕ → ℕ → Bool → Memory → Memory
announced ptr usr_ptr size is_array m =
    printed_if m.new_verbose_flag (allocated is_array usr_ptr size (position m ptr)) m

abbrev pub at_least : ℕ → ℕ
at_least alignment = if ltb alignment debug_new_alignment then debug_new_alignment else alignment

-- From the answer to the request for memory on.
unfoldable pub place : Setup → ℕ → Origin → ℕ → Bool → ℕ → Memory → Option ℕ → Option ℕ × Memory
place setup size origin line is_array head m none = (none, printed (out_of_memory size) m)
place setup size origin line is_array head m (some ptr) =
    let usr_ptr = ptr + head in
    (
      some usr_ptr,
      announced ptr usr_ptr size is_array (enlist setup ptr size origin line is_array head m),
    )

-- The null pointer is thrown as an exception.
abbrev pub or_throw : Option ℕ × Memory → Result ℕ × Memory
or_throw (some ptr, m) = (ok ptr, m)
or_throw (none, m) = (err bad_alloc, m)

-- `debug_new_alloc` is the answer of `posix_memalign` to a number of bytes and an alignment.
module _ (debug_new_alloc : ℕ → ℕ → Option ℕ) where
  unfoldable pub alloc_mem : Setup → ℕ → Origin → ℕ → Bool → ℕ → Memory → Option ℕ × Memory
  alloc_mem setup size origin line is_array alignment m =
      let alignment' = at_least alignment in
      let head = aligned_list_item_size alignment' in
      let bytes = add_size (add_size size head) setup.tailcheck in
      place setup size origin line is_array head m (debug_new_alloc bytes alignment')

  -- The throwing `operator new` and `operator new[]`, with or without file, line and alignment.
  unfoldable pub operator_new : Setup → ℕ → Origin → ℕ → Bool → ℕ → Memory → Result ℕ × Memory
  operator_new setup size origin line is_array alignment m =
      or_throw (alloc_mem setup size origin line is_array alignment m)

-- What becomes of a call: it returns, it ends the program, or a walk over the list does not end.
pub data Outcome : Type 0 where
  returns : Memory → Outcome
  aborts : Memory → Outcome
  hangs : Outcome

abbrev pub aborted : Option (ℕ × Memory) → Outcome
aborted none = hangs
aborted (some (corrupt_cnt, m)) = aborts m

-- `check_mem_corruption` before the error action.
abbrev pub check_and_abort : Setup → ℕ → Memory → Outcome
check_and_abort setup fuel m = aborted (check_mem_corruption setup fuel m)

-- The block leaves the list, and its memory is given back.
unfoldable pub unlink : ℕ → Memory → Memory
unlink ptr m =
    let next' = updated m.next (m.prev ptr) (m.next ptr) in
    record m {
      current_mem_alloc = sub_size m.current_mem_alloc (m.size ptr);
      magic = updated m.magic ptr 0;
      next = next';
      prev = updated m.prev (next' ptr) (m.prev ptr);
    }

-- The line that the verbose form prints of a block that is freed.
abbrev pub told_freed : ℕ → ℕ → Bool → Memory → Memory
told_freed usr_ptr ptr is_array m =
    printed_if m.new_verbose_flag (freed is_array usr_ptr (m.size ptr) m.current_mem_alloc) m

-- `free_pointer`, from the block on.
unfoldable pub free_block : Setup → ℕ → ℕ → ℕ → Origin → Bool → Memory → Outcome
free_block setup fuel usr_ptr ptr caller is_array m =
    if (if is_array then not (m.is_array ptr) else m.is_array ptr)
    then aborts (
        printed (mismatch is_array usr_ptr (m.size ptr) (print_position caller 0) (position m ptr))
          m)
    else if not (check_tail setup m ptr)
    then check_and_abort setup fuel m
    else returns (told_freed usr_ptr ptr is_array (unlink ptr m))

unfoldable pub free_pointer : Setup → ℕ → ℕ → Origin → Bool → ℕ → Memory → Outcome
free_pointer setup fuel usr_ptr caller is_array alignment m =
    if usr_ptr == 0 then returns m else elim (convert_user_ptr m usr_ptr (at_least alignment)) [
      | none ↦
          check_and_abort setup fuel
            (printed (invalid_pointer is_array usr_ptr (print_position caller 0)) m)
      | some ptr ↦ free_block setup fuel usr_ptr ptr caller is_array m
    ]

-- The placement `operator delete`, which an exception of a constructor calls.
unfoldable pub placement_delete : Setup → ℕ → ℕ → Origin → Origin → ℕ → Bool → ℕ → Memory → Outcome
placement_delete setup fuel ptr caller origin line is_array alignment m =
    free_pointer setup fuel ptr caller is_array alignment
      (printed_if m.new_verbose_flag (exception_thrown is_array ptr (print_position origin line)) m)

-- The block gets the file and the line of the recorder.
abbrev pub named : ℕ → Origin → ℕ → Memory → Memory
named ptr origin line m = record m {
  origin = updated m.origin ptr (stored origin);
  line = updated m.line ptr line;
}

-- `debug_new_recorder::_M_process`.
unfoldable pub process : ℕ → Origin → ℕ → Memory → Memory
process usr_ptr origin line m =
    if usr_ptr == 0 then m else elim (convert_user_ptr m usr_ptr debug_new_alignment) [
      | none ↦ printed (placement_warning origin line) m
      | some ptr ↦
          if not (m.line ptr == 0)
          then printed (placement_warning origin line) m
          else named ptr origin line
              (printed_if m.new_verbose_flag (allocated_from usr_ptr origin line) m)
    ]
