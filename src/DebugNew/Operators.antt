-- ===== src/DebugNew/Operators.antt =====
-- The operators of nvwa/debug_new.cpp. `caller` is the return address of the operator that the
-- program calls, or of the one that this one calls.
use nvwa.Common.{ℕ, true, false, Option, Result}
use nvwa.DebugNew.Memory.{Memory, Setup, Origin, addr, debug_new_alignment}
use nvwa.DebugNew.Alloc.{Outcome, operator_new, alloc_mem, free_pointer, placement_delete}

module _ (debug_new_alloc : ℕ → ℕ → Option ℕ) (setup : Setup) where
  abbrev pub new_at : ℕ → Origin → ℕ → Memory → Result ℕ × Memory
  new_at size origin line m =
      operator_new debug_new_alloc setup size origin line false debug_new_alignment m

  abbrev pub new : ℕ → ℕ → Memory → Result ℕ × Memory
  new size caller m = new_at size (addr caller) 0 m

  abbrev pub new_nothrow : ℕ → ℕ → Memory → Option ℕ × Memory
  new_nothrow size caller m =
      alloc_mem debug_new_alloc setup size (addr caller) 0 false debug_new_alignment m

  abbrev pub aligned_new_at : ℕ → ℕ → Origin → ℕ → Memory → Result ℕ × Memory
  aligned_new_at size align_val origin line m =
      operator_new debug_new_alloc setup size origin line false align_val m

  abbrev pub aligned_new : ℕ → ℕ → ℕ → Memory → Result ℕ × Memory
  aligned_new size align_val caller m =
      operator_new debug_new_alloc setup size (addr caller) 0 false align_val m

  abbrev pub aligned_new_nothrow : ℕ → ℕ → ℕ → Memory → Option ℕ × Memory
  aligned_new_nothrow size align_val caller m =
      alloc_mem debug_new_alloc setup size (addr caller) 0 false align_val m

  abbrev pub new_array_at : ℕ → Origin → ℕ → Memory → Result ℕ × Memory
  new_array_at size origin line m =
      operator_new debug_new_alloc setup size origin line true debug_new_alignment m

  abbrev pub new_array : ℕ → ℕ → Memory → Result ℕ × Memory
  new_array size caller m = new_array_at size (addr caller) 0 m

  abbrev pub new_array_nothrow : ℕ → ℕ → Memory → Option ℕ × Memory
  new_array_nothrow size caller m =
      alloc_mem debug_new_alloc setup size (addr caller) 0 true debug_new_alignment m

  abbrev pub aligned_new_array_at : ℕ → ℕ → Origin → ℕ → Memory → Result ℕ × Memory
  aligned_new_array_at size align_val origin line m =
      operator_new debug_new_alloc setup size origin line true align_val m

  abbrev pub aligned_new_array : ℕ → ℕ → ℕ → Memory → Result ℕ × Memory
  aligned_new_array size align_val caller m =
      operator_new debug_new_alloc setup size (addr caller) 0 true align_val m

  abbrev pub aligned_new_array_nothrow : ℕ → ℕ → ℕ → Memory → Option ℕ × Memory
  aligned_new_array_nothrow size align_val caller m =
      alloc_mem debug_new_alloc setup size (addr caller) 0 true align_val m

module _ (setup : Setup) (fuel : ℕ) where
  abbrev pub delete : ℕ → ℕ → Memory → Outcome
  delete ptr caller m = free_pointer setup fuel ptr (addr caller) false debug_new_alignment m

  abbrev pub sized_delete : ℕ → ℕ → ℕ → Memory → Outcome
  sized_delete ptr size caller m =
      free_pointer setup fuel ptr (addr caller) false debug_new_alignment m

  abbrev pub delete_at : ℕ → Origin → ℕ → ℕ → Memory → Outcome
  delete_at ptr origin line caller m =
      placement_delete setup fuel ptr (addr caller) origin line false debug_new_alignment m

  abbrev pub delete_nothrow : ℕ → ℕ → ℕ → Memory → Outcome
  delete_nothrow ptr caller inner m = delete_at ptr (addr caller) 0 inner m

  abbrev pub aligned_delete : ℕ → ℕ → ℕ → Memory → Outcome
  aligned_delete ptr align_val caller m =
      free_pointer setup fuel ptr (addr caller) false align_val m

  abbrev pub aligned_sized_delete : ℕ → ℕ → ℕ → ℕ → Memory → Outcome
  aligned_sized_delete ptr size align_val caller m =
      free_pointer setup fuel ptr (addr caller) false align_val m

  abbrev pub aligned_delete_at : ℕ → ℕ → Origin → ℕ → ℕ → Memory → Outcome
  aligned_delete_at ptr align_val origin line caller m =
      placement_delete setup fuel ptr (addr caller) origin line false align_val m

  abbrev pub aligned_delete_nothrow : ℕ → ℕ → ℕ → Memory → Outcome
  aligned_delete_nothrow ptr align_val caller m =
      free_pointer setup fuel ptr (addr caller) false align_val m

  abbrev pub delete_array : ℕ → ℕ → Memory → Outcome
  delete_array ptr caller m = free_pointer setup fuel ptr (addr caller) true debug_new_alignment m

  abbrev pub sized_delete_array : ℕ → ℕ → ℕ → Memory → Outcome
  sized_delete_array ptr size caller m =
      free_pointer setup fuel ptr (addr caller) true debug_new_alignment m

  abbrev pub delete_array_at : ℕ → Origin → ℕ → ℕ → Memory → Outcome
  delete_array_at ptr origin line caller m =
      placement_delete setup fuel ptr (addr caller) origin line true debug_new_alignment m

  abbrev pub delete_array_nothrow : ℕ → ℕ → ℕ → Memory → Outcome
  delete_array_nothrow ptr caller inner m = delete_array_at ptr (addr caller) 0 inner m

  abbrev pub aligned_delete_array : ℕ → ℕ → ℕ → Memory → Outcome
  aligned_delete_array ptr align_val caller m =
      free_pointer setup fuel ptr (addr caller) true align_val m

  abbrev pub aligned_sized_delete_array : ℕ → ℕ → ℕ → ℕ → Memory → Outcome
  aligned_sized_delete_array ptr size align_val caller m =
      free_pointer setup fuel ptr (addr caller) true align_val m

  abbrev pub aligned_delete_array_at : ℕ → ℕ → Origin → ℕ → ℕ → Memory → Outcome
  aligned_delete_array_at ptr align_val origin line caller m =
      placement_delete setup fuel ptr (addr caller) origin line true align_val m

  abbrev pub aligned_delete_array_nothrow : ℕ → ℕ → ℕ → Memory → Outcome
  aligned_delete_array_nothrow ptr align_val caller m =
      free_pointer setup fuel ptr (addr caller) true align_val m
