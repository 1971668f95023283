-- ===== src/MemoryTrace/Operators.antt =====
-- The operators of nvwa/memory_trace.cpp.
use nvwa.Common.{ℕ, true, false, Option, Result}
use nvwa.MemoryTrace.Defs.{
  Trace, Context, Outcome, default_new_alignment, operator_new, operator_new_in,
  operator_new_nothrow, free_mem,
}

module _ (malloc : ℕ → Option ℕ) (aligned_malloc : ℕ → ℕ → Option ℕ) (alloc_list : ℕ) where
  abbrev pub new : ℕ → Trace → Result ℕ × Trace
  new size t = operator_new malloc aligned_malloc alloc_list size false default_new_alignment t

  abbrev pub new_nothrow : ℕ → Trace → Result (Option ℕ) × Trace
  new_nothrow size t =
      operator_new_nothrow malloc aligned_malloc alloc_list size false default_new_alignment t

  abbrev pub new_in : ℕ → Context → Trace → Result ℕ × Trace
  new_in size ctx t =
      operator_new_in malloc aligned_malloc alloc_list size ctx false default_new_alignment t

  abbrev pub aligned_new : ℕ → ℕ → Trace → Result ℕ × Trace
  aligned_new size align_val t =
      operator_new malloc aligned_malloc alloc_list size false align_val t

  abbrev pub aligned_new_nothrow : ℕ → ℕ → Trace → Result (Option ℕ) × Trace
  aligned_new_nothrow size align_val t =
      operator_new_nothrow malloc aligned_malloc alloc_list size false align_val t

  abbrev pub aligned_new_in : ℕ → ℕ → Context → Trace → Result ℕ × Trace
  aligned_new_in size align_val ctx t =
      operator_new_in malloc aligned_malloc alloc_list size ctx false align_val t

  abbrev pub new_array : ℕ → Trace → Result ℕ × Trace
  new_array size t = operator_new malloc aligned_malloc alloc_list size true default_new_alignment t

  abbrev pub new_array_nothrow : ℕ → Trace → Result (Option ℕ) × Trace
  new_array_nothrow size t =
      operator_new_nothrow malloc aligned_malloc alloc_list size true default_new_alignment t

  abbrev pub new_array_in : ℕ → Context → Trace → Result ℕ × Trace
  new_array_in size ctx t =
      operator_new_in malloc aligned_malloc alloc_list size ctx true default_new_alignment t

  abbrev pub aligned_new_array : ℕ → ℕ → Trace → Result ℕ × Trace
  aligned_new_array size align_val t =
      operator_new malloc aligned_malloc alloc_list size true align_val t

  abbrev pub aligned_new_array_nothrow : ℕ → ℕ → Trace → Result (Option ℕ) × Trace
  aligned_new_array_nothrow size align_val t =
      operator_new_nothrow malloc aligned_malloc alloc_list size true align_val t

  abbrev pub aligned_new_array_in : ℕ → ℕ → Context → Trace → Result ℕ × Trace
  aligned_new_array_in size align_val ctx t =
      operator_new_in malloc aligned_malloc alloc_list size ctx true align_val t

abbrev pub delete : ℕ → Trace → Outcome (Unit {0})
delete ptr t = free_mem ptr false default_new_alignment t

abbrev pub sized_delete : ℕ → ℕ → Trace → Outcome (Unit {0})
sized_delete ptr size t = free_mem ptr false default_new_alignment t

abbrev pub aligned_delete : ℕ → ℕ → Trace → Outcome (Unit {0})
aligned_delete ptr align_val t = free_mem ptr false align_val t

abbrev pub delete_in : ℕ → Context → Trace → Outcome (Unit {0})
delete_in ptr ctx t = delete ptr t

abbrev pub aligned_delete_in : ℕ → ℕ → Context → Trace → Outcome (Unit {0})
aligned_delete_in ptr align_val ctx t = aligned_delete ptr align_val t

abbrev pub delete_array : ℕ → Trace → Outcome (Unit {0})
delete_array ptr t = free_mem ptr true default_new_alignment t

abbrev pub sized_delete_array : ℕ → ℕ → Trace → Outcome (Unit {0})
sized_delete_array ptr size t = free_mem ptr true default_new_alignment t

abbrev pub aligned_delete_array : ℕ → ℕ → Trace → Outcome (Unit {0})
aligned_delete_array ptr align_val t = free_mem ptr true align_val t

abbrev pub delete_array_in : ℕ → Context → Trace → Outcome (Unit {0})
delete_array_in ptr ctx t = delete_array ptr t

abbrev pub aligned_delete_array_in : ℕ → ℕ → Context → Trace → Outcome (Unit {0})
aligned_delete_array_in ptr align_val ctx t = aligned_delete_array ptr align_val t
