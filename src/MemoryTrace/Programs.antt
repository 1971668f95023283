-- ===== src/MemoryTrace/Programs.antt =====
-- Programs as they meet nvwa/memory_trace.cpp: allocations, and scopes with a checkpoint.
use nvwa.Common.{ℕ, ◌≤◌, Bool, Option, Result, ok, err, bad_alloc}
use nvwa.MemoryTrace.Defs.{
  Trace, Context, save_context, restore_context, default_new_alignment, operator_new_in,
  operator_new,
}

-- What `malloc` and `aligned_malloc` answer to a call.
pub record System : Type 0 where
  pub malloc : ℕ → Option ℕ
  pub aligned_malloc : ℕ → ℕ → Option ℕ

-- A program by its allocations and the scopes that begin with NVWA_MEMORY_CHECKPOINT.
pub data Program : Type 0 where
  skip : Program
  sequence : Program → Program → Program
  allocates : System → ℕ → Bool → ℕ → Program
  within : Context → Program → Program

-- Each alignment is at least the default one.
unfoldable pub Aligned : Program → Type 0
Aligned skip = Unit
Aligned (sequence p q) = Aligned p × Aligned q
Aligned (allocates system size is_array alignment) = default_new_alignment ≤ alignment
Aligned (within ctx p) = Aligned p

-- How a piece of the program ends, and the state after it.
abbrev pub Ended : Type 0
Ended = Result (Unit {0}) × Trace

abbrev pub forget : Result ℕ × Trace → Ended
forget (ok ptr, t) = (ok tt, t)
forget (err reason, t) = (err reason, t)

-- An exception skips what comes next.
abbrev pub and_then : Ended → (Trace → Ended) → Ended
and_then (ok done, t) next = next t
and_then (err reason, t) next = (err reason, t)

abbrev pub restored : Result (Unit {0}) → Trace → Result Trace → Ended
restored ended t (ok after) = (ended, after)
restored ended t (err reason) = (err reason, t)

-- The destructor of the checkpoint, at the end of its scope and when an exception leaves it.
abbrev pub leave : Context → Ended → Ended
leave ctx (ok done, t) = restored (ok done) t (restore_context ctx t)
leave ctx (err bad_alloc, t) = restored (err bad_alloc) t (restore_context ctx t)
leave ctx (err reason, t) = (err reason, t)

module _ (alloc_list : ℕ) where
  unfoldable pub run : Program → Trace → Ended
  run skip t = (ok tt, t)
  run (sequence p q) t = and_then (run p t) (run q)
  run (allocates system size is_array alignment) t =
      forget (operator_new system.malloc system.aligned_malloc alloc_list size is_array alignment t)
  run (within ctx p) t = leave ctx (run p (save_context ctx t))

  -- The program without a stack: each scope hands its context down.
  unfoldable pub run_in : Program → Context → Trace → Ended
  run_in skip ctx t = (ok tt, t)
  run_in (sequence p q) ctx t = and_then (run_in p ctx t) (run_in q ctx)
  run_in (allocates system size is_array alignment) ctx t =
      forget (
        operator_new_in system.malloc system.aligned_malloc alloc_list size ctx is_array alignment
          t)
  run_in (within inner p) ctx t = run_in p inner t
