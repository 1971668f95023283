-- ===== src/FixedMemPool/Tests.antt =====
-- The theorems on the pool at a pool of three blocks of sixteen bytes.
use nvwa.Common.{ℕ, ◌+◌, ◌^◌, List, [], ◌∷◌, ok, err, fault, ◌≡◌, refl, arith, ◌>>=◌}
use nvwa.FixedMemPool.Defs.{
  Pool, block_size, initialize, link_blocks, load, store, allocate, deallocate, bad_alloc_handler,
}
use nvwa.FixedMemPool.Script.{
  Call, allocates, frees, overwrites, run, stack_run, step, Agrees, run-Agrees,
}
use nvwa.FixedMemPool.Create.{blocks_from, Initialized, initialize-Initialized, initialize_wraps}

-- The static members at the start of the program.
abbrev no_pool : Pool
no_pool = record {
  mem_pool_ptr = 0;
  first_avail_ptr = 0;
  alloc_cnt = 0;
  memory = λ a. 0;
  extent = 0;
}

abbrev at_thousand : ℕ → ℕ
at_thousand bytes = 1000

initialize-Initialized_example : Initialized 16 3 1000 (initialize at_thousand 16 3 no_pool)
initialize-Initialized_example =
    initialize-Initialized at_thousand 16 3 no_pool refl refl (omega arith) (omega arith)
      (omega arith) (omega arith) (omega arith)

-- A pool in order, with all its blocks free.
abbrev three_blocks : Initialized 16 3 1000 (initialize at_thousand 16 3 no_pool)
three_blocks =
    initialize-Initialized at_thousand 16 3 no_pool refl refl (omega arith) (omega arith)
      (omega arith) (omega arith) (omega arith)

abbrev calls : List Call
calls = allocates ∷ allocates ∷ overwrites 0 7 ∷ frees 1 ∷ allocates ∷ allocates ∷ allocates ∷ []

run-Agrees_example :
    Agrees 16 3
      (run calls three_blocks.after [])
      (stack_run calls (blocks_from 16 3 1000) []).0
      (stack_run calls (blocks_from 16 3 1000) []).1
      (stack_run calls (blocks_from 16 3 1000) []).2
run-Agrees_example = run-Agrees calls (blocks_from 16 3 1000) [] three_blocks.valid

initialize_wraps_example : initialize at_thousand 16 (2 ^ 60 + 1) no_pool ≡ err fault
initialize_wraps_example =
    initialize_wraps at_thousand 16 (2 ^ 60 + 1) no_pool refl (omega arith) (omega arith) refl
      (omega arith)

-- The block that was freed last is given out first, and then null.
run-calls :
    (initialize at_thousand 16 3 no_pool >>= λ made. run calls made.1 [] >>= λ done. ok done.0)
    ≡ ok (1000 ∷ 1016 ∷ 1000 ∷ 1032 ∷ 0 ∷ [])
unfolding initialize link_blocks store load run step allocate deallocate bad_alloc_handler
run-calls = refl

block_size-rounds : block_size 12 8 ≡ 16
unfolding block_size
block_size-rounds = refl
