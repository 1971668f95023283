-- ===== src/MemoryTrace/Tests.antt =====
-- Runs of the operators on two blocks, at 8192 and 16384, and of a program with two scopes.
use nvwa.Common.{
  inl, ℕ, ◌+◌, ◌==◌, if◌then◌else◌, true, false, Option, none, some, ok, [], ◌∷◌, ◌≡◌, refl, inr,
  arith, Absent, Distinct, Every,
}
use nvwa.Blocks.{total_size}
use nvwa.Links.{Linked, IsRing}
use nvwa.MemoryTrace.Defs.{
  Trace, Context, mismatch, leaks_found, corrupt_near, magic_offset, align, aligned_list_node_size,
  printed, enlist, operator_new_in, free_mem, check_leaks, returns, aborts,
}
use nvwa.MemoryTrace.Valid.{Records, enlist-Records, operator_new_in-Records}
use nvwa.MemoryTrace.Release.{free_mem-Records, free_mem-mismatch}
use nvwa.MemoryTrace.Leaks.{reported, with_output, check_leaks-reported, check_leaks-corrupt}
use nvwa.MemoryTrace.Programs.{Program, System, sequence, allocates, within, Aligned, run, run_in}
use nvwa.MemoryTrace.Scopes.{run-run_in}

abbrev main_context : Context
main_context = record { file = 97 ∷ []; func = 109 ∷ [] }

abbrev load_context : Context
load_context = record { file = 97 ∷ []; func = 108 ∷ [] }

abbrev start : Trace
start = record {
  next = λ p. 4096;
  prev = λ p. 4096;
  size = λ p. 0;
  ctx = λ p. main_context;
  head_size = λ p. 0;
  is_array = λ p. false;
  magic = λ p. 0;
  current_mem_alloc = 0;
  total_mem_alloc_cnt_accum = 0;
  new_verbose_flag = true;
  new_autocheck_flag = true;
  source_count = 0;
  context_stack = main_context ∷ [];
  output = [];
}

abbrev one_block : Trace
one_block = enlist 4096 8192 10 main_context false 48 start

abbrev two_blocks : Trace
two_blocks = enlist 4096 16384 20 load_context true 48 one_block

start-Records : Records 4096 start []
unfolding Distinct Absent Linked Every total_size
start-Records = record {
  ring = record { distinct = (tt, tt); links = (refl, refl) };
  blocks = tt;
  counted = refl;
}

one_block-Records : Records 4096 one_block (8192 ∷ [])
unfolding Absent
one_block-Records =
    enlist-Records 4096 start 8192 10 main_context false 48 [] start-Records (omega arith)
      (refl, tt)

two_blocks-Records : Records 4096 two_blocks (8192 ∷ 16384 ∷ [])
unfolding Absent
two_blocks-Records =
    enlist-Records 4096 one_block 16384 20 load_context true 48 (8192 ∷ []) one_block-Records
      (omega arith) (refl, (refl, tt))

abbrev no_more : ℕ → Option ℕ
no_more bytes = none

abbrev at_16384 : ℕ → ℕ → Option ℕ
at_16384 bytes alignment = some 16384

operator_new_in-Records_example :
    (t' : Trace) × (operator_new_in no_more at_16384 4096 20 load_context true 32 one_block
      ≡ (ok (16384 + aligned_list_node_size 32), t'))
    × Records 4096 t' (8192 ∷ 16384 ∷ [])
    × (t'.ctx 16384 ≡ load_context)
    × (t'.context_stack ≡ one_block.context_stack)
unfolding align Absent
operator_new_in-Records_example =
    operator_new_in-Records no_more at_16384 4096 one_block (8192 ∷ []) 20 load_context true 32
      16384 one_block-Records (omega arith) (omega arith) refl (refl, (refl, tt))

free_mem-Records_example :
    (t' : Trace) × (free_mem (8192 + aligned_list_node_size 16) false 16 two_blocks ≡ returns tt t')
    × Records 4096 t' (16384 ∷ [])
unfolding align enlist
free_mem-Records_example =
    free_mem-Records 4096 two_blocks [] 8192 (16384 ∷ []) (8192 + aligned_list_node_size 16) false
      16 two_blocks-Records (omega arith) (omega arith) (omega arith) refl refl refl

free_mem-mismatch_example :
    free_mem (16384 + aligned_list_node_size 16 + 8) false 16 two_blocks
    ≡ aborts (
        printed
          (mismatch false (16384 + aligned_list_node_size 16 + 8) (two_blocks.size 16384))
          two_blocks)
unfolding align enlist
free_mem-mismatch_example =
    free_mem-mismatch 4096 two_blocks (8192 ∷ []) 16384 [] (16384 + aligned_list_node_size 16 + 8)
      false 16 two_blocks-Records (omega arith) (omega arith) (omega arith) refl
      (inr (refl, inl refl)) refl

check_leaks-reported_example :
    check_leaks 4096 3 two_blocks
    ≡ returns 2 (
        printed
          (leaks_found 2)
          (with_output two_blocks (reported two_blocks (8192 ∷ 16384 ∷ []) two_blocks.output)))
unfolding enlist Every
check_leaks-reported_example =
    check_leaks-reported 4096 two_blocks (8192 ∷ 16384 ∷ []) 3 two_blocks-Records.ring
      (refl, (refl, tt)) (omega arith)

-- The magic number of the second block is overwritten.
abbrev overrun : Trace
overrun = record two_blocks { magic = λ p. if p == 16384 then 7 else two_blocks.magic p }

overrun-IsRing : IsRing overrun.next overrun.prev 4096 (8192 ∷ 16384 ∷ [])
overrun-IsRing = two_blocks-Records.ring

check_leaks-corrupt_example :
    check_leaks 4096 2 overrun
    ≡ aborts (
        with_output overrun
          (corrupt_near (16384 + magic_offset) ∷ reported overrun (8192 ∷ []) overrun.output))
unfolding enlist Every
check_leaks-corrupt_example =
    check_leaks-corrupt 4096 overrun (8192 ∷ []) 16384 [] 2 overrun-IsRing (refl, tt) refl
      (omega arith)

abbrev once : System
once = record { malloc = λ bytes. some 8192; aligned_malloc = λ bytes alignment. none }

abbrev never : System
never = record { malloc = no_more; aligned_malloc = λ bytes alignment. none }

-- An allocation in a scope, and another one that fails in a scope in it.
abbrev program : Program
program =
    within load_context
      (sequence (allocates once 10 false 16) (within main_context (allocates never 5 true 16)))

run-run_in_example : run 4096 program start ≡ run_in 4096 program main_context start
unfolding Aligned
run-run_in_example = run-run_in 4096 program start main_context [] (omega arith, omega arith) refl
