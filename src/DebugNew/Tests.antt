-- ===== src/DebugNew/Tests.antt =====
-- Runs of the operators on two blocks, at 8192 and 16384.
use nvwa.Common.{
  ℕ, ◌+◌, ◌-◌, ◌%◌, ◌^◌, ◌<◌, ◌≤◌, true, false, not, none, some, ok, [], ◌∷◌, ◌≡◌, refl, inl, inr,
  arith, Absent, Distinct, Every,
}
use nvwa.DebugNew.Memory.{
  Memory, Setup, Origin, file, addr, mismatch, leaks_found, check_start, check_found, align,
  convert_user_ptr, aligned_list_item_size, print_position, printed, position, tail_loop,
  is_leak_whitelisted,
}
use nvwa.DebugNew.Reports.{check_leaks, check_mem_corruption, is_intact}
use nvwa.DebugNew.Alloc.{returns, aborts, operator_new, free_pointer, process, link, enlist, stored}
use nvwa.DebugNew.Valid.{Records}
use nvwa.Blocks.{total_size, find_block, find_header}
use nvwa.DebugNew.Allocate.{enlist-Records, operator_new-Records}
use nvwa.DebugNew.Release.{free_pointer-Records}
use nvwa.DebugNew.Walks.{
  count_if, reported, leak_lines, corruption_lines, with_output, check_leaks-lines,
  check_mem_corruption-lines,
}
use nvwa.DebugNew.Cycle.{new-delete}
use nvwa.DebugNew.Misuse.{free_pointer-Mismatch, process-Records, operator_new-wraps}
use nvwa.DebugNew.Align.{align-least}
use nvwa.Links.{Linked, IsRing}

abbrev setup : Setup
setup = record { new_ptr_list = 4096; tailcheck = 4; leak_whitelist_callback = none }

abbrev start : Memory
start = record {
  next = λ p. 4096;
  prev = λ p. 4096;
  size = λ p. 0;
  origin = λ p. addr 0;
  head_size = λ p. 0;
  line = λ p. 0;
  is_array = λ p. false;
  magic = λ p. 0;
  byte = λ p. 0;
  current_mem_alloc = 0;
  total_mem_alloc_cnt_accum = 0;
  new_verbose_flag = true;
  new_autocheck_flag = true;
  source_count = 0;
  output = [];
}

abbrev name : Origin
name = file (97 ∷ 46 ∷ 99 ∷ [])

-- An object of ten bytes, and after it an array of twenty that was allocated without a line.
abbrev one_block : Memory
one_block = enlist setup 8192 10 name 7 false 96 start

abbrev two_blocks : Memory
two_blocks = enlist setup 16384 20 (addr 77) 0 true 96 one_block

start-Records : Records setup start []
unfolding Distinct Absent Linked Every total_size
start-Records = record {
  ring = record { distinct = (tt, tt); links = (refl, refl) };
  blocks = tt;
  counted = refl;
}

one_block-Records : Records setup one_block (8192 ∷ [])
unfolding Absent Every
one_block-Records =
    enlist-Records setup start 8192 10 96 name 7 false [] start-Records (omega arith) (refl, tt) tt

two_blocks-Records : Records setup two_blocks (8192 ∷ 16384 ∷ [])
unfolding Absent Every enlist link
two_blocks-Records =
    enlist-Records setup one_block 16384 20 96 (addr 77) 0 true (8192 ∷ []) one_block-Records
      (omega arith) (refl, (refl, tt)) (inl (omega arith), tt)

operator_new-Records_example :
    (m' : Memory) × (operator_new (λ n a. some 16384) setup 20 (addr 77) 0 true 16 one_block
      ≡ (ok (16384 + aligned_list_item_size 16), m'))
    × Records setup m' (8192 ∷ 16384 ∷ [])
unfolding align Absent Every enlist link
operator_new-Records_example =
    operator_new-Records (λ n a. some 16384) setup one_block (addr 77) 0 true (8192 ∷ []) 20 16
      16384 one_block-Records (omega arith) refl (refl, (refl, tt)) (inl (omega arith), tt)

free_pointer-Records_example :
    (m' : Memory) × (free_pointer setup 3
        (8192 + aligned_list_item_size 16)
        (addr 5)
        false
        16
        two_blocks
      ≡ returns m')
    × Records setup m' (16384 ∷ [])
unfolding align enlist link
free_pointer-Records_example =
    free_pointer-Records setup two_blocks 3 (addr 5) false 16 [] 8192 (16384 ∷ [])
      two_blocks-Records refl (omega arith) (omega arith) refl

new-delete_example :
    (usr_ptr : ℕ) × (m₁ : Memory) × (m₂ : Memory) × (operator_new
        (λ n a. some 16384)
        setup
        20
        (addr 77)
        0
        true
        8
        one_block
      ≡ (ok usr_ptr, m₁))
    × (free_pointer setup 3 usr_ptr (addr 5) true 8 m₁ ≡ returns m₂)
    × Records setup m₂ (8192 ∷ [])
    × (m₂.current_mem_alloc ≡ one_block.current_mem_alloc)
unfolding align Absent Every enlist link
new-delete_example =
    new-delete (λ n a. some 16384) setup one_block (addr 77) (addr 5) 0 true (8192 ∷ []) 3 20 8 4
      16384 one_block-Records refl (omega arith) (omega arith) (omega arith) refl (omega arith) refl
      (omega arith) (refl, (refl, tt)) (inl (omega arith), tt)

free_pointer-Mismatch_example :
    free_pointer setup 3 (16384 + aligned_list_item_size 16 + 16) (addr 5) false 16 two_blocks
    ≡ aborts (
        printed
          (mismatch false
            (16384 + aligned_list_item_size 16 + 16)
            (two_blocks.size 16384)
            (print_position (addr 5) 0)
            (position two_blocks 16384))
          two_blocks)
unfolding align enlist link
free_pointer-Mismatch_example =
    free_pointer-Mismatch setup two_blocks (8192 ∷ []) 16384 [] 3
      (16384 + aligned_list_item_size 16 + 16) 16 (addr 5) false two_blocks-Records (omega arith)
      (omega arith) refl (inr (refl, inr (refl, refl))) refl

process-Records_example :
    Records setup
      (process (16384 + aligned_list_item_size 16) name 9 two_blocks)
      (8192 ∷ 16384 ∷ [])
    × (position (process (16384 + aligned_list_item_size 16) name 9 two_blocks) 16384
        ≡ print_position (stored name) 9)
unfolding align enlist link
process-Records_example =
    process-Records setup two_blocks (8192 ∷ []) 16384 [] (16384 + aligned_list_item_size 16) 9 name
      two_blocks-Records (omega arith) (omega arith) refl (inl refl) refl

operator_new-wraps_example :
    ((operator_new (λ n a. some 16384) setup (2 ^ 64 - 1) (addr 77) 0 true 16 one_block).0
      ≡ ok (16384 + aligned_list_item_size 16))
    × (99 < aligned_list_item_size 16 + 4)
unfolding align
operator_new-wraps_example =
    operator_new-wraps (λ n a. some 16384) setup one_block (2 ^ 64 - 1) 99 16 16384 0 (addr 77) true
      (omega arith) (omega arith) (omega arith) refl refl

align-least_example :
    (align 88 (2 ^ 4) % 2 ^ 4 ≡ 0) × (88 ≤ align 88 (2 ^ 4)) × (align 88 (2 ^ 4) < 88 + 2 ^ 4)
align-least_example = align-least 88 4 (omega arith) (omega arith)

-- A byte after the first object is overwritten.
abbrev overrun : Memory
overrun = record two_blocks { byte = λ p. 0 }

overrun-IsRing : IsRing overrun.next overrun.prev 4096 (8192 ∷ 16384 ∷ [])
overrun-IsRing = two_blocks-Records.ring

check_mem_corruption-lines_example :
    check_mem_corruption setup 3 overrun
    ≡ some (
      count_if (λ x. not (is_intact setup overrun x)) (8192 ∷ 16384 ∷ []),
      with_output overrun (
          check_found (count_if (λ x. not (is_intact setup overrun x)) (8192 ∷ 16384 ∷ []))
          ∷ reported
              (corruption_lines setup overrun)
              (8192 ∷ 16384 ∷ [])
              (check_start ∷ overrun.output)),
    )
unfolding enlist link
check_mem_corruption-lines_example =
    check_mem_corruption-lines setup overrun (8192 ∷ 16384 ∷ []) 3 overrun-IsRing (omega arith)

check_leaks-lines_example :
    check_leaks setup 3 two_blocks
    ≡ some (
      2,
      printed (leaks_found 2 0) (
          with_output two_blocks
            (reported (leak_lines setup two_blocks) (8192 ∷ 16384 ∷ []) two_blocks.output)),
    )
unfolding enlist link is_leak_whitelisted count_if
check_leaks-lines_example =
    check_leaks-lines setup two_blocks (8192 ∷ 16384 ∷ []) 3 two_blocks-Records.ring (omega arith)

-- Two corrupt blocks are found.
overrun_found : count_if (λ x. not (is_intact setup overrun x)) (8192 ∷ 16384 ∷ []) ≡ 2
unfolding count_if enlist link tail_loop
overrun_found = refl

-- The pointers after a count of 8 and of 16 bytes, and one that leads nowhere.
convert-counts :
    (convert_user_ptr two_blocks (16384 + aligned_list_item_size 16 + 8) 16 ≡ some 16384)
    × (convert_user_ptr two_blocks (16384 + aligned_list_item_size 16 + 16) 16 ≡ some 16384)
    × (convert_user_ptr two_blocks (16384 + aligned_list_item_size 16 + 32) 16 ≡ none)
unfolding find_block find_header align enlist link
convert-counts = (refl, refl, refl)
