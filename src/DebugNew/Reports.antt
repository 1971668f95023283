-- ===== src/DebugNew/Reports.antt =====
-- `check_leaks` and `check_mem_corruption`, which walk over the list. The walk is given more rounds
-- than there are blocks; `none` is a walk that has not ended.
use nvwa.Common.{
  ℕ, zero, suc, ◌+◌, ◌-◌, ◌%◌, ◌^◌, ◌==◌, ltb, if◌then◌else◌, Bool, true, false, not, ◌&&◌, ◌||◌,
  Option, none, some,
}
use nvwa.DebugNew.Memory.{
  Memory, Setup, corrupt_near, overwritten, leaked, leaks_found, check_start, heap_corrupt,
  object_overwritten, check_found, debug_new_alignment, debug_new_magic, aligned_list_item_size,
  position, is_leak_whitelisted, check_tail, printed, printed_if,
}

-- The pointer that is shown of a block: by the size of its head where the head can be trusted.
abbrev pub shown : Memory → ℕ → ℕ
shown m ptr =
    if not (m.magic ptr == debug_new_magic)
    then ptr + aligned_list_item_size debug_new_alignment
    else ptr + m.head_size ptr

-- What `check_leaks` prints of a block.
unfoldable pub report_leak : Setup → ℕ → Memory → Memory
report_leak setup ptr m =
    let usr_ptr = shown m ptr in
    let checked = printed_if (not (m.magic ptr == debug_new_magic)) (corrupt_near usr_ptr) m in
    let tail_checked = printed_if (not (check_tail setup m ptr)) (overwritten usr_ptr) checked in
    printed_if (not (is_leak_whitelisted setup m ptr))
      (leaked usr_ptr (m.size ptr) (position m ptr)) tail_checked

-- The loop, with `leak_cnt` and `whitelisted_leak_cnt`.
unfoldable pub leaks_loop : Setup → ℕ → ℕ → ℕ → ℕ → Memory → Option (ℕ × ℕ × Memory)
leaks_loop setup zero ptr leak_cnt whitelisted m = none
leaks_loop setup (suc fuel) ptr leak_cnt whitelisted m = elim (ptr == setup.new_ptr_list) [
  | true ↦ some (leak_cnt, whitelisted, m)
  | false ↦
      leaks_loop setup fuel (m.next ptr) (leak_cnt + 1)
        (if is_leak_whitelisted setup m ptr then whitelisted + 1 else whitelisted)
        (report_leak setup ptr m)
]

-- The last line, and the result.
abbrev pub leaks_told : Option (ℕ × ℕ × Memory) → Option (ℕ × Memory)
leaks_told none = none
leaks_told (some (leak_cnt, whitelisted, m)) = some (
  leak_cnt,
  printed_if (m.new_verbose_flag || ltb 0 leak_cnt) (leaks_found leak_cnt whitelisted) m,
)

unfoldable pub check_leaks : Setup → ℕ → Memory → Option (ℕ × Memory)
check_leaks setup fuel m = leaks_told (leaks_loop setup fuel (m.next setup.new_ptr_list) 0 0 m)

-- A block of which neither the head nor the tail has been written to.
abbrev pub is_intact : Setup → Memory → ℕ → Bool
is_intact setup m ptr = m.magic ptr == debug_new_magic && check_tail setup m ptr

-- What `check_mem_corruption` prints of a block that is not.
unfoldable pub report_corruption : ℕ → Memory → Memory
report_corruption ptr m =
    if not (m.magic ptr == debug_new_magic)
    then printed
        (heap_corrupt (ptr + aligned_list_item_size debug_new_alignment) (m.size ptr)
          (position m ptr))
        m
    else printed (object_overwritten (ptr + m.head_size ptr) (m.size ptr) (position m ptr)) m

unfoldable pub corruption_loop : Setup → ℕ → ℕ → ℕ → Memory → Option (ℕ × Memory)
corruption_loop setup zero ptr corrupt_cnt m = none
corruption_loop setup (suc fuel) ptr corrupt_cnt m = elim (ptr == setup.new_ptr_list) [
  | true ↦ some (corrupt_cnt, m)
  | false ↦ elim (is_intact setup m ptr) [
    | true ↦ corruption_loop setup fuel (m.next ptr) corrupt_cnt m
    | false ↦ corruption_loop setup fuel (m.next ptr) (corrupt_cnt + 1) (report_corruption ptr m)
  ]
]

abbrev pub corruption_told : Option (ℕ × Memory) → Option (ℕ × Memory)
corruption_told none = none
corruption_told (some (corrupt_cnt, m)) = some (corrupt_cnt, printed (check_found corrupt_cnt) m)

unfoldable pub check_mem_corruption : Setup → ℕ → Memory → Option (ℕ × Memory)
check_mem_corruption setup fuel m =
    corruption_told
      (corruption_loop setup fuel (m.next setup.new_ptr_list) 0 (printed check_start m))

-- The destructor of `debug_new_counter`, and its constructor.
unfoldable pub leave_source : Setup → ℕ → Memory → Option Memory
leave_source setup fuel m =
    let m' = record m { source_count = (m.source_count + (2 ^ 32 - 1)) % 2 ^ 32 } in
    if m'.source_count == 0 && m'.new_autocheck_flag
    then elim (check_leaks setup fuel m') [
      | none ↦ none
      | some (leak_cnt, checked) ↦
          some (if ltb 0 leak_cnt then record checked { new_verbose_flag = true } else checked)
    ]
    else some m'

abbrev pub enter_source : Memory → Memory
enter_source m = record m { source_count = (m.source_count + 1) % 2 ^ 32 }
