-- ===== src/DebugNew/Walks.antt =====
-- The walks over the list of `check_leaks` and `check_mem_corruption` come to its end, and print of
-- each block what is wrong with it.
use nvwa.Common.{
  ℕ, zero, suc, ◌+◌, ◌<◌, ◌==◌, ltb, if◌then◌else◌, Bool, Bool-cases, inl, inr, true, false, not,
  ◌||◌, some, List, [], ◌∷◌, ◌++◌, length, ◌≡◌, refl, ap, ap₂, ◌∙◌, arith, Absent, Distinct,
}
use nvwa.DebugNew.Memory.{
  Memory, Setup, Message, corrupt_near, overwritten, leaked, leaks_found, check_start, heap_corrupt,
  object_overwritten, check_found, debug_new_alignment, debug_new_magic, aligned_list_item_size,
  position, is_leak_whitelisted, check_tail, printed_if,
}
use nvwa.DebugNew.Reports.{
  shown, report_leak, leaks_loop, leaks_told, corruption_told, check_leaks, is_intact,
  report_corruption, corruption_loop, check_mem_corruption,
}
use nvwa.Links.{IsRing, Linked}

-- The lines of each block, after those that are there, the last first.
unfoldable pub reported : (ℕ → List Message) → List ℕ → List Message → List Message
reported lines [] output = output
reported lines (x ∷ xs) output = reported lines xs (lines x ++ output)

unfoldable pub count_if : (ℕ → Bool) → List ℕ → ℕ
count_if test [] = 0
count_if test (x ∷ xs) = (if test x then 1 else 0) + count_if test xs

-- The memory with other lines printed.
abbrev pub with_output : Memory → List Message → Memory
with_output m lines = record m { output = lines }

-- What is wrong with a block, by its record.
unfoldable pub corruption_lines : Setup → Memory → ℕ → List Message
corruption_lines setup m ptr =
    if is_intact setup m ptr
    then []
    else (if m.magic ptr == debug_new_magic
        then object_overwritten (ptr + m.head_size ptr) (m.size ptr) (position m ptr) ∷ []
        else heap_corrupt (ptr + aligned_list_item_size debug_new_alignment) (m.size ptr)
            (position m ptr)
          ∷ [])

abbrev line_if : Bool → Message → List Message
line_if test message = if test then message ∷ [] else []

unfoldable pub leak_lines : Setup → Memory → ℕ → List Message
leak_lines setup m ptr =
    line_if (not (is_leak_whitelisted setup m ptr))
      (leaked (shown m ptr) (m.size ptr) (position m ptr))
    ++ (line_if (not (check_tail setup m ptr)) (overwritten (shown m ptr))
        ++ line_if (not (m.magic ptr == debug_new_magic)) (corrupt_near (shown m ptr)))

printed_if-line_if :
    (m : Memory) (lines : List Message) (test : Bool) (message : Message)
    → printed_if test message (with_output m (lines ++ m.output))
      ≡ with_output m ((line_if test message ++ lines) ++ m.output)
printed_if-line_if m lines true message = refl
printed_if-line_if m lines false message = refl

printed_if-with_output :
    (m : Memory) (test : Bool) (message : Message)
    → printed_if test message m ≡ with_output m (line_if test message ++ m.output)
printed_if-with_output m true message = refl
printed_if-with_output m false message = refl

module _ (setup : Setup) (m : Memory) where
  report_leak-leak_lines :
      (ptr : ℕ) → report_leak setup ptr m ≡ with_output m (leak_lines setup m ptr ++ m.output)
  unfolding report_leak leak_lines
  report_leak-leak_lines ptr =
      let near = line_if (not (m.magic ptr == debug_new_magic)) (corrupt_near (shown m ptr)) in
      let over = line_if (not (check_tail setup m ptr)) (overwritten (shown m ptr)) ++ near in
      let told : Memory → Memory =
        printed_if (not (check_tail setup m ptr)) (overwritten (shown m ptr)) in
      let found : Memory → Memory =
        printed_if (not (is_leak_whitelisted setup m ptr))
          (leaked (shown m ptr) (m.size ptr) (position m ptr)) in
      ap (λ s. found (told s))
        (printed_if-with_output m (not (m.magic ptr == debug_new_magic))
          (corrupt_near (shown m ptr)))
      ∙ ap found
          (printed_if-line_if m near (not (check_tail setup m ptr)) (overwritten (shown m ptr)))
      ∙ printed_if-line_if m over (not (is_leak_whitelisted setup m ptr))
          (leaked (shown m ptr) (m.size ptr) (position m ptr))

  corruption_loop-suc :
      (fuel ptr cnt : ℕ)
      → (ptr == setup.new_ptr_list) ≡ false
      → corruption_loop setup (suc fuel) ptr cnt m
        ≡ corruption_loop setup fuel
            (m.next ptr)
            (cnt + (if not (is_intact setup m ptr) then 1 else 0))
            (with_output m (corruption_lines setup m ptr ++ m.output))
  unfolding corruption_loop report_corruption corruption_lines
  corruption_loop-suc fuel ptr cnt on = elim (Bool-cases (is_intact setup m ptr)) [
    | inl fine ↦
        rw (on, fine, corruption_loop)
          (ap (λ n. corruption_loop setup fuel (m.next ptr) n m) (omega arith))
    | inr bad ↦ elim (Bool-cases (m.magic ptr == debug_new_magic)) [
      | inl marked ↦ rw (on, corruption_loop, bad, marked) refl
      | inr unmarked ↦ rw (on, corruption_loop, bad, unmarked) refl
    ]
  ]

  leaks_loop-suc :
      (fuel ptr leak_cnt whitelisted : ℕ)
      → (ptr == setup.new_ptr_list) ≡ false
      → leaks_loop setup (suc fuel) ptr leak_cnt whitelisted m
        ≡ leaks_loop setup fuel
            (m.next ptr)
            (leak_cnt + 1)
            (whitelisted + (if is_leak_whitelisted setup m ptr then 1 else 0))
            (with_output m (leak_lines setup m ptr ++ m.output))
  unfolding leaks_loop
  leaks_loop-suc fuel ptr leak_cnt whitelisted on =
      rw (on, leaks_loop, report_leak-leak_lines ptr)
        (ap
          (λ n.
            leaks_loop setup fuel (m.next ptr) (leak_cnt + 1) n
              (with_output m (leak_lines setup m ptr ++ m.output)))
          (ground arith))

module _ (setup : Setup) (m : Memory) where
  corruption_loop-all :
      (a : ℕ) (xs : List ℕ) (fuel cnt : ℕ) (out : List Message)
      → Linked m.next m.prev a xs setup.new_ptr_list
      → Absent setup.new_ptr_list xs
      → length xs < fuel
      → corruption_loop setup fuel (m.next a) cnt (with_output m out)
        ≡ some (
          cnt + count_if (λ x. not (is_intact setup m x)) xs,
          with_output m (reported (corruption_lines setup m) xs out),
        )
  unfolding Linked Absent count_if reported corruption_loop corruption_lines
  corruption_loop-all a [] zero cnt out links absent lt = ground arith
  corruption_loop-all a (x ∷ xs) zero cnt out links absent lt = ground arith
  corruption_loop-all a [] (suc fuel) cnt out (to, from) absent lt =
      let end : (setup.new_ptr_list == setup.new_ptr_list) ≡ true = ground arith in
      rw (to, end, corruption_loop) (ap (λ n. some (n, with_output m out)) (omega arith))
  corruption_loop-all a (x ∷ xs) (suc fuel) cnt out (to, from, links) (other, absent) lt =
      let count = count_if (λ y. not (is_intact setup m y)) xs in
      rw to (
        corruption_loop-suc setup (with_output m out) fuel x cnt other
        ∙ corruption_loop-all x xs fuel (cnt + (if not (is_intact setup m x) then 1 else 0))
            (corruption_lines setup m x ++ out) links absent (omega arith)
        ∙ ap
            (λ n. some (
              n,
              with_output m
                  (reported (corruption_lines setup m) xs (corruption_lines setup m x ++ out)),
            ))
            (omega arith))

  leaks_loop-all :
      (a : ℕ) (xs : List ℕ) (fuel leak_cnt whitelisted : ℕ) (out : List Message)
      → Linked m.next m.prev a xs setup.new_ptr_list
      → Absent setup.new_ptr_list xs
      → length xs < fuel
      → leaks_loop setup fuel (m.next a) leak_cnt whitelisted (with_output m out)
        ≡ some (
          leak_cnt + length xs,
          whitelisted + count_if (is_leak_whitelisted setup m) xs,
          with_output m (reported (leak_lines setup m) xs out),
        )
  unfolding Linked Absent count_if reported leaks_loop leak_lines is_leak_whitelisted
  leaks_loop-all a [] zero leak_cnt whitelisted out links absent lt = ground arith
  leaks_loop-all a (x ∷ xs) zero leak_cnt whitelisted out links absent lt = ground arith
  leaks_loop-all a [] (suc fuel) leak_cnt whitelisted out (to, from) absent lt =
      let end : (setup.new_ptr_list == setup.new_ptr_list) ≡ true = ground arith in
      rw (to, end, leaks_loop)
        (ap₂ (λ k n. some (k, n, with_output m out)) (omega arith) (omega arith))
  leaks_loop-all a (x ∷ xs) (suc fuel) leak_cnt whitelisted out (to, from, links) (other, absent)
        lt =
      rw to (
        leaks_loop-suc setup (with_output m out) fuel x leak_cnt whitelisted other
        ∙ leaks_loop-all x xs fuel (leak_cnt + 1)
            (whitelisted + (if is_leak_whitelisted setup m x then 1 else 0))
            (leak_lines setup m x ++ out) links absent (omega arith)
        ∙ ap₂
            (λ k n. some (
              k,
              n,
              with_output m (reported (leak_lines setup m) xs (leak_lines setup m x ++ out)),
            ))
            (omega arith) (omega arith))

  -- On the ring of the blocks in the list, whatever has been written to them,
  -- check_mem_corruption ends with the number of the blocks whose magic number or tail has been
  -- overwritten, and prints a line for each of these, in their order, between a line at the start
  -- and one with that number.
  pub check_mem_corruption-lines :
      (ptrs : List ℕ) (fuel : ℕ)
      → IsRing m.next m.prev setup.new_ptr_list ptrs
      → length ptrs < fuel
      → check_mem_corruption setup fuel m
        ≡ some (
          count_if (λ x. not (is_intact setup m x)) ptrs,
          with_output m (
              check_found (count_if (λ x. not (is_intact setup m x)) ptrs)
              ∷ reported (corruption_lines setup m) ptrs (check_start ∷ m.output)),
        )
  unfolding check_mem_corruption Distinct
  check_mem_corruption-lines ptrs fuel ring lt =
      ap corruption_told (
        corruption_loop-all setup.new_ptr_list ptrs fuel 0 (check_start ∷ m.output) ring.links
          ring.distinct.0 lt)
      ∙ ap
          (λ n. corruption_told (
            some (
              n,
              with_output m (reported (corruption_lines setup m) ptrs (check_start ∷ m.output)),
            )))
          (omega arith)

  -- On the ring of the blocks in the list, whatever has been written to them, check_leaks ends
  -- with the number of the blocks; it prints of each block, in their order, what has been
  -- overwritten and, if it is not on the whitelist, where it was allocated, and then, if there is
  -- a block or the verbose flag is set, how many there are and how many of them are on the
  -- whitelist.
  pub check_leaks-lines :
      (ptrs : List ℕ) (fuel : ℕ)
      → IsRing m.next m.prev setup.new_ptr_list ptrs
      → length ptrs < fuel
      → check_leaks setup fuel m
        ≡ some (
          length ptrs,
          printed_if
              (m.new_verbose_flag || ltb 0 (length ptrs))
              (leaks_found (length ptrs) (count_if (is_leak_whitelisted setup m) ptrs))
              (with_output m (reported (leak_lines setup m) ptrs m.output)),
        )
  unfolding check_leaks Distinct
  check_leaks-lines ptrs fuel ring lt =
      ap leaks_told
        (leaks_loop-all setup.new_ptr_list ptrs fuel 0 0 m.output ring.links ring.distinct.0 lt)
      ∙ ap₂
          (λ k n.
            leaks_told (some (k, n, with_output m (reported (leak_lines setup m) ptrs m.output))))
          (omega arith) (omega arith)
