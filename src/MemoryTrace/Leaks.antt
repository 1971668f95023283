-- ===== src/MemoryTrace/Leaks.antt =====
-- The walk of `check_leaks` over the list.
use nvwa.Common.{
  ℕ, suc, ◌+◌, ◌-◌, ◌<◌, ◌==◌, if◌then◌else◌, true, false, not, List, [], ◌∷◌, ◌++◌, length, ◌≡◌,
  refl, ap, ap₂, ◌∙◌, arith, Absent, Distinct, Every, Absent-append,
}
use nvwa.Links.{IsRing, Linked, Linked-split}
use nvwa.MemoryTrace.Defs.{
  Trace, Message, leaked, corrupt_near, leaks_found, cmt_magic, magic_offset, printed, leaks_loop,
  leaks_told, check_leaks, returns, aborts,
}

-- What is printed of a block in the list.
abbrev pub leak_line : Trace → ℕ → Message
leak_line t ptr = leaked (ptr + t.head_size ptr) (t.size ptr) (t.ctx ptr)

-- The lines of the blocks, after those that are there, the last first.
unfoldable pub reported : Trace → List ℕ → List Message → List Message
reported t [] output = output
reported t (x ∷ xs) output = reported t xs (leak_line t x ∷ output)

abbrev pub with_output : Trace → List Message → Trace
with_output t lines = record t { output = lines }

leaks_loop-suc :
    (alloc_list : ℕ) (t : Trace) (x fuel cnt : ℕ)
    → (x == alloc_list) ≡ false
    → t.magic x ≡ cmt_magic
    → leaks_loop alloc_list (suc fuel) x cnt t
      ≡ leaks_loop alloc_list fuel (t.next x) (cnt + 1) (printed (leak_line t x) t)
unfolding leaks_loop
leaks_loop-suc alloc_list t x fuel cnt on mark = rw (on, mark, leaks_loop) refl

module _ (alloc_list : ℕ) (t : Trace) where
  -- Over blocks with their magic number.
  leaks_loop-prefix :
      (a : ℕ) (xs : List ℕ) (b fuel cnt : ℕ) (out : List Message)
      → Linked t.next t.prev a xs b
      → Absent alloc_list xs
      → Every (λ x. t.magic x ≡ cmt_magic) xs
      → leaks_loop alloc_list (length xs + fuel) (t.next a) cnt (with_output t out)
        ≡ leaks_loop alloc_list fuel b (cnt + length xs) (with_output t (reported t xs out))
  unfolding Linked Absent Every reported leaks_loop
  leaks_loop-prefix a [] b fuel cnt out (to, from) absent marked =
      rw to
        (ap₂ (λ f c. leaks_loop alloc_list f b c (with_output t out)) (omega arith) (omega arith))
  leaks_loop-prefix a (x ∷ xs) b fuel cnt out (to, from, links) (other, absent) (mark, marked) =
      rw to (
        ap (λ f. leaks_loop alloc_list f x cnt (with_output t out)) {x = suc (length xs) + fuel}
          {y = suc (length xs + fuel)} (omega arith)
        ∙ leaks_loop-suc alloc_list (with_output t out) x (length xs + fuel) cnt other mark
        ∙ leaks_loop-prefix x xs b fuel (cnt + 1) (leak_line t x ∷ out) links absent marked
        ∙ ap
            (λ c.
              leaks_loop alloc_list fuel b c (with_output t (reported t xs (leak_line t x ∷ out))))
            (omega arith))

  leaks_loop-end :
      (fuel cnt : ℕ) (out : List Message)
      → leaks_loop alloc_list (suc fuel) alloc_list cnt (with_output t out)
        ≡ returns cnt (with_output t out)
  unfolding leaks_loop
  leaks_loop-end fuel cnt out =
      let same : (alloc_list == alloc_list) ≡ true = ground arith in rw (same, leaks_loop) refl

  leaks_loop-corrupt :
      (p fuel cnt : ℕ) (out : List Message)
      → (p == alloc_list) ≡ false
      → (t.magic p == cmt_magic) ≡ false
      → leaks_loop alloc_list (suc fuel) p cnt (with_output t out)
        ≡ aborts (with_output t (corrupt_near (p + magic_offset) ∷ out))
  unfolding leaks_loop
  leaks_loop-corrupt p fuel cnt out on bad = rw (on, bad, leaks_loop) refl

  -- On the ring of the blocks in the list, all with their magic number, check_leaks ends with the
  -- number of the blocks; it prints each block with its context, in their order, and then, if
  -- there is a block, how many there are.
  pub check_leaks-reported :
      (ptrs : List ℕ) (fuel : ℕ)
      → IsRing t.next t.prev alloc_list ptrs
      → Every (λ x. t.magic x ≡ cmt_magic) ptrs
      → length ptrs < fuel
      → check_leaks alloc_list fuel t
        ≡ returns (length ptrs) (
            let checked = with_output t (reported t ptrs t.output) in
            if not (length ptrs == 0) then printed (leaks_found (length ptrs)) checked else checked)
  unfolding check_leaks Distinct
  check_leaks-reported ptrs fuel ring marked lt =
      let rest = fuel - length ptrs - 1 in
      let split : fuel ≡ length ptrs + suc rest = omega arith in
      ap leaks_told (
        ap (λ f. leaks_loop alloc_list f (t.next alloc_list) 0 t) split
        ∙ leaks_loop-prefix alloc_list ptrs alloc_list (suc rest) 0 t.output ring.links
            ring.distinct.0 marked
        ∙ leaks_loop-end rest (0 + length ptrs) (reported t ptrs t.output)
        ∙ ap (λ c. returns c (with_output t (reported t ptrs t.output))) (omega arith))

  -- On the ring of the blocks in the list, check_leaks prints the blocks before the first one
  -- whose magic number has been overwritten, says that the heap is corrupt near that number, and
  -- ends the program.
  pub check_leaks-corrupt :
      (xs : List ℕ) (p : ℕ) (ys : List ℕ) (fuel : ℕ)
      → IsRing t.next t.prev alloc_list (xs ++ p ∷ ys)
      → Every (λ x. t.magic x ≡ cmt_magic) xs
      → (t.magic p == cmt_magic) ≡ false
      → length xs < fuel
      → check_leaks alloc_list fuel t
        ≡ aborts (with_output t (corrupt_near (p + magic_offset) ∷ reported t xs t.output))
  unfolding check_leaks Distinct Absent
  check_leaks-corrupt xs p ys fuel ring marked bad lt =
      let rest = fuel - length xs - 1 in
      let split : fuel ≡ length xs + suc rest = omega arith in
      let (before, absent) = Absent-append alloc_list xs (p ∷ ys) ring.distinct.0 in
      let (links, _) = Linked-split t.next t.prev alloc_list xs p ys alloc_list ring.links in
      ap leaks_told (
        ap (λ f. leaks_loop alloc_list f (t.next alloc_list) 0 t) split
        ∙ leaks_loop-prefix alloc_list xs p (suc rest) 0 t.output links before marked
        ∙ leaks_loop-corrupt p rest (0 + length xs) (reported t xs t.output) absent.0 bad)
