-- ===== src/DebugNew/Valid.antt =====
-- The records of the allocated blocks in order, for nvwa/debug_new.cpp: what holds of each block in
-- the list, and of the list and the count.
use nvwa.Common.{
  ℕ, zero, suc, ◌+◌, ◌%◌, ◌^◌, ◌≤◌, ◌<◌, ◌==◌, true, false, List, ◌≡◌, refl, ◌∙◌, ◌⊎◌, arith,
  updated, updated_self, updated_ne, Every,
}
use nvwa.DebugNew.Memory.{
  Memory, Setup, debug_new_magic, debug_new_tailcheck_char, check_tail, tail_loop,
}
use nvwa.DebugNew.Alloc.{fill}
use nvwa.Blocks.{total_size}
use nvwa.Links.{IsRing}

-- A block that the program has and whose control data and tail are as `alloc_mem` left them.
abbrev pub IsBlock : Setup → Memory → ℕ → Type 0
IsBlock setup m ptr =
    (m.magic ptr ≡ debug_new_magic) × (check_tail setup m ptr ≡ true) × (m.size ptr < 2 ^ 64)

-- The list has the blocks `ptrs`, the oldest first.
pub record Records (setup : Setup) (m : Memory) (ptrs : List ℕ) : Type 0 where
  pub ring : IsRing m.next m.prev setup.new_ptr_list ptrs
  pub blocks : Every (IsBlock setup m) ptrs
  pub counted : m.current_mem_alloc ≡ total_size m.size ptrs % 2 ^ 64

-- A write outside of the tail.
tail_loop-updated :
    (byte : ℕ → ℕ) (k v n at : ℕ)
    → (k < at) ⊎ (at + n ≤ k)
    → tail_loop (updated byte k v) n at ≡ tail_loop byte n at
unfolding tail_loop
tail_loop-updated byte k v zero at apart = refl
tail_loop-updated byte k v (suc n) at apart =
    let other : (at == k) ≡ false = ground arith in
    let later : (k < at + 1) ⊎ (at + 1 + n ≤ k) = ground arith in
    rw (other, tail_loop-updated byte k v n (at + 1) later) refl

pub tail_loop-fill :
    (byte : ℕ → ℕ) (to v count n at : ℕ)
    → (to + count ≤ at) ⊎ (at + n ≤ to)
    → tail_loop (fill byte to v count) n at ≡ tail_loop byte n at
unfolding fill
tail_loop-fill byte to v zero n at apart = refl
tail_loop-fill byte to v (suc count) n at apart =
    tail_loop-fill (updated byte to v) (to + 1) v count n at (ground arith)
    ∙ tail_loop-updated byte to v n at (ground arith)

fill_before : (byte : ℕ → ℕ) (to v count k : ℕ) → k < to → fill byte to v count k ≡ byte k
unfolding fill
fill_before byte to v zero k before = refl
fill_before byte to v (suc count) k before =
    let other : (k == to) ≡ false = ground arith in
    fill_before (updated byte to v) (to + 1) v count k (omega arith) ∙ updated_ne byte to v k other

-- The tail that `alloc_mem` writes.
pub tail_loop-filled :
    (byte : ℕ → ℕ) (n at : ℕ) → tail_loop (fill byte at debug_new_tailcheck_char n) n at ≡ true
unfolding tail_loop fill
tail_loop-filled byte zero at = refl
tail_loop-filled byte (suc n) at =
    let first : fill (updated byte at debug_new_tailcheck_char) (at + 1) debug_new_tailcheck_char n
          at
        ≡ debug_new_tailcheck_char =
      fill_before (updated byte at debug_new_tailcheck_char) (at + 1) debug_new_tailcheck_char n at
        (omega arith)
      ∙ updated_self byte at debug_new_tailcheck_char in
    rw (first, tail_loop-filled (updated byte at debug_new_tailcheck_char) n (at + 1)) refl
