-- ===== src/DebugNew/Cycle.antt =====
-- `operator new` followed by the `operator delete` of what it returned.
use native.Mathlib.Nat.{zero-mod, add-mod}
use nvwa.Common.{
  ℕ, ◌+◌, ◌%◌, ◌^◌, ◌≤◌, ◌<◌, Bool, Option, some, ok, List, [], ◌∷◌, ◌++◌, ◌≡◌, refl, ap, ap₂,
  subst, ◌∙◌, arith, Absent, Every,
}
use mathlib.Core.List.{append-nil}
use nvwa.Bits.Words.{sub_size}
use nvwa.DebugNew.Memory.{Memory, Setup, Origin, allocated, freed, position, aligned_list_item_size}
use nvwa.DebugNew.Alloc.{
  returns, operator_new, enlist, announced, unlink, told_freed, free_pointer, at_least, or_throw,
}
use nvwa.DebugNew.Valid.{Records}
use nvwa.DebugNew.Allocate.{
  Outside, alloc_mem-enlist, enlist-Records, enlist-at, enlist-current, printed_if-Records,
  printed_if_kept,
}
use nvwa.DebugNew.Release.{free_pointer-unlink, told_freed-Records}
use nvwa.DebugNew.Align.{align-least}

-- An address that is a multiple of the alignment stays one after the control data.
usr_ptr-aligned :
    (ptr k : ℕ)
    → k < 32
    → 88 + 2 ^ k ≤ 2 ^ 32
    → ptr % 2 ^ k ≡ 0
    → (ptr + aligned_list_item_size (2 ^ k)) % 2 ^ k ≡ 0
usr_ptr-aligned ptr k few fits aligned =
    let head = align-least 88 k few fits in
    add-mod ptr (aligned_list_item_size (2 ^ k)) (2 ^ k) ∙ rw (aligned, head.0) (zero-mod (2 ^ k))

module _ (debug_new_alloc : ℕ → ℕ → Option ℕ) (setup : Setup) (m : Memory) (origin caller : Origin)
    (line : ℕ) (is_array : Bool) (ptrs : List ℕ) where
  -- With the records in order, an alignment that is a power of two and, with 88 more, at most 2 ^
  -- 32, a size whose sum with the control data and the tail does not wrap, and memory for the
  -- block, aligned and with no byte in common with the blocks in the list, operator delete, in
  -- the same form and with the same alignment, takes what operator new returns, and after it the
  -- records are in order with the blocks that were in the list before, and as many bytes counted.
  pub new-delete :
      (fuel size alignment k ptr : ℕ)
      → Records setup m ptrs
      → at_least alignment ≡ 2 ^ k
      → k < 32
      → 88 + 2 ^ k ≤ 2 ^ 32
      → size + aligned_list_item_size (at_least alignment) + setup.tailcheck < 2 ^ 64
      → debug_new_alloc
          (size + aligned_list_item_size (at_least alignment) + setup.tailcheck)
          (at_least alignment)
        ≡ some ptr
      → 0 < ptr
      → ptr % 2 ^ k ≡ 0
      → ptr + aligned_list_item_size (at_least alignment) < 2 ^ 64
      → Absent ptr (setup.new_ptr_list ∷ ptrs)
      → Every
          (Outside setup m ptr
            (size + aligned_list_item_size (at_least alignment) + setup.tailcheck))
          ptrs
      → (usr_ptr : ℕ) × (m₁ : Memory) × (m₂ : Memory) × (operator_new debug_new_alloc setup size
            origin line is_array alignment m
          ≡ (ok usr_ptr, m₁))
        × (free_pointer setup fuel usr_ptr caller is_array alignment m₁ ≡ returns m₂)
        × Records setup m₂ ptrs
        × (m₂.current_mem_alloc ≡ m.current_mem_alloc)
  unfolding operator_new unlink
  new-delete fuel size alignment k ptr records power few fits room granted real aligned inside
        absent outside =
      let head = aligned_list_item_size (at_least alignment) in
      let block = enlist setup ptr size origin line is_array head m in
      let message = allocated is_array (ptr + head) size (position block ptr) in
      let m₁ = announced ptr (ptr + head) size is_array block in
      let m₂ = told_freed (ptr + head) ptr is_array (unlink ptr m₁) in
      let records₁ : Records setup m₁ (ptrs ++ ptr ∷ []) =
        printed_if-Records setup block (ptrs ++ ptr ∷ []) block.new_verbose_flag message (
          enlist-Records setup m ptr size head origin line is_array ptrs records (omega arith)
            absent outside) in
      let kind : m₁.is_array ptr ≡ is_array =
        printed_if_kept (λ n. n.is_array ptr) block block.new_verbose_flag message refl
        ∙ enlist-at setup m ptr size head origin line is_array in
      (
        ptr + head,
        m₁,
        m₂,
        ap or_throw (
            alloc_mem-enlist debug_new_alloc setup m origin line is_array size alignment ptr room
              granted),
        free_pointer-unlink setup m₁ fuel caller is_array alignment ptrs ptr [] records₁ kind real
            inside (rw power (usr_ptr-aligned ptr k few fits aligned)),
        subst (λ l. Records setup m₂ l) (append-nil ptrs)
            (told_freed-Records setup m₁ (ptr + head) is_array ptrs ptr [] records₁),
        printed_if_kept (λ n. n.current_mem_alloc) (unlink ptr m₁) (unlink ptr m₁).new_verbose_flag
              (freed is_array (ptr + head) ((unlink ptr m₁).size ptr)
                (unlink ptr m₁).current_mem_alloc)
              refl
            ∙ ap₂ sub_size
                (printed_if_kept (λ n. n.current_mem_alloc) block block.new_verbose_flag message
                  refl)
                (printed_if_kept (λ n. n.size ptr) block block.new_verbose_flag message refl)
            ∙ enlist-current setup m ptr size head origin line is_array (omega arith)
                (omega (arith, records.counted)),
      )
