-- ===== src/DebugNew/Allocate.antt =====
-- What `alloc_mem` does to the records.
use nvwa.Common.{
  refl, ℕ, ◌+◌, ◌^◌, ◌≤◌, ◌<◌, ◌==◌, Bool, true, false, List, [], ◌∷◌, ◌++◌, ◌≡◌, ok, ap, ◌∙◌, ◌⊎◌,
  arith, Option, some, updated, updated_self, Absent, Every, Every-Absent, Every-zip, Every-snoc,
}
use nvwa.Bits.Words.{add_size, sub_size}
use nvwa.DebugNew.Memory.{
  printed, Memory, Setup, Origin, Message, debug_new_magic, debug_new_tailcheck_char, printed_if,
  aligned_list_item_size,
}
use nvwa.DebugNew.Alloc.{
  link, enlist, place, or_throw, alloc_mem, at_least, announced, operator_new,
}
use nvwa.DebugNew.Valid.{IsBlock, Records, tail_loop-fill, tail_loop-filled}
use nvwa.Blocks.{total_size-snoc, total_size-updated}
use nvwa.Links.{insert-IsRing}

-- Printing changes no block.
pub printed_if-Records :
    (setup : Setup) (m : Memory) (ptrs : List ℕ) (verbose : Bool) (message : Message)
    → Records setup m ptrs
    → Records setup (printed_if verbose message m) ptrs
printed_if-Records setup m ptrs true message records = record {
  ring = records.ring;
  blocks = records.blocks;
  counted = records.counted;
}
printed_if-Records setup m ptrs false message records = records

-- A printed line leaves what is not the output.
pub printed_if_kept {ℓ} :
    {A : Type ℓ} (f : Memory → A) (m : Memory) (verbose : Bool) (message : Message)
    → f (printed message m) ≡ f m
    → f (printed_if verbose message m) ≡ f m
printed_if_kept f m true message kept = kept
printed_if_kept f m false message kept = refl

-- The memory of the block at `ptr` and that of a block in the list have no byte in common.
abbrev pub Outside : Setup → Memory → ℕ → ℕ → ℕ → Type 0
Outside setup m ptr bytes q =
    (q + m.size q + m.head_size q + setup.tailcheck ≤ ptr) ⊎ (ptr + bytes ≤ q)

module _ (setup : Setup) (m : Memory) (ptr size head : ℕ) (origin : Origin) (line : ℕ)
    (is_array : Bool) where
  abbrev after : Memory
  after = enlist setup ptr size origin line is_array head m

  enlist-IsBlock : size < 2 ^ 64 → IsBlock setup after ptr
  unfolding enlist link
  enlist-IsBlock sized =
      let same : (ptr == ptr) ≡ true = ground arith in
      let at : ptr + size + head ≡ ptr + head + size = omega arith in
      (
        updated_self m.magic ptr debug_new_magic,
        rw (same, at) (tail_loop-filled m.byte setup.tailcheck (ptr + head + size)),
        rw same sized,
      )

  enlist-IsBlock_other :
      (q : ℕ)
      → (q == ptr) ≡ false
      → Outside setup m ptr (size + head + setup.tailcheck) q × IsBlock setup m q
      → IsBlock setup after q
  unfolding enlist link
  enlist-IsBlock_other q other (outside, (marked, tail, sized)) = (
    rw other marked,
    rw other (
        tail_loop-fill m.byte (ptr + head + size) debug_new_tailcheck_char setup.tailcheck
          setup.tailcheck (q + m.size q + m.head_size q) (ground arith)
        ∙ tail),
    rw other sized,
  )

  pub enlist-Records :
      (ptrs : List ℕ)
      → Records setup m ptrs
      → size < 2 ^ 64
      → Absent ptr (setup.new_ptr_list ∷ ptrs)
      → Every (Outside setup m ptr (size + head + setup.tailcheck)) ptrs
      → Records setup after (ptrs ++ ptr ∷ [])
  unfolding enlist link Absent
  enlist-Records ptrs records sized absent outside = record {
    ring = insert-IsRing m.next m.prev setup.new_ptr_list ptrs ptr records.ring absent;
    blocks =
        Every-snoc (IsBlock setup after) ptrs ptr
          (Every-Absent
            (λ q. Outside setup m ptr (size + head + setup.tailcheck) q × IsBlock setup m q)
            (IsBlock setup after) ptr enlist-IsBlock_other ptrs absent.1
            (Every-zip (Outside setup m ptr (size + head + setup.tailcheck)) (IsBlock setup m) ptrs
              outside records.blocks))
          (enlist-IsBlock sized);
    counted =
        rw
          (
            updated_self m.size ptr size,
            total_size-snoc (updated m.size ptr size) ptrs ptr,
            total_size-updated m.size ptr size ptrs absent.1,
            updated_self m.size ptr size,
            records.counted,
          )
          (omega arith);
  }

  pub enlist-at : after.is_array ptr ≡ is_array
  unfolding enlist link
  enlist-at = updated_self m.is_array ptr is_array

  -- The count without the block is what it was.
  pub enlist-current :
      size < 2 ^ 64
      → m.current_mem_alloc < 2 ^ 64
      → sub_size after.current_mem_alloc (after.size ptr) ≡ m.current_mem_alloc
  unfolding enlist link
  enlist-current sized counted = rw (updated_self m.size ptr size) (omega arith)

-- `alloc_mem` with memory enough: the block is in the list, after the others.
module _ (debug_new_alloc : ℕ → ℕ → Option ℕ) (setup : Setup) (m : Memory) (origin : Origin)
    (line : ℕ) (is_array : Bool) where
  pub alloc_mem-enlist :
      (size alignment ptr : ℕ)
      → size + aligned_list_item_size (at_least alignment) + setup.tailcheck < 2 ^ 64
      → debug_new_alloc
          (size + aligned_list_item_size (at_least alignment) + setup.tailcheck)
          (at_least alignment)
        ≡ some ptr
      → alloc_mem debug_new_alloc setup size origin line is_array alignment m ≡ (
        some (ptr + aligned_list_item_size (at_least alignment)),
        announced ptr (ptr + aligned_list_item_size (at_least alignment)) size is_array (
            enlist setup ptr size origin line is_array
              (aligned_list_item_size (at_least alignment))
              m),
      )
  unfolding alloc_mem place
  alloc_mem-enlist size alignment ptr fits granted =
      let bytes : add_size (add_size size (aligned_list_item_size (at_least alignment)))
            setup.tailcheck
          ≡ size + aligned_list_item_size (at_least alignment) + setup.tailcheck =
        omega arith in
      let head = aligned_list_item_size (at_least alignment) in
      ap
        (λ n. place setup size origin line is_array head m (debug_new_alloc n (at_least alignment)))
        bytes
      ∙ ap (place setup size origin line is_array head m) granted

  -- With the records in order, an alignment for which the sum of the size, the control data and
  -- the tail does not wrap, and memory for the block that has no byte in common with the blocks
  -- in the list, operator new returns the address after the control data, and the list has the
  -- blocks that it had and then the new one, the records in order.
  pub operator_new-Records :
      (ptrs : List ℕ) (size alignment ptr : ℕ)
      → Records setup m ptrs
      → size + aligned_list_item_size (at_least alignment) + setup.tailcheck < 2 ^ 64
      → debug_new_alloc
          (size + aligned_list_item_size (at_least alignment) + setup.tailcheck)
          (at_least alignment)
        ≡ some ptr
      → Absent ptr (setup.new_ptr_list ∷ ptrs)
      → Every
          (Outside setup m ptr
            (size + aligned_list_item_size (at_least alignment) + setup.tailcheck))
          ptrs
      → (m' : Memory) × (operator_new debug_new_alloc setup size origin line is_array alignment m
          ≡ (ok (ptr + aligned_list_item_size (at_least alignment)), m'))
        × Records setup m' (ptrs ++ ptr ∷ [])
  unfolding operator_new
  operator_new-Records ptrs size alignment ptr records fits granted absent outside =
      let head = aligned_list_item_size (at_least alignment) in
      let block = enlist setup ptr size origin line is_array head m in
      (
        announced ptr (ptr + head) size is_array block,
        ap or_throw (alloc_mem-enlist size alignment ptr fits granted),
        printed_if-Records setup block (ptrs ++ ptr ∷ []) block.new_verbose_flag _ (
            enlist-Records setup m ptr size head origin line is_array ptrs records (omega arith)
              absent outside),
      )
