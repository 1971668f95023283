-- ===== src/MemoryTrace/Valid.antt =====
-- The records of the blocks in order, and what `operator new` and `operator delete` do to them.
use nvwa.Common.{
  ℕ, ◌+◌, ◌%◌, ◌^◌, ◌<◌, ◌≤◌, ◌==◌, ltb, Bool, true, false, List, [], ◌∷◌, ◌++◌, Option, some, ok,
  ◌≡◌, refl, ap, ◌∙◌, arith, updated, updated_self, Absent, Every, Every-Absent, Every-snoc,
}
use nvwa.Bits.Words.{add_size}
use nvwa.Blocks.{total_size, total_size-snoc, total_size-updated}
use nvwa.Links.{IsRing, insert-IsRing}
use nvwa.MemoryTrace.Defs.{
  Trace, Context, Message, allocated, cmt_magic, aligned_list_node_size, printed, printed_if,
  enlist, place, or_throw, granted, alloc_mem, operator_new_in,
}

-- A block that the program has and whose control data are as `alloc_mem` left them.
abbrev pub IsBlock : Trace → ℕ → Type 0
IsBlock t ptr = (t.magic ptr ≡ cmt_magic) × (t.size ptr < 2 ^ 64)

-- The list has the blocks `ptrs`, the oldest first.
pub record Records (alloc_list : ℕ) (t : Trace) (ptrs : List ℕ) : Type 0 where
  pub ring : IsRing t.next t.prev alloc_list ptrs
  pub blocks : Every (IsBlock t) ptrs
  pub counted : t.current_mem_alloc ≡ total_size t.size ptrs % 2 ^ 64

-- Printing changes no block.
pub printed_if-Records :
    (alloc_list : ℕ) (t : Trace) (ptrs : List ℕ) (verbose : Bool) (message : Message)
    → Records alloc_list t ptrs
    → Records alloc_list (printed_if verbose message t) ptrs
printed_if-Records alloc_list t ptrs true message records = record {
  ring = records.ring;
  blocks = records.blocks;
  counted = records.counted;
}
printed_if-Records alloc_list t ptrs false message records = records

-- Nor what is not the output.
pub printed_if_kept {ℓ} :
    {A : Type ℓ} (f : Trace → A) (t : Trace) (verbose : Bool) (message : Message)
    → f (printed message t) ≡ f t
    → f (printed_if verbose message t) ≡ f t
printed_if_kept f t true message kept = kept
printed_if_kept f t false message kept = refl

module _ (alloc_list : ℕ) (t : Trace) (ptr size : ℕ) (ctx : Context) (is_array : Bool)
    (head : ℕ) where
  abbrev after : Trace
  after = enlist alloc_list ptr size ctx is_array head t

  enlist-IsBlock_other : (q : ℕ) → (q == ptr) ≡ false → IsBlock t q → IsBlock after q
  unfolding enlist
  enlist-IsBlock_other q other (marked, sized) = (rw other marked, rw other sized)

  pub enlist-ctx : after.ctx ptr ≡ ctx
  unfolding enlist
  enlist-ctx = updated_self t.ctx ptr ctx

  pub enlist-Records :
      (ptrs : List ℕ)
      → Records alloc_list t ptrs
      → size < 2 ^ 64
      → Absent ptr (alloc_list ∷ ptrs)
      → Records alloc_list after (ptrs ++ ptr ∷ [])
  unfolding enlist Absent
  enlist-Records ptrs records sized absent =
      let same : (ptr == ptr) ≡ true = ground arith in
      record {
        ring = insert-IsRing t.next t.prev alloc_list ptrs ptr records.ring absent;
        blocks =
            Every-snoc (IsBlock after) ptrs ptr
              (Every-Absent (IsBlock t) (IsBlock after) ptr enlist-IsBlock_other ptrs absent.1
                records.blocks)
              (updated_self t.magic ptr cmt_magic, rw same sized);
        counted =
            rw
              (
                total_size-snoc (updated t.size ptr size) ptrs ptr,
                total_size-updated t.size ptr size ptrs absent.1,
                updated_self t.size ptr size,
                records.counted,
              )
              (omega arith);
      }

module _ (malloc : ℕ → Option ℕ) (aligned_malloc : ℕ → ℕ → Option ℕ) (alloc_list : ℕ) (t : Trace)
    (ptrs : List ℕ) where
  pub alloc_mem-place :
      (size : ℕ) (ctx : Context) (is_array : Bool) (alignment : ℕ)
      → 16 ≤ alignment
      → size + aligned_list_node_size alignment < 2 ^ 64
      → alloc_mem malloc aligned_malloc alloc_list size ctx is_array alignment t
        ≡ place alloc_list size ctx is_array (aligned_list_node_size alignment) t (
            granted malloc aligned_malloc alloc_list
              (size + aligned_list_node_size alignment)
              alignment)
  unfolding alloc_mem
  alloc_mem-place size ctx is_array alignment wide room =
      let head = aligned_list_node_size alignment in
      let small : ltb alignment 16 ≡ false = ground arith in
      let bytes : add_size size head ≡ size + head = omega arith in
      rw (small, alloc_mem)
        (ap
          (λ n.
            place alloc_list size ctx is_array head t
              (granted malloc aligned_malloc alloc_list n alignment))
          bytes)

  -- With the records in order, an alignment of at least 16, a size whose sum with the control
  -- data does not wrap, and memory for a block at an address of its own, operator new with a
  -- context returns the address after the control data, and the list has the blocks that it had
  -- and then the new one with that context, the records in order and the context stack as it was.
  pub operator_new_in-Records :
      (size : ℕ) (ctx : Context) (is_array : Bool) (alignment ptr : ℕ)
      → Records alloc_list t ptrs
      → 16 ≤ alignment
      → size + aligned_list_node_size alignment < 2 ^ 64
      → granted malloc aligned_malloc alloc_list (size + aligned_list_node_size alignment) alignment
        ≡ some ptr
      → Absent ptr (alloc_list ∷ ptrs)
      → (t' : Trace) × (operator_new_in malloc aligned_malloc alloc_list size ctx is_array alignment
            t
          ≡ (ok (ptr + aligned_list_node_size alignment), t'))
        × Records alloc_list t' (ptrs ++ ptr ∷ [])
        × (t'.ctx ptr ≡ ctx)
        × (t'.context_stack ≡ t.context_stack)
  unfolding operator_new_in place enlist
  operator_new_in-Records size ctx is_array alignment ptr records wide room given absent =
      let head = aligned_list_node_size alignment in
      let block = enlist alloc_list ptr size ctx is_array head t in
      let message = allocated is_array (ptr + head) size (block.ctx ptr) in
      (
        printed_if block.new_verbose_flag message block,
        ap or_throw (
            alloc_mem-place size ctx is_array alignment wide room
            ∙ ap (place alloc_list size ctx is_array head t) given),
        printed_if-Records alloc_list block (ptrs ++ ptr ∷ []) block.new_verbose_flag message (
            enlist-Records alloc_list t ptr size ctx is_array head ptrs records (omega arith)
              absent),
        printed_if_kept (λ s. s.ctx ptr) block block.new_verbose_flag message refl
            ∙ enlist-ctx alloc_list t ptr size ctx is_array head,
        printed_if_kept (λ s. s.context_stack) block block.new_verbose_flag message refl,
      )
