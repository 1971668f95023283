-- ===== src/Blocks.antt =====
-- Blocks with control data in front of them, as nvwa/debug_new.cpp and nvwa/memory_trace.cpp keep
-- them: the way from the pointer of a program to the control data, and the sum of the sizes.
use nvwa.Common.{
  ℕ, ◌+◌, ◌%◌, ◌^◌, ◌<◌, ◌==◌, ltb, if◌then◌else◌, Bool, true, false, not, ◌&&◌, Option, none, some,
  List, [], ◌∷◌, ◌++◌, ◌≡◌, refl, ◌⊎◌, inl, inr, arith, Absent, updated,
}
use nvwa.Bits.Words.{sub_size}

-- `sizeof(size_t)`.
abbrev pub sizeof_size_t : ℕ
sizeof_size_t = 8

unfoldable pub total_size : (ℕ → ℕ) → List ℕ → ℕ
total_size size [] = 0
total_size size (x ∷ xs) = size x + total_size size xs

pub total_size-snoc :
    (size : ℕ → ℕ) (xs : List ℕ) (p : ℕ)
    → total_size size (xs ++ p ∷ []) ≡ total_size size xs + size p
unfolding total_size
total_size-snoc size [] p = omega arith
total_size-snoc size (x ∷ xs) p = omega (arith, total_size-snoc size xs p)

pub total_size-middle :
    (size : ℕ → ℕ) (xs : List ℕ) (p : ℕ) (ys : List ℕ)
    → total_size size (xs ++ p ∷ ys) ≡ size p + total_size size (xs ++ ys)
unfolding total_size
total_size-middle size [] p ys = refl
total_size-middle size (x ∷ xs) p ys = omega (arith, total_size-middle size xs p ys)

pub total_size-updated :
    (size : ℕ → ℕ) (p n : ℕ) (xs : List ℕ)
    → Absent p xs
    → total_size (updated size p n) xs ≡ total_size size xs
unfolding total_size Absent
total_size-updated size p n [] absent = refl
total_size-updated size p n (x ∷ xs) (other, absent) =
    rw (other, total_size-updated size p n xs absent) refl

-- `is_header ptr is_adjusted` tells a header with the magic number, of an array if the pointer has
-- been adjusted.
module _ (is_header : ℕ → Bool → Bool) where
  -- From the adjusted pointer on.
  unfoldable pub find_header : ℕ → Bool → ℕ → Option ℕ
  find_header ptr is_adjusted alignment =
      if is_header ptr is_adjusted
      then some ptr
      else (let further = not is_adjusted && ltb sizeof_size_t alignment in
          let ptr' = if further then sub_size ptr alignment else ptr in
          if is_header ptr' (if further then true else is_adjusted) then some ptr' else none)

  -- With control data of `head` bytes; `none` is the null pointer.
  unfoldable pub find_block : ℕ → ℕ → ℕ → Option ℕ
  find_block head usr_ptr alignment =
      if not (usr_ptr % alignment == 0)
      then (let offset = sub_size usr_ptr sizeof_size_t in
          if not (offset % alignment == 0)
          then none
          else find_header (sub_size offset head) true alignment)
      else find_header (sub_size usr_ptr head) false alignment

module _ (is_header : ℕ → Bool → Bool) (p head alignment : ℕ) where
  -- The pointer after the control data of a block leads to the block.
  pub find_block-head :
      is_header p false ≡ true
      → p + head < 2 ^ 64
      → (p + head) % alignment ≡ 0
      → find_block is_header head (p + head) alignment ≡ some p
  unfolding find_block find_header
  find_block-head marked inside aligned =
      let back : sub_size (p + head) head ≡ p = omega arith in rw (aligned, back, marked) refl

  -- And so does the pointer after the count of an array.
  pub find_block-cookie :
      is_header p true ≡ true
      → p + head + 8 < 2 ^ 64
      → (p + head) % alignment ≡ 0
      → 8 < alignment
      → find_block is_header head (p + head + 8) alignment ≡ some p
  unfolding find_block find_header
  find_block-cookie marked inside aligned wide =
      let back : sub_size (p + head + 8) 8 ≡ p + head = omega arith in
      let back' : sub_size (p + head) head ≡ p = omega arith in
      let odd : (p + head + 8) % alignment ≡ 8 = grind arith in
      rw (odd, back, aligned, back', marked) refl

  -- And so does the pointer after the count of an over-aligned array, which takes `alignment` bytes:
  -- no header is at the first place, and the second is the block.
  pub find_block-aligned_cookie :
      is_header p true ≡ true
      → is_header (p + alignment) false ≡ false
      → p + head + alignment < 2 ^ 64
      → (p + head) % alignment ≡ 0
      → 8 < alignment
      → find_block is_header head (p + head + alignment) alignment ≡ some p
  unfolding find_block find_header
  find_block-aligned_cookie marked bare inside aligned wide =
      let back : sub_size (p + head + alignment) head ≡ p + alignment = omega arith in
      let back' : sub_size (p + alignment) alignment ≡ p = omega arith in
      let even : (p + head + alignment) % alignment ≡ 0 = grind arith in
      let wide' : ltb 8 alignment ≡ true = ground arith in
      rw (even, back, bare, wide', back', marked) refl

  -- The pointer of a block that has no header left, nor one where the count of an array would put
  -- it, leads nowhere.
  pub find_block-lost :
      is_header p false ≡ false
      → is_header (sub_size p alignment) true ≡ false
      → p + head < 2 ^ 64
      → (p + head) % alignment ≡ 0
      → 8 < alignment
      → find_block is_header head (p + head) alignment ≡ none
  unfolding find_block find_header
  find_block-lost unmarked bare inside aligned wide =
      let back : sub_size (p + head) head ≡ p = omega arith in
      let wide' : ltb 8 alignment ≡ true = ground arith in
      rw (aligned, back, unmarked, wide', bare) refl

-- The pointer of a block, or of the first object after the count of an array: a count of 8 bytes,
-- or one of `alignment` bytes, where no header is at the place that is looked at first.
module _ (is_header : ℕ → Bool → Bool) (is_array : ℕ → Bool) (head alignment p usr_ptr : ℕ) where
  abbrev pub IsPointer : Type 0
  IsPointer =
      (usr_ptr ≡ p + head)
      ⊎ ((is_array p ≡ true)
          × ((usr_ptr ≡ p + head + 8)
              ⊎ ((usr_ptr ≡ p + head + alignment) × (is_header (p + alignment) false ≡ false))))

  pub IsPointer-positive : 0 < p → IsPointer → 0 < usr_ptr
  IsPointer-positive real pointer = elim pointer [
    | inl at ↦ omega arith
    | inr (array, counted) ↦ elim counted [ inl at ↦ omega arith | inr (at, bare) ↦ omega arith ]
  ]

  pub IsPointer-find_block :
      is_header p false ≡ true
      → (is_array p ≡ true → is_header p true ≡ true)
      → 8 < alignment
      → usr_ptr < 2 ^ 64
      → (p + head) % alignment ≡ 0
      → IsPointer
      → find_block is_header head usr_ptr alignment ≡ some p
  IsPointer-find_block marked array wide inside aligned pointer = elim pointer [
    | inl at ↦ rw at (find_block-head is_header p head alignment marked (omega arith) aligned)
    | inr (yes_array, counted) ↦ elim counted [
      | inl at ↦ rw at (
          find_block-cookie is_header p head alignment (array yes_array) (omega arith) aligned wide)
      | inr (at, bare) ↦ rw at (
          find_block-aligned_cookie is_header p head alignment (array yes_array) bare (omega arith)
            aligned wide)
    ]
  ]
