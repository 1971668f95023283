-- ===== src/BoolArray/Create.antt =====
-- Construction, copy and assignment.
use nvwa.Common.{
  ℕ, ◌+◌, ◌/◌, ◌^◌, ◌≤◌, ◌<◌, ◌==◌, ltb, true, false, not, ◌&&◌, List, Option, some, length, ◌≡◌,
  refl, arith,
}
use nvwa.Bits.Words.{sub_size}
use nvwa.BoolArray.Memory.{memcpy}
use nvwa.BoolArray.Content.{bits, bits-past, AreBytes}
use nvwa.BoolArray.Blocks.{memcpy-Rewrites}
use nvwa.BoolArray.Defs.{
  BoolArray, empty, create, construct_from_bitmap, copy, assign, swap, get_num_bytes_from_bits,
}
use nvwa.BoolArray.Valid.{
  Holds, Becomes, Becomes-Rewrites, Becomes-trimmed, Becomes-congr, pointed-Holds, num_bytes_lem,
}

-- What `operator new[]` documents: a result has the bytes that were asked for.
pub record IsAllocator (allocate : ℕ → Option (List ℕ)) : Type 0 where
  pub gives : (n : ℕ) (bytes : List ℕ) → allocate n ≡ some bytes → length bytes ≡ n
  pub bytes : (n : ℕ) (bytes : List ℕ) → allocate n ≡ some bytes → AreBytes bytes

eq-zero-false : (n : ℕ) → 0 < n → (n == 0) ≡ false
eq-zero-false n h = ground arith

not-eq_zero : (n : ℕ) → 0 < n → not (n == 0) ≡ true
not-eq_zero n h = ground arith

module _ {allocate : ℕ → Option (List ℕ)} (allocator : IsAllocator allocate) where
  -- An array fresh from `create`.
  create-ok :
      (size : ℕ) (ba : BoolArray) {fresh : List ℕ}
      → 0 < size
      → size + 8 < 2 ^ 64
      → allocate ((size + 7) / 8) ≡ some fresh
      → create allocate size ba ≡ (true, record { byte_ptr = some fresh; size = size })
  unfolding create
  create-ok size ba pos small e =
      let bytes : get_num_bytes_from_bits size ≡ (size + 7) / 8 = omega arith in
      rw (bytes, e) (ground arith)

  create-Holds :
      (size : ℕ) {fresh : List ℕ}
      → 0 < size
      → size + 8 < 2 ^ 64
      → allocate ((size + 7) / 8) ≡ some fresh
      → Holds (record { byte_ptr = some fresh; size = size }) fresh
  create-Holds size pos small e = record {
    held = refl;
    sized = allocator.gives _ _ e;
    are_bytes = allocator.bytes _ _ e;
    nonempty = pos;
    small = small;
  }

  -- An array made from a bitmap has the bits of the bitmap, and none past its size.
  construct_from_bitmap-Becomes :
      (size : ℕ) (ptr : List ℕ) {fresh : List ℕ}
      → 0 < size
      → size + 8 < 2 ^ 64
      → allocate ((size + 7) / 8) ≡ some fresh
      → (size + 7) / 8 ≤ length ptr
      → AreBytes ptr
      → Becomes size (construct_from_bitmap allocate ptr size) (λ i. ltb i size && bits ptr i)
  unfolding construct_from_bitmap
  construct_from_bitmap-Becomes size ptr {fresh} pos small e long are =
      let h = create-Holds size pos small e in
      let copied =
        memcpy-Rewrites fresh ptr (length fresh) (omega arith) (omega (arith, h.sized)) h.are_bytes
          are in
      rw (not-eq_zero size pos, create-ok size empty pos small e, num_bytes_lem h)
        (Becomes-congr _ _ _ _ (λ i. ground (arith, h.sized))
          (Becomes-trimmed _ (memcpy fresh ptr (length fresh)) _ h copied))

  -- A copy has the same bits.
  pub copy-Becomes :
      {rhs : BoolArray} {bytes fresh : List ℕ}
      → Holds rhs bytes
      → allocate ((rhs.size + 7) / 8) ≡ some fresh
      → Becomes rhs.size (copy allocate rhs) (bits bytes)
  unfolding copy
  copy-Becomes {rhs} {bytes} {fresh} from e =
      let h = create-Holds rhs.size from.nonempty from.small e in
      let count : sub_size rhs.size 1 / 8 + 1 ≡ length fresh =
        omega (arith, from.nonempty, from.small, h.sized) in
      let copied =
        memcpy-Rewrites fresh bytes (length fresh) (omega arith)
          (omega (arith, h.sized, from.sized)) h.are_bytes from.are_bytes in
      rw
        (
          eq-zero-false rhs.size from.nonempty,
          create-ok rhs.size empty from.nonempty from.small e,
          pointed-Holds from,
          count,
        )
        (Becomes-congr _ _ _ _
          (λ i. ground (arith, bits-past bytes i, bits-past fresh i, h.sized, from.sized))
          (Becomes-Rewrites _ (memcpy fresh bytes (length fresh)) _ h copied))

  -- Assignment leaves in the assigned array the bits of the other, or throws and changes nothing.
  assign-Becomes :
      (ba : BoolArray) {rhs : BoolArray} {bytes fresh : List ℕ}
      → Holds rhs bytes
      → allocate ((rhs.size + 7) / 8) ≡ some fresh
      → Becomes rhs.size (assign allocate ba rhs) (bits bytes)
  unfolding assign swap
  assign-Becomes ba {rhs} from e =
      let made = copy-Becomes from e in
      record {
        after = made.after;
        returns = rw made.returns;
        holds = made.holds;
        content = made.content;
      }
