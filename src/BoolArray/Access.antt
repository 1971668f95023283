-- ===== src/BoolArray/Access.antt =====
-- Single elements, `initialize` and `flip`: what they do to each bit.
use nvwa.Common.{
  ℕ, zero, suc, ◌+◌, ◌/◌, ◌%◌, ◌<◌, ◌==◌, ltb, leb, if◌then◌else◌, Bool, true, false, not, ◌&&◌,
  List, length, ok, err, assertion, out_of_range, ◌≡◌, refl, ap, arith, lt→ltb, Bool-cases, inl,
  inr,
}
use nvwa.Bits.Words.{testbit, shl32, not32, u8}
use nvwa.Bits.Laws.{testbit-single, testbit-not_single, testbit-u8, testbit-not32, testbit-masked}
use nvwa.BoolArray.Memory.{write, memset}
use nvwa.BoolArray.Content.{
  byte_at, bits, bits-past, AreBytes, Rewrites, Rewrites-congr, and_byte-Rewrites, or_byte-Rewrites,
  read-ok, Rewrites-bind, write-Rewrites,
}
use nvwa.BoolArray.Blocks.{memset-Rewrites, testbit-filled}
use nvwa.BoolArray.Defs.{
  BoolArray, element_value, element_assign, index, index_assign, at, set_bit, reset_bit, flip,
  flip_loop, initialize,
}
use nvwa.BoolArray.Valid.{
  Holds, Becomes, Becomes-Rewrites, Becomes-trimmed, Becomes-congr, asserted-Holds, pointed-Holds,
  num_bytes_lem,
}

pub element_value-bits :
    (bytes : List ℕ) (pos : ℕ)
    → pos / 8 < length bytes
    → AreBytes bytes
    → element_value bytes pos ≡ ok (bits bytes pos)
unfolding bits
element_value-bits bytes pos h are =
    rw (read-ok bytes (pos / 8) h)
      (ap ok (testbit-masked (byte_at bytes (pos / 8)) (pos % 8) (are (pos / 8)) (omega arith)))

pub element_assign-Rewrites :
    (bytes : List ℕ) (pos : ℕ) (value : Bool)
    → pos / 8 < length bytes
    → AreBytes bytes
    → Rewrites bytes
        (element_assign bytes pos value)
        (λ i. if i == pos then value else bits bytes i)
element_assign-Rewrites bytes pos true h are =
    Rewrites-congr bytes _ _ _ (λ i. ground (arith, testbit-single (pos % 8) (i % 8)))
      (or_byte-Rewrites bytes (pos / 8) (shl32 1 (pos % 8)) h are)
element_assign-Rewrites bytes pos false h are =
    Rewrites-congr bytes _ _ _ (λ i. ground (arith, testbit-not_single (pos % 8) (i % 8)))
      (and_byte-Rewrites bytes (pos / 8) (not32 (shl32 1 (pos % 8))) h are)

module _ {ba : BoolArray} {bytes : List ℕ} (h : Holds ba bytes) (pos : ℕ) where
  pub inside : pos < ba.size → pos / 8 < length bytes
  inside lt = omega (arith, h.sized)

  -- `at` reads the bit at a position inside the array and throws at any other position.
  pub at_lem : at ba pos ≡ (if ltb pos ba.size then ok (bits bytes pos) else err out_of_range)
  unfolding at
  at_lem = elim (Bool-cases (ltb pos ba.size)) [
    | inl lt ↦
        rw (lt, pointed-Holds h) (element_value-bits bytes pos (inside (ground arith)) h.are_bytes)
    | inr ge ↦ rw ge
  ]

  -- `operator[]` reads the same bit.
  pub index_lem : index ba pos ≡ (if ltb pos ba.size then ok (bits bytes pos) else err assertion)
  unfolding index
  index_lem = elim (Bool-cases (ltb pos ba.size)) [
    | inl lt ↦
        rw (asserted-Holds h, lt) (element_value-bits bytes pos (inside (ground arith)) h.are_bytes)
    | inr ge ↦ rw (asserted-Holds h, ge)
  ]

  pub set_bit-Becomes :
      pos < ba.size
      → Becomes ba.size (set_bit pos ba) (λ i. if i == pos then true else bits bytes i)
  unfolding set_bit
  set_bit-Becomes lt =
      rw (lt→ltb pos ba.size lt, pointed-Holds h)
        (Becomes-Rewrites ba _ _ h (element_assign-Rewrites bytes pos true (inside lt) h.are_bytes))

  pub reset_bit-Becomes :
      pos < ba.size
      → Becomes ba.size (reset_bit pos ba) (λ i. if i == pos then false else bits bytes i)
  unfolding reset_bit
  reset_bit-Becomes lt =
      rw (lt→ltb pos ba.size lt, pointed-Holds h)
        (Becomes-Rewrites ba _ _ h
          (element_assign-Rewrites bytes pos false (inside lt) h.are_bytes))

  pub index_assign-Becomes :
      (value : Bool)
      → pos < ba.size
      → Becomes ba.size (index_assign pos value ba) (λ i. if i == pos then value else bits bytes i)
  unfolding index_assign
  index_assign-Becomes value lt =
      rw (asserted-Holds h, lt→ltb pos ba.size lt)
        (Becomes-Rewrites ba _ _ h
          (element_assign-Rewrites bytes pos value (inside lt) h.are_bytes))

-- `flip` changes the first bytes; byte `i` on are still to do.
flip_loop-Rewrites :
    (left i : ℕ) (bytes : List ℕ)
    → i + left ≡ length bytes
    → AreBytes bytes
    → Rewrites bytes (flip_loop left i bytes) (λ j.
      if leb i (j / 8) && ltb (j / 8) (length bytes) then not (bits bytes j) else bits bytes j)
unfolding flip_loop
flip_loop-Rewrites zero i bytes e are = record {
  out = bytes;
  returns = refl;
  same_length = refl;
  are_bytes = are;
  content = λ j. ground arith;
}
flip_loop-Rewrites (suc left) i bytes e are = rw (read-ok bytes i (omega arith)) (
    Rewrites-bind bytes (write bytes i v) (flip_loop left (i + 1)) _ _
      (write-Rewrites bytes i v (omega arith) (omega arith) are)
      (λ out same are' content.
        Rewrites-congr out _ _ _ (rest out same content)
          (flip_loop-Rewrites left (i + 1) out (omega arith) are')))
  where
    v : ℕ
    v = u8 (not32 (byte_at bytes i))

    flipped : ℕ → List ℕ → ℕ → Bool
    flipped k bs j = if leb k (j / 8) && ltb (j / 8) (length bs) then not (bits bs j) else bits bs j

    rest :
        (out : List ℕ)
        → length out ≡ length bytes
        → ((j : ℕ) → bits out j ≡ (if j / 8 == i then testbit v (j % 8) else bits bytes j))
        → (j : ℕ) → flipped (i + 1) out j ≡ flipped i bytes j
    rest out same content j =
        unfold bits in
        ground (
          arith,
          content j,
          same,
          are i,
          testbit-u8 (not32 (byte_at bytes i)) (j % 8),
          testbit-not32 (byte_at bytes i) (j % 8),
        )

-- `flip` inverts each bit of the array, and leaves the bits past the end clear.
flip-Becomes :
    {ba : BoolArray} {bytes : List ℕ}
    → Holds ba bytes
    → Becomes ba.size (flip ba) (λ i. ltb i ba.size && not (bits bytes i))
unfolding flip
flip-Becomes {ba} {bytes} h =
    let flipped = flip_loop-Rewrites (length bytes) 0 bytes (omega arith) h.are_bytes in
    let all = Becomes-trimmed ba (flip_loop (length bytes) 0 bytes) _ h flipped in
    rw (asserted-Holds h, num_bytes_lem h)
      (Becomes-congr _ _ _ _ (λ i. ground (arith, h.sized)) all)

-- `initialize` gives each bit of the array the value, and clears those past the end.
pub initialize-Becomes :
    {ba : BoolArray} {bytes : List ℕ} (value : Bool)
    → Holds ba bytes
    → Becomes ba.size (initialize value ba) (λ i. ltb i ba.size && value)
unfolding initialize
initialize-Becomes {ba} {bytes} true h =
    let filled = memset-Rewrites bytes 255 (length bytes) (omega arith) (omega arith) h.are_bytes in
    rw (asserted-Holds h, num_bytes_lem h)
      (Becomes-congr _ _ _ _ (λ i. ground (arith, h.sized, testbit-filled true (i % 8)))
        (Becomes-trimmed ba (memset bytes 255 (length bytes)) _ h filled))
initialize-Becomes {ba} {bytes} false h =
    let filled = memset-Rewrites bytes 0 (length bytes) (omega arith) (omega arith) h.are_bytes in
    rw (asserted-Holds h, num_bytes_lem h)
      (Becomes-congr _ _ _ _ (λ i. ground (arith, testbit-filled false (i % 8), bits-past bytes i))
        (Becomes-Rewrites ba (memset bytes 0 (length bytes)) _ h filled))
