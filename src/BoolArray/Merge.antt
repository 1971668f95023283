-- ===== src/BoolArray/Merge.antt =====
-- `merge_and` and `merge_or`: every bit of the range is combined, and no other bit changes.
use nvwa.Common.{
  ℕ, zero, suc, ◌+◌, ◌-◌, ◌*◌, ◌/◌, ◌%◌, ◌≤◌, ◌<◌, ◌==◌, ltb, leb, if◌then◌else◌, Bool, not, ◌&&◌,
  ◌||◌, List, length, Result, ◌≡◌, refl, ap, arith, Bool-cases, inl, inr, ◌⊎◌, lt→ltb, bit_or,
  bit_and,
}
use nvwa.Bits.Words.{testbit, not32, shl32, high_mask, low_mask, add_size, sub_size}
use nvwa.Bits.Laws.{
  testbit-u8, testbit-bit_or, testbit-bit_and, testbit-not32, testbit-shl32_lt, testbit-shl32_ge,
  testbit-high_mask, testbit-low_mask, shl32-lt,
}
use nvwa.BoolArray.Memory.{and_byte, or_byte}
use nvwa.BoolArray.Content.{
  bits, AreBytes, Rewrites, Rewrites-congr, Rewrites-bind, and_byte-Rewrites, or_byte-Rewrites,
}
use nvwa.BoolArray.Defs.{BoolArray}
use nvwa.BoolArray.Merging.{
  merge_last, merge_loop, merge_bytes, shift_ones, fill_ones, shift_zeros, fill_zeros,
}
use nvwa.BoolArray.Valid.{Holds}
use nvwa.BoolArray.Gather.{get_8bits-Gets}

-- What the code of a merge needs of its three statements: they act on bits by `op`, and treat the
-- bits that are shifted in or filled in as neutral.
pub record IsMerge (store : List ℕ → ℕ → ℕ → Result (List ℕ)) (shift fill : ℕ → ℕ → ℕ)
    (op : Bool → Bool → Bool) : Type 0 where
  pub stores :
      (bytes : List ℕ) (k v : ℕ)
      → k < length bytes
      → AreBytes bytes
      → Rewrites bytes
          (store bytes k v)
          (λ i. if i / 8 == k then op (bits bytes i) (testbit v (i % 8)) else bits bytes i)
  pub shifts :
      (x : Bool) (v k j : ℕ)
      → v < 256
      → j < 8
      → op x (testbit (shift v k) j) ≡ (if ltb j k then x else op x (testbit v (j - k)))
  pub fills :
      (x : Bool) (v n j : ℕ)
      → j < 8
      → op x (testbit (fill v n) j) ≡ (if ltb j n then op x (testbit v j) else x)
  pub fill_small : (v n : ℕ) → fill v n < 256

pub and-IsMerge : IsMerge and_byte shift_ones fill_ones ◌&&◌
and-IsMerge = record {
  stores = and_byte-Rewrites;
  shifts = λ x v k j small lt.
      unfold shift_ones in
      ground (
        arith,
        testbit-u8 (not32 (shl32 (not32 v) k)) j,
        testbit-not32 (shl32 (not32 v) k) j,
        shl32-lt (not32 v) k,
        testbit-shl32_lt (not32 v) k j,
        testbit-shl32_ge (not32 v) k j,
        testbit-not32 v (j - k),
      );
  fills = λ x v n j lt.
      unfold fill_ones in
      ground (
        arith,
        testbit-u8 (bit_or v (high_mask n)) j,
        testbit-bit_or v (high_mask n) j,
        testbit-high_mask n j,
      );
  fill_small = λ v n. unfold fill_ones in omega arith;
}

pub or-IsMerge : IsMerge or_byte shift_zeros fill_zeros ◌||◌
or-IsMerge = record {
  stores = or_byte-Rewrites;
  shifts = λ x v k j small lt.
      unfold shift_zeros in
      ground (arith, testbit-u8 (shl32 v k) j, testbit-shl32_lt v k j, testbit-shl32_ge v k j);
  fills = λ x v n j lt.
      unfold fill_zeros in
      ground (
        arith,
        testbit-u8 (bit_and v (low_mask n)) j,
        testbit-bit_and v (low_mask n) j,
        testbit-low_mask n j,
      );
  fill_small = λ v n. unfold fill_zeros in omega arith;
}

-- The bits after `n` bits of `src` from `begin` are merged into `dest` at `offset`.
abbrev pub merged : (Bool → Bool → Bool) → List ℕ → List ℕ → ℕ → ℕ → ℕ → ℕ → Bool
merged op src dest begin n offset i =
    if leb offset i && ltb i (offset + n)
    then op (bits dest i) (bits src (begin + (i - offset)))
    else bits dest i

module _ {store : List ℕ → ℕ → ℕ → Result (List ℕ)} {shift fill : ℕ → ℕ → ℕ}
    {op : Bool → Bool → Bool} (laws : IsMerge store shift fill op) {rhs : BoolArray} {src : List ℕ}
    (h : Holds rhs src) (end : ℕ) (le : end ≤ rhs.size) where
  -- A value moved to its place in a byte.
  abbrev placed : ℕ → ℕ → ℕ
  placed v k = if k == 0 then v else shift v k

  op-placed :
      (x : Bool) (v k j : ℕ)
      → v < 256
      → j < 8
      → op x (testbit (placed v k) j) ≡ (if ltb j k then x else op x (testbit v (j - k)))
  op-placed x v k j small lt = ground (arith, laws.shifts x v k j small lt)

  -- The bits that are left fit the byte.
  merge_last-Rewrites :
      (dest : List ℕ) (byte_offset bit_offset begin : ℕ)
      → AreBytes dest
      → begin < end
      → end + bit_offset ≤ begin + 8
      → end < begin + 8
      → 8 * byte_offset + bit_offset + (end - begin) ≤ 8 * length dest
      → Rewrites dest
          (merge_last store shift fill rhs end dest byte_offset bit_offset begin)
          (merged op src dest begin (end - begin) (8 * byte_offset + bit_offset))
  unfolding merge_last
  merge_last-Rewrites dest byte_offset bit_offset begin are more fits few room =
      let got = get_8bits-Gets h begin end more le in
      let n = end - begin in
      rw (lt→ltb begin end more, lt→ltb n 8 (omega arith), got.returns)
        (Rewrites-congr dest _ _ _
          (λ i. ground (
            arith,
            op-placed (bits dest i) (fill got.value n) bit_offset (i % 8)
                (laws.fill_small got.value n),
            laws.fills (bits dest i) got.value n (i % 8 - bit_offset),
            got.content (i % 8 - bit_offset),
            ap (bits src) {x = begin + (i % 8 - bit_offset)}
                {y = begin + (i - (8 * byte_offset + bit_offset))},
          ))
          (laws.stores dest byte_offset (placed (fill got.value n) bit_offset) (omega arith) are))

  merge_last-done :
      (dest : List ℕ) (byte_offset bit_offset begin : ℕ)
      → AreBytes dest
      → end ≤ begin
      → Rewrites dest
          (merge_last store shift fill rhs end dest byte_offset bit_offset begin)
          (merged op src dest begin (end - begin) (8 * byte_offset + bit_offset))
  unfolding merge_last
  merge_last-done dest byte_offset bit_offset begin are done = record {
    out = dest;
    returns = ground arith;
    same_length = refl;
    are_bytes = are;
    content = λ i. ground arith;
  }

  -- From any point of the loop on; a partial byte is met only when no full one is left.
  merge_loop-Rewrites :
      (fuel : ℕ) (dest : List ℕ) (byte_offset bit_offset begin : ℕ)
      → AreBytes dest
      → begin ≤ end
      → end < begin + fuel
      → (bit_offset ≡ 0) ⊎ (end + bit_offset < begin + 8)
      → 8 * byte_offset + bit_offset + (end - begin) ≤ 8 * length dest
      → Rewrites dest
          (merge_loop store shift fill fuel rhs end dest byte_offset bit_offset begin)
          (merged op src dest begin (end - begin) (8 * byte_offset + bit_offset))
  unfolding merge_loop
  merge_loop-Rewrites zero dest byte_offset bit_offset begin are order enough aligned room =
      absurd (omega arith)
  merge_loop-Rewrites (suc fuel) dest byte_offset bit_offset begin are order enough aligned room =
      elim (Bool-cases (leb (add_size begin 8) end)) [
        | inl full ↦
            let got = get_8bits-Gets h begin end (ground (arith, h.small)) le in
            let lefts : begin + 8 ≤ end = ground (arith, h.small) in
            let zero_bits : bit_offset ≡ 0 = ground arith in
            rw (full, merge_loop, got.returns)
              (Rewrites-bind dest (store dest byte_offset got.value) _ _ _
                (laws.stores dest byte_offset got.value (omega arith) are)
                (λ out same are' content.
                  Rewrites-congr out _ _ _
                    (λ i. ground (
                      arith,
                      content i,
                      got.content (i % 8),
                      ap (bits src) {x = begin + (i % 8)}
                          {y = begin + (i - (8 * byte_offset + bit_offset))},
                      ap (bits src) {x = begin + 8 + (i - (8 * (byte_offset + 1) + bit_offset))}
                          {y = begin + (i - (8 * byte_offset + bit_offset))},
                    ))
                    (merge_loop-Rewrites fuel out (byte_offset + 1) bit_offset (begin + 8) are'
                      lefts (omega arith) (inl zero_bits) (omega arith))))
        | inr partial ↦
            rw (partial, merge_loop)
              (elim (Bool-cases (ltb begin end)) [
                | inl more ↦
                    merge_last-Rewrites dest byte_offset bit_offset begin are (ground arith)
                      (ground (arith, h.small)) (ground (arith, h.small)) room
                | inr done ↦ merge_last-done dest byte_offset bit_offset begin are (ground arith)
              ])
      ]

  -- The whole range, first byte included.
  pub merge_bytes-Rewrites :
      (dest : List ℕ) (begin offset : ℕ)
      → AreBytes dest
      → begin ≤ end
      → offset + (end - begin) ≤ 8 * length dest
      → Rewrites dest
          (merge_bytes store shift fill rhs begin end offset dest)
          (merged op src dest begin (end - begin) offset)
  unfolding merge_bytes
  merge_bytes-Rewrites dest begin offset are order room =
      elim (Bool-cases
        (not (offset % 8 == 0) && leb (sub_size (add_size begin 8) (offset % 8)) end)) [
          | inl partial ↦
              let enough : begin + (8 - offset % 8) ≤ end = ground (arith, h.small) in
              let got = get_8bits-Gets h begin end (omega arith) le in
              rw (partial, got.returns)
                (Rewrites-bind dest (store dest (offset / 8) (shift got.value (offset % 8))) _ _ _
                  (laws.stores dest (offset / 8) (shift got.value (offset % 8)) (omega arith) are)
                  (λ out same are' content.
                    Rewrites-congr out _ _ _
                      (λ i. ground (
                        arith,
                        content i,
                        laws.shifts (bits dest i) got.value (offset % 8) (i % 8) got.small,
                        got.content (i % 8 - offset % 8),
                        ap (bits src) {x = begin + (i % 8 - offset % 8)} {y = begin + (i - offset)},
                        ap (bits src)
                            {x = begin + (8 - offset % 8) + (i - (8 * (offset / 8 + 1) + 0))}
                            {y = begin + (i - offset)},
                      ))
                      (merge_loop-Rewrites (end - begin + 1) out (offset / 8 + 1) 0
                        (begin + (8 - offset % 8)) are' enough (omega arith) (inl refl)
                        (omega arith))))
          | inr aligned ↦ rw aligned (
              Rewrites-congr dest _ _ _
                (λ i. ground (
                  arith,
                  ap (bits src) {x = begin + (i - (8 * (offset / 8) + offset % 8))}
                      {y = begin + (i - offset)},
                ))
                (merge_loop-Rewrites (end - begin + 1) dest (offset / 8) (offset % 8) begin are
                  order (omega arith) (ground (arith, h.small)) (omega arith)))
        ]
