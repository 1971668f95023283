-- ===== src/BoolArray/Gather.antt =====
-- `get_8bits` reads eight bits at any position.
use nvwa.Common.{
  ℕ, ◌+◌, ◌-◌, ◌/◌, ◌%◌, ◌≤◌, ◌<◌, ◌==◌, ltb, false, not, ◌&&◌, List, Result, ok, ◌≡◌, ◌∙◌, arith,
  Bool-cases, inl, inr, bit_or,
}
use nvwa.Bits.Words.{u8, testbit, shl32, shr, sub_size}
use nvwa.Bits.Laws.{
  testbit-u8, testbit-bit_or, testbit-shr, testbit-shl32_lt, testbit-shl32_ge, testbit-wide,
}
use nvwa.BoolArray.Content.{byte_at, bits, read-ok}
use nvwa.BoolArray.Defs.{BoolArray}
use nvwa.BoolArray.Merging.{get_8bits, join_next}
use nvwa.BoolArray.Valid.{Holds, pointed-Holds}

-- The byte that a call returns: its bits up to `end` are those of the array from `offset` on.
pub record Gets (bytes : List ℕ) (offset end : ℕ) (r : Result ℕ) : Type 0 where
  pub value : ℕ
  pub returns : r ≡ ok value
  pub small : value < 256
  pub content : (j : ℕ) → j < 8 → offset + j < end → testbit value j ≡ bits bytes (offset + j)

module _ {ba : BoolArray} {bytes : List ℕ} (h : Holds ba bytes) (offset end : ℕ) (lt : offset < end)
    (le : end ≤ ba.size) where
  abbrev first : ℕ
  first = byte_at bytes (offset / 8)

  abbrev next : ℕ
  next = byte_at bytes (offset / 8 + 1)

  abbrev retval : ℕ
  retval = u8 (shr first (offset % 8))

  abbrev joined : ℕ
  joined = u8 (bit_or retval (shl32 next (8 - offset % 8)))

  retval-bits : (j : ℕ) → j + offset % 8 < 8 → testbit retval j ≡ bits bytes (offset + j)
  unfolding bits
  retval-bits j jlt =
      let byte : (offset + j) / 8 ≡ offset / 8 = omega arith in
      let bit : (offset + j) % 8 ≡ j + offset % 8 = omega arith in
      rw (byte, bit)
        (testbit-u8 (shr first (offset % 8)) j (omega arith) ∙ testbit-shr (offset % 8) first j)

  retval-none : (j : ℕ) → j < 8 → 8 ≤ j + offset % 8 → testbit retval j ≡ false
  retval-none j jlt ge =
      testbit-u8 (shr first (offset % 8)) j jlt
      ∙ (testbit-shr (offset % 8) first j
          ∙ testbit-wide 8 first (j + offset % 8) (h.are_bytes _) ge)

  joined-low : (j : ℕ) → j + offset % 8 < 8 → testbit joined j ≡ bits bytes (offset + j)
  joined-low j low = ground (
    arith,
    testbit-u8 (bit_or retval (shl32 next (8 - offset % 8))) j,
    testbit-bit_or retval (shl32 next (8 - offset % 8)) j,
    testbit-shl32_lt next (8 - offset % 8) j,
    retval-bits j low,
  )

  joined-high : (j : ℕ) → j < 8 → 8 ≤ j + offset % 8 → testbit joined j ≡ bits bytes (offset + j)
  unfolding bits
  joined-high j jlt high =
      let byte : (offset + j) / 8 ≡ offset / 8 + 1 = omega arith in
      let bit : (offset + j) % 8 ≡ j - (8 - offset % 8) = omega arith in
      rw (byte, bit)
        (ground (
          arith,
          testbit-u8 (bit_or retval (shl32 next (8 - offset % 8))) j,
          testbit-bit_or retval (shl32 next (8 - offset % 8)) j,
          testbit-shl32_ge next (8 - offset % 8) j,
          retval-none j jlt high,
        ))

  -- The two bytes that hold the bits, or the one.
  pub get_8bits-Gets : Gets bytes offset end (get_8bits ba offset end)
  unfolding get_8bits join_next
  get_8bits-Gets =
      elim (Bool-cases (not (offset % 8 == 0) && ltb (offset / 8) (sub_size end 1 / 8))) [
        | inl two ↦ record {
          value = joined;
          returns = rw (
            pointed-Holds h,
            read-ok bytes (offset / 8) (omega (arith, h.sized)),
            two,
            read-ok bytes (offset / 8 + 1) (ground (arith, h.sized, h.small)),
          );
          small = omega arith;
          content = λ j jlt in_range. elim (Bool-cases (ltb (j + offset % 8) 8)) [
            | inl low ↦ joined-low j (ground arith)
            | inr high ↦ joined-high j jlt (ground arith)
          ];
        }
        | inr one ↦ record {
          value = retval;
          returns = rw (pointed-Holds h, read-ok bytes (offset / 8) (omega (arith, h.sized)), one);
          small = omega arith;
          content = λ j jlt in_range. retval-bits j (ground (arith, h.small));
        }
      ]
