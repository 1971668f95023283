-- ===== src/BoolArray/Scans.antt =====
-- The scans for true and for false find the first such bit of a byte.
use native.Mathlib.Nat.{pow-suc}
use mathlib.Core.Option
use nvwa.Common.{
  ℕ, zero, suc, ◌+◌, ◌-◌, ◌/◌, ◌%◌, ◌^◌, ◌≤◌, ◌<◌, ◌==◌, ltb, leb, if◌then◌else◌, Bool, true, false,
  not, ◌&&◌, none, some, ◌≡◌, refl, ◌∙◌, sym, ap, arith, Bool-cases, inl, inr, bit_and, bit_or,
}
use nvwa.Bits.Words.{u8, testbit, shr, not32, high_mask, low_mask}
use nvwa.Bits.Laws.{
  testbit-u8, testbit-bit_and, testbit-bit_or, testbit-high_mask, testbit-low_mask, bit_and-one,
  testbit-zero, testbit-complement,
}
use nvwa.Bits.First.{first?, first?-suc, first?-none, first?-congr}
use nvwa.BoolArray.Counting.{first_bit_one_offset, bit_ordinal}
use nvwa.BoolArray.Searching.{Scan, scan_true, scan_false, scan_for}

-- A bit has the value that is searched for.
abbrev pub agrees : Bool → Bool → Bool
agrees value b = if value then b else not b

-- What `search_bytes` needs of a scan.
pub record IsScan (value : Bool) (scan : Scan) : Type 0 where
  pub first_small : (b k : ℕ) → scan.mask_first b k < 256
  pub last_small : (b k : ℕ) → scan.mask_last b k < 256
  pub first_bits :
      (b k j : ℕ)
      → j < 8
      → agrees value (testbit (scan.mask_first b k) j) ≡ (leb k j && agrees value (testbit b j))
  pub last_bits :
      (b k j : ℕ)
      → j < 8
      → agrees value (testbit (scan.mask_last b k) j) ≡ (ltb j k && agrees value (testbit b j))
  pub finds :
      (b : ℕ)
      → b < 256
      → (if scan.hit b then some (scan.ordinal b) else none)
        ≡ first? (λ j. agrees value (testbit b j)) 0 8

first_bit_one_offset-suc :
    (n b : ℕ)
    → first_bit_one_offset (suc n) b ≡ (
        if b == 0
        then 9
        else if not (bit_and b 1 == 0)
        then 0
        else 1 + first_bit_one_offset n (b / 2))
unfolding first_bit_one_offset shr
first_bit_one_offset-suc n b = refl

first?-testbit :
    (n b : ℕ)
    → first? (testbit b) 0 (suc n)
      ≡ (if b % 2 == 1 then some 0 else Option.map (λ k. 1 + k) (first? (testbit (b / 2)) 0 n))
first?-testbit n b =
    unfold testbit in
    first?-suc (testbit b) (testbit (b / 2)) n
      (λ j. let index : 1 + j ≡ suc j = omega arith in unfold testbit in ap (testbit b) index)

first_bit_one_offset-first? :
    (n b : ℕ)
    → b < 2 ^ n
    → (if b == 0 then none else some (first_bit_one_offset (suc n) b)) ≡ first? (testbit b) 0 n
first_bit_one_offset-first? zero b h = unfold first? in ground arith
first_bit_one_offset-first? (suc n) b h = elim (Bool-cases (b == 0)) [
  | inl empty ↦
      let b_zero : b ≡ 0 = ground arith in
      rw (empty, b_zero) (sym (first?-none (testbit 0) 0 (suc n) (λ j lt. testbit-zero (0 + j))))
  | inr some_bit ↦ ground (
    arith,
    first_bit_one_offset-suc (suc n) b,
    first?-testbit n b,
    first_bit_one_offset-first? n (b / 2) (omega (arith, pow-suc 2 n)),
    bit_and-one (suc n) b h,
  )
]

first_bit_one_offset-le : (n b : ℕ) → first_bit_one_offset n b ≤ n + 9
first_bit_one_offset-le zero b = unfold first_bit_one_offset in omega arith
first_bit_one_offset-le (suc n) b =
    ground (arith, first_bit_one_offset-suc n b, first_bit_one_offset-le n (b / 2))

bit_ordinal-first? :
    (b : ℕ)
    → b < 256
    → (if not (b == 0) then some (bit_ordinal b) else none) ≡ first? (testbit b) 0 8
bit_ordinal-first? b h =
    unfold bit_ordinal in
    ground (arith, first_bit_one_offset-first? 8 b h, first_bit_one_offset-le 9 b)

pub scan_true-IsScan : IsScan true scan_true
scan_true-IsScan = record {
  first_small = λ b k. omega arith;
  last_small = λ b k. omega arith;
  first_bits = λ b k j lt. ground (
    arith,
    testbit-u8 (bit_and b (high_mask k)) j,
    testbit-bit_and b (high_mask k) j,
    testbit-high_mask k j,
  );
  last_bits = λ b k j lt. ground (
    arith,
    testbit-u8 (bit_and b (low_mask k)) j,
    testbit-bit_and b (low_mask k) j,
    testbit-low_mask k j,
  );
  finds = λ b lt. bit_ordinal-first? b lt;
}

finds_false :
    (b : ℕ)
    → b < 256
    → (if not (b == 255) then some (bit_ordinal (u8 (not32 b))) else none)
      ≡ first? (λ j. not (testbit b j)) 0 8
finds_false b h =
    let inverse : u8 (not32 b) ≡ 255 - b = unfold not32 in omega arith in
    let test : (b == 255) ≡ (255 - b == 0) = ground arith in
    rw (inverse, test)
      (bit_ordinal-first? (255 - b) (omega arith)
        ∙ first?-congr _ _ 0 8 (λ j p q. testbit-complement 8 b j h (omega arith)))

pub scan_false-IsScan : IsScan false scan_false
scan_false-IsScan = record {
  first_small = λ b k. omega arith;
  last_small = λ b k. omega arith;
  first_bits = λ b k j lt. ground (
    arith,
    testbit-u8 (bit_or b (low_mask k)) j,
    testbit-bit_or b (low_mask k) j,
    testbit-low_mask k j,
  );
  last_bits = λ b k j lt. ground (
    arith,
    testbit-u8 (bit_or b (high_mask k)) j,
    testbit-bit_or b (high_mask k) j,
    testbit-high_mask k j,
  );
  finds = λ b lt. finds_false b lt;
}

pub scan_for-IsScan : (value : Bool) → IsScan value (scan_for value)
scan_for-IsScan true = scan_true-IsScan
scan_for-IsScan false = scan_false-IsScan
