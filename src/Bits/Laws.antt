-- ===== src/Bits/Laws.antt =====
-- Each operator on bits, by what it does to bit `j`.
use native.Mathlib.Nat.{
  pow-suc, one-le-pow, div-add-mod, mod-lt, mod-eq_of_lt, mul-add-mod_self_left, mul_comm,
  mul_assoc, div-div-eq-div-mul,
}
use nvwa.Common.{
  ◌==◌, ℕ, zero, suc, ◌+◌, ◌-◌, ◌*◌, ◌/◌, ◌%◌, ◌^◌, ◌≤◌, ◌<◌, bit_and, bit_or, ◌≡◌, refl, ap, ◌∙◌,
  sym, arith, ltb, leb, leb→le, Bool-cases, inl, inr, false, not, ◌&&◌, ◌||◌,
}
use Prim.Native.Nat.{bit_and-bitwise}
use nvwa.Bits.Words.{testbit, u8, not32, shl32, shr, high_mask, low_mask}
use nvwa.Bits.Digit.{bit_and_digit, bit_or_digit}

pub testbit-bit_and : (x y j : ℕ) → testbit (bit_and x y) j ≡ (testbit x j && testbit y j)
unfolding testbit
testbit-bit_and x y zero = ground (arith, bit_and_digit x y)
testbit-bit_and x y (suc j) =
    let half : bit_and x y / 2 ≡ bit_and (x / 2) (y / 2) = omega (arith, bit_and_digit x y) in
    rw half (testbit-bit_and (x / 2) (y / 2) j)

pub testbit-bit_or : (x y j : ℕ) → testbit (bit_or x y) j ≡ (testbit x j || testbit y j)
unfolding testbit
testbit-bit_or x y zero = ground (arith, bit_or_digit x y)
testbit-bit_or x y (suc j) =
    let half : bit_or x y / 2 ≡ bit_or (x / 2) (y / 2) = omega (arith, bit_or_digit x y) in
    rw half (testbit-bit_or (x / 2) (y / 2) j)

pub testbit-zero : (j : ℕ) → testbit 0 j ≡ false
unfolding testbit
testbit-zero zero = refl
testbit-zero (suc j) = testbit-zero j

-- Above the width of a value there are zeros.
pub testbit-wide : (w x j : ℕ) → x < 2 ^ w → w ≤ j → testbit x j ≡ false
unfolding testbit
testbit-wide zero x j h le = rw x_zero (testbit-zero j)
  where
    x_zero : x ≡ 0
    x_zero = omega arith
testbit-wide (suc w) x zero h le = absurd (omega arith)
testbit-wide (suc w) x (suc j) h le =
    testbit-wide w (x / 2) j (omega (arith, pow-suc 2 w)) (omega arith)

half-mod : (x m : ℕ) → 0 < m → x % (m * 2) / 2 ≡ x / 2 % m
half-mod x m pos =
    let q = x / (m * 2) in
    let r = x % (m * 2) / 2 in
    let split : x / 2 ≡ m * q + r = omega (arith, div-add-mod x (m * 2)) in
    let small : r < m = omega (arith, mod-lt x {m = m * 2}) in
    sym (rw split (mul-add-mod_self_left m q r ∙ mod-eq_of_lt small))

odd-mod : (x m : ℕ) → x % (m * 2) % 2 ≡ x % 2
odd-mod x m = omega (arith, div-add-mod x (m * 2))

-- A remainder by a power of two keeps the low bits.
pub testbit-mod : (w x j : ℕ) → j < w → testbit (x % 2 ^ w) j ≡ testbit x j
unfolding testbit
testbit-mod zero x j h = absurd (omega arith)
testbit-mod (suc w) x zero h = rw (pow-suc 2 w, odd-mod x (2 ^ w))
testbit-mod (suc w) x (suc j) h =
    rw (pow-suc 2 w, half-mod x (2 ^ w) (one-le-pow w 2 (omega arith)))
      (testbit-mod w (x / 2) j (omega arith))

testbit-div : (k x j : ℕ) → testbit (x / 2 ^ k) j ≡ testbit x (j + k)
unfolding testbit
testbit-div zero x j =
    let whole : x / 2 ^ 0 ≡ x = omega arith in
    let index : j + 0 ≡ j = omega arith in rw (whole, index)
testbit-div (suc k) x j =
    let halves : x / 2 ^ suc k ≡ x / 2 / 2 ^ k =
      rw (pow-suc 2 k, mul_comm (2 ^ k) 2) (sym (div-div-eq-div-mul x 2 (2 ^ k))) in
    let index : j + suc k ≡ suc (j + k) = omega arith in
    rw (halves, index) (testbit-div k (x / 2) j)

-- A right shift moves the bits down.
pub testbit-shr : (k x j : ℕ) → testbit (shr x k) j ≡ testbit x (j + k)
unfolding shr
testbit-shr k x j = testbit-div k x j

double : (k x : ℕ) → x * 2 ^ suc k ≡ x * 2 ^ k * 2
double k x = rw (pow-suc 2 k) (sym (mul_assoc x (2 ^ k) 2))

half_double : (k x : ℕ) → x * 2 ^ suc k / 2 ≡ x * 2 ^ k
half_double k x = omega (arith, double k x)

-- A left shift moves the bits up and fills with zeros.
pub testbit-shl_lt : (k x j : ℕ) → j < k → testbit (x * 2 ^ k) j ≡ false
unfolding testbit
testbit-shl_lt zero x j h = absurd (omega arith)
testbit-shl_lt (suc k) x zero h = ground (arith, double k x)
testbit-shl_lt (suc k) x (suc j) h = rw (half_double k x) (testbit-shl_lt k x j (omega arith))

pub testbit-shl_ge : (k x j : ℕ) → testbit (x * 2 ^ k) (j + k) ≡ testbit x j
unfolding testbit
testbit-shl_ge zero x j =
    let whole : x * 2 ^ 0 ≡ x = omega arith in
    let index : j + 0 ≡ j = omega arith in rw (whole, index)
testbit-shl_ge (suc k) x j =
    let index : j + suc k ≡ suc (j + k) = omega arith in
    ap (testbit (x * 2 ^ suc k)) index
    ∙ (ap (λ (y : ℕ). testbit y (j + k)) (half_double k x) ∙ testbit-shl_ge k x j)

-- The complement at a width flips each bit of that width.
pub testbit-complement :
    (w x j : ℕ) → x < 2 ^ w → j < w → testbit (2 ^ w - 1 - x) j ≡ not (testbit x j)
unfolding testbit
testbit-complement zero x j h lt = absurd (omega arith)
testbit-complement (suc w) x zero h lt = ground (arith, pow-suc 2 w)
testbit-complement (suc w) x (suc j) h lt =
    let half : (2 ^ suc w - 1 - x) / 2 ≡ 2 ^ w - 1 - x / 2 = omega (arith, pow-suc 2 w) in
    rw half (testbit-complement w (x / 2) j (omega (arith, pow-suc 2 w)) (omega arith))

-- The same, for the operators on 32 bits and for the conversion to a byte.
pub testbit-u8 : (x j : ℕ) → j < 8 → testbit (u8 x) j ≡ testbit x j
testbit-u8 x j h = testbit-mod 8 x j h

pub testbit-not32 : (x j : ℕ) → x < 2 ^ 32 → j < 32 → testbit (not32 x) j ≡ not (testbit x j)
unfolding not32
testbit-not32 x j h lt = testbit-complement 32 x j h lt

pub shl32-lt : (x k : ℕ) → shl32 x k < 2 ^ 32
unfolding shl32
shl32-lt x k = omega arith

pub not32-lt : (x : ℕ) → not32 x < 2 ^ 32
unfolding not32
not32-lt x = omega arith

pub testbit-shl32_lt : (x k j : ℕ) → j < 32 → j < k → testbit (shl32 x k) j ≡ false
unfolding shl32
testbit-shl32_lt x k j h lt = testbit-mod 32 (x * 2 ^ k) j h ∙ testbit-shl_lt k x j lt

pub testbit-shl32_ge : (x k j : ℕ) → j < 32 → k ≤ j → testbit (shl32 x k) j ≡ testbit x (j - k)
unfolding shl32
testbit-shl32_ge x k j h le =
    let index : j ≡ j - k + k = omega arith in
    testbit-mod 32 (x * 2 ^ k) j h ∙ (ap (testbit (x * 2 ^ k)) index ∙ testbit-shl_ge k x (j - k))

-- The bits of `~0U << k` and of `~(~0U << k)`.
pub testbit-high_mask : (k j : ℕ) → j < 32 → testbit (high_mask k) j ≡ leb k j
unfolding high_mask
testbit-high_mask k j h = elim (Bool-cases (leb k j)) [
  | inl le ↦ rw le (
      testbit-shl32_ge (not32 0) k j h (leb→le k j le)
      ∙ testbit-not32 0 (j - k) (omega arith) (omega arith)
      ∙ ap not (testbit-zero (j - k)))
  | inr gt ↦ rw gt (testbit-shl32_lt (not32 0) k j h (ground arith))
]

pub testbit-low_mask : (k j : ℕ) → j < 32 → testbit (low_mask k) j ≡ ltb j k
unfolding low_mask
testbit-low_mask k j h =
    let flipped = testbit-not32 (high_mask k) j (unfold high_mask in shl32-lt (not32 0) k) h in
    rw (flipped, testbit-high_mask k j h) (ground arith)

-- The mask `1 << k` and its complement.
testbit-one : (j : ℕ) → testbit 1 j ≡ (j == 0)
unfolding testbit
testbit-one zero = refl
testbit-one (suc j) = testbit-zero j ∙ ground arith

pub testbit-single : (k j : ℕ) → j < 32 → testbit (shl32 1 k) j ≡ (j == k)
testbit-single k j h = elim (Bool-cases (leb k j)) [
  | inl le ↦ testbit-shl32_ge 1 k j h (leb→le k j le) ∙ (testbit-one (j - k) ∙ ground arith)
  | inr gt ↦ testbit-shl32_lt 1 k j h (ground arith) ∙ ground arith
]

pub testbit-not_single : (k j : ℕ) → j < 32 → testbit (not32 (shl32 1 k)) j ≡ not (j == k)
testbit-not_single k j h =
    testbit-not32 (shl32 1 k) j (shl32-lt 1 k) h ∙ ap not (testbit-single k j h)

pub bit_and-lt : (w x y : ℕ) → x < 2 ^ w → bit_and x y < 2 ^ w
bit_and-lt zero x y h =
    let x_zero : x ≡ 0 = omega arith in rw x_zero (omega (arith, bit_and-bitwise 0 y))
bit_and-lt (suc w) x y h = omega (
  arith,
  pow-suc 2 w,
  bit_and_digit x y,
  bit_and-lt w (x / 2) (y / 2) (omega (arith, pow-suc 2 w)),
)

-- A value with no bit set is zero.
pub eq-zero_of_bits : (w x : ℕ) → x < 2 ^ w → ((j : ℕ) → testbit x j ≡ false) → x ≡ 0
unfolding testbit
eq-zero_of_bits zero x h clear = omega arith
eq-zero_of_bits (suc w) x h clear = ground (
  arith,
  pow-suc 2 w,
  clear 0,
  eq-zero_of_bits w (x / 2) (omega (arith, pow-suc 2 w)) (λ j. clear (suc j)),
)

-- `x & (1 << k)` is not zero exactly when bit `k` is set.
pub testbit-masked : (x k : ℕ) → x < 256 → k < 8 → (not (bit_and x (shl32 1 k) == 0)) ≡ testbit x k
testbit-masked x k h lt = elim (Bool-cases (testbit x k)) [
  | inl one ↦ ground (
    arith,
    testbit-bit_and x (shl32 1 k) k,
    testbit-single k k,
    ap (λ (y : ℕ). testbit y k) {x = bit_and x (shl32 1 k)} {y = 0},
    testbit-zero k,
  )
  | inr unset ↦ ground (
    arith,
    eq-zero_of_bits 8 (bit_and x (shl32 1 k)) (bit_and-lt 8 x (shl32 1 k) h) (clear unset),
  )
]
  where
    clear : testbit x k ≡ false → (j : ℕ) → testbit (bit_and x (shl32 1 k)) j ≡ false
    clear e j = elim (Bool-cases (ltb j 32)) [
      | inl low ↦ ground (arith, testbit-bit_and x (shl32 1 k) j, testbit-single k j)
      | inr high ↦
          testbit-wide 8 (bit_and x (shl32 1 k)) j (bit_and-lt 8 x (shl32 1 k) h) (ground arith)
    ]

bit_and-zero : (w x : ℕ) → x < 2 ^ w → bit_and x 0 ≡ 0
bit_and-zero zero x h =
    let x_zero : x ≡ 0 = omega arith in rw x_zero (omega (arith, bit_and-bitwise 0 0))
bit_and-zero (suc w) x h =
    omega (arith, bit_and_digit x 0, bit_and-zero w (x / 2) (omega (arith, pow-suc 2 w)))

pub bit_and-one : (w x : ℕ) → x < 2 ^ w → bit_and x 1 ≡ x % 2
bit_and-one zero x h =
    let x_zero : x ≡ 0 = omega arith in rw x_zero (omega (arith, bit_and-bitwise 0 1))
bit_and-one (suc w) x h =
    omega (arith, bit_and_digit x 1, bit_and-zero w (x / 2) (omega (arith, pow-suc 2 w)))
