-- ===== src/Bits/Mask.antt =====
-- Rounding down to a multiple of a power of two by a mask.
use Prim.Native.Nat.{bit_and-bitwise}
use native.Mathlib.Nat.{pow-suc, div-div-eq-div-mul, mul_comm, mul_assoc, add-zero}
use nvwa.Common.{
  ℕ, zero, suc, ◌+◌, ◌-◌, ◌*◌, ◌/◌, ◌%◌, ◌^◌, ◌<◌, bit_and, ◌≡◌, sym, ap, ap₂, ◌∙◌, arith,
}
use nvwa.Bits.Digit.{bit_and_digit}

-- All the `w` bits are kept.
bit_and-full : (w x : ℕ) → x < 2 ^ w → bit_and x (2 ^ w - 1) ≡ x
bit_and-full zero x h =
    let x_zero : x ≡ 0 = omega arith in rw x_zero (omega (arith, bit_and-bitwise 0 0))
bit_and-full (suc w) x h =
    let half : (2 ^ suc w - 1) / 2 ≡ 2 ^ w - 1 = omega (arith, pow-suc 2 w) in
    let odd : (2 ^ suc w - 1) % 2 ≡ 1 = omega (arith, pow-suc 2 w) in
    let rest : bit_and (x / 2) ((2 ^ suc w - 1) / 2) ≡ x / 2 =
      ap (bit_and (x / 2)) half ∙ bit_and-full w (x / 2) (omega (arith, pow-suc 2 w)) in
    ground (arith, bit_and_digit x (2 ^ suc w - 1))

-- All but the lowest `k` of the `w + k` bits.
pub bit_and-high :
    (k w x : ℕ) → x < 2 ^ (w + k) → bit_and x ((2 ^ w - 1) * 2 ^ k) ≡ x / 2 ^ k * 2 ^ k
bit_and-high zero w x h =
    let whole : (2 ^ w - 1) * 2 ^ 0 ≡ 2 ^ w - 1 = omega arith in
    let wide : x < 2 ^ w = rw (add-zero w) at h in rw whole (bit_and-full w x wide ∙ omega arith)
bit_and-high (suc k) w x h =
    let y = (2 ^ w - 1) * 2 ^ k in
    let mask : (2 ^ w - 1) * 2 ^ suc k ≡ y * 2 =
      ap (λ n. (2 ^ w - 1) * n) (pow-suc 2 k) ∙ sym (mul_assoc (2 ^ w - 1) (2 ^ k) 2) in
    let half : y * 2 / 2 ≡ y = omega arith in
    let wide : 2 ^ (w + suc k) ≡ 2 ^ (w + k) * 2 =
      ap (λ n. 2 ^ n) {x = w + suc k} {y = suc (w + k)} (omega arith) ∙ pow-suc 2 (w + k) in
    let rest : bit_and (x / 2) (y * 2 / 2) ≡ x / 2 / 2 ^ k * 2 ^ k =
      ap (bit_and (x / 2)) half ∙ bit_and-high k w (x / 2) (omega arith) in
    let quot : x / 2 / 2 ^ k ≡ x / 2 ^ suc k =
      div-div-eq-div-mul x 2 (2 ^ k) ∙ ap (λ n. x / n) (mul_comm 2 (2 ^ k) ∙ sym (pow-suc 2 k)) in
    let pair : x / 2 / 2 ^ k * 2 ^ k * 2 ≡ x / 2 ^ suc k * 2 ^ suc k =
      mul_assoc (x / 2 / 2 ^ k) (2 ^ k) 2 ∙ ap₂ (λ a b. a * b) quot (sym (pow-suc 2 k)) in
    rw mask (bit_and_digit x (y * 2) ∙ omega (arith, rest, pair))
