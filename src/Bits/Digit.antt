-- ===== src/Bits/Digit.antt =====
-- The lowest digit of `bit_and` and `bit_or`. Both natives stand for the library's `digits`, a
-- recursion whose count of rounds matters only while it is too small.
use Prim.Native.Nat.{digits, bit_and-bitwise, bit_or-bitwise}
use nvwa.Common.{ℕ, zero, suc, ◌+◌, ◌*◌, ◌/◌, ◌%◌, ◌≤◌, min, max, bit_and, bit_or, ◌≡◌, refl, arith}

module _ (rest : ℕ → ℕ) (op : ℕ → ℕ → ℕ) where
  rounds_irrelevant : (k l x y : ℕ) → x ≤ k → x ≤ l → digits rest op k x y ≡ digits rest op l x y
  rounds_irrelevant zero zero zero y p q = refl
  rounds_irrelevant zero zero (suc x) y p q = refl
  rounds_irrelevant zero (suc l) zero y p q = refl
  rounds_irrelevant zero (suc l) (suc x) y p q = absurd (omega arith)
  rounds_irrelevant (suc k) zero zero y p q = refl
  rounds_irrelevant (suc k) zero (suc x) y p q = absurd (omega arith)
  rounds_irrelevant (suc k) (suc l) zero y p q = refl
  rounds_irrelevant (suc k) (suc l) (suc x) y p q =
      let fewer = rounds_irrelevant k l (suc x / 2) (y / 2) (omega arith) (omega arith) in
      rw fewer refl

pub bit_and_digit : (x y : ℕ) → bit_and x y ≡ bit_and (x / 2) (y / 2) * 2 + min (x % 2) (y % 2)
bit_and_digit zero y = omega (arith, bit_and-bitwise 0 y, bit_and-bitwise 0 (y / 2))
bit_and_digit (suc x) y = omega (
  arith,
  bit_and-bitwise (suc x) y,
  bit_and-bitwise (suc x / 2) (y / 2),
  rounds_irrelevant (λ _. 0) min x (suc x / 2) (suc x / 2) (y / 2) (omega arith) (omega arith),
)

pub bit_or_digit : (x y : ℕ) → bit_or x y ≡ bit_or (x / 2) (y / 2) * 2 + max (x % 2) (y % 2)
bit_or_digit zero y = omega (arith, bit_or-bitwise 0 y, bit_or-bitwise 0 (y / 2))
bit_or_digit (suc x) y = omega (
  arith,
  bit_or-bitwise (suc x) y,
  bit_or-bitwise (suc x / 2) (y / 2),
  rounds_irrelevant (λ b. b) max x (suc x / 2) (suc x / 2) (y / 2) (omega arith) (omega arith),
)
