-- ===== src/DebugNew/Align.antt =====
-- The size of the control data, for an alignment that is a power of two.
use native.Mathlib.Nat.{div-add-mod', mod-lt, mul-mod_left, pow-suc, one-le-pow, suc-mul, mul_assoc}
use nvwa.Common.{ℕ, zero, suc, ◌+◌, ◌-◌, ◌*◌, ◌/◌, ◌%◌, ◌^◌, ◌<◌, ◌≤◌, ◌≡◌, sym, ap, ◌∙◌, arith}
use nvwa.Bits.Mask.{bit_and-high}
use nvwa.DebugNew.Memory.{align}

pow_add : (w k : ℕ) → 2 ^ (w + k) ≡ 2 ^ w * 2 ^ k
pow_add w zero = ap (λ n. 2 ^ n) {x = w + 0} {y = w} (omega arith) ∙ omega arith
pow_add w (suc k) =
    ap (λ n. 2 ^ n) {x = w + suc k} {y = suc (w + k)} (omega arith)
    ∙ pow-suc 2 (w + k)
    ∙ ap (λ n. n * 2) (pow_add w k)
    ∙ mul_assoc (2 ^ w) (2 ^ k) 2
    ∙ ap (λ n. 2 ^ w * n) (sym (pow-suc 2 k))

mul-pred : (a c : ℕ) → 1 ≤ a → a * c ≡ (a - 1) * c + c
mul-pred zero c h = omega arith
mul-pred (suc b) c h = let back : suc b - 1 ≡ b = omega arith in rw back (suc-mul b c)

module _ (s k : ℕ) where
  mask : k < 32 → 2 ^ 64 - 1 - (2 ^ k - 1) ≡ (2 ^ (64 - k) - 1) * 2 ^ k
  mask few =
      let whole : 2 ^ (64 - k) * 2 ^ k ≡ 2 ^ 64 =
        sym (pow_add (64 - k) k) ∙ ap (λ n. 2 ^ n) {x = 64 - k + k} {y = 64} (omega arith) in
      let pos : 1 ≤ 2 ^ k = one-le-pow k 2 (omega arith) in
      omega (arith, whole, mul-pred (2 ^ (64 - k)) (2 ^ k) (one-le-pow (64 - k) 2 (omega arith)))

  align-div : k < 32 → s + 2 ^ k ≤ 2 ^ 32 → align s (2 ^ k) ≡ (s + 2 ^ k - 1) / 2 ^ k * 2 ^ k
  unfolding align
  align-div few fits =
      let n = s + 2 ^ k - 1 in
      let small : n % 2 ^ 64 ≡ n = omega arith in
      let at : 64 - k + k ≡ 64 = omega arith in
      let bound : n < 2 ^ (64 - k + k) = rw at (omega arith) in
      let down : n / 2 ^ k * 2 ^ k ≤ n = omega (arith, div-add-mod' n (2 ^ k)) in
      rw (small, mask few, bit_and-high k (64 - k) n bound) (omega arith)

  -- For an alignment that is a power of two, and a size whose sum with it is at most 2 ^ 32,
  -- align gives the least multiple of the alignment that is not below the size.
  pub align-least :
      k < 32
      → s + 2 ^ k ≤ 2 ^ 32
      → (align s (2 ^ k) % 2 ^ k ≡ 0) × (s ≤ align s (2 ^ k)) × (align s (2 ^ k) < s + 2 ^ k)
  align-least few fits =
      let n = s + 2 ^ k - 1 in
      let pos : 1 ≤ 2 ^ k = one-le-pow k 2 (omega arith) in
      let parts = div-add-mod' n (2 ^ k) in
      let below = mod-lt n pos in
      rw (align-div few fits)
        (mul-mod_left (n / 2 ^ k) (2 ^ k), omega (arith, parts, below), omega (arith, parts, below))
