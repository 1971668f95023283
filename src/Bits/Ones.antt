-- ===== src/Bits/Ones.antt =====
-- How many of a run of bits are set.
use nvwa.Common.{
  ℕ, zero, suc, ◌+◌, ◌-◌, ◌*◌, ◌/◌, ◌%◌, ◌^◌, ◌≤◌, ◌<◌, if◌then◌else◌, Bool, false, ◌≡◌, refl, ◌∙◌,
  sym, ap, ap₂, arith,
}
use native.Mathlib.Nat.{pow-suc}
use native.Mathlib.Numerals.{towards_suc}
use nvwa.Bits.Words.{testbit, shr}
use nvwa.Bits.Laws.{testbit-mod, testbit-shr, testbit-zero}

-- The number of true values among `n` from `lo` on.
unfoldable pub count_true : (ℕ → Bool) → ℕ → ℕ → ℕ
count_true f lo zero = 0
count_true f lo (suc n) = (if f lo then 1 else 0) + count_true f (lo + 1) n

pub count_true-add :
    (f : ℕ → Bool) (lo a b : ℕ)
    → count_true f lo (a + b) ≡ count_true f lo a + count_true f (lo + a) b
unfolding count_true
count_true-add f lo zero b =
    let base : lo + 0 ≡ lo = omega arith in
    let all : 0 + b ≡ b = omega arith in rw (base, all) (omega arith)
count_true-add f lo (suc a) b =
    let base : lo + suc a ≡ lo + 1 + a = omega arith in
    let all : suc a + b ≡ suc (a + b) = omega arith in
    rw (base, all) (omega (arith, count_true-add f (lo + 1) a b))

-- Two functions that agree on the run, the second read at a distance.
pub count_true-shift :
    (f g : ℕ → Bool) (lo lo' n : ℕ)
    → ((j : ℕ) → j < n → f (lo + j) ≡ g (lo' + j))
    → count_true f lo n ≡ count_true g lo' n
unfolding count_true
count_true-shift f g lo lo' zero same = refl
count_true-shift f g lo lo' (suc n) same =
    ap₂ ◌+◌ (ap (λ b. if b then 1 else 0) head) (count_true-shift f g (lo + 1) (lo' + 1) n tail)
  where
    head : f lo ≡ g lo'
    head =
        let a : lo + 0 ≡ lo = omega arith in
        let b : lo' + 0 ≡ lo' = omega arith in sym (ap f a) ∙ (same 0 (omega arith) ∙ ap g b)

    tail : (j : ℕ) → j < n → f (lo + 1 + j) ≡ g (lo' + 1 + j)
    tail j h =
        let a : lo + suc j ≡ lo + 1 + j = omega arith in
        let b : lo' + suc j ≡ lo' + 1 + j = omega arith in
        sym (ap f a) ∙ (same (suc j) (omega arith) ∙ ap g b)

count_true-false : (lo n : ℕ) → count_true (λ _. false) lo n ≡ 0
unfolding count_true
count_true-false lo zero = refl
count_true-false lo (suc n) = omega (arith, count_true-false (lo + 1) n)

pub count_true-none :
    (f : ℕ → Bool) (lo n : ℕ) → ((j : ℕ) → j < n → f (lo + j) ≡ false) → count_true f lo n ≡ 0
count_true-none f lo n clear = count_true-shift f (λ _. false) lo 0 n clear ∙ count_true-false 0 n

-- The set bits of a value.
abbrev pub ones : ℕ → ℕ → ℕ
ones n x = count_true (testbit x) 0 n

pub count_true-le : (f : ℕ → Bool) (lo n : ℕ) → count_true f lo n ≤ n
unfolding count_true
count_true-le f lo zero = omega arith
count_true-le f lo (suc n) = ground (arith, count_true-le f (lo + 1) n)

pub ones-suc : (n x : ℕ) → ones (suc n) x ≡ x % 2 + ones n (x / 2)
unfolding count_true testbit
ones-suc n x =
    let rest : count_true (testbit x) 1 n ≡ ones n (x / 2) =
      count_true-shift (testbit x) (testbit (x / 2)) 1 0 n (λ j h.
        ap (testbit x) {x = 1 + j} {y = suc j} (omega arith)
        ∙ ap (testbit (x / 2)) {x = j} {y = 0 + j} (omega arith)) in
    ground (arith, rest)

pub ones-zero : (n : ℕ) → ones n 0 ≡ 0
ones-zero n = count_true-none (testbit 0) 0 n (λ j h. testbit-zero (0 + j))

-- A low part of eight bits and the rest.
pub ones-byte : (n b x : ℕ) → b < 256 → ones (8 + n) (b + 256 * x) ≡ ones 8 b + ones n x
ones-byte n b x small =
    count_true-add (testbit y) 0 8 n
    ∙ ap₂ ◌+◌ (count_true-shift (testbit y) (testbit b) 0 0 8 low)
        (count_true-shift (testbit y) (testbit x) (0 + 8) 0 n high)
  where
    y : ℕ
    y = b + 256 * x

    low : (j : ℕ) → j < 8 → testbit y (0 + j) ≡ testbit b (0 + j)
    low j h =
        let part : y % 2 ^ 8 ≡ b = omega arith in
        sym (testbit-mod 8 y (0 + j) (omega arith)) ∙ ap (λ (z : ℕ). testbit z (0 + j)) part

    high : (j : ℕ) → j < n → testbit y (0 + 8 + j) ≡ testbit x (0 + j)
    high j h =
        let part : shr y 8 ≡ x = unfold shr in omega arith in
        let index : 0 + j + 8 ≡ 0 + 8 + j = omega arith in
        sym (
          ap (λ (z : ℕ). testbit z (0 + j)) (sym part)
          ∙ (testbit-shr 8 y (0 + j) ∙ ap (testbit y) index))

pub pow_byte : (n : ℕ) → 2 ^ (n + 8) ≡ 256 * 2 ^ n
pow_byte n = simp towards_suc (omega (arith, pow-suc 2 n))

-- The run from `lo` to `hi`, in two parts.
pub count_true-split :
    (f : ℕ → Bool) (lo mid hi : ℕ)
    → lo ≤ mid
    → mid ≤ hi
    → count_true f lo (hi - lo) ≡ count_true f lo (mid - lo) + count_true f mid (hi - mid)
count_true-split f lo mid hi p q =
    let all : hi - lo ≡ mid - lo + (hi - mid) = omega arith in
    let base : lo + (mid - lo) ≡ mid = omega arith in
    rw all (
      count_true-add f lo (mid - lo) (hi - mid)
      ∙ ap (λ (b : ℕ). count_true f lo (mid - lo) + count_true f b (hi - mid)) base)
