-- ===== src/Bits/First.antt =====
-- The first place of a run at which a test holds.
use nvwa.Common.{
  ℕ, zero, suc, ◌+◌, ◌-◌, ◌≤◌, ◌<◌, if◌then◌else◌, Bool, false, ◌≡◌, refl, ◌∙◌, ap, arith,
  Bool-cases, inl, inr, Option, none, some,
}
use mathlib.Core.Option

unfoldable pub first? : (ℕ → Bool) → ℕ → ℕ → Option ℕ
first? f lo zero = none
first? f lo (suc n) = if f lo then some lo else first? f (lo + 1) n

abbrev pub or_else : Option ℕ → Option ℕ → Option ℕ
or_else none o = o
or_else (some a) o = some a

pub first?-add :
    (f : ℕ → Bool) (lo a b : ℕ)
    → first? f lo (a + b) ≡ or_else (first? f lo a) (first? f (lo + a) b)
unfolding first?
first?-add f lo zero b =
    let base : lo + 0 ≡ lo = omega arith in let all : 0 + b ≡ b = omega arith in rw (base, all)
first?-add f lo (suc a) b =
    let base : lo + suc a ≡ lo + 1 + a = omega arith in
    let all : suc a + b ≡ suc (a + b) = omega arith in
    rw (base, all) (ground (arith, first?-add f (lo + 1) a b))

pub first?-split :
    (f : ℕ → Bool) (lo mid hi : ℕ)
    → lo ≤ mid
    → mid ≤ hi
    → first? f lo (hi - lo) ≡ or_else (first? f lo (mid - lo)) (first? f mid (hi - mid))
first?-split f lo mid hi p q =
    let all : hi - lo ≡ mid - lo + (hi - mid) = omega arith in
    let base : lo + (mid - lo) ≡ mid = omega arith in
    rw all (
      first?-add f lo (mid - lo) (hi - mid)
      ∙ ap (λ (b : ℕ). or_else (first? f lo (mid - lo)) (first? f b (hi - mid))) base)

-- The same test at places that lie `d` further on.
pub first?-shift :
    (d : ℕ) (f g : ℕ → Bool) (lo n : ℕ)
    → ((j : ℕ) → lo ≤ j → j < lo + n → f (d + j) ≡ g j)
    → first? f (d + lo) n ≡ Option.map (λ k. d + k) (first? g lo n)
unfolding first?
first?-shift d f g lo zero same = refl
first?-shift d f g lo (suc n) same =
    let rest = first?-shift d f g (lo + 1) n (λ j p q. same j (omega arith) (omega arith)) in
    let base : d + lo + 1 ≡ d + (lo + 1) = omega arith in
    rw (base, same lo (omega arith) (omega arith))
      (elim (Bool-cases (g lo)) [ inl here ↦ rw here | inr later ↦ rw later rest ])

pub first?-none :
    (f : ℕ → Bool) (lo n : ℕ) → ((j : ℕ) → j < n → f (lo + j) ≡ false) → first? f lo n ≡ none
unfolding first?
first?-none f lo zero clear = refl
first?-none f lo (suc n) clear =
    let here : lo + 0 ≡ lo = omega arith in
    ground (
      arith,
      clear 0,
      ap f here,
      first?-none f (lo + 1) n (λ j h. ap f (index j) ∙ clear (suc j) (omega arith)),
    )
  where
    index : (j : ℕ) → lo + 1 + j ≡ lo + suc j
    index j = omega arith

-- The first one bit of a value is at the offset that its digits give.
pub first?-suc :
    (f g : ℕ → Bool) (n : ℕ)
    → ((j : ℕ) → f (1 + j) ≡ g j)
    → first? f 0 (suc n) ≡ (if f 0 then some 0 else Option.map (λ k. 1 + k) (first? g 0 n))
unfolding first?
first?-suc f g n same =
    ap (λ o. if f 0 then some 0 else o) (first?-shift 1 f g 0 n (λ j p q. same j))

pub first?-congr :
    (f g : ℕ → Bool) (lo n : ℕ)
    → ((j : ℕ) → lo ≤ j → j < lo + n → f j ≡ g j)
    → first? f lo n ≡ first? g lo n
unfolding first?
first?-congr f g lo zero same = refl
first?-congr f g lo (suc n) same =
    let rest = first?-congr f g (lo + 1) n (λ j p q. same j (omega arith) (omega arith)) in
    rw (same lo (omega arith) (omega arith), rest)
