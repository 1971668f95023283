-- ===== src/SetAssign/Order.antt =====
-- Strict weak orders, what is sorted by them, and what is in a list up to equivalence.
use nvwa.Common.{
  Bool, true, false, not, ◌&&◌, ◌||◌, List, [], ◌∷◌, ◌≡◌, ◌⊎◌, inl, inr, refl, sym, ◌∙◌, arith,
}

pub record IsStrictWeak {ℓ} {A : Type ℓ} (comp : A → A → Bool) : Type ℓ where
  pub irreflexive : (a : A) → comp a a ≡ false
  pub transitive : (a b c : A) → comp a b ≡ true → comp b c ≡ true → comp a c ≡ true
  pub between : (a b c : A) → comp a c ≡ true → (comp a b ≡ true) ⊎ (comp b c ≡ true)

module _ {ℓ} {A : Type ℓ} (comp : A → A → Bool) where
  -- Neither is less than the other.
  abbrev pub same : A → A → Bool
  same a b = not (comp a b) && not (comp b a)

  abbrev pub has : A → List A → Bool
  has x [] = false
  has x (y ∷ ys) = same x y || has x ys

  -- An element is less than each of a list.
  unfoldable pub Below : A → List A → Type 0
  Below a [] = Unit
  Below a (x ∷ xs) = (comp a x ≡ true) × Below a xs

  -- Each element is less than those that come after it.
  unfoldable pub Sorted : List A → Type 0
  Sorted [] = Unit
  Sorted (x ∷ xs) = Below x xs × Sorted xs

Bool-iff : (a b : Bool) → (a ≡ true → b ≡ true) → (b ≡ true → a ≡ true) → a ≡ b
Bool-iff true b f g = sym (f refl)
Bool-iff false true f g = g refl
Bool-iff false false f g = refl

module _ {ℓ} {A : Type ℓ} {comp : A → A → Bool} (order : IsStrictWeak comp) where
  pub Below-less : (a b : A) (xs : List A) → comp a b ≡ true → Below comp b xs → Below comp a xs
  unfolding Below
  Below-less a b [] less below = tt
  Below-less a b (x ∷ xs) less (first, below) =
      (order.transitive a b x less first, Below-less a b xs less below)

  -- An element that is not less than another is below what that one is below.
  less-same : (a b c : A) → comp b a ≡ false → comp b c ≡ true → comp a c ≡ true
  less-same a b c not_less less = elim (order.between b a c less) [
    | inl holds ↦ let never : false ≡ true = sym not_less ∙ holds in ground arith
    | inr holds ↦ holds
  ]

  pub Below-same : (a b : A) (xs : List A) → comp b a ≡ false → Below comp b xs → Below comp a xs
  unfolding Below
  Below-same a b [] not_less below = tt
  Below-same a b (x ∷ xs) not_less (first, below) =
      (less-same a b x not_less first, Below-same a b xs not_less below)

  both-false : (a b : A) → same comp a b ≡ true → (comp a b ≡ false) × (comp b a ≡ false)
  both-false a b h = ground arith

  -- What is equivalent to an element below a list is not in it.
  pub has-Below :
      (x d : A) (ys : List A) → same comp x d ≡ true → Below comp d ys → has comp x ys ≡ false
  unfolding Below
  has-Below x d [] h below = refl
  has-Below x d (y ∷ ys) h (first, below) =
      let (x_d, d_x) = both-false x d h in
      let less : comp x y ≡ true = less-same x d y d_x first in rw less (has-Below x d ys h below)

  not_first : {b : Bool} (d s : A) → comp d s ≡ false → ((b ≡ true) ⊎ (comp d s ≡ true)) → b ≡ true
  not_first d s differ (inl holds) = holds
  not_first d s differ (inr wrong) = let never : false ≡ true = sym differ ∙ wrong in ground arith

  not_second : {b : Bool} (d s : A) → comp d s ≡ false → ((comp d s ≡ true) ⊎ (b ≡ true)) → b ≡ true
  not_second d s differ (inl wrong) = let never : false ≡ true = sym differ ∙ wrong in ground arith
  not_second d s differ (inr holds) = holds

  -- Equivalent elements are equivalent to the same ones.
  pub same-congr : (x d s : A) → comp d s ≡ false → comp s d ≡ false → same comp x s ≡ same comp x d
  same-congr x d s d_s s_d =
      let left : comp x s ≡ comp x d =
        Bool-iff (comp x s) (comp x d) (λ h. not_first d s d_s (order.between x d s h))
          (λ h. not_first s d s_d (order.between x s d h)) in
      let right : comp s x ≡ comp d x =
        Bool-iff (comp s x) (comp d x) (λ h. not_second s d s_d (order.between s d x h))
          (λ h. not_second d s d_s (order.between d s x h)) in
      rw (left, right) refl
