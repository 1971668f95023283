-- ===== src/SetAssign/Difference.antt =====
-- `set_assign_difference` on a strict weak order.
use nvwa.Common.{
  ℕ, zero, suc, ◌+◌, ◌<◌, Bool, true, false, not, ◌&&◌, ◌||◌, List, [], ◌∷◌, ◌++◌, length, Result,
  ok, ◌≡◌, refl, sym, ap, ◌∙◌, arith, Bool-cases, inl, inr,
}
use mathlib.Core.List.{append_assoc, append-nil}
use nvwa.SetAssign.Defs.{difference_loop, set_assign_difference}
use nvwa.SetAssign.Order.{IsStrictWeak, same, has, Below, Sorted, Below-less, same-congr, has-Below}

module _ {ℓ} {A : Type ℓ} (comp : A → A → Bool) where
  -- What the loop leaves of `dest`, behind what is there.
  record Removes (before dest src : List A) (result : Result (List A)) : Type ℓ where
    out : List A
    returns : result ≡ ok (before ++ out)
    members :
        Sorted comp dest
        → Sorted comp src
        → (x : A) → has comp x out ≡ (has comp x dest && not (has comp x src))
    bounded : (b : A) → Below comp b dest → Below comp b out
    ordered : Sorted comp dest → Sorted comp out

module _ {ℓ} {A : Type ℓ} (comp : A → A → Bool) where
  -- A sorted list of what the first list has and the second has not.
  pub record IsDifference (dest src : List A) (result : Result (List A)) : Type ℓ where
    pub out : List A
    pub returns : result ≡ ok out
    pub members : (x : A) → has comp x out ≡ (has comp x dest && not (has comp x src))
    pub ordered : Sorted comp out

and-true : (a : Bool) → a ≡ (a && true)
and-true true = refl
and-true false = refl

-- `d` stays, as it is below what is taken away.
stays : (a b c : Bool) → (a ≡ true → c ≡ false) → (a || (b && not c)) ≡ ((a || b) && not c)
stays true b c apart = rw (apart refl) refl
stays false b c apart = refl

-- `s` is passed, as it is below what is there.
passes : (a b c : Bool) → (a ≡ true → b ≡ false) → (b && not c) ≡ (b && not (a || c))
passes true b c apart = rw (apart refl) refl
passes false b c apart = refl

-- `d` goes, and nothing else of the container is equivalent to it.
goes : (a b c : Bool) → (a ≡ true → b ≡ false) → (b && not c) ≡ ((a || b) && not (a || c))
goes true b c apart = rw (apart refl) refl
goes false b c apart = refl

module _ {ℓ} {A : Type ℓ} {comp : A → A → Bool} (order : IsStrictWeak comp) where
  difference_loop-Removes :
      (fuel : ℕ) (before dest src : List A)
      → length dest + length src < fuel
      → Removes comp before dest src (difference_loop comp fuel before dest src)
  unfolding difference_loop Below Sorted
  difference_loop-Removes zero before dest src enough = elim enough [ ]
  difference_loop-Removes (suc fuel) before [] src enough = record {
    out = [];
    returns = ap ok (sym (append-nil before));
    members = λ sorted sorted' x. refl;
    bounded = λ b below. below;
    ordered = λ sorted. sorted;
  }
  difference_loop-Removes (suc fuel) before (d ∷ dest) [] enough = record {
    out = d ∷ dest;
    returns = refl;
    members = λ sorted sorted' x. and-true (has comp x (d ∷ dest));
    bounded = λ b below. below;
    ordered = λ sorted. sorted;
  }
  difference_loop-Removes (suc fuel) before (d ∷ dest) (s ∷ src) enough =
      elim (Bool-cases (comp d s)) [
        | inl less ↦
            let u =
              difference_loop-Removes fuel (before ++ d ∷ []) dest (s ∷ src)
                (omega (arith, enough)) in
            rw (less, difference_loop)
              (record {
                out = d ∷ u.out;
                returns = u.returns ∙ ap ok (append_assoc before (d ∷ []) u.out);
                members = λ sorted sorted' x. rw (u.members sorted.1 sorted' x) (
                    stays (same comp x d) (has comp x dest) (has comp x (s ∷ src)) (λ h.
                      has-Below order x d (s ∷ src) h
                        (less, Below-less order d s src less sorted'.0)));
                bounded = λ b below. (below.0, u.bounded b below.1);
                ordered = λ sorted. (u.bounded d sorted.0, u.ordered sorted.1);
              })
        | inr not_less ↦ elim (Bool-cases (comp s d)) [
          | inl more ↦
              let u = difference_loop-Removes fuel before (d ∷ dest) src (omega (arith, enough)) in
              rw (not_less, difference_loop, more)
                (record {
                  out = u.out;
                  returns = u.returns;
                  members = λ sorted sorted' x. rw (u.members sorted sorted'.1 x) (
                      passes (same comp x s) (has comp x (d ∷ dest)) (has comp x src) (λ h.
                        has-Below order x s (d ∷ dest) h
                          (more, Below-less order s d dest more sorted.0)));
                  bounded = λ b below. u.bounded b below;
                  ordered = λ sorted. u.ordered sorted;
                })
          | inr not_more ↦
              let u = difference_loop-Removes fuel before dest src (omega (arith, enough)) in
              rw (not_less, difference_loop, not_more)
                (record {
                  out = u.out;
                  returns = u.returns;
                  members = λ sorted sorted' x.
                      rw (u.members sorted.1 sorted'.1 x, same-congr order x d s not_less not_more)
                        (goes (same comp x d) (has comp x dest) (has comp x src)
                          (λ h. has-Below order x d dest h sorted.0));
                  bounded = λ b below. u.bounded b below.1;
                  ordered = λ sorted. u.ordered sorted.1;
                })
        ]
      ]

  -- By a strict weak order, `set_assign_difference` of a container and a range that are sorted
  -- without repetition ends with the elements of the container that have no equivalent one in the
  -- range, sorted without repetition.
  pub set_assign_difference-IsDifference :
      (dest src : List A)
      → Sorted comp dest
      → Sorted comp src
      → IsDifference comp dest src (set_assign_difference comp dest src)
  unfolding set_assign_difference
  set_assign_difference-IsDifference dest src sorted sorted' =
      let u = difference_loop-Removes (length dest + length src + 1) [] dest src (omega arith) in
      record {
        out = u.out;
        returns = u.returns;
        members = u.members sorted sorted';
        ordered = u.ordered sorted;
      }
