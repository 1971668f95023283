-- ===== src/SetAssign/Union.antt =====
-- `set_assign_union` on a strict weak order.
use nvwa.Common.{
  ℕ, zero, suc, ◌+◌, ◌<◌, Bool, true, false, ◌||◌, List, [], ◌∷◌, ◌++◌, length, Result, ok, ◌≡◌,
  refl, ap, ◌∙◌, arith, Bool-cases, inl, inr,
}
use mathlib.Core.List.{append_assoc}
use nvwa.SetAssign.Defs.{union_loop, set_assign_union}
use nvwa.SetAssign.Order.{
  IsStrictWeak, same, has, Below, Sorted, Below-less, Below-same, same-congr,
}

module _ {ℓ} {A : Type ℓ} (comp : A → A → Bool) where
  -- What the loop makes of `dest` and `src`, behind what is there.
  record Unites (before dest src : List A) (result : Result (List A)) : Type ℓ where
    out : List A
    returns : result ≡ ok (before ++ out)
    members : (x : A) → has comp x out ≡ (has comp x dest || has comp x src)
    bounded : (b : A) → Below comp b dest → Below comp b src → Below comp b out
    ordered : Sorted comp dest → Sorted comp src → Sorted comp out

module _ {ℓ} {A : Type ℓ} (comp : A → A → Bool) where
  -- A sorted list of what either list has.
  pub record IsUnion (dest src : List A) (result : Result (List A)) : Type ℓ where
    pub out : List A
    pub returns : result ≡ ok out
    pub members : (x : A) → has comp x out ≡ (has comp x dest || has comp x src)
    pub ordered : Sorted comp out

or_assoc : (a b c : Bool) → (a || (b || c)) ≡ ((a || b) || c)
or_assoc true b c = refl
or_assoc false b c = refl

or_left : (a b c : Bool) → (a || (b || c)) ≡ (b || (a || c))
or_left true true c = refl
or_left true false c = refl
or_left false b c = refl

or_twice : (a b c : Bool) → (a || (b || c)) ≡ ((a || b) || (a || c))
or_twice true b c = refl
or_twice false b c = refl

module _ {ℓ} {A : Type ℓ} {comp : A → A → Bool} (order : IsStrictWeak comp) where
  has-nothing : (x : A) (xs : List A) → has comp x xs ≡ (has comp x xs || false)
  has-nothing x xs = ground arith

  union_loop-Unites :
      (fuel : ℕ) (before dest src : List A)
      → length dest + length src < fuel
      → Unites comp before dest src (union_loop comp fuel before dest src)
  unfolding union_loop Below Sorted
  union_loop-Unites zero before dest src enough = elim enough [ ]
  union_loop-Unites (suc fuel) before [] src enough = record {
    out = src;
    returns = refl;
    members = λ x. refl;
    bounded = λ b below below'. below';
    ordered = λ sorted sorted'. sorted';
  }
  union_loop-Unites (suc fuel) before (d ∷ dest) [] enough = record {
    out = d ∷ dest;
    returns = refl;
    members = λ x. has-nothing x (d ∷ dest);
    bounded = λ b below below'. below;
    ordered = λ sorted sorted'. sorted;
  }
  union_loop-Unites (suc fuel) before (d ∷ dest) (s ∷ src) enough = elim (Bool-cases (comp d s)) [
    | inl less ↦
        let u = union_loop-Unites fuel (before ++ d ∷ []) dest (s ∷ src) (omega (arith, enough)) in
        rw (less, union_loop)
          (record {
            out = d ∷ u.out;
            returns = u.returns ∙ ap ok (append_assoc before (d ∷ []) u.out);
            members = λ x.
                rw (u.members x)
                  (or_assoc (same comp x d) (has comp x dest) (has comp x (s ∷ src)));
            bounded = λ b below below'. (below.0, u.bounded b below.1 below');
            ordered = λ sorted sorted'. (
              u.bounded d sorted.0 (less, Below-less order d s src less sorted'.0),
              u.ordered sorted.1 sorted',
            );
          })
    | inr not_less ↦ elim (Bool-cases (comp s d)) [
      | inl more ↦
          let u =
            union_loop-Unites fuel (before ++ s ∷ []) (d ∷ dest) src (omega (arith, enough)) in
          rw (not_less, union_loop, more)
            (record {
              out = s ∷ u.out;
              returns = u.returns ∙ ap ok (append_assoc before (s ∷ []) u.out);
              members = λ x.
                  rw (u.members x)
                    (or_left (same comp x s) (has comp x (d ∷ dest)) (has comp x src));
              bounded = λ b below below'. (below'.0, u.bounded b below below'.1);
              ordered = λ sorted sorted'. (
                u.bounded s (more, Below-less order s d dest more sorted.0) sorted'.0,
                u.ordered sorted sorted'.1,
              );
            })
      | inr not_more ↦
          let u = union_loop-Unites fuel (before ++ d ∷ []) dest src (omega (arith, enough)) in
          rw (not_less, union_loop, not_more)
            (record {
              out = d ∷ u.out;
              returns = u.returns ∙ ap ok (append_assoc before (d ∷ []) u.out);
              members = λ x.
                  rw (u.members x, same-congr order x d s not_less not_more)
                    (or_twice (same comp x d) (has comp x dest) (has comp x src));
              bounded = λ b below below'. (below.0, u.bounded b below.1 below'.1);
              ordered = λ sorted sorted'. (
                u.bounded d sorted.0 (Below-same order d s src not_more sorted'.0),
                u.ordered sorted.1 sorted'.1,
              );
            })
    ]
  ]

  -- By a strict weak order, `set_assign_union` of a container and a range that are sorted without
  -- repetition ends with the elements, up to equivalence, of both, sorted without repetition.
  pub set_assign_union-IsUnion :
      (dest src : List A)
      → Sorted comp dest
      → Sorted comp src
      → IsUnion comp dest src (set_assign_union comp dest src)
  unfolding set_assign_union
  set_assign_union-IsUnion dest src sorted sorted' =
      let u = union_loop-Unites (length dest + length src + 1) [] dest src (omega arith) in
      record {
        out = u.out;
        returns = u.returns;
        members = u.members;
        ordered = u.ordered sorted sorted';
      }
