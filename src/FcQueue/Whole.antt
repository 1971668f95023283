-- ===== src/FcQueue/Whole.antt =====
-- The members that walk over a whole queue: search, clearing, copy and assignment.
use mathlib.Core.List.{append_assoc, append-nil}
use nvwa.Common.{
  ℕ, zero, suc, ◌+◌, ◌<◌, ◌==◌, Bool, true, false, ◌||◌, List, [], ◌∷◌, ◌++◌, length, get_elem?,
  some, ok, ◌≡◌, refl, ◌∙◌, ap, arith, length-append, Bool-cases, inl, inr,
}
use nvwa.FcQueue.Defs.{FcQueue, increment, capacity, object, contains, contains_loop, copy_loop}
use nvwa.FcQueue.Valid.{Contains, place, capacity-Contains, cell-place}
use nvwa.FcQueue.Refine.{Leaves, push-Leaves}

module _ {ℓ} {A : Type ℓ} where
  -- Some element passes the test.
  unfoldable pub has : (A → Bool) → List A → Bool
  has same [] = false
  has same (x ∷ items) = same x || has same items

  get_elem?-middle :
      (xs : List A) (y : A) (ys : List A) → get_elem? (xs ++ y ∷ ys) (length xs) ≡ some y
  get_elem?-middle [] y ys = refl
  get_elem?-middle (x ∷ xs) y ys = get_elem?-middle xs y ys

  -- A walk that has passed `before` and has `x` next.
  module _ {q : FcQueue A} (before : List A) (x : A) (rest : List A)
      (c : Contains q (before ++ x ∷ rest)) where
    total : length (before ++ x ∷ rest) ≡ length before + suc (length rest)
    total = length-append before (x ∷ rest)

    walk-more : (place q (length before) == q.tail) ≡ false
    walk-more = ground (arith, total, c.tail_at, c.sized, c.head_above, c.head_below, c.room)

    walk-object : object q (place q (length before)) ≡ ok x
    walk-object = rw (
      cell-place c.stores (length before) (omega (arith, total, c.room)),
      get_elem?-middle before x rest,
    )

    walk-next : increment q (place q (length before)) ≡ place q (length (before ++ x ∷ []))
    walk-next =
        ground
          (arith, total, length-append before (x ∷ []), c.sized, c.head_above, c.head_below, c.room)

    walk-again : Contains q ((before ++ x ∷ []) ++ rest)
    walk-again = rw (append_assoc before (x ∷ []) rest) c

  walk-end :
      {q : FcQueue A} (before : List A)
      → Contains q (before ++ [])
      → (place q (length before) == q.tail) ≡ true
  walk-end {q} before c = ground (arith, c.tail_at, length-append before [])

  contains_loop-has :
      (same : A → Bool) (q : FcQueue A) (rest before : List A) (fuel : ℕ)
      → Contains q (before ++ rest)
      → length rest < fuel
      → contains_loop same fuel (place q (length before)) q ≡ ok (has same rest)
  unfolding contains_loop has
  contains_loop-has same q rest before zero c enough = absurd (omega arith)
  contains_loop-has same q [] before (suc fuel) c enough = rw (walk-end before c, contains_loop)
  contains_loop-has same q (x ∷ rest) before (suc fuel) c enough =
      rw (walk-more before x rest c, contains_loop, walk-object before x rest c)
        (elim (Bool-cases (same x)) [
          | inl hit ↦ rw (hit, contains_loop)
          | inr miss ↦
              rw (miss, contains_loop, walk-next before x rest c)
                (contains_loop-has same q rest (before ++ x ∷ []) fuel (walk-again before x rest c)
                  (omega arith))
        ])

  -- On a queue in order, `contains` ends and says whether some element equals the value.
  contains-has :
      (same : A → Bool) {q : FcQueue A} {items : List A}
      → Contains q items
      → contains same q ≡ ok (has same items)
  unfolding contains
  contains-has same {q} {items} c =
      let start : q.head ≡ place q 0 = ground (arith, c.head_below) in
      ap (λ ptr. contains_loop same (length q.cells + 1) ptr q) start
      ∙ contains_loop-has same q items [] (length q.cells + 1) c (omega (arith, c.room))

  pub copy_loop-Contains :
      (rhs : FcQueue A) (rest before : List A) (fuel : ℕ) (q : FcQueue A)
      → Contains rhs (before ++ rest)
      → Contains q before
      → length rest < fuel
      → length (before ++ rest) < length q.cells
      → Leaves q (copy_loop fuel (place rhs (length before)) rhs q) (before ++ rest)
  unfolding copy_loop
  copy_loop-Contains rhs rest before zero q c mine enough fits = absurd (omega arith)
  copy_loop-Contains rhs [] before (suc fuel) q c mine enough fits =
      rw (walk-end before c, copy_loop)
        (record {
          after = q;
          returns = refl;
          contains = rw (append-nil before) mine;
          same_begin = refl;
          same_end = refl;
        })
  copy_loop-Contains rhs (x ∷ rest) before (suc fuel) q c mine enough fits =
      let step = push-Leaves before x mine (omega (arith, fits, length-append before (x ∷ rest))) in
      let more : (length before == capacity q) ≡ false =
        ground (arith, capacity-Contains mine, fits, length-append before (x ∷ rest)) in
      let held : Contains step.after (before ++ x ∷ []) = rw more at step.contains in
      let same_room : length step.after.cells ≡ length q.cells =
        omega (arith, held.sized, mine.sized, step.same_begin, step.same_end) in
      let last =
        copy_loop-Contains rhs rest (before ++ x ∷ []) fuel step.after (walk-again before x rest c)
          held (omega arith)
          (rw (append_assoc before (x ∷ []) rest) (omega (arith, fits, same_room))) in
      rw
        (
          walk-more before x rest c,
          copy_loop,
          walk-object before x rest c,
          step.returns,
          walk-next before x rest c,
        )
        (record {
          after = last.after;
          returns = last.returns;
          contains = rw (append_assoc before (x ∷ []) rest) at last.contains;
          same_begin = last.same_begin ∙ step.same_begin;
          same_end = last.same_end ∙ step.same_end;
        })
