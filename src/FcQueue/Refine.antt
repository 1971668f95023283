-- ===== src/FcQueue/Refine.antt =====
-- The members of the queue against a list of at most `capacity` elements, the oldest first.
use nvwa.Common.{
  ℕ, suc, ◌-◌, ◌<◌, ◌==◌, ltb, if◌then◌else◌, true, false, not, List, [], ◌∷◌, ◌++◌, length, set,
  drop, Option, none, some, Result, ok, assertion, ◌≡◌, refl, ◌∙◌, ap, arith, length-set,
  Bool-cases, inl, inr, length-append, from_option, get_elem?,
}
use nvwa.FcQueue.Defs.{
  FcQueue, increment, decrement, empty, full, capacity, construct, pop, push, write, read, front,
  back,
}
use nvwa.FcQueue.Valid.{
  Stores, Contains, place, empty-Contains, full-Contains, capacity-Contains, Stores-tail,
  Stores-construct, construct-ok, Stores-destroy, destroy-ok, object-head, cell-place,
  get_elem?-snoc,
}

module _ {ℓ} {A : Type ℓ} where
  -- The oldest element, if there is one.
  abbrev pub head? : List A → Option A
  head? [] = none
  head? (x ∷ items) = some x

  -- The list after `push`: the oldest element makes room when there are `cap` of them.
  abbrev pub pushed : ℕ → A → List A → List A
  pushed cap v items = (if length items == cap then drop 1 items else items) ++ v ∷ []

  -- The operation succeeds, and the same memory holds `items`.
  pub record Leaves (q : FcQueue A) (r : Result (FcQueue A)) (items : List A) : Type ℓ where
    pub after : FcQueue A
    pub returns : r ≡ ok after
    pub contains : Contains after items
    pub same_begin : after.begin ≡ q.begin
    pub same_end : after.end ≡ q.end

  -- The same for an operation that gives `answer` too.
  pub record Answers {κ} {B : Type κ} (q : FcQueue A) (r : Result (B × FcQueue A)) (answer : B)
      (items : List A) : Type (ℓ ⊔ κ) where
    pub after : FcQueue A
    pub returns : r ≡ ok (answer, after)
    pub contains : Contains after items
    pub same_begin : after.begin ≡ q.begin
    pub same_end : after.end ≡ q.end

  not-empty : {q : FcQueue A} {x : A} {items : List A} → Contains q (x ∷ items) → empty q ≡ false
  not-empty c = empty-Contains c ∙ ground arith

  -- The end of the queue moves up by one place when an element is added.
  tail-next :
      {q : FcQueue A} {items : List A}
      → Contains q items
      → increment q q.tail ≡ place q (suc (length items))
  tail-next c = ground (arith, c.tail_at, c.sized, c.head_above, c.head_below, c.room)

  -- The first element goes, with or without a look at it.
  removed :
      {q : FcQueue A} {x : A} {items : List A}
      → Contains q (x ∷ items)
      → Contains
          (record q { cells = set q.cells (q.head - q.begin) none; head = increment q q.head })
          items
  removed {q} c = record {
    stores = Stores-destroy c.stores;
    tail_at = c.tail_at ∙ ground (arith, c.sized, c.head_above, c.head_below, c.room);
    room = omega (arith, c.room, length-set q.cells (q.head - q.begin) none);
  }

  -- `pop` discards the oldest element.
  pub pop-Leaves :
      {q : FcQueue A} {x : A} {items : List A} → Contains q (x ∷ items) → Leaves q (pop q) items
  unfolding pop
  pop-Leaves {q} c = record {
    after = record q { cells = set q.cells (q.head - q.begin) none; head = increment q q.head };
    returns = rw (not-empty c, destroy-ok c.stores);
    contains = removed c;
    same_begin = refl;
    same_end = refl;
  }

  -- `read` gives the oldest element and takes it away, or says that there is none.
  pub read-Answers :
      {q : FcQueue A} (items : List A)
      → Contains q items
      → Answers q (read q) (head? items) (drop 1 items)
  unfolding read
  read-Answers {q} [] c = record {
    after = q;
    returns = rw (empty-Contains c);
    contains = c;
    same_begin = refl;
    same_end = refl;
  }
  read-Answers {q} (x ∷ items) c = record {
    after = record q { cells = set q.cells (q.head - q.begin) none; head = increment q q.head };
    returns = rw (not-empty c, object-head c.stores, destroy-ok c.stores);
    contains = removed c;
    same_begin = refl;
    same_end = refl;
  }

  -- The queue with an object made behind the last, and its end moved up.
  abbrev extended : FcQueue A → List A → A → FcQueue A
  extended q items v = record q {
    cells = set q.cells (place q (length items) - q.begin) (some v);
    tail = increment q q.tail;
  }

  added :
      {q : FcQueue A} {items : List A} (v : A)
      → Contains q items
      → suc (length items) < length q.cells
      → Contains (extended q items v) (items ++ v ∷ [])
  added {q} {items} v c lt = record {
    stores = Stores-tail _ (increment q q.tail) new;
    tail_at =
        tail-next c ∙ ap (place (extended q items v)) (omega (arith, length-append items (v ∷ [])));
    room = omega (
      arith,
      lt,
      length-append items (v ∷ []),
      length-set q.cells (place q (length items) - q.begin) (some v),
    );
  }
    where
      new :
          Stores
            (record q { cells = set q.cells (place q (length items) - q.begin) (some v) })
            (items ++ v ∷ [])
      new = Stores-construct c.stores v c.room

  made :
      {q : FcQueue A} {items : List A} (v : A)
      → Contains q items
      → construct q.tail v q
        ≡ ok (record q { cells = set q.cells (place q (length items) - q.begin) (some v) })
  made {q} v c = ap (λ t. construct t v q) c.tail_at ∙ construct-ok c.stores v c.room

  -- On a queue in order, of a capacity of at least one, `write` adds the element and says so where
  -- there is room, and otherwise changes nothing and says so.
  pub write-Answers :
      {q : FcQueue A} {items : List A} (v : A)
      → Contains q items
      → 1 < length q.cells
      → Answers q
          (write v q)
          (not (length items == capacity q))
          (if length items == capacity q then items else items ++ v ∷ [])
  unfolding write
  write-Answers {q} {items} v c big =
      let some_room : ltb 0 (capacity q) ≡ true = ground (arith, capacity-Contains c) in
      let test : (increment q q.tail == q.head) ≡ (length items == capacity q) =
        ground (arith, full-Contains c) in
      elim (Bool-cases (length items == capacity q)) [
        | inl all ↦ record {
          after = q;
          returns = rw (some_room, test, all);
          contains = rw all c;
          same_begin = refl;
          same_end = refl;
        }
        | inr more ↦ record {
          after = extended q items v;
          returns = rw (some_room, test, more, made v c);
          contains = rw more (added v c (ground (arith, capacity-Contains c, c.room)));
          same_begin = refl;
          same_end = refl;
        }
      ]

  push-more :
      {q : FcQueue A} {items : List A} (v : A)
      → Contains q items
      → suc (length items) < length q.cells
      → Leaves q (push v q) (items ++ v ∷ [])
  unfolding push
  push-more {q} {items} v c lt =
      let some_room : ltb 0 (capacity q) ≡ true = ground (arith, capacity-Contains c) in
      let not_full : full q ≡ false = full-Contains c ∙ ground (arith, capacity-Contains c) in
      record {
        after = extended q items v;
        returns = rw (some_room, made v c, not_full);
        contains = added v c lt;
        same_begin = refl;
        same_end = refl;
      }

  push-drops :
      {q : FcQueue A} {x : A} {items : List A} (v : A)
      → Contains q (x ∷ items)
      → suc (suc (length items)) ≡ length q.cells
      → Leaves q (push v q) (items ++ v ∷ [])
  unfolding push pop
  push-drops {q} {x} {items} v c e =
      let some_room : ltb 0 (capacity q) ≡ true = ground (arith, capacity-Contains c) in
      let all : full q ≡ true = full-Contains c ∙ ground (arith, capacity-Contains c) in
      let new = Stores-construct c.stores v c.room in
      let rest = Stores-destroy new in
      let filled = set q.cells (place q (suc (length items)) - q.begin) (some v) in
      let after = record q {
        head = increment q q.head;
        tail = increment q q.tail;
        cells = set filled (q.head - q.begin) none;
      } in
      let at_end : increment q q.tail ≡ place after (suc (length items)) =
        ground (arith, c.tail_at, c.sized, c.head_above, c.head_below) in
      record {
        after = after;
        returns = rw (some_room, made v c, all, not-empty c, destroy-ok new);
        contains = record {
          stores = Stores-tail _ (increment q q.tail) rest;
          tail_at = at_end ∙ ap (place after) (omega (arith, length-append items (v ∷ [])));
          room = omega (
            arith,
            e,
            length-append items (v ∷ []),
            length-set filled (q.head - q.begin) none,
            length-set q.cells (place q (suc (length items)) - q.begin) (some v),
          );
        };
        same_begin = refl;
        same_end = refl;
      }

  -- On a queue in order, of a capacity of at least one, `push` adds the element at the back, and
  -- discards the oldest one where there is no room.
  pub push-Leaves :
      {q : FcQueue A} (items : List A) (v : A)
      → Contains q items
      → 1 < length q.cells
      → Leaves q (push v q) (pushed (capacity q) v items)
  push-Leaves {q} [] v c big =
      let more : (0 == capacity q) ≡ false = ground (arith, capacity-Contains c) in
      rw more (push-more v c big)
  push-Leaves {q} (x ∷ items) v c big = elim (Bool-cases (suc (length items) == capacity q)) [
    | inl all ↦ rw all (push-drops v c (ground (arith, capacity-Contains c)))
    | inr more ↦ rw more (push-more v c (ground (arith, capacity-Contains c, c.room)))
  ]

  -- `front` gives the oldest element, and stops at an assertion in an empty queue.
  pub front-Contains :
      {q : FcQueue A} (items : List A)
      → Contains q items
      → front q ≡ from_option assertion (head? items)
  unfolding front
  front-Contains [] c = rw (empty-Contains c)
  front-Contains (x ∷ items) c = rw (not-empty c) (object-head c.stores)

  -- `back` gives the newest element.
  pub back-Contains :
      {q : FcQueue A} (items : List A) (v : A) → Contains q (items ++ v ∷ []) → back q ≡ ok v
  unfolding back
  back-Contains {q} items v c =
      let count = length-append items (v ∷ []) in
      let some_left : empty q ≡ false = empty-Contains c ∙ ground (arith, count) in
      let before : decrement q q.tail ≡ place q (length items) =
        ground (arith, c.tail_at, c.sized, c.small, c.head_above, c.head_below, c.room, count) in
      let last : get_elem? (items ++ v ∷ []) (length items) ≡ some v =
        get_elem?-snoc items v (length items) ∙ ground arith in
      rw
        (some_left, before, cell-place c.stores (length items) (omega (arith, c.room, count)), last)
