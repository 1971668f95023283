-- ===== src/FcQueue/Script.antt =====
-- Sequences of calls on a queue, against the bounded list that it stands for.
use nvwa.Common.{
  ℕ, ◌<◌, ◌==◌, if◌then◌else◌, Bool, not, List, [], ◌∷◌, ◌++◌, length, drop, Option, Result, ok,
  ◌≡◌, refl, arith, ◌>>=◌,
}
use nvwa.FcQueue.Defs.{FcQueue, capacity, push, write, read, size}
use nvwa.FcQueue.Valid.{Contains, size-Contains}
use nvwa.FcQueue.Refine.{head?, pushed, push-Leaves, write-Answers, read-Answers}

module _ {ℓ} (A : Type ℓ) where
  -- A call of a client, and what it sees of one.
  pub data Call : Type ℓ where
    pushes : A → Call
    writes : A → Call
    reads : Call
    asks_size : Call

  pub data Reply : Type ℓ where
    done : Reply
    wrote : Bool → Reply
    got : Option A → Reply
    sized : ℕ → Reply

module _ {ℓ} {A : Type ℓ} where
  -- The calls in order, on the code.
  unfoldable pub run : List (Call A) → FcQueue A → Result (List (Reply A))
  run [] q = ok []
  run (pushes v ∷ calls) q = do q' ← push v q; rest ← run calls q'; ok (done ∷ rest)
  run (writes v ∷ calls) q = do (b, q') ← write v q; rest ← run calls q'; ok (wrote b ∷ rest)
  run (reads ∷ calls) q = do (v, q') ← read q; rest ← run calls q'; ok (got v ∷ rest)
  run (asks_size ∷ calls) q = do rest ← run calls q; ok (sized (size q) ∷ rest)

  -- The same calls on a list of at most `cap` elements.
  unfoldable pub expected : ℕ → List (Call A) → List A → List (Reply A)
  expected cap [] items = []
  expected cap (pushes v ∷ calls) items = done ∷ expected cap calls (pushed cap v items)
  expected cap (writes v ∷ calls) items =
      wrote (not (length items == cap))
      ∷ expected cap calls (if length items == cap then items else items ++ v ∷ [])
  expected cap (reads ∷ calls) items = got (head? items) ∷ expected cap calls (drop 1 items)
  expected cap (asks_size ∷ calls) items = sized (length items) ∷ expected cap calls items

  same_room : (q q' : FcQueue A) → q'.begin ≡ q.begin → q'.end ≡ q.end → capacity q' ≡ capacity q
  same_room q q' e e' = omega arith

  still_big :
      {q q' : FcQueue A} {items items' : List A}
      → Contains q items
      → Contains q' items'
      → q'.begin ≡ q.begin
      → q'.end ≡ q.end
      → 1 < length q.cells
      → 1 < length q'.cells
  still_big c c' e e' big = omega arith

  -- No sequence of calls of `push`, `write`, `read` and `size` tells a queue in order, of a capacity
  -- of at least one, from the list of its elements bounded by that capacity: `push` discards the
  -- oldest element when there is no room, `write` refuses.
  pub run-expected :
      (calls : List (Call A)) {q : FcQueue A} {items : List A}
      → Contains q items
      → 1 < length q.cells
      → run calls q ≡ ok (expected (capacity q) calls items)
  unfolding run expected
  run-expected [] c big = refl
  run-expected (pushes v ∷ calls) {q} {items} c big =
      let s = push-Leaves items v c big in
      let big' = still_big c s.contains s.same_begin s.same_end big in
      rw
        (s.returns, run-expected calls s.contains big', same_room q s.after s.same_begin s.same_end)
  run-expected (writes v ∷ calls) {q} {items} c big =
      let s = write-Answers v c big in
      let big' = still_big c s.contains s.same_begin s.same_end big in
      rw
        (s.returns, run-expected calls s.contains big', same_room q s.after s.same_begin s.same_end)
  run-expected (reads ∷ calls) {q} {items} c big =
      let s = read-Answers items c in
      let big' = still_big c s.contains s.same_begin s.same_end big in
      rw
        (s.returns, run-expected calls s.contains big', same_room q s.after s.same_begin s.same_end)
  run-expected (asks_size ∷ calls) {q} {items} c big =
      rw (run-expected calls c big, size-Contains c)
