-- ===== src/FcQueue/Copy.antt =====
-- Memory for a queue, and the members that empty or copy a whole queue.
use nvwa.Common.{
  ℕ, zero, suc, ◌+◌, ◌-◌, ◌^◌, ◌<◌, ◌==◌, true, false, not, List, [], ◌∷◌, length, get_elem?, set,
  replicate, Option, none, some, Result, ok, err, bad_alloc, ◌≡◌, refl, ◌∙◌, ap, arith, length-set,
  length-replicate, dec_lt, Bool-cases, inl, inr,
}
use nvwa.Bits.Words.{add_size}
use nvwa.FcQueue.Defs.{
  FcQueue, default, increment, capacity, destroy, clear, clear_loop, deallocate,
  initialize_capacity, with_capacity, copy_elements, copy_loop, copy, assign,
}
use nvwa.FcQueue.Valid.{Stores, Contains, place, capacity-Contains, object-head, Stores-destroy}
use nvwa.FcQueue.Refine.{Leaves}
use nvwa.FcQueue.Whole.{copy_loop-Contains}

-- What an allocator documents: the memory is not at the null pointer, and addresses do not wrap.
pub record IsAllocator (allocate : ℕ → Option ℕ) : Type 0 where
  pub not_null : (n a : ℕ) → allocate n ≡ some a → 0 < a
  pub inside : (n a : ℕ) → allocate n ≡ some a → a + n < 2 ^ 64

module _ {ℓ} {A : Type ℓ} where
  get_elem?-replicate : (n k : ℕ) (a : A) → k < n → get_elem? (replicate n a) k ≡ some a
  get_elem?-replicate zero k a h = absurd (omega arith)
  get_elem?-replicate (suc n) zero a h = refl
  get_elem?-replicate (suc n) (suc k) a h = get_elem?-replicate n k a (omega arith)

module _ {ℓ} {A : Type ℓ} where
  -- A queue whose memory is all raw, with both ends at its start.
  fresh-Contains :
      (q : FcQueue A)
      → 0 < q.begin
      → q.end < 2 ^ 64
      → q.end ≡ q.begin + length q.cells
      → 0 < length q.cells
      → q.head ≡ q.begin
      → q.tail ≡ q.begin
      → ((k : ℕ) → k < length q.cells → get_elem? q.cells k ≡ some none)
      → Contains q []
  fresh-Contains q pos small sized room at_head at_tail raw = record {
    stores = record {
      sized = sized;
      small = small;
      allocated = pos;
      head_above = omega arith;
      head_below = omega arith;
      fits = omega arith;
      held = λ k lt. ap (get_elem? q.cells) (ground arith) ∙ raw k lt;
    };
    tail_at = ground arith;
    room = room;
  }

  -- The operation gives a queue with this capacity that holds `items`.
  pub record Copies (room : ℕ) (r : Result (FcQueue A)) (items : List A) : Type ℓ where
    pub after : FcQueue A
    pub returns : r ≡ ok after
    pub contains : Contains after items
    pub same_capacity : capacity after ≡ room

  -- The elements of a queue are pushed into an empty one of the same capacity.
  refill :
      {rhs : FcQueue A} {items : List A} (new : FcQueue A)
      → Contains rhs items
      → Contains new []
      → length new.cells ≡ capacity rhs + 1
      → Copies (capacity rhs) (copy_elements rhs new) items
  unfolding copy_elements
  refill {rhs} {items} new c raw same =
      let room = capacity-Contains c in
      let start : rhs.head ≡ place rhs 0 = ground (arith, c.head_below) in
      let done =
        copy_loop-Contains rhs items [] (length rhs.cells + 1) new c raw (omega (arith, c.room))
          (omega (arith, same, room, c.room)) in
      record {
        after = done.after;
        returns = ap (λ ptr. copy_loop (length rhs.cells + 1) ptr rhs new) start ∙ done.returns;
        contains = done.contains;
        same_capacity =
            omega
              (arith, same, room, capacity-Contains raw, done.same_begin, done.same_end, c.room);
      }

  -- Where no element is left, every cell is raw.
  raw-cells :
      {q : FcQueue A} → Stores q [] → (k : ℕ) → k < length q.cells → get_elem? q.cells k ≡ some none
  raw-cells {q} c k lt = elim (dec_lt k (q.head - q.begin)) [
    | yes before ↦
        let index : k ≡ place q (k + length q.cells - (q.head - q.begin)) - q.begin =
          ground (arith, c.sized, c.head_above, c.head_below) in
        ap (get_elem? q.cells) index ∙ c.held _ (omega arith)
    | no behind ↦
        let index : k ≡ place q (k - (q.head - q.begin)) - q.begin =
          ground (arith, c.sized, c.head_above, c.head_below) in
        ap (get_elem? q.cells) index ∙ c.held _ (omega arith)
  ]

  -- The elements from `ptr` on are destroyed, and both ends go to the start of the memory.
  clear_loop-Leaves :
      (q : FcQueue A) (rest : List A) (ptr fuel : ℕ)
      → Stores (record q { head = ptr }) rest
      → q.tail ≡ place (record q { head = ptr }) (length rest)
      → length rest < length q.cells
      → length rest < fuel
      → Leaves q (clear_loop fuel ptr q) []
  unfolding clear_loop
  clear_loop-Leaves q rest ptr zero c at_tail room enough = absurd (omega arith)
  clear_loop-Leaves q [] ptr (suc fuel) c at_tail room enough =
      let stops : (ptr == q.tail) ≡ true = ground (arith, c.head_below) in
      rw (stops, clear_loop)
        (record {
          after = record q { head = q.begin; tail = q.begin };
          returns = refl;
          contains =
              fresh-Contains _ c.allocated c.small c.sized (omega arith) refl refl (raw-cells c);
          same_begin = refl;
          same_end = refl;
        })
  clear_loop-Leaves q (x ∷ rest) ptr (suc fuel) c at_tail room enough =
      let goes : (ptr == q.tail) ≡ false = ground (arith, c.head_above, c.head_below, c.sized) in
      let ended : destroy ptr q ≡ ok (record q { cells = set q.cells (ptr - q.begin) none }) =
        unfold destroy in rw (object-head c) in
      let next = Stores-destroy c in
      let same = length-set q.cells (ptr - q.begin) none in
      let last =
        clear_loop-Leaves (record q { cells = set q.cells (ptr - q.begin) none }) rest
          (increment q ptr) fuel next
          (at_tail ∙ ground (arith, c.sized, c.head_above, c.head_below, room))
          (omega (arith, same)) (omega arith) in
      rw (goes, clear_loop, ended)
        (record {
          after = last.after;
          returns = last.returns;
          contains = last.contains;
          same_begin = last.same_begin;
          same_end = last.same_end;
        })

  pub clear-Leaves : {q : FcQueue A} {items : List A} → Contains q items → Leaves q (clear q) []
  unfolding clear
  clear-Leaves {q} {items} c =
      clear_loop-Leaves q items q.head (length q.cells + 1) c.stores c.tail_at c.room
        (omega (arith, c.room))

  module _ {allocate : ℕ → Option ℕ} (allocator : IsAllocator allocate) where
    -- Memory for `max_size` elements and one more.
    record Fresh (max_size : ℕ) (r : Result (FcQueue A)) : Type ℓ where
      after : FcQueue A
      returns : r ≡ ok after
      contains : Contains after []
      room : length after.cells ≡ max_size + 1

    initialize-Fresh :
        (max_size a : ℕ) (q : FcQueue A)
        → 0 < max_size
        → max_size + 1 < 2 ^ 64
        → allocate (max_size + 1) ≡ some a
        → Fresh max_size (initialize_capacity allocate max_size q)
    unfolding initialize_capacity
    initialize-Fresh max_size a q pos small e =
        let some_asked : (max_size == 0) ≡ false = ground arith in
        let fits : (add_size max_size 1 == 0) ≡ false = ground arith in
        let raw : Option A = none in
        let count = length-replicate (max_size + 1) raw in
        record {
          after = record {
            head = a;
            tail = a;
            begin = a;
            end = a + max_size + 1;
            cells = replicate (max_size + 1) none;
          };
          returns = rw (some_asked, fits, e);
          contains =
              fresh-Contains _ (allocator.not_null _ _ e) (omega (arith, allocator.inside _ _ e))
                (omega (arith, count)) (omega (arith, count)) refl refl
                (λ k lt. get_elem?-replicate (max_size + 1) k none (omega (arith, count)));
          room = count;
        }

    -- The copy constructor, from a queue in order of a capacity of at least one and with an allocator
    -- that gives memory, makes a queue of the same elements and the same capacity.
    copy-Copies :
        {rhs : FcQueue A} {items : List A} {a : ℕ}
        → Contains rhs items
        → 1 < length rhs.cells
        → allocate (capacity rhs + 1) ≡ some a
        → Copies (capacity rhs) (copy allocate rhs) items
    unfolding copy with_capacity
    copy-Copies {rhs} {items} {a} c big e =
        let some_room : not (capacity rhs == 0) ≡ true = ground (arith, capacity-Contains c) in
        let new =
          initialize-Fresh (capacity rhs) a default (omega (arith, capacity-Contains c))
            (omega (arith, capacity-Contains c, c.sized, c.small)) e in
        rw (some_room, new.returns) (refill new.after c new.contains new.room)

    -- Assignment to a queue in order, from another one in order of a capacity of at least one and with
    -- an allocator that gives memory, leaves a copy of that queue's elements and its capacity.
    pub assign-Copies :
        {q rhs : FcQueue A} {mine items : List A} {a : ℕ}
        → Contains q mine
        → Contains rhs items
        → 1 < length rhs.cells
        → allocate (capacity rhs + 1) ≡ some a
        → Copies (capacity rhs) (assign allocate q rhs) items
    unfolding assign
    assign-Copies {q} {rhs} {mine} {items} {a} before c big e =
        let cleared = clear-Leaves before in
        elim (Bool-cases (capacity cleared.after == capacity rhs)) [
          | inl same ↦
              rw (cleared.returns, same)
                (refill cleared.after c cleared.contains (
                  ground (
                    arith,
                    capacity-Contains cleared.contains,
                    capacity-Contains c,
                    cleared.contains,
                    c.room,
                  )))
          | inr differ ↦
              let new =
                initialize-Fresh (capacity rhs) a (deallocate cleared.after)
                  (omega (arith, capacity-Contains c))
                  (omega (arith, capacity-Contains c, c.sized, c.small)) e in
              rw (cleared.returns, differ, new.returns) (refill new.after c new.contains new.room)
        ]

  -- Assignment from a default-constructed queue to a queue in order throws `bad_alloc`, whatever the
  -- allocator does.
  pub assign-default-throws :
      (allocate : ℕ → Option ℕ) {q : FcQueue A} {mine : List A}
      → Contains q mine
      → assign allocate q default ≡ err bad_alloc
  unfolding assign initialize_capacity
  assign-default-throws allocate before =
      let cleared = clear-Leaves before in
      let differ : (capacity cleared.after == 2 ^ 64 - 1) ≡ false =
        ground (arith, capacity-Contains cleared.contains, cleared.contains) in
      rw (cleared.returns, differ)
