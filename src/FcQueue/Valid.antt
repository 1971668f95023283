-- ===== src/FcQueue/Valid.antt =====
-- When a queue is in order, and which elements it holds.
use nvwa.Common.{
  ℕ, zero, suc, ◌+◌, ◌-◌, ◌^◌, ◌≤◌, ◌<◌, ◌==◌, ltb, if◌then◌else◌, List, [], ◌∷◌, ◌++◌, length,
  get_elem?, set, Option, none, some, ok, ◌≡◌, ◌≢◌, refl, ◌∙◌, ap, arith, length-set,
  get_elem?-set_self, get_elem?-set_ne, ℕ_discrete, sym, length-append,
}
use nvwa.FcQueue.Defs.{
  FcQueue, increment, empty, full, capacity, size, cell, object, construct, destroy,
}

module _ {ℓ} {A : Type ℓ} where
  -- The address of the place `k` of the queue, counted round from the first element.
  abbrev pub place : FcQueue A → ℕ → ℕ
  place q k = if ltb (q.head + k) q.end then q.head + k else q.head + k - (q.end - q.begin)

  -- The memory is there, the elements are in it in order from `head` on, and every other cell is
  -- raw. Of `tail` nothing is said.
  pub record Stores (q : FcQueue A) (items : List A) : Type ℓ where
    pub sized : q.end ≡ q.begin + length q.cells
    pub small : q.end < 2 ^ 64
    pub allocated : 0 < q.begin
    pub head_above : q.begin ≤ q.head
    pub head_below : q.head < q.end
    pub fits : length items ≤ length q.cells
    pub held :
        (k : ℕ)
        → k < length q.cells
        → get_elem? q.cells (place q k - q.begin) ≡ some (get_elem? items k)

  -- The queue is in order and holds `items`, the oldest first; one cell at least is not in use.
  pub record Contains (q : FcQueue A) (items : List A) : Type ℓ where
    pub stores : Stores q items
    pub open stores use *
    pub tail_at : q.tail ≡ place q (length items)
    pub room : length items < length q.cells

  pub get_elem?-past : (xs : List A) (i : ℕ) → length xs ≤ i → get_elem? xs i ≡ none
  get_elem?-past [] i h = refl
  get_elem?-past (x ∷ xs) zero h = absurd (omega arith)
  get_elem?-past (x ∷ xs) (suc i) h = get_elem?-past xs i (omega arith)

  pub get_elem?-snoc :
      (xs : List A) (v : A) (k : ℕ)
      → get_elem? (xs ++ v ∷ []) k ≡ (if k == length xs then some v else get_elem? xs k)
  get_elem?-snoc [] v zero = ground arith
  get_elem?-snoc [] v (suc k) = ground arith
  get_elem?-snoc (x ∷ xs) v zero = ground arith
  get_elem?-snoc (x ∷ xs) v (suc k) = get_elem?-snoc xs v k ∙ ground arith

  -- What is stored does not depend on `tail`.
  pub Stores-tail :
      (q : FcQueue A) (t : ℕ) {items : List A}
      → Stores q items
      → Stores (record q { tail = t }) items
  Stores-tail q t c = record {
    sized = c.sized;
    small = c.small;
    allocated = c.allocated;
    head_above = c.head_above;
    head_below = c.head_below;
    fits = c.fits;
    held = c.held;
  }

  module _ {q : FcQueue A} {items : List A} (c : Stores q items) where
    pub cell-place : (k : ℕ) → k < length q.cells → cell q (place q k) ≡ ok (get_elem? items k)
    cell-place k lt = ground (arith, c.held k lt, c.head_above, c.head_below, c.sized)

    -- Different places have different cells.
    place-ne :
        (i j : ℕ)
        → i < length q.cells
        → j < length q.cells
        → i ≢ j
        → place q i - q.begin ≢ place q j - q.begin
    place-ne i j p r ne e = ne (ground (arith, c.sized, c.head_above, c.head_below))

    place-below : (i : ℕ) → i < length q.cells → place q i - q.begin < length q.cells
    place-below i p = ground (arith, c.sized, c.head_above, c.head_below)

    -- A new content of the place `i`.
    held-set :
        (i k : ℕ) (v : Option A)
        → i < length q.cells
        → k < length q.cells
        → get_elem? (set q.cells (place q i - q.begin) v) (place q k - q.begin)
          ≡ (if k == i then some v else some (get_elem? items k))
    held-set i k v p r = elim (ℕ_discrete k i) [
      | yes e ↦
          rw e (get_elem?-set_self q.cells (place q i - q.begin) v (place-below i p) ∙ ground arith)
      | no ne ↦
          get_elem?-set_ne q.cells v (place-ne i k p r (λ e. ne (sym e)))
          ∙ ground (arith, c.held k r)
    ]

    -- An object made behind the last element.
    pub Stores-construct :
        (v : A)
        → length items < length q.cells
        → Stores
            (record q { cells = set q.cells (place q (length items) - q.begin) (some v) })
            (items ++ v ∷ [])
    Stores-construct v lt = record {
      sized =
          ground (arith, c.sized, length-set q.cells (place q (length items) - q.begin) (some v));
      small = c.small;
      allocated = c.allocated;
      head_above = c.head_above;
      head_below = c.head_below;
      fits = omega (
        arith,
        lt,
        length-append items (v ∷ []),
        length-set q.cells (place q (length items) - q.begin) (some v),
      );
      held = λ k p.
          held-set (length items) k (some v) lt
            (omega (arith, p, length-set q.cells (place q (length items) - q.begin) (some v)))
          ∙ ground (arith, get_elem?-snoc items v k);
    }

    -- The cell behind the last element is raw.
    pub raw-place : length items < length q.cells → cell q (place q (length items)) ≡ ok none
    raw-place lt =
        cell-place (length items) lt ∙ ap ok (get_elem?-past items (length items) (omega arith))

    pub construct-ok :
        (v : A)
        → length items < length q.cells
        → construct (place q (length items)) v q
          ≡ ok (record q { cells = set q.cells (place q (length items) - q.begin) (some v) })
    unfolding construct
    construct-ok v lt = rw (raw-place lt)

  module _ {q : FcQueue A} {x : A} {items : List A} (c : Stores q (x ∷ items)) where
    head-place : q.head ≡ place q 0
    head-place = ground (arith, c.head_below)

    pub object-head : object q q.head ≡ ok x
    object-head = rw (ap (cell q) head-place ∙ cell-place c 0 (omega (arith, c.fits)))

    pub destroy-ok :
        destroy q.head q ≡ ok (record q { cells = set q.cells (q.head - q.begin) none })
    unfolding destroy
    destroy-ok = rw object-head

    -- The places of the queue that starts at the next element.
    next-place :
        (k : ℕ)
        → suc k < length q.cells
        → place (record q { head = increment q q.head }) k ≡ place q (suc k)
    next-place k lt = ground (arith, c.sized, c.head_above, c.head_below)

    next-last :
        (k : ℕ) → k + 1 ≡ length q.cells → place (record q { head = increment q q.head }) k ≡ q.head
    next-last k e = ground (arith, c.sized, c.head_above, c.head_below)

    -- The first object ended, and the queue starting at the next.
    pub Stores-destroy :
        Stores
          (record q { cells = set q.cells (q.head - q.begin) none; head = increment q q.head })
          items
    Stores-destroy = record {
      sized = ground (arith, c.sized, length-set q.cells (q.head - q.begin) none);
      small = c.small;
      allocated = c.allocated;
      head_above = ground (arith, c.head_above);
      head_below = ground (arith, c.head_above, c.head_below);
      fits = omega (arith, c.fits, length-set q.cells (q.head - q.begin) none);
      held = λ k p.
          let below : k < length q.cells =
            omega (arith, p, length-set q.cells (q.head - q.begin) none) in
          elim (ℕ_discrete (k + 1) (length q.cells)) [
            | yes last ↦
                ap after (next-last k last ∙ head-place)
                ∙ (cleared 0 (omega arith)
                    ∙ ground (arith, get_elem?-past items k (omega (arith, c.fits))))
            | no more ↦
                ap after (next-place k (omega arith))
                ∙ (cleared (suc k) (omega arith) ∙ ground arith)
          ];
    }
      where
        after : ℕ → Option (Option A)
        after ptr = get_elem? (set q.cells (q.head - q.begin) none) (ptr - q.begin)

        cleared :
            (k : ℕ)
            → k < length q.cells
            → after (place q k) ≡ (if k == 0 then some none else some (get_elem? (x ∷ items) k))
        cleared k lt =
            ap (λ h. get_elem? (set q.cells (h - q.begin) none) (place q k - q.begin)) head-place
            ∙ held-set c 0 k none (omega arith) lt

  module _ {q : FcQueue A} {items : List A} (c : Contains q items) where
    pub empty-Contains : empty q ≡ (length items == 0)
    empty-Contains = ground (arith, c.sized, c.tail_at, c.room, c.head_above, c.head_below)

    pub capacity-Contains : capacity q ≡ length q.cells - 1
    capacity-Contains = omega (arith, c.sized, c.small, c.allocated, c.room)

    pub full-Contains : full q ≡ (length items == capacity q)
    full-Contains =
        ground (arith, capacity-Contains, c.sized, c.tail_at, c.room, c.head_above, c.head_below)

    pub size-Contains : size q ≡ length items
    size-Contains = ground (arith, c.sized, c.tail_at, c.room, c.head_above, c.head_below)
