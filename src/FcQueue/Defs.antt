-- ===== src/FcQueue/Defs.antt =====
-- The object of nvwa/fc_queue.h and its members, for a stateless allocator such as
-- `std::allocator`. A pointer is an address counted in elements, 0 for the null pointer.
use nvwa.Common.{
  ℕ, zero, suc, ◌+◌, ◌-◌, ◌==◌, ltb, leb, if◌then◌else◌, Bool, true, false, not, List, [], length,
  get_elem?, set, replicate, Option, none, some, Result, ok, err, fault, assertion, bad_alloc,
  require, from_option, ◌>>=◌, ◌>>◌,
}
use nvwa.Bits.Words.{add_size, sub_size}

-- The four pointers, and the memory from `begin` to `end`: a cell holds an object or is raw.
pub record FcQueue {ℓ} (A : Type ℓ) : Type ℓ where
  pub head : ℕ
  pub tail : ℕ
  pub begin : ℕ
  pub end : ℕ
  pub cells : List (Option A)

module _ {ℓ} {A : Type ℓ} where
  -- The default constructor: null pointers.
  abbrev pub default : FcQueue A
  default = record { head = 0; tail = 0; begin = 0; end = 0; cells = [] }

  abbrev pub increment : FcQueue A → ℕ → ℕ
  increment q ptr = if leb q.end (ptr + 1) then q.begin else ptr + 1

  abbrev pub decrement : FcQueue A → ℕ → ℕ
  decrement q ptr = sub_size (if ptr == q.begin then q.end else ptr) 1

  abbrev pub empty : FcQueue A → Bool
  empty q = q.head == q.tail

  abbrev pub full : FcQueue A → Bool
  full q = q.head == increment q q.tail

  abbrev pub capacity : FcQueue A → ℕ
  capacity q = sub_size (q.end - q.begin) 1

  -- `dist` is a signed difference; `_M_end - _M_begin` is added where it is negative.
  abbrev pub size : FcQueue A → ℕ
  size q = if ltb q.tail q.head then q.tail + (q.end - q.begin) - q.head else q.tail - q.head

  -- The cell at an address, of which there is none outside the memory.
  abbrev pub cell : FcQueue A → ℕ → Result (Option A)
  cell q ptr =
      if leb q.begin ptr then from_option fault (get_elem? q.cells (ptr - q.begin)) else err fault

  -- `*ptr`: the object at an address.
  abbrev pub object : FcQueue A → ℕ → Result A
  object q ptr = do c ← cell q ptr; from_option fault c

  -- `allocator_traits::construct` makes an object in a raw cell, and `destroy` ends one.
  unfoldable pub construct : ℕ → A → FcQueue A → Result (FcQueue A)
  construct ptr value q = do
    c ← cell q ptr
    elim c [
      | none ↦ ok (record q { cells = set q.cells (ptr - q.begin) (some value) })
      | some _ ↦ err fault
    ]

  unfoldable pub destroy : ℕ → FcQueue A → Result (FcQueue A)
  destroy ptr q = do _ ← object q ptr; ok (record q { cells = set q.cells (ptr - q.begin) none })

  unfoldable pub front : FcQueue A → Result A
  front q = require (not (empty q)) assertion >> object q q.head

  unfoldable pub back : FcQueue A → Result A
  back q = require (not (empty q)) assertion >> object q (decrement q q.tail)

  unfoldable pub pop : FcQueue A → Result (FcQueue A)
  pop q = do
    require (not (empty q)) assertion
    q' ← destroy q.head q
    ok (record q' { head = increment q' q'.head })

  unfoldable pub push : A → FcQueue A → Result (FcQueue A)
  push value q = do
    require (ltb 0 (capacity q)) assertion
    q' ← construct q.tail value q
    q'' ← (if full q' then pop q' else ok q')
    ok (record q'' { tail = increment q'' q''.tail })

  unfoldable pub write : A → FcQueue A → Result (Bool × FcQueue A)
  write value q =
      require (ltb 0 (capacity q)) assertion
      >> (let new_tail = increment q q.tail in
          if new_tail == q.head
          then ok (false, q)
          else do q' ← construct q.tail value q; ok (true, record q' { tail = new_tail }))

  -- The element goes to `dest`; there is none when the queue is empty.
  unfoldable pub read : FcQueue A → Result (Option A × FcQueue A)
  read q = if empty q then ok (none, q) else do
    dest ← object q q.head
    q' ← destroy q.head q
    ok (some dest, record q' { head = increment q' q'.head })

  -- `while (ptr != tail)`, one step for each element; the cells of the queue are fuel enough.
  unfoldable pub contains_loop : (A → Bool) → ℕ → ℕ → FcQueue A → Result Bool
  contains_loop same zero ptr q = err fault
  contains_loop same (suc fuel) ptr q = elim (ptr == q.tail) [
    | true ↦ ok false
    | false ↦ do
      value ← object q ptr
      elim (same value) [ true ↦ ok true | false ↦ contains_loop same fuel (increment q ptr) q ]
  ]

  -- `same` is the comparison with the value that is looked for.
  unfoldable pub contains : (A → Bool) → FcQueue A → Result Bool
  contains same q = contains_loop same (length q.cells + 1) q.head q

  -- `swap`, of this queue and another.
  unfoldable pub swap : FcQueue A → FcQueue A → FcQueue A × FcQueue A
  swap q rhs = (rhs, q)

  unfoldable pub clear_loop : ℕ → ℕ → FcQueue A → Result (FcQueue A)
  clear_loop zero ptr q = err fault
  clear_loop (suc fuel) ptr q = elim (ptr == q.tail) [
    | true ↦ ok (record q { head = q.begin; tail = q.begin })
    | false ↦ do q' ← destroy ptr q; clear_loop fuel (increment q' ptr) q'
  ]

  unfoldable pub clear : FcQueue A → Result (FcQueue A)
  clear q = clear_loop (length q.cells + 1) q.head q

  -- `_M_head` and `_M_tail` keep their values.
  unfoldable pub deallocate : FcQueue A → FcQueue A
  deallocate q = record q { begin = 0; end = 0; cells = [] }

  -- `while (ptr != tail)`: each element of `rhs` is pushed.
  unfoldable pub copy_loop : ℕ → ℕ → FcQueue A → FcQueue A → Result (FcQueue A)
  copy_loop zero ptr rhs q = err fault
  copy_loop (suc fuel) ptr rhs q = elim (ptr == rhs.tail) [
    | true ↦ ok q
    | false ↦ do
      value ← object rhs ptr
      q' ← push value q
      copy_loop fuel (increment rhs ptr) rhs q'
  ]

  unfoldable pub copy_elements : FcQueue A → FcQueue A → Result (FcQueue A)
  copy_elements rhs q = copy_loop (length rhs.cells + 1) rhs.head rhs q

  -- `allocator_traits::allocate` gives the address of raw memory, or throws `bad_alloc`.
  module _ (allocate : ℕ → Option ℕ) where
    unfoldable pub initialize_capacity : ℕ → FcQueue A → Result (FcQueue A)
    initialize_capacity max_size q =
        if max_size == 0 then ok q else if add_size max_size 1 == 0 then err bad_alloc else do
          begin ← from_option bad_alloc (allocate (max_size + 1))
          ok (record {
            head = begin;
            tail = begin;
            begin = begin;
            end = begin + max_size + 1;
            cells = replicate (max_size + 1) none;
          })

    -- `fc_queue(size_type max_size)`.
    unfoldable pub with_capacity : ℕ → Result (FcQueue A)
    with_capacity max_size =
        require (not (max_size == 0)) assertion >> initialize_capacity max_size default

    -- The copy constructor.
    unfoldable pub copy : FcQueue A → Result (FcQueue A)
    copy rhs = do q ← with_capacity (capacity rhs); copy_elements rhs q

    -- `operator=(const fc_queue&)`, of a queue that is another object than `rhs`.
    unfoldable pub assign : FcQueue A → FcQueue A → Result (FcQueue A)
    assign q rhs = do
      cleared ← clear q
      ready ←
          (if capacity cleared == capacity rhs
            then ok cleared
            else initialize_capacity (capacity rhs) (deallocate cleared))
      copy_elements rhs ready

  -- `move_container`: the new queue, and what is left of the old one.
  unfoldable pub move_container : FcQueue A → FcQueue A × FcQueue A
  move_container rhs = (rhs, default)

  -- `operator=(fc_queue&&)`, of a queue that is another object than `rhs`.
  unfoldable pub move_assign : FcQueue A → FcQueue A → Result (FcQueue A × FcQueue A)
  move_assign q rhs = do cleared ← clear q; ok (move_container rhs)
