-- ===== src/FcQueue/Threads/Inv.antt =====
-- What is true of the queue and the two threads between any two steps.
use nvwa.Common.{
  ℕ, suc, ◌+◌, ◌≤◌, ◌<◌, List, [], ◌∷◌, ◌++◌, length, Option, some, Result, ok, ◌≡◌, refl, ◌∙◌, ap,
  sym, arith, length-append,
}
use nvwa.FcQueue.Defs.{FcQueue, capacity, increment}
use nvwa.FcQueue.Valid.{Stores, Contains, place}
use nvwa.FcQueue.Refine.{head?}
use nvwa.FcQueue.Threads.{Producer, Consumer, System}

module _ {ℓ} {A : Type ℓ} where
  -- The consumer's locals, with the place `vhead` from which on the cells are in order and the
  -- elements `vitems` there: one less than are pending, once the first of them is destroyed.
  abbrev pub FrontOk : FcQueue A → List A → Consumer A → ℕ → List A → Type ℓ
  FrontOk q pending Consumer.idle vhead vitems = (vhead ≡ q.head) × (vitems ≡ pending)
  FrontOk q pending (Consumer.loaded h) vhead vitems =
      (vhead ≡ q.head) × (vitems ≡ pending) × (h ≡ q.head)
  FrontOk q pending (Consumer.some_left h) vhead vitems =
      (vhead ≡ q.head) × (vitems ≡ pending) × (h ≡ q.head) × (0 < length pending)
  FrontOk q pending (Consumer.moved h x) vhead vitems =
      (vhead ≡ q.head) × (vitems ≡ pending) × (h ≡ q.head) × (head? pending ≡ some x)
  FrontOk q pending (Consumer.destroyed h x) vhead vitems =
      (vhead ≡ increment q q.head) × (x ∷ vitems ≡ pending) × (h ≡ q.head)

  -- The producer's locals, with the element that is made and not yet counted.
  abbrev pub BackOk : FcQueue A → List A → Producer A → List A → Type ℓ
  BackOk q pending Producer.idle extra = extra ≡ []
  BackOk q pending (Producer.loaded t w) extra = (extra ≡ []) × (t ≡ q.tail)
  BackOk q pending (Producer.room t w) extra =
      (extra ≡ []) × (t ≡ q.tail) × (suc (length pending) < length q.cells)
  BackOk q pending (Producer.constructed t w) extra =
      (extra ≡ w ∷ []) × (t ≡ q.tail) × (suc (length pending) < length q.cells)

  -- `pending` has been sent and not received.
  pub record Inv (s : System A) : Type ℓ where
    pub pending : List A
    pub vhead : ℕ
    pub vitems : List A
    pub extra : List A
    pub ordered : s.sent ≡ s.received ++ pending
    pub front : FrontOk s.queue pending s.consumer vhead vitems
    pub back : BackOk s.queue pending s.producer extra
    pub stores : Stores (record s.queue { head = vhead }) (vitems ++ extra)
    pub head_above : s.queue.begin ≤ s.queue.head
    pub head_below : s.queue.head < s.queue.end
    pub tail_at : s.queue.tail ≡ place s.queue (length pending)
    pub room : length pending < length s.queue.cells
    pub asserted : 0 < capacity s.queue

  -- The step meets no fault, and the system is in order after it.
  pub record Goes (r : Result (System A)) : Type ℓ where
    pub after : System A
    pub returns : r ≡ ok after
    pub inv : Inv after

  pub Contains-Inv :
      (q : FcQueue A)
      → Contains q []
      → 0 < capacity q
      → Inv (record {
        queue = q;
        producer = Producer.idle;
        consumer = Consumer.idle;
        sent = [];
        received = [];
      })
  Contains-Inv q c big = record {
    pending = [];
    vhead = q.head;
    vitems = [];
    extra = [];
    ordered = refl;
    front = (refl, refl);
    back = refl;
    stores = c.stores;
    head_above = c.head_above;
    head_below = c.head_below;
    tail_at = c.tail_at;
    room = c.room;
    asserted = big;
  }

  -- The cells that are in order end where the shared queue does.
  pub front-tail :
      (q : FcQueue A) (pending : List A) (vhead : ℕ) (vitems : List A) (c : Consumer A)
      → FrontOk q pending c vhead vitems
      → q.begin ≤ q.head
      → q.head < q.end
      → q.end ≡ q.begin + length q.cells
      → length pending < length q.cells
      → place (record q { head = vhead }) (length vitems) ≡ place q (length pending)
  front-tail q pending vhead vitems Consumer.idle f p r e room = rw (f.0, f.1)
  front-tail q pending vhead vitems (Consumer.loaded h) f p r e room = rw (f.0, f.1)
  front-tail q pending vhead vitems (Consumer.some_left h) f p r e room = rw (f.0, f.1)
  front-tail q pending vhead vitems (Consumer.moved h x) f p r e room = rw (f.0, f.1)
  front-tail q pending vhead vitems (Consumer.destroyed h x) f p r e room =
      ground (arith, ap length f.1)

  -- One more element behind those that are pending.
  pub front-snoc :
      (q : FcQueue A) (pending : List A) (vhead : ℕ) (vitems : List A) (c : Consumer A) (w : A)
      → FrontOk q pending c vhead vitems
      → FrontOk q (pending ++ w ∷ []) c vhead (vitems ++ w ∷ [])
  front-snoc q pending vhead vitems Consumer.idle w f = (f.0, rw f.1)
  front-snoc q pending vhead vitems (Consumer.loaded h) w f = (f.0, rw f.1, f.2)
  front-snoc q pending vhead vitems (Consumer.some_left h) w f =
      (f.0, rw f.1, f.2, omega (arith, f.3, length-append pending (w ∷ [])))
  front-snoc q pending vhead vitems (Consumer.moved h x) w f =
      (f.0, rw f.1, f.2, head-snoc pending f.3)
    where
      head-snoc : (xs : List A) → head? xs ≡ some x → head? (xs ++ w ∷ []) ≡ some x
      head-snoc [] e = cc
      head-snoc (y ∷ ys) e = e
  front-snoc q pending vhead vitems (Consumer.destroyed h x) w f =
      (f.0, ap (λ l. l ++ w ∷ []) f.1, f.2)

  -- The producer does not depend on what the consumer changes.
  pub back-less :
      (q q' : FcQueue A) (pending pending' : List A) (extra : List A) (p : Producer A)
      → BackOk q pending p extra
      → q'.tail ≡ q.tail
      → length q'.cells ≡ length q.cells
      → length pending' ≤ length pending
      → BackOk q' pending' p extra
  back-less q q' pending pending' extra Producer.idle b e e' le = b
  back-less q q' pending pending' extra (Producer.loaded t w) b e e' le = (b.0, b.1 ∙ sym e)
  back-less q q' pending pending' extra (Producer.room t w) b e e' le =
      (b.0, b.1 ∙ sym e, omega (arith, b.2))
  back-less q q' pending pending' extra (Producer.constructed t w) b e e' le =
      (b.0, b.1 ∙ sym e, omega (arith, b.2))

  -- What the producer changes, the cells and `tail`, does not matter to the consumer's locals.
  pub front-same :
      (q : FcQueue A) (t : ℕ) (cells : List (Option A)) (pending : List A) (vhead : ℕ)
      (vitems : List A) (c : Consumer A)
      → FrontOk q pending c vhead vitems
      → FrontOk (record q { tail = t; cells = cells }) pending c vhead vitems
  front-same q t cells pending vhead vitems Consumer.idle f = f
  front-same q t cells pending vhead vitems (Consumer.loaded h) f = f
  front-same q t cells pending vhead vitems (Consumer.some_left h) f = f
  front-same q t cells pending vhead vitems (Consumer.moved h x) f = f
  front-same q t cells pending vhead vitems (Consumer.destroyed h x) f = f

  pub front-length :
      (q : FcQueue A) (pending : List A) (vhead : ℕ) (vitems : List A) (c : Consumer A)
      → FrontOk q pending c vhead vitems
      → length vitems ≤ length pending
  front-length q pending vhead vitems Consumer.idle f = omega (arith, ap length f.1)
  front-length q pending vhead vitems (Consumer.loaded h) f = omega (arith, ap length f.1)
  front-length q pending vhead vitems (Consumer.some_left h) f = omega (arith, ap length f.1)
  front-length q pending vhead vitems (Consumer.moved h x) f = omega (arith, ap length f.1)
  front-length q pending vhead vitems (Consumer.destroyed h x) f = omega (arith, ap length f.1)
