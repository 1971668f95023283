-- ===== src/FcQueue/Threads.antt =====
-- `write` and `read` of nvwa/fc_queue.h in their atomic form, called by one producer and one
-- consumer. Each access to a shared variable or cell is a step of its own, and the steps of the two
-- threads interleave in any order. Accesses take effect in the order of the steps: the release
-- stores and acquire loads are taken to be visible at once.
pub mod Inv
mod Produce
mod Consume
pub mod Safety
use nvwa.Common.{
  ℕ, zero, suc, ◌+◌, ◌-◌, ◌≤◌, ◌<◌, ◌==◌, ltb, leb, if◌then◌else◌, Bool, true, false, not, List, [],
  ◌∷◌, ◌++◌, length, get_elem?, set, Option, none, some, Result, ok, ◌≡◌, refl, ◌∙◌, ap, arith,
  ◌>>=◌, ◌>>◌, require, assertion,
}
use nvwa.FcQueue.Defs.{FcQueue, capacity, increment, object, construct, destroy}

module _ {ℓ} (A : Type ℓ) where
  -- Where the producer is in `write`, with the locals `tail` and the value to write.
  pub data Producer : Type ℓ where
    idle : Producer
    loaded : ℕ → A → Producer
    room : ℕ → A → Producer
    constructed : ℕ → A → Producer

  -- Where the consumer is in `read`, with the locals `head` and what went to `dest`.
  pub data Consumer : Type ℓ where
    idle : Consumer
    loaded : ℕ → Consumer
    some_left : ℕ → Consumer
    moved : ℕ → A → Consumer
    destroyed : ℕ → A → Consumer

  -- The shared queue, the threads, and the elements that calls of `write` and of `read` that
  -- have returned true put in and took out.
  pub record System : Type ℓ where
    pub queue : FcQueue A
    pub producer : Producer
    pub consumer : Consumer
    pub sent : List A
    pub received : List A

  -- A step of the producer, which calls `write` with the given value when it is idle, or of the
  -- consumer.
  pub data Turn : Type ℓ where
    produce : A → Turn
    consume : Turn

module _ {ℓ} {A : Type ℓ} where
  unfoldable pub produce_step : System A → A → Producer A → Result (System A)
  produce_step s v Producer.idle =
      require (ltb 0 (capacity s.queue)) assertion
      >> ok (record s { producer = Producer.loaded s.queue.tail v })
  produce_step s v (Producer.loaded tail w) = ok (record s {
    producer =
        if increment s.queue tail == s.queue.head then Producer.idle else Producer.room tail w;
  })
  produce_step s v (Producer.room tail w) = do
    q ← construct tail w s.queue
    ok (record s { queue = q; producer = Producer.constructed tail w })
  produce_step s v (Producer.constructed tail w) = ok (record s {
    queue = record s.queue { tail = increment s.queue tail };
    producer = Producer.idle;
    sent = s.sent ++ w ∷ [];
  })

  unfoldable pub consume_step : System A → Consumer A → Result (System A)
  consume_step s Consumer.idle = ok (record s { consumer = Consumer.loaded s.queue.head })
  consume_step s (Consumer.loaded head) = ok (record s {
    consumer = if head == s.queue.tail then Consumer.idle else Consumer.some_left head;
  })
  consume_step s (Consumer.some_left head) = do
    dest ← object s.queue head
    ok (record s { consumer = Consumer.moved head dest })
  consume_step s (Consumer.moved head dest) = do
    q ← destroy head s.queue
    ok (record s { queue = q; consumer = Consumer.destroyed head dest })
  consume_step s (Consumer.destroyed head dest) = ok (record s {
    queue = record s.queue { head = increment s.queue head };
    consumer = Consumer.idle;
    received = s.received ++ dest ∷ [];
  })

  unfoldable pub step : System A → Turn A → Result (System A)
  step s (produce v) = produce_step s v s.producer
  step s consume = consume_step s s.consumer

  -- The turns of a schedule, in order.
  unfoldable pub schedule : List (Turn A) → System A → Result (System A)
  schedule [] s = ok s
  schedule (turn ∷ turns) s = do s' ← step s turn; schedule turns s'

  -- Both threads outside their calls, nothing counted.
  abbrev pub start : FcQueue A → System A
  start q = record {
    queue = q;
    producer = Producer.idle;
    consumer = Consumer.idle;
    sent = [];
    received = [];
  }
