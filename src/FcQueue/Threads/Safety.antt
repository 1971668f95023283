-- ===== src/FcQueue/Threads/Safety.antt =====
-- Schedules of steps of the two threads, from an empty queue on.
use nvwa.Common.{◌<◌, List, [], ◌∷◌, ◌++◌, length, ok, ◌≡◌, refl}
use nvwa.FcQueue.Defs.{FcQueue, capacity}
use nvwa.FcQueue.Valid.{Contains}
use nvwa.FcQueue.Threads.{System, Turn, produce, consume, step, schedule, start}
use nvwa.FcQueue.Threads.Inv.{Inv, Goes, Contains-Inv}
use nvwa.FcQueue.Threads.Produce.{produce-Goes}
use nvwa.FcQueue.Threads.Consume.{consume-Goes}

module _ {ℓ} {A : Type ℓ} where
  -- Whatever step is next, of either thread, it meets no fault and keeps the invariant.
  step-Goes : (s : System A) (turn : Turn A) → Inv s → Goes (step s turn)
  unfolding step
  step-Goes s (produce v) i = produce-Goes s v s.producer i
  step-Goes s consume i = consume-Goes s s.consumer i

  schedule-Goes : (turns : List (Turn A)) (s : System A) → Inv s → Goes (schedule turns s)
  unfolding schedule
  schedule-Goes [] s i = record { after = s; returns = refl; inv = i }
  schedule-Goes (turn ∷ turns) s i =
      let one = step-Goes s turn i in
      let rest = schedule-Goes turns one.after one.inv in
      record { after = rest.after; returns = rw (one.returns, rest.returns); inv = rest.inv }

  -- Under every schedule of one producer calling write and one consumer calling read, from an
  -- empty queue in order whose capacity is positive, as write demands, no assertion fails and no
  -- step makes an object in a cell that has one, or reads or destroys one in a cell that has
  -- none, and what has been received is the front of what has been sent, with fewer than the
  -- number of cells behind.
  pub schedule-in_order :
      (turns : List (Turn A)) {q : FcQueue A}
      → Contains q []
      → 0 < capacity q
      → (s : System A) × (schedule turns (start q) ≡ ok s)
        × ((pending : List A) × (s.sent ≡ s.received ++ pending)
            × (length pending < length s.queue.cells))
  schedule-in_order turns {q} c big =
      let done = schedule-Goes turns (start q) (Contains-Inv q c big) in
      (done.after, done.returns, (done.inv.pending, done.inv.ordered, done.inv.room))
