-- ===== src/FcQueue/Threads/Produce.antt =====
-- What a step of the producer does to the queue and the invariant.
use mathlib.Core.List.{append-nil, append_assoc}
use nvwa.Common.{
  suc, ltb, true, ◌-◌, ◌<◌, ◌==◌, [], ◌∷◌, ◌++◌, length, set, none, some, ok, ◌≡◌, refl, ◌∙◌, ap,
  sym, arith, length-set, length-append, Bool-cases, inl, inr,
}
use nvwa.FcQueue.Defs.{capacity, increment, cell, construct}
use nvwa.FcQueue.Valid.{Stores, place, Stores-tail, raw-place, Stores-construct}
use nvwa.FcQueue.Threads.{Producer, System, produce_step}
use nvwa.FcQueue.Threads.Inv.{Inv, Goes, front-tail, front-snoc, front-same, front-length}

module _ {ℓ} {A : Type ℓ} where
  -- From any point of `write`.
  pub produce-Goes :
      (s : System A) (v : A) (p : Producer A)
      → Inv (record s { producer = p })
      → Goes (produce_step s v p)
  unfolding produce_step construct
  produce-Goes s v Producer.idle i = record {
    after = record s { producer = Producer.loaded s.queue.tail v };
    returns = let big : ltb 0 (capacity s.queue) ≡ true = ground (arith, i.asserted) in rw big refl;
    inv = record {
      pending = i.pending;
      vhead = i.vhead;
      vitems = i.vitems;
      extra = i.extra;
      ordered = i.ordered;
      front = i.front;
      back = (i.back, refl);
      stores = i.stores;
      head_above = i.head_above;
      head_below = i.head_below;
      asserted = i.asserted;
      tail_at = i.tail_at;
      room = i.room;
    };
  }
  produce-Goes s v (Producer.loaded t w) i =
      elim (Bool-cases (increment s.queue t == s.queue.head)) [
        | inl full ↦ record {
          after = record s { producer = Producer.idle };
          returns = rw full;
          inv = record {
            pending = i.pending;
            vhead = i.vhead;
            vitems = i.vitems;
            extra = i.extra;
            ordered = i.ordered;
            front = i.front;
            back = i.back.0;
            stores = i.stores;
            head_above = i.head_above;
            head_below = i.head_below;
            asserted = i.asserted;
            tail_at = i.tail_at;
            room = i.room;
          };
        }
        | inr more ↦ record {
          after = record s { producer = Producer.room t w };
          returns = rw more;
          inv = record {
            pending = i.pending;
            vhead = i.vhead;
            vitems = i.vitems;
            extra = i.extra;
            ordered = i.ordered;
            front = i.front;
            back = (
              i.back.0,
              i.back.1,
              ground
                  (arith, i.back.1, i.tail_at, i.room, i.stores.sized, i.head_above, i.head_below),
            );
            stores = i.stores;
            head_above = i.head_above;
            head_below = i.head_below;
            asserted = i.asserted;
            tail_at = i.tail_at;
            room = i.room;
          };
        }
      ]
  produce-Goes s v (Producer.room t w) i =
      let q = record s.queue { head = i.vhead } in
      let items : i.vitems ++ i.extra ≡ i.vitems = rw i.back.0 (append-nil i.vitems) in
      let c : Stores q i.vitems = rw items at i.stores in
      let at_end : place q (length i.vitems) ≡ t =
        front-tail s.queue i.pending i.vhead i.vitems s.consumer i.front i.head_above i.head_below
          i.stores.sized i.room
        ∙ sym (i.back.1 ∙ i.tail_at) in
      let short : length i.vitems < length s.queue.cells =
        omega (arith, i.room, front-length s.queue i.pending i.vhead i.vitems s.consumer i.front) in
      let raw : cell s.queue t ≡ ok none = rw at_end at (raw-place c short) in
      record {
        after = record s {
          queue = record s.queue { cells = set s.queue.cells (t - s.queue.begin) (some w) };
          producer = Producer.constructed t w;
        };
        returns = rw raw;
        inv = record {
          pending = i.pending;
          vhead = i.vhead;
          vitems = i.vitems;
          extra = w ∷ [];
          ordered = i.ordered;
          front =
              front-same s.queue s.queue.tail (set s.queue.cells (t - s.queue.begin) (some w))
                i.pending i.vhead i.vitems s.consumer i.front;
          back = (
            refl,
            i.back.1,
            omega (arith, i.back.2, length-set s.queue.cells (t - s.queue.begin) (some w)),
          );
          stores = rw at_end at (Stores-construct c w short);
          head_above = i.head_above;
          head_below = i.head_below;
          asserted = i.asserted;
          tail_at = i.tail_at;
          room = omega (arith, i.room, length-set s.queue.cells (t - s.queue.begin) (some w));
        };
      }
  produce-Goes s v (Producer.constructed t w) i =
      let count = length-append i.pending (w ∷ []) in
      record {
        after = record s {
          queue = record s.queue { tail = increment s.queue t };
          producer = Producer.idle;
          sent = s.sent ++ w ∷ [];
        };
        returns = refl;
        inv = record {
          pending = i.pending ++ w ∷ [];
          vhead = i.vhead;
          vitems = i.vitems ++ w ∷ [];
          extra = [];
          ordered = ap (λ l. l ++ w ∷ []) i.ordered ∙ append_assoc s.received i.pending (w ∷ []);
          front =
              front-same s.queue (increment s.queue t) s.queue.cells (i.pending ++ w ∷ []) i.vhead
                (i.vitems ++ w ∷ []) s.consumer
                (front-snoc s.queue i.pending i.vhead i.vitems s.consumer w i.front);
          back = refl;
          stores = rw (append-nil, ← i.back.0) (Stores-tail _ (increment s.queue t) i.stores);
          head_above = i.head_above;
          head_below = i.head_below;
          asserted = i.asserted;
          tail_at =
              ground
                (arith, i.back.1, i.back.2, i.tail_at, i.stores.sized, i.head_above, i.head_below)
              ∙ ap (place s.queue) {x = suc (length i.pending)} (omega (arith, count));
          room = omega (arith, i.back.2, count);
        };
      }
