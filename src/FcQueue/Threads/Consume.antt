-- ===== src/FcQueue/Threads/Consume.antt =====
-- What a step of the consumer does to the queue and the invariant.
use mathlib.Core.List.{append_assoc}
use nvwa.Common.{
  ℕ, suc, ◌-◌, ◌<◌, ◌==◌, List, [], ◌∷◌, ◌++◌, length, set, none, some, ok, ◌≡◌, refl, ◌∙◌, ap, sym,
  subst, arith, length-set, Bool-cases, inl, inr,
}
use nvwa.FcQueue.Defs.{FcQueue, increment, object}
use nvwa.FcQueue.Valid.{Stores, object-head, destroy-ok, Stores-destroy}
use nvwa.FcQueue.Refine.{head?}
use nvwa.FcQueue.Threads.{Consumer, System, consume_step}
use nvwa.FcQueue.Threads.Inv.{Inv, Goes, back-less}

module _ {ℓ} {A : Type ℓ} where
  aligned :
      (q : FcQueue A) (vhead : ℕ) (vitems pending extra : List A)
      → vhead ≡ q.head
      → vitems ≡ pending
      → Stores (record q { head = vhead }) (vitems ++ extra)
      → Stores q (pending ++ extra)
  aligned q vhead vitems pending extra e e' c =
      subst (λ l. Stores q (l ++ extra)) e'
        (subst (λ h. Stores (record q { head = h }) (vitems ++ extra)) e c)

  first-object :
      (q : FcQueue A) (pending extra : List A)
      → Stores q (pending ++ extra)
      → 0 < length pending
      → (x : A) × (object q q.head ≡ ok x) × (head? pending ≡ some x)
  first-object q [] extra c some_left = absurd (omega arith)
  first-object q (x ∷ rest) extra c some_left = (x, object-head c, refl)

  uncons : (xs : List A) (x : A) → head? xs ≡ some x → (rest : List A) × (x ∷ rest ≡ xs)
  uncons [] x e = cc
  uncons (y ∷ ys) x e = (ys, cc)

  -- From any point of `read`.
  pub consume-Goes :
      (s : System A) (c : Consumer A) → Inv (record s { consumer = c }) → Goes (consume_step s c)
  unfolding consume_step
  consume-Goes s Consumer.idle i = record {
    after = record s { consumer = Consumer.loaded s.queue.head };
    returns = refl;
    inv = record {
      pending = i.pending;
      vhead = i.vhead;
      vitems = i.vitems;
      extra = i.extra;
      ordered = i.ordered;
      front = (i.front.0, i.front.1, refl);
      back = i.back;
      stores = i.stores;
      head_above = i.head_above;
      head_below = i.head_below;
      asserted = i.asserted;
      tail_at = i.tail_at;
      room = i.room;
    };
  }
  consume-Goes s (Consumer.loaded h) i = elim (Bool-cases (h == s.queue.tail)) [
    | inl none_left ↦ record {
      after = record s { consumer = Consumer.idle };
      returns = rw none_left;
      inv = record {
        pending = i.pending;
        vhead = i.vhead;
        vitems = i.vitems;
        extra = i.extra;
        ordered = i.ordered;
        front = (i.front.0, i.front.1);
        back = i.back;
        stores = i.stores;
        head_above = i.head_above;
        head_below = i.head_below;
        asserted = i.asserted;
        tail_at = i.tail_at;
        room = i.room;
      };
    }
    | inr more ↦ record {
      after = record s { consumer = Consumer.some_left h };
      returns = rw more;
      inv = record {
        pending = i.pending;
        vhead = i.vhead;
        vitems = i.vitems;
        extra = i.extra;
        ordered = i.ordered;
        front =
            (i.front.0, i.front.1, i.front.2, ground (arith, i.front.2, i.tail_at, i.head_below));
        back = i.back;
        stores = i.stores;
        head_above = i.head_above;
        head_below = i.head_below;
        asserted = i.asserted;
        tail_at = i.tail_at;
        room = i.room;
      };
    }
  ]
  consume-Goes s (Consumer.some_left h) i =
      let c = aligned s.queue i.vhead i.vitems i.pending i.extra i.front.0 i.front.1 i.stores in
      let (x, got, first) = first-object s.queue i.pending i.extra c i.front.3 in
      record {
        after = record s { consumer = Consumer.moved h x };
        returns = rw (i.front.2, got);
        inv = record {
          pending = i.pending;
          vhead = i.vhead;
          vitems = i.vitems;
          extra = i.extra;
          ordered = i.ordered;
          front = (i.front.0, i.front.1, i.front.2, first);
          back = i.back;
          stores = i.stores;
          head_above = i.head_above;
          head_below = i.head_below;
          asserted = i.asserted;
          tail_at = i.tail_at;
          room = i.room;
        };
      }
  consume-Goes s (Consumer.moved h x) i =
      let (rest, all) = uncons i.pending x i.front.3 in
      let c =
        aligned s.queue i.vhead i.vitems (x ∷ rest) i.extra i.front.0 (i.front.1 ∙ sym all)
          i.stores in
      let left = set s.queue.cells (s.queue.head - s.queue.begin) none in
      let same = length-set s.queue.cells (s.queue.head - s.queue.begin) none in
      record {
        after = record s {
          queue = record s.queue { cells = left };
          consumer = Consumer.destroyed h x;
        };
        returns = rw (i.front.2, destroy-ok c);
        inv = record {
          pending = i.pending;
          vhead = increment s.queue s.queue.head;
          vitems = rest;
          extra = i.extra;
          ordered = i.ordered;
          front = (refl, all, i.front.2);
          back =
              back-less s.queue (record s.queue { cells = left }) i.pending i.pending i.extra
                s.producer i.back refl same (omega arith);
          stores = Stores-destroy c;
          head_above = i.head_above;
          head_below = i.head_below;
          asserted = i.asserted;
          tail_at = i.tail_at;
          room = omega (arith, i.room, same);
        };
      }
  consume-Goes s (Consumer.destroyed h x) i =
      let moved : i.vhead ≡ increment s.queue h =
        i.front.0 ∙ ap (increment s.queue) (sym i.front.2) in
      let count : suc (length i.vitems) ≡ length i.pending = ap length i.front.1 in
      let queue = record s.queue { head = increment s.queue h } in
      record {
        after = record s {
          queue = queue;
          consumer = Consumer.idle;
          received = s.received ++ x ∷ [];
        };
        returns = refl;
        inv = record {
          pending = i.vitems;
          vhead = i.vhead;
          vitems = i.vitems;
          extra = i.extra;
          ordered =
              i.ordered
              ∙ (ap (λ l. s.received ++ l) (sym i.front.1)
                  ∙ sym (append_assoc s.received (x ∷ []) i.vitems));
          front = (moved, refl);
          back =
              back-less s.queue queue i.pending i.vitems i.extra s.producer i.back refl refl
                (omega (arith, count));
          stores = i.stores;
          head_above = omega (arith, i.stores.head_above, moved);
          head_below = omega (arith, i.stores.head_below, moved);
          asserted = i.asserted;
          tail_at = ground (
            arith, i.tail_at, count, i.front.2, i.room, i.stores.sized, i.head_above, i.head_below,
          );
          room = omega (arith, i.room, count);
        };
      }
