-- ===== src/FcQueue/Tests.antt =====
-- Queues of numbers to run the code on, and the theorems at them.
use nvwa.Common.{
  ℕ, zero, suc, ◌-◌, ◌<◌, ltb, if◌then◌else◌, get_elem?, true, false, List, [], ◌∷◌, ◌++◌, length,
  Option, none, some, ok, err, bad_alloc, ◌≡◌, refl, ◌∙◌, arith,
}
use nvwa.FcQueue.Defs.{FcQueue, default, assign}
use nvwa.FcQueue.Valid.{Contains, place}
use nvwa.FcQueue.Copy.{IsAllocator, Copies, assign-Copies, assign-default-throws}
use nvwa.FcQueue.Script.{
  Call, pushes, writes, reads, asks_size, done, wrote, got, sized, run, expected, run-expected,
}
use nvwa.FcQueue.Threads.{Turn, produce, consume, System, schedule, start}
use nvwa.FcQueue.Threads.Safety.{schedule-in_order}

-- 8, then 9, round the end of the memory; full.
abbrev wrapped : FcQueue ℕ
wrapped = record {
  head = 102;
  tail = 101;
  begin = 100;
  end = 103;
  cells = some 9 ∷ none ∷ some 8 ∷ [];
}

wrapped_places :
    (k : ℕ)
    → k < 3
    → get_elem? wrapped.cells (place wrapped k - 100) ≡ some (get_elem? (8 ∷ 9 ∷ []) k)
wrapped_places zero h = refl
wrapped_places (suc zero) h = refl
wrapped_places (suc (suc zero)) h = refl
wrapped_places (suc (suc (suc k))) h = absurd (omega arith)

wrapped-Contains : Contains wrapped (8 ∷ 9 ∷ [])
wrapped-Contains = record {
  stores = record {
    sized = refl;
    small = omega arith;
    allocated = omega arith;
    head_above = omega arith;
    head_below = omega arith;
    fits = omega arith;
    held = wrapped_places;
  };
  tail_at = refl;
  room = omega arith;
}

abbrev vacant : FcQueue ℕ
vacant = record { head = 7; tail = 7; begin = 7; end = 9; cells = none ∷ none ∷ [] }

vacant_places :
    (k : ℕ) → k < 2 → get_elem? vacant.cells (place vacant k - 7) ≡ some (get_elem? [] k)
vacant_places zero h = refl
vacant_places (suc zero) h = refl
vacant_places (suc (suc k)) h = absurd (omega arith)

vacant-Contains : Contains vacant []
vacant-Contains = record {
  stores = record {
    sized = refl;
    small = omega arith;
    allocated = omega arith;
    head_above = omega arith;
    head_below = omega arith;
    fits = omega arith;
    held = vacant_places;
  };
  tail_at = refl;
  room = omega arith;
}

abbrev script : List (Call ℕ)
script = pushes 1 ∷ writes 2 ∷ reads ∷ writes 3 ∷ asks_size ∷ reads ∷ reads ∷ reads ∷ []

abbrev at_hundred : ℕ → Option ℕ
at_hundred n = if ltb n 1000 then some 100 else none

at_hundred-IsAllocator : IsAllocator at_hundred
at_hundred-IsAllocator = record { not_null = λ n a e. ground arith; inside = λ n a e. ground arith }

run-script :
    run script wrapped
    ≡ ok (
        done
        ∷ wrote false
        ∷ got (some 9)
        ∷ wrote true
        ∷ sized 2
        ∷ got (some 1)
        ∷ got (some 3)
        ∷ got none
        ∷ [])
run-script = run-expected script wrapped-Contains (omega arith) ∙ unfold expected in refl

assign-Copies_example : Copies 2 (assign at_hundred vacant wrapped) (8 ∷ 9 ∷ [])
assign-Copies_example =
    assign-Copies at_hundred-IsAllocator vacant-Contains wrapped-Contains (omega arith) refl

assign-default-throws_example : assign at_hundred wrapped default ≡ err bad_alloc
assign-default-throws_example = assign-default-throws at_hundred wrapped-Contains

run-expected_example : run script wrapped ≡ ok (expected 2 script (8 ∷ 9 ∷ []))
run-expected_example = run-expected script wrapped-Contains (omega arith)

-- A write and a read of an empty queue, interleaved.
abbrev turns : List (Turn ℕ)
turns =
    produce 4
    ∷ consume
    ∷ produce 4
    ∷ produce 4
    ∷ consume
    ∷ produce 4
    ∷ consume
    ∷ consume
    ∷ consume
    ∷ consume
    ∷ consume
    ∷ []

schedule-in_order_example :
    (s : System ℕ) × (schedule turns (start vacant) ≡ ok s)
    × ((pending : List ℕ) × (s.sent ≡ s.received ++ pending)
        × (length pending < length s.queue.cells))
schedule-in_order_example = schedule-in_order turns vacant-Contains (omega arith)
