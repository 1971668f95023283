-- ===== src/FileLineReader/Bytes.antt =====
-- The loop of `read` over the buffered bytes gets the first line too.
use nvwa.Common.{
  max, ℕ, zero, suc, ◌+◌, ◌*◌, ◌≤◌, ◌<◌, ◌==◌, if◌then◌else◌, true, false, List, [], ◌∷◌, ◌++◌,
  length, take, drop, get_elem?, some, ok, ◌≡◌, refl, ap, ◌∙◌, sym, arith, Bool-cases, inl, inr,
  length-append, lt→ltb, take-append-drop,
}
use nvwa.FileLineReader.Defs.{
  FileLineReader, Output, write_pos, expanded, last_round, next_round, buffer_size, refilled,
  put_char, take_char, get_char, read_loop, pending,
}
use nvwa.FileLineReader.Lines.{line, rest, ends, ends-nil, line-nil, rest-nil}
use nvwa.FileLineReader.Reading.{Fetched, expanded-text, expanded-grown}
use mathlib.Core.List.{append_assoc, append-nil}

-- The bytes in the buffer are counted, and `_M_read_pos` is among them.
pub record IsValid (r : FileLineReader) : Type 0 where
  pub sized : r.size ≡ length r.buffer
  pub below : r.read_pos ≤ r.size

-- What `read` does not change before the line has been read.
pub record Same (r r' : FileLineReader) : Type 0 where
  pub same_delimiter : r'.delimiter ≡ r.delimiter
  pub same_strip : r'.strip_delimiter ≡ r.strip_delimiter
  pub same_offset : r'.offset ≡ r.offset

Same-trans : {r s t : FileLineReader} → Same r s → Same s t → Same r t
Same-trans first second = record {
  same_delimiter = second.same_delimiter ∙ first.same_delimiter;
  same_strip = second.same_strip ∙ first.same_strip;
  same_offset = second.same_offset ∙ first.same_offset;
}

drop-next :
    (xs : List ℕ) (i : ℕ)
    → i < length xs
    → (x : ℕ) × (get_elem? xs i ≡ some x) × (drop i xs ≡ x ∷ drop (suc i) xs)
drop-next [] i lt = elim lt [ ]
drop-next (x ∷ xs) zero lt = (x, refl, refl)
drop-next (x ∷ xs) (suc i) lt = drop-next xs i (omega (arith, lt))

pub drop-all : (xs : List ℕ) (i : ℕ) → length xs ≤ i → drop i xs ≡ []
drop-all [] zero le = refl
drop-all [] (suc i) le = refl
drop-all (x ∷ xs) zero le = elim le [ ]
drop-all (x ∷ xs) (suc i) le = drop-all xs i (omega (arith, le))

plus-one : (n : ℕ) → n + 1 ≡ suc n
plus-one n = omega arith

no-take : (xs : List ℕ) → length (take buffer_size xs) ≡ 0 → xs ≡ []
no-take [] none_left = refl
no-take (x ∷ xs) none_left = absurd (ground arith)

-- The next character that is left, if there is one.
data Next (r : FileLineReader) (output : Output) : Type 0 where
  at_end :
      (r' : FileLineReader)
      → get_char r output ≡ ok (last_round false output r')
      → Same r r'
      → IsValid r'
      → pending r ≡ []
      → pending r' ≡ []
      → Next r output
  char :
      (ch : ℕ) (next : FileLineReader)
      → get_char r output ≡ put_char ch output next
      → Same r next
      → IsValid next
      → pending r ≡ ch ∷ pending next
      → Next r output

take_char-put_char :
    (r : FileLineReader) (output : Output)
    → IsValid r
    → r.read_pos < r.size
    → (ch : ℕ) × (take_char r output ≡ put_char ch output (record r { read_pos = r.read_pos + 1 }))
      × (pending r ≡ ch ∷ pending (record r { read_pos = r.read_pos + 1 }))
unfolding take_char
take_char-put_char r output valid lt =
    let (ch, at, split) = drop-next r.buffer r.read_pos (omega (arith, lt, valid.sized)) in
    (ch, rw at refl, rw (split, plus-one r.read_pos) refl)

refilled-Same : (r : FileLineReader) → Same r (refilled r)
refilled-Same r = record { same_delimiter = refl; same_strip = refl; same_offset = refl }

refilled-IsValid : (r : FileLineReader) → IsValid (refilled r)
refilled-IsValid r = record { sized = refl; below = omega arith }

-- What `fread` moves to the buffer is still to be read.
refilled-pending : (r : FileLineReader) → pending (refilled r) ≡ r.stream
refilled-pending r = take-append-drop buffer_size r.stream

empty-stream : (r : FileLineReader) → (refilled r).size ≡ 0 → r.stream ≡ []
empty-stream r none_left = no-take r.stream none_left

get_char-Next : (r : FileLineReader) (output : Output) → IsValid r → Next r output
unfolding get_char
get_char-Next r output valid = elim (Bool-cases (r.read_pos == r.size)) [
  | inl used ↦
      let all_used : pending r ≡ r.stream =
        rw (drop-all r.buffer r.read_pos (ground (arith, valid.sized))) refl in
      elim (Bool-cases ((refilled r).size == 0)) [
        | inl none_left ↦
            let no_more : r.stream ≡ [] = empty-stream r (ground arith) in
            at_end (refilled r) (rw (used, none_left) refl) (refilled-Same r) (refilled-IsValid r)
              (all_used ∙ no_more) (refilled-pending r ∙ no_more)
        | inr some_left ↦
            let (ch, puts, split) =
              take_char-put_char (refilled r) output (refilled-IsValid r) (ground arith) in
            char ch (record (refilled r) { read_pos = 1 }) (rw (used, some_left) puts)
              (record { same_delimiter = refl; same_strip = refl; same_offset = refl })
              (record { sized = refl; below = ground arith })
              (all_used ∙ sym (refilled-pending r) ∙ split)
      ]
  | inr more ↦
      let (ch, puts, split) = take_char-put_char r output valid (ground (arith, valid.below)) in
      char ch (record r { read_pos = r.read_pos + 1 }) (rw more puts)
        (record { same_delimiter = refl; same_strip = refl; same_offset = refl })
        (record { sized = valid.sized; below = ground (arith, valid.below) }) split
]

-- After the line: what is left is the rest, and nothing else has changed.
pub record Follows (r r' : FileLineReader) : Type 0 where
  pub left : pending r' ≡ rest r.delimiter (pending r)
  pub same : Same r r'
  pub valid : IsValid r'

expanded-more :
    (output : Output)
    → write_pos output < output.capacity
    → write_pos (expanded output) + 1 < (expanded output).capacity
expanded-more output room = elim (Bool-cases (write_pos output + 1 == output.capacity)) [
  | inl h ↦ rw h (ground arith)
  | inr h ↦ rw h (ground arith)
]

put_char-added :
    (ch : ℕ) (output : Output) (next : FileLineReader)
    → write_pos output < output.capacity
    → (added : Output) × (put_char ch output next ≡ (
        if ch == next.delimiter
        then ok (last_round true added next)
        else ok (next_round added next)))
      × (added.text ≡ output.text ++ ch ∷ [])
      × (write_pos added < added.capacity)
      × (output.capacity ≤ added.capacity)
      × (added.capacity ≤ max output.capacity (2 * (write_pos added + 1)))
unfolding put_char
put_char-added ch output next room =
    let added = record (expanded output) { text = (expanded output).text ++ ch ∷ [] } in
    let still : write_pos (expanded output) + 1 < (expanded output).capacity =
      expanded-more output room in
    (
      added,
      rw (lt→ltb (write_pos (expanded output)) (expanded output).capacity (omega (arith, still)))
          refl,
      ap (λ l. l ++ ch ∷ []) (expanded-text output),
      rw (length-append (expanded output).text (ch ∷ [])) still,
      omega (arith, expanded-grown output),
      rw (length-append (expanded output).text (ch ∷ []), expanded-text output)
          (omega (arith, expanded-grown output)),
    )

-- One character more: the line ends with it, or goes on.
module _ (r next : FileLineReader) (output added : Output) (ch fuel : ℕ) (same : Same r next)
    (valid : IsValid next) (more : pending r ≡ ch ∷ pending next)
    (text_is : added.text ≡ output.text ++ ch ∷ []) (room : write_pos added < added.capacity)
    (grows : (output.capacity ≤ added.capacity)
      × (added.capacity ≤ max output.capacity (2 * (write_pos added + 1))))
    (gets : get_char r output ≡ (
      if ch == next.delimiter
      then ok (last_round true added next)
      else ok (next_round added next))) where
  last-Fetched :
      (ch == r.delimiter) ≡ true
      → Fetched (Follows r) r.delimiter (pending r) output (read_loop (suc fuel) r output)
  unfolding read_loop line rest ends
  last-Fetched found = record {
    output = added;
    state = next;
    returns = rw (gets, same.same_delimiter, found, more, found) refl;
    text_is = rw (more, found) text_is;
    spare = room;
    kept = grows.0;
    grown = grows.1;
    good = record { left = rw (more, found) refl; same = same; valid = valid };
  }

  next-Fetched :
      (ch == r.delimiter) ≡ false
      → Fetched (Follows next) next.delimiter (pending next) added (read_loop fuel next added)
      → Fetched (Follows r) r.delimiter (pending r) output (read_loop (suc fuel) r output)
  unfolding read_loop line rest ends
  next-Fetched other later = record {
    output = later.output;
    state = later.state;
    returns =
        rw (gets, same.same_delimiter, other, more, other)
          (rw same.same_delimiter at later.returns);
    text_is =
        rw (more, other)
          (rw (same.same_delimiter, text_is) at later.text_is
            ∙ append_assoc output.text (ch ∷ []) (line r.delimiter (pending next)));
    spare = later.spare;
    kept = omega (arith, grows, later.kept);
    grown = omega (
      arith,
      grows,
      later.grown,
      ap length later.text_is,
      length-append added.text (line next.delimiter (pending next)),
    );
    good = record {
      left = rw (more, other) (rw same.same_delimiter at later.good.left);
      same = Same-trans same later.good.same;
      valid = later.good.valid;
    };
  }

pub read_loop-Fetched :
    (fuel : ℕ) (r : FileLineReader) (output : Output)
    → length (pending r) < fuel
    → IsValid r
    → write_pos output < output.capacity
    → Fetched (Follows r) r.delimiter (pending r) output (read_loop fuel r output)
unfolding read_loop
read_loop-Fetched zero r output enough valid room = elim enough [ ]
read_loop-Fetched (suc fuel) r output enough valid room = elim (get_char-Next r output valid) [
  | at_end r' stops same valid' no_more no_more' ↦ record {
    output = output;
    state = r';
    returns = rw (stops, no_more, ends-nil r.delimiter) refl;
    text_is = rw (no_more, line-nil r.delimiter) (sym (append-nil output.text));
    spare = room;
    kept = omega arith;
    grown = omega arith;
    good = record {
      left = rw (no_more, no_more', rest-nil r.delimiter) refl;
      same = same;
      valid = valid';
    };
  }
  | char ch next gets same valid' more ↦
      let (added, puts, text_is, room', wider, not_wider) = put_char-added ch output next room in
      let adds = gets ∙ puts in
      elim (Bool-cases (ch == r.delimiter)) [
        | inl found ↦
            last-Fetched r next output added ch fuel same valid' more text_is room'
              (wider, not_wider) adds found
        | inr other ↦
            let shorter : length (pending next) < fuel = omega (arith, ap length more, enough) in
            next-Fetched r next output added ch fuel same valid' more text_is room'
              (wider, not_wider) adds other (read_loop-Fetched fuel next added shorter valid' room')
      ]
]
