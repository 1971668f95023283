-- ===== src/FileLineReader/Read.antt =====
-- `read`, for either delimiter.
use nvwa.Common.{
  ℕ, ◌+◌, ◌*◌, ◌^◌, ◌≤◌, ◌<◌, ◌==◌, ltb, if◌then◌else◌, Bool, true, false, ◌&&◌, List, [], ◌∷◌,
  length, Option, none, some, Result, ok, ◌≡◌, refl, ap, ap₂, ◌∙◌, sym, arith, Bool-cases, inl, inr,
  length-append, lt→ltb,
}
use nvwa.FileLineReader.Defs.{FileLineReader, write_pos, pending, fetch, read, drop_last, get_line}
use nvwa.FileLineReader.Lines.{
  line, rest, ends, Free, stripped, line-nil, line-cons, line-append-rest,
}
use nvwa.FileLineReader.Chunks.{Free-append}
use nvwa.FileLineReader.Reading.{Fetched, Holds, get_line-Fetched}
use nvwa.FileLineReader.Bytes.{IsValid, Follows, read_loop-Fetched, drop-all}

-- `s` is left to be read, into a buffer of some capacity. With a line feed as the delimiter, there is
-- no buffer in the reader, no NUL in the text, and the sizes are those that `fgets` can be given.
pub record MayRead (r : FileLineReader) (s : List ℕ) (capacity : ℕ) : Type 0 where
  pub left : pending r ≡ s
  pub valid : IsValid r
  pub room : 1 < capacity
  pub no_buffer : (r.delimiter == b'\n') ≡ true → r.buffer ≡ []
  pub no_nul : (r.delimiter == b'\n') ≡ true → Free 0 s
  pub small : (r.delimiter == b'\n') ≡ true → capacity < 2 ^ 31
  pub all_small : (r.delimiter == b'\n') ≡ true → 2 * (length s + 1) < 2 ^ 31

-- What `fetch` does to the reader.
pub record Fetches (r r' : FileLineReader) : Type 0 where
  pub follows : Follows r r'
  pub still_none : (r.delimiter == b'\n') ≡ true → r'.buffer ≡ []

stream-left : (r : FileLineReader) (s : List ℕ) → r.buffer ≡ [] → pending r ≡ s → r.stream ≡ s
stream-left r s no_buffer left =
    sym (rw (no_buffer, drop-all [] r.read_pos (omega arith)) refl) ∙ left

from-get_line :
    {r : FileLineReader} {s : List ℕ} {capacity : ℕ}
    → MayRead r s capacity
    → (r.delimiter == b'\n') ≡ true
    → r.stream ≡ s
    → r.delimiter ≡ b'\n'
    → Fetched
        (λ s'. s' ≡ rest b'\n' r.stream)
        b'\n'
        r.stream
        (record { text = []; capacity = capacity })
        (get_line (length r.stream + 1) r.stream (record { text = []; capacity = capacity }))
    → Fetched
        (Fetches r)
        r.delimiter
        s
        (record { text = []; capacity = capacity })
        (fetch r capacity)
unfolding fetch
from-get_line {r} {s} {capacity} may newline stream_is delimiter_is f = record {
  output = f.output;
  state = record r { stream = f.state };
  returns =
      rw (newline, f.returns)
        (ap₂ (λ d l. ok (ends d l, f.output, record r { stream = f.state })) (sym delimiter_is)
          stream_is);
  text_is = f.text_is ∙ ap₂ line (sym delimiter_is) stream_is;
  spare = f.spare;
  kept = f.kept;
  grown = f.grown;
  good = record {
    follows = record {
      left =
          rw (may.no_buffer newline, drop-all [] r.read_pos (omega arith))
            (f.good ∙ ap (λ d. rest d r.stream) (sym delimiter_is));
      same = record { same_delimiter = refl; same_strip = refl; same_offset = refl };
      valid = record { sized = may.valid.sized; below = may.valid.below };
    };
    still_none = may.no_buffer;
  };
}

fetch-Fetched :
    {r : FileLineReader} {s : List ℕ} {capacity : ℕ}
    → MayRead r s capacity
    → Fetched
        (Fetches r)
        r.delimiter
        s
        (record { text = []; capacity = capacity })
        (fetch r capacity)
unfolding fetch
fetch-Fetched {r} {s} {capacity} may = elim (Bool-cases (r.delimiter == b'\n')) [
  | inl newline ↦
      let stream_is = stream-left r s (may.no_buffer newline) may.left in
      let delimiter_is : r.delimiter ≡ b'\n' = ground arith in
      let holds : Holds (record { text = []; capacity = capacity }) (length r.stream) = record {
        two_left = omega (arith, may.room);
        small = may.small newline;
        all_small = rw stream_is (omega (arith, may.all_small newline));
      } in
      let f =
        get_line-Fetched (length r.stream + 1) r.stream (record { text = []; capacity = capacity })
          (omega arith) (rw stream_is (may.no_nul newline)) holds in
      from-get_line may newline stream_is delimiter_is f
  | inr other ↦
      let f =
        read_loop-Fetched (length (pending r) + 1) r (record { text = []; capacity = capacity })
          (omega arith) may.valid (omega (arith, may.room)) in
      record {
        output = f.output;
        state = f.state;
        returns = rw (other, ← may.left) f.returns;
        text_is = rw (← may.left) f.text_is;
        spare = f.spare;
        kept = f.kept;
        grown = f.grown;
        good = record { follows = f.good; still_none = λ newline. absurd (ground arith) };
      }
]

-- What a reader gives for a text: its first line, or nothing where there is none.
unfoldable pub first : Bool → ℕ → List ℕ → Option (List ℕ)
first strip d [] = none
first strip d (c ∷ s) = some (stripped strip d (c ∷ s))

-- The answer to `read`, what is left to be read after it, and the members that it changes.
pub record Reads (r : FileLineReader) (s : List ℕ)
    (result : Result (Option (List ℕ) × ℕ × FileLineReader)) : Type 0 where
  pub after : FileLineReader
  pub capacity : ℕ
  pub returns : result ≡ ok (first r.strip_delimiter r.delimiter s, capacity, after)
  pub ready : MayRead after (rest r.delimiter s) capacity
  pub same_delimiter : after.delimiter ≡ r.delimiter
  pub same_strip : after.strip_delimiter ≡ r.strip_delimiter
  pub moved : after.offset ≡ r.offset + length (line r.delimiter s)

length-drop_last : (l : List ℕ) → length (drop_last l) ≤ length l
length-drop_last [] = omega arith
length-drop_last (c ∷ []) = omega arith
length-drop_last (c ∷ d ∷ l) = omega (arith, length-drop_last (d ∷ l))

length-choice : (b : Bool) (l : List ℕ) → length (if b then drop_last l else l) ≤ length l
length-choice true l = length-drop_last l
length-choice false l = omega arith

module _ {r : FileLineReader} {s : List ℕ} {capacity : ℕ} (may : MayRead r s capacity)
    (f : Fetched
      (Fetches r)
      r.delimiter
      s
      (record { text = []; capacity = capacity })
      (fetch r capacity)) where
  sizes : length (line r.delimiter s) + length (rest r.delimiter s) ≡ length s
  sizes =
      sym (length-append (line r.delimiter s) (rest r.delimiter s))
      ∙ ap length (line-append-rest r.delimiter s)

  abbrev read_on : FileLineReader
  read_on = record (f.state) { offset = f.state.offset + write_pos f.output }

  ready-after : MayRead read_on (rest r.delimiter s) f.output.capacity
  ready-after =
      let same = f.good.follows.same.same_delimiter in
      let back : (f.state.delimiter == b'\n') ≡ true → (r.delimiter == b'\n') ≡ true =
        λ h. rw same at h in
      record {
        left = f.good.follows.left ∙ ap (rest r.delimiter) may.left;
        valid = record { sized = f.good.follows.valid.sized; below = f.good.follows.valid.below };
        room = omega (arith, may.room, f.kept);
        no_buffer = λ h. f.good.still_none (back h);
        no_nul = λ h.
            (Free-append 0 (line r.delimiter s) (rest r.delimiter s)
              (rw (line-append-rest r.delimiter s) (may.no_nul (back h)))).1;
        small = λ h. omega (
          arith,
          may.small (back h),
          may.all_small (back h),
          f.grown,
          ap length f.text_is,
          sizes,
        );
        all_small = λ h. omega (arith, may.all_small (back h), sizes);
      }

  moved-after : read_on.offset ≡ r.offset + length (line r.delimiter s)
  moved-after = omega (arith, f.good.follows.same.same_offset, ap length f.text_is)

Fetched-Reads :
    {r : FileLineReader} (s : List ℕ) {capacity : ℕ}
    → MayRead r s capacity
    → Fetched
        (Fetches r)
        r.delimiter
        s
        (record { text = []; capacity = capacity })
        (fetch r capacity)
    → Reads r s (read r capacity)
unfolding read first
Fetched-Reads {r} [] may f = record {
  after = read_on may f;
  capacity = f.output.capacity;
  returns = rw (f.returns, f.text_is, line-nil r.delimiter) refl;
  ready = ready-after may f;
  same_delimiter = f.good.follows.same.same_delimiter;
  same_strip = f.good.follows.same.same_strip;
  moved = moved-after may f;
}
Fetched-Reads {r} (c ∷ s) may f =
    let (y, ys, line_is) = line-cons r.delimiter c s in
    let not_empty : (write_pos f.output == 0) ≡ false = rw (f.text_is, line_is) (ground arith) in
    let last = ends r.delimiter (c ∷ s) && r.strip_delimiter in
    let fits : ltb (length (if last then drop_last f.output.text else f.output.text))
          f.output.capacity
        ≡ true =
      lt→ltb (length (if last then drop_last f.output.text else f.output.text)) f.output.capacity
        (omega (arith, length-choice last f.output.text, f.spare)) in
    record {
      after = read_on may f;
      capacity = f.output.capacity;
      returns = rw (f.returns, not_empty, f.good.follows.same.same_strip, fits, f.text_is) refl;
      ready = ready-after may f;
      same_delimiter = f.good.follows.same.same_delimiter;
      same_strip = f.good.follows.same.same_strip;
      moved = moved-after may f;
    }

-- On a reader in order, for an output with room for more than one character, read gives the next
-- line of what is left of the text, stripped if it is asked for, or says that the text is at its
-- end; it moves the offset by the line and can read what comes after it. For the delimiter LF, what
-- is left must have no NUL and fewer than 2 ^ 30 - 1 characters, the output fewer than 2 ^ 31, and
-- the reader no buffer, as its constructor leaves it.
pub read-Reads :
    (r : FileLineReader) (s : List ℕ) (capacity : ℕ)
    → MayRead r s capacity
    → Reads r s (read r capacity)
read-Reads r s capacity may = Fetched-Reads s may (fetch-Fetched may)
