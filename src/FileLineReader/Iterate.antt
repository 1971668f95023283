-- ===== src/FileLineReader/Iterate.antt =====
-- The iterator, and the loop over the lines of a file.
use nvwa.Common.{
  ℕ, zero, suc, ◌+◌, ◌-◌, ◌*◌, ◌^◌, ◌<◌, ◌==◌, Bool, true, false, List, [], ◌∷◌, length, Option,
  none, some, Result, ok, err, fault, ◌>>=◌, ◌≡◌, refl, ap, ◌∙◌, sym, arith,
}
use nvwa.Bits.Words.{sub_size}
use nvwa.FileLineReader.Defs.{
  FileLineReader, Iterator, buffer_size, read, construct, increment, begin, lines_from, all_lines,
  fetch, get_line, get_chunk, after_chunk, up_to_newline, c_string,
}
use nvwa.FileLineReader.Lines.{
  rest, Free, stripped, split_lines, joined, split_lines-step, joined-split_lines, length-rest,
}
use nvwa.FileLineReader.Reading.{room-size, may-get, one-less}
use nvwa.FileLineReader.Read.{MayRead, Reads, first, read-Reads}

lines_from-step :
    (fuel : ℕ) (r : FileLineReader) (offset : ℕ) (line : List ℕ) (capacity : ℕ) (it' : Iterator)
    (ls : List (List ℕ))
    → increment (record { reader = some r; offset = offset; line = line; capacity = capacity })
      ≡ ok it'
    → lines_from fuel it' ≡ ok ls
    → lines_from
        (suc fuel)
        (record { reader = some r; offset = offset; line = line; capacity = capacity })
      ≡ ok (line ∷ ls)
unfolding lines_from
lines_from-step fuel r offset line capacity it' ls moves gives = rw (moves, gives) refl

lines_from-none :
    (fuel offset : ℕ) (line : List ℕ) (capacity : ℕ)
    → lines_from
        (suc fuel)
        (record { reader = none; offset = offset; line = line; capacity = capacity })
      ≡ ok []
unfolding lines_from
lines_from-none fuel offset line capacity = refl

module _ (r : FileLineReader) (offset : ℕ) (line : List ℕ) (capacity : ℕ) where
  increment-none :
      MayRead r [] capacity
      → (wide : ℕ) × (increment
            (record { reader = some r; offset = offset; line = line; capacity = capacity })
          ≡ ok (record { reader = none; offset = 0; line = line; capacity = wide }))
  unfolding increment first
  increment-none may =
      let reads = read-Reads r [] capacity may in (reads.capacity, rw reads.returns refl)

  increment-some :
      (c : ℕ) (s : List ℕ)
      → (reads : Reads r (c ∷ s) (read r capacity))
      → increment (record { reader = some r; offset = offset; line = line; capacity = capacity })
        ≡ ok (record {
          reader = some reads.after;
          offset = reads.after.offset;
          line = stripped r.strip_delimiter r.delimiter (c ∷ s);
          capacity = reads.capacity;
        })
  unfolding increment first
  increment-some c s reads = rw reads.returns refl

split_lines-nil : (strip : Bool) (d : ℕ) → split_lines strip d [] ≡ []
unfolding split_lines
split_lines-nil strip d = refl

read-split :
    (r : FileLineReader) (c : ℕ) (s : List ℕ)
    {result : Result (Option (List ℕ) × ℕ × FileLineReader)}
    → (reads : Reads r (c ∷ s) result)
    → stripped r.strip_delimiter r.delimiter (c ∷ s)
        ∷ split_lines reads.after.strip_delimiter reads.after.delimiter (rest r.delimiter (c ∷ s))
      ≡ split_lines r.strip_delimiter r.delimiter (c ∷ s)
read-split r c s reads =
    rw (reads.same_strip, reads.same_delimiter)
      (sym (split_lines-step r.delimiter r.strip_delimiter c s))

lines_from-split_lines :
    (fuel : ℕ) (r : FileLineReader) (s : List ℕ) (offset : ℕ) (line : List ℕ) (capacity : ℕ)
    → MayRead r s capacity
    → length s + 1 < fuel
    → lines_from fuel
        (record { reader = some r; offset = offset; line = line; capacity = capacity })
      ≡ ok (line ∷ split_lines r.strip_delimiter r.delimiter s)
lines_from-split_lines zero r s offset line capacity may enough = elim enough [ ]
lines_from-split_lines (suc zero) r s offset line capacity may enough =
    absurd (omega (arith, enough))
lines_from-split_lines (suc (suc fuel)) r [] offset line capacity may enough =
    let (wide, ends) = increment-none r offset line capacity may in
    rw (split_lines-nil r.strip_delimiter r.delimiter) (
      lines_from-step (suc fuel) r offset line capacity
        (record { reader = none; offset = 0; line = line; capacity = wide }) [] ends
        (lines_from-none fuel 0 line wide))
lines_from-split_lines (suc (suc fuel)) r (c ∷ s) offset line capacity may enough =
    let reads = read-Reads r (c ∷ s) capacity may in
    let text = stripped r.strip_delimiter r.delimiter (c ∷ s) in
    let later =
      lines_from-split_lines (suc fuel) reads.after (rest r.delimiter (c ∷ s)) reads.after.offset
        text reads.capacity reads.ready (omega (arith, enough, length-rest r.delimiter c s)) in
    lines_from-step (suc fuel) r offset line capacity
      (record {
        reader = some reads.after;
        offset = reads.after.offset;
        line = text;
        capacity = reads.capacity;
      })
      (split_lines r.strip_delimiter r.delimiter (c ∷ s))
      (increment-some r offset line capacity c s reads) (later ∙ ap ok (read-split r c s reads))

all_lines-from :
    {r : FileLineReader} (s : List ℕ)
    → MayRead r s buffer_size
    → all_lines r ≡ ok (split_lines r.strip_delimiter r.delimiter s)
unfolding all_lines begin
all_lines-from {r} [] may =
    let (wide, ends) = increment-none r 0 [] buffer_size may in
    rw (ends, split_lines-nil r.strip_delimiter r.delimiter, may.left) (lines_from-none 0 0 [] wide)
all_lines-from {r} (c ∷ s) may =
    let reads = read-Reads r (c ∷ s) buffer_size may in
    let text = stripped r.strip_delimiter r.delimiter (c ∷ s) in
    rw (increment-some r 0 [] buffer_size c s reads, may.left)
      (lines_from-split_lines (length (c ∷ s) + 1) reads.after (rest r.delimiter (c ∷ s))
          reads.after.offset text reads.capacity reads.ready
          (omega (arith, length-rest r.delimiter c s))
        ∙ ap ok (read-split r c s reads))

-- A new reader, for a text that `fgets` and `strlen` can read where lines end with a line feed.
pub construct-MayRead :
    (s : List ℕ) (d : ℕ) (strip : Bool)
    → ((d == b'\n') ≡ true → Free 0 s × (2 * (length s + 1) < 2 ^ 31))
    → MayRead (construct s d strip) s buffer_size
unfolding construct
construct-MayRead s d strip readable = record {
  left = refl;
  valid = record { sized = refl; below = omega arith };
  room = omega arith;
  no_buffer = λ h. refl;
  no_nul = λ h. (readable h).0;
  small = λ h. omega arith;
  all_small = λ h. (readable h).1;
}

-- The loop over the lines of a file gives the lines of its text, for either delimiter, with or
-- without it, where the text has no NUL and less than 2 ^ 30 - 1 characters if the delimiter is a
-- line feed.
pub all_lines-split_lines :
    (s : List ℕ) (d : ℕ) (strip : Bool)
    → ((d == b'\n') ≡ true → Free 0 s × (2 * (length s + 1) < 2 ^ 31))
    → all_lines (construct s d strip) ≡ ok (split_lines strip d s)
unfolding construct
all_lines-split_lines s d strip readable = all_lines-from s (construct-MayRead s d strip readable)

-- The lines with their delimiters are the text of the file, under the same conditions.
all_lines-joined :
    (s : List ℕ) (d : ℕ)
    → ((d == b'\n') ≡ true → Free 0 s × (2 * (length s + 1) < 2 ^ 31))
    → (all_lines (construct s d false) >>= λ ls. ok (joined ls)) ≡ ok s
all_lines-joined s d readable =
    rw (all_lines-split_lines s d false readable, joined-split_lines d s) refl

get_chunk-nul :
    (s : List ℕ) (n capacity : ℕ)
    → sub_size capacity 0 ≡ suc (suc n)
    → suc (suc n) < 2 ^ 31
    → get_chunk (0 ∷ s) (record { text = []; capacity = capacity }) ≡ err fault
unfolding get_chunk after_chunk up_to_newline c_string
get_chunk-nul s n capacity size_is small =
    rw (size_is, may-get (suc (suc n)) (omega arith) small, one-less (suc n)) refl

get_line-nul :
    (s : List ℕ) (fuel capacity : ℕ)
    → 1 < capacity
    → capacity < 2 ^ 31
    → get_line (suc fuel + 1) (0 ∷ s) (record { text = []; capacity = capacity }) ≡ err fault
unfolding get_line
get_line-nul s fuel capacity room small =
    let n = capacity - 2 in
    let size_is : sub_size capacity 0 ≡ suc (suc n) =
      room-size capacity 0 (omega arith) small ∙ omega arith in
    let plus : suc fuel + 1 ≡ suc (fuel + 1) = omega arith in
    rw (plus, get_chunk-nul s n capacity size_is (omega arith)) refl

-- With a line feed as the delimiter, a text that starts with NUL has `read` access the character
-- before the receiving buffer, which has room for two characters at least and is below 2 ^ 31.
pub read-fault :
    (s : List ℕ) (strip : Bool) (capacity : ℕ)
    → 1 < capacity
    → capacity < 2 ^ 31
    → read (construct (0 ∷ s) b'\n' strip) capacity ≡ err fault
unfolding read fetch construct
read-fault s strip capacity room small = rw (get_line-nul s (length s) capacity room small) refl
