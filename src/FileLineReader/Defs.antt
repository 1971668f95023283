-- ===== src/FileLineReader/Defs.antt =====
-- The reader and its iterator. A stream is the characters that are left in it, without read errors,
-- and memory can always be had.
use nvwa.Common.{
  ℕ, zero, suc, ◌+◌, ◌-◌, ◌*◌, ◌^◌, ◌==◌, ltb, if◌then◌else◌, Bool, true, false, ◌&&◌, List, [],
  ◌∷◌, ◌++◌, length, get_elem?, take, drop, Option, none, some, Result, ok, err, fault, require,
  from_option, ◌>>=◌, ◌>>◌,
}
use nvwa.Bits.Words.{sub_size}

abbrev pub buffer_size : ℕ
buffer_size = 256

-- `_M_buffer` is the bytes that the last `fread` has put there, `_M_size` of them.
pub record FileLineReader : Type 0 where
  pub stream : List ℕ
  pub delimiter : ℕ
  pub strip_delimiter : Bool
  pub buffer : List ℕ
  pub offset : ℕ
  pub read_pos : ℕ
  pub size : ℕ

-- `file_line_reader(FILE*, char, strip_type)`.
unfoldable pub construct : List ℕ → ℕ → Bool → FileLineReader
construct stream delimiter strip = record {
  stream = stream;
  delimiter = delimiter;
  strip_delimiter = strip;
  buffer = [];
  offset = 0;
  read_pos = 0;
  size = 0;
}

-- The receiving buffer: its first `write_pos` characters, and how many it has room for.
pub record Output : Type 0 where
  pub text : List ℕ
  pub capacity : ℕ

abbrev pub write_pos : Output → ℕ
write_pos output = length output.text

-- `expand` to twice the capacity, where one place is left.
abbrev pub expanded : Output → Output
expanded output =
    if write_pos output + 1 == output.capacity
    then record output { capacity = output.capacity * 2 }
    else output

-- `fgets`: at most `n` characters, up to a line feed, and what is left; none at the end of the file.
unfoldable pub up_to_newline : ℕ → List ℕ → List ℕ × List ℕ
up_to_newline zero stream = ([], stream)
up_to_newline (suc n) [] = ([], [])
up_to_newline (suc n) (c ∷ stream) =
    let (chunk, rest) = up_to_newline n stream in
    if c == b'\n' then (c ∷ [], stream) else (c ∷ chunk, rest)

abbrev pub fgets : ℕ → List ℕ → Option (List ℕ × List ℕ)
fgets n [] = none
fgets n (c ∷ stream) = some (up_to_newline (n - 1) (c ∷ stream))

-- The characters that `strlen` counts: those before the first NUL.
unfoldable pub c_string : List ℕ → List ℕ
c_string [] = []
c_string (c ∷ text) = if c == 0 then [] else c ∷ c_string text

-- `output[write_pos - 1]`, which is outside the buffer where nothing has been written.
abbrev pub last? : List ℕ → Option ℕ
last? [] = none
last? (c ∷ []) = some c
last? (c ∷ d ∷ text) = last? (d ∷ text)

-- A round of a loop: the loop ends, or goes on.
pub data Round (S : Type 0) : Type 0 where
  last_round : Bool → Output → S → Round S
  next_round : Output → S → Round S

-- The test after a chunk is in the output, and the place for the next one.
unfoldable pub after_chunk : Output → List ℕ → Result (Round (List ℕ))
after_chunk output rest = from_option fault (last? output.text) >>= λ last.
    if last == b'\n'
    then ok (last_round true output rest)
    else ok (next_round (expanded output) rest)

-- `fgets` takes an `int`, and documents nothing of a size that is not positive.
unfoldable pub get_chunk : List ℕ → Output → Result (Round (List ℕ))
get_chunk stream output =
    let room = sub_size output.capacity (write_pos output) in
    require (ltb 0 room && ltb room (2 ^ 31)) fault >> elim (fgets room stream) [
      | none ↦ ok (last_round false output stream)
      | some (chunk, rest) ↦
          after_chunk (record output { text = output.text ++ c_string chunk }) rest
    ]

-- `get_line`, with a round for each character left and one more.
unfoldable pub get_line : ℕ → List ℕ → Output → Result (Bool × Output × List ℕ)
get_line zero stream output = err fault
get_line (suc fuel) stream output = get_chunk stream output >>= λ round. elim round [
  | last_round found output' rest ↦ ok (found, output', rest)
  | next_round output' rest ↦ get_line fuel rest output'
]

-- `fread`: the next bytes of the stream are put into the buffer.
abbrev pub refilled : FileLineReader → FileLineReader
refilled r = record r {
  read_pos = 0;
  buffer = take buffer_size r.stream;
  size = length (take buffer_size r.stream);
  stream = drop buffer_size r.stream;
}

-- `ch` is put into the output.
unfoldable pub put_char : ℕ → Output → FileLineReader → Result (Round FileLineReader)
put_char ch output next =
    let wide = expanded output in
    let after = record wide { text = wide.text ++ ch ∷ [] } in
    require (ltb (write_pos wide) wide.capacity) fault
    >> (if ch == next.delimiter
        then ok (last_round true after next)
        else ok (next_round after next))

unfoldable pub take_char : FileLineReader → Output → Result (Round FileLineReader)
take_char r output = do
  ch ← from_option fault (get_elem? r.buffer r.read_pos)
  put_char ch output (record r { read_pos = r.read_pos + 1 })

unfoldable pub get_char : FileLineReader → Output → Result (Round FileLineReader)
get_char r output =
    if r.read_pos == r.size
    then (let r' = refilled r in
        if r'.size == 0 then ok (last_round false output r') else take_char r' output)
    else take_char r output

-- The loop of `read` for another delimiter than a line feed.
unfoldable pub read_loop : ℕ → FileLineReader → Output → Result (Bool × Output × FileLineReader)
read_loop zero r output = err fault
read_loop (suc fuel) r output = get_char r output >>= λ round. elim round [
  | last_round found output' r' ↦ ok (found, output', r')
  | next_round output' r' ↦ read_loop fuel r' output'
]

-- What is left to be read: in the buffer, then in the stream.
abbrev pub pending : FileLineReader → List ℕ
pending r = drop r.read_pos r.buffer ++ r.stream

-- The line, its delimiter included, as far as the end of the file.
unfoldable pub fetch : FileLineReader → ℕ → Result (Bool × Output × FileLineReader)
fetch r capacity =
    let output : Output = record { text = []; capacity = capacity } in
    if r.delimiter == b'\n'
    then (do
      (found, output', stream) ← get_line (length r.stream + 1) r.stream output
      ok (found, output', record r { stream = stream }))
    else read_loop (length (pending r) + 1) r output

abbrev pub drop_last : List ℕ → List ℕ
drop_last [] = []
drop_last (c ∷ []) = []
drop_last (c ∷ d ∷ text) = c ∷ drop_last (d ∷ text)

-- `read`: the text of the line, the capacity after the call, and the reader; no text at the end.
unfoldable pub read : FileLineReader → ℕ → Result (Option (List ℕ) × ℕ × FileLineReader)
read r capacity = do
  (found, output, r') ← fetch r capacity
  let r'' = record r' { offset = r'.offset + write_pos output }
  if write_pos output == 0
      then ok (none, output.capacity, r'')
      else (let text =
            if found && r''.strip_delimiter then drop_last output.text else output.text in
          require (ltb (length text) output.capacity) fault >> ok (some text, output.capacity, r''))

-- The iterator: `none` stands for the null `_M_reader`, and `line` for `_M_line` and `_M_size`.
pub record Iterator : Type 0 where
  pub reader : Option FileLineReader
  pub offset : ℕ
  pub line : List ℕ
  pub capacity : ℕ

unfoldable pub increment : Iterator → Result Iterator
increment it = do
  r ← from_option fault it.reader
  (text, capacity, r') ← read r it.capacity
  ok (elim text [
    | none ↦ record it { reader = none; offset = 0; capacity = capacity }
    | some line ↦ record { reader = some r'; offset = r'.offset; line = line; capacity = capacity }
  ])

-- `begin`, the iterator with a line in it.
unfoldable pub begin : FileLineReader → Result Iterator
begin r = increment (record { reader = some r; offset = 0; line = []; capacity = buffer_size })

-- `for (auto& line : reader)`: the lines from an iterator on.
unfoldable pub lines_from : ℕ → Iterator → Result (List (List ℕ))
lines_from zero it = err fault
lines_from (suc fuel) it = elim it.reader [
  | none ↦ ok []
  | some r ↦ do it' ← increment it; rest ← lines_from fuel it'; ok (it.line ∷ rest)
]

unfoldable pub all_lines : FileLineReader → Result (List (List ℕ))
all_lines r = do it ← begin r; lines_from (length (pending r) + 1) it
