-- ===== src/FileLineReader/Tests.antt =====
-- The theorems on the reader at concrete files.
use nvwa.Common.{
  ℕ, ◌+◌, ◌*◌, ◌^◌, ◌<◌, ◌==◌, true, List, [], ◌∷◌, length, ok, err, fault, ◌≡◌, refl, arith,
}
use nvwa.FileLineReader.Defs.{
  construct, read, all_lines, fetch, get_line, get_chunk, after_chunk, up_to_newline, c_string,
  read_loop, get_char, take_char, put_char, begin, increment, lines_from,
}
use nvwa.FileLineReader.Lines.{Free, split_lines}
use nvwa.FileLineReader.Read.{Reads, read-Reads}
use nvwa.FileLineReader.Iterate.{construct-MayRead, all_lines-split_lines, read-fault}

-- "ab", a line feed and "c".
abbrev two_lines : List ℕ
two_lines = 97 ∷ 98 ∷ 10 ∷ 99 ∷ []

two_lines-readable : (10 == 10) ≡ true → Free 0 two_lines × (2 * (length two_lines + 1) < 2 ^ 31)
unfolding Free
two_lines-readable h = ((refl, (refl, (refl, (refl, tt)))), omega arith)

read-Reads_example :
    Reads (construct two_lines 10 true) two_lines (read (construct two_lines 10 true) 256)
read-Reads_example =
    read-Reads (construct two_lines 10 true) two_lines 256
      (construct-MayRead two_lines 10 true two_lines-readable)

all_lines-split_lines_example :
    all_lines (construct two_lines 98 true) ≡ ok (split_lines true 98 two_lines)
all_lines-split_lines_example = all_lines-split_lines two_lines 98 true (λ h. absurd (ground arith))

read-fault_example : read (construct (0 ∷ two_lines) 10 true) 256 ≡ err fault
read-fault_example = read-fault two_lines true 256 (omega arith) (omega arith)

all_lines-two_lines : all_lines (construct two_lines 10 true) ≡ ok ((97 ∷ 98 ∷ []) ∷ (99 ∷ []) ∷ [])
unfolding construct read all_lines fetch get_line get_chunk after_chunk up_to_newline c_string begin
    increment lines_from
all_lines-two_lines = refl

all_lines-other : all_lines (construct two_lines 98 true) ≡ ok ((97 ∷ []) ∷ (10 ∷ 99 ∷ []) ∷ [])
unfolding construct read all_lines fetch read_loop get_char take_char put_char begin increment
    lines_from
all_lines-other = refl
