-- ===== src/MmapLines/Tests.antt =====
-- The lines of a text of two lines, the last without a delimiter.
use nvwa.Common.{true, [], ◌∷◌, some, ◌≡◌, arith}
use nvwa.FileLineReader.Lines.{split_lines}
use nvwa.MmapLines.Defs.{View, all_lines}
use nvwa.MmapLines.Lines.{view-split_lines}

abbrev two_lines : View
two_lines = record { text = 97 ∷ 98 ∷ 10 ∷ 99 ∷ []; delimiter = 10; strip_delimiter = true }

view-split_lines_example : all_lines 4 two_lines ≡ some ((97 ∷ 98 ∷ []) ∷ (99 ∷ []) ∷ [])
unfolding split_lines
view-split_lines_example = view-split_lines two_lines 4 (omega arith)
