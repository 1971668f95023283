-- ===== src/MmapLines/Defs.antt =====
-- The mapped text is the list of its characters; a line is the characters that the view shows.
use nvwa.Common.{
  ℕ, zero, suc, ◌+◌, ◌-◌, ◌==◌, if◌then◌else◌, Bool, true, false, ◌&&◌, List, [], ◌∷◌, length, take,
  drop, get_or, Option, none, some,
}

pub record View : Type 0 where
  pub text : List ℕ
  pub delimiter : ℕ
  pub strip_delimiter : Bool

-- The search from `pos` on, with `n` characters left: where it ends, and `found_delimiter`.
unfoldable pub search : List ℕ → ℕ → ℕ → ℕ → ℕ × Bool
search text delimiter zero pos = (pos, false)
search text delimiter (suc n) pos =
    let rest = search text delimiter n (pos + 1) in
    if get_or text pos 0 == delimiter then (pos + 1, true) else rest

-- The line, and the offset after it.
abbrev pub line_until : View → ℕ → ℕ × Bool → List ℕ × ℕ
line_until view offset (pos, found) = (
  take (pos - offset - (if found && view.strip_delimiter then 1 else 0)) (drop offset view.text),
  pos,
)

-- `read`: `none` at the end of the text.
unfoldable pub read : View → ℕ → Option (List ℕ × ℕ)
read view offset =
    if offset == length view.text
    then none
    else some (
        line_until view offset (search view.text view.delimiter (length view.text - offset) offset))

-- An iterator: its view, unless it is at the end, its offset and its line.
pub record Iterator : Type 0 where
  pub reader : Option View
  pub offset : ℕ
  pub line : List ℕ

-- What `operator++` makes of the answer of `read`.
abbrev pub advanced : View → List ℕ → Option (List ℕ × ℕ) → Iterator
advanced view line none = record { reader = none; offset = 0; line = line }
advanced view line (some (next_line, offset)) = record {
  reader = some view;
  offset = offset;
  line = next_line;
}

-- `operator++` of an iterator with a view.
abbrev pub increment : View → ℕ → List ℕ → Iterator
increment view offset line = advanced view line (read view offset)

abbrev pub begin : View → Iterator
begin view = increment view 0 []

-- The lines that a loop over the range meets; the end is an iterator without a view. `none` when it
-- has not ended.
abbrev pub added : List ℕ → Option (List (List ℕ)) → Option (List (List ℕ))
added line none = none
added line (some lines) = some (line ∷ lines)

unfoldable pub lines_from : ℕ → Option View → ℕ → List ℕ → Option (List (List ℕ))
lines_from fuel none offset line = some []
lines_from zero (some view) offset line = none
lines_from (suc n) (some view) offset line =
    let next = increment view offset line in
    added line (lines_from n next.reader next.offset next.line)

abbrev pub all_lines : ℕ → View → Option (List (List ℕ))
all_lines fuel view = let first = begin view in lines_from fuel first.reader first.offset first.line
