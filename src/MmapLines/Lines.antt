-- ===== src/MmapLines/Lines.antt =====
-- The loop over the lines gives the lines of the text.
use nvwa.Common.{
  ℕ, zero, suc, ◌+◌, ◌-◌, ◌≤◌, ◌==◌, Bool, Bool-cases, inl, inr, true, false, ◌&&◌, List, [], ◌∷◌,
  ◌++◌, length, length-append, take, drop, get_or, Option, none, some, ◌≡◌, refl, ap, sym, ◌∙◌,
  arith,
}
use mathlib.Core.List.{append-nil, append_assoc}
use nvwa.FileLineReader.Defs.{drop_last}
use nvwa.FileLineReader.Lines.{
  line, rest, ends, stripped, split_lines, split_lines-step, line-append-rest, length-rest,
}
use nvwa.MmapLines.Defs.{
  View, Iterator, search, line_until, read, advanced, increment, added, lines_from, all_lines,
}

get_or-append :
    (before : List ℕ) (c : ℕ) (s : List ℕ) → get_or (before ++ c ∷ s) (length before) 0 ≡ c
get_or-append [] c s = refl
get_or-append (x ∷ before) c s = get_or-append before c s

drop-append : (before s : List ℕ) → drop (length before) (before ++ s) ≡ s
drop-append [] s = refl
drop-append (x ∷ before) s = drop-append before s

snoc-append : (before : List ℕ) (c : ℕ) (s : List ℕ) → before ++ c ∷ s ≡ (before ++ c ∷ []) ++ s
snoc-append [] c s = refl
snoc-append (x ∷ before) c s = ap (λ l. x ∷ l) (snoc-append before c s)

take-append : (l r : List ℕ) → take (length l) (l ++ r) ≡ l
take-append [] r = refl
take-append (x ∷ l) r = ap (λ k. x ∷ k) (take-append l r)

take-drop_last : (l r : List ℕ) → take (length l - 1) (l ++ r) ≡ drop_last l
take-drop_last [] r = refl
take-drop_last (x ∷ []) r = refl
take-drop_last (x ∷ y ∷ l) r =
    let shorter : length (x ∷ y ∷ l) - 1 ≡ suc (length (y ∷ l) - 1) = omega arith in
    rw shorter (ap (λ k. x ∷ k) (take-drop_last (y ∷ l) r))

module _ (text : List ℕ) (d : ℕ) where
  -- The search ends after the first line of what is left.
  search-line :
      (before s : List ℕ)
      → text ≡ before ++ s
      → search text d (length s) (length before) ≡ (length before + length (line d s), ends d s)
  unfolding search line ends
  search-line before [] parts = ap (λ n. (n, false)) (omega arith)
  search-line before (c ∷ s) parts =
      let at : get_or text (length before) 0 ≡ c =
        ap (λ t. get_or t (length before) 0) parts ∙ get_or-append before c s in
      let longer : length (before ++ c ∷ []) ≡ length before + 1 = length-append before (c ∷ []) in
      let later : search text d (length s) (length before + 1)
          ≡ (length before + 1 + length (line d s), ends d s) =
        ap (λ n. search text d (length s) n) (sym longer)
        ∙ search-line (before ++ c ∷ []) s (parts ∙ snoc-append before c s)
        ∙ ap (λ n. (n + length (line d s), ends d s)) longer in
      elim (Bool-cases (c == d)) [
        | inl same ↦ rw (at, same) (ap (λ n. (n, true)) (omega arith))
        | inr other ↦ rw (at, other) (later ∙ ap (λ n. (n, ends d s)) (omega arith))
      ]

  module _ (strip : Bool) where
    abbrev view : View
    view = record { text = text; delimiter = d; strip_delimiter = strip }

    taken :
        (before s : List ℕ)
        → text ≡ before ++ s
        → line_until view (length before) (length before + length (line d s), ends d s)
          ≡ (stripped strip d s, length before + length (line d s))
    taken before s parts =
        let l = line d s in
        let r = rest d s in
        let whole : drop (length before) text ≡ l ++ r =
          ap (drop (length before)) parts ∙ drop-append before s ∙ sym (line-append-rest d s) in
        elim (Bool-cases (ends d s && strip)) [
          | inl cut ↦
              let count : length before + length l - length before - 1 ≡ length l - 1 =
                omega arith in
              rw (cut, whole, count) (ap (λ k. (k, length before + length l)) (take-drop_last l r))
          | inr kept ↦
              let count : length before + length l - length before - 0 ≡ length l = omega arith in
              rw (kept, whole, count) (ap (λ k. (k, length before + length l)) (take-append l r))
        ]

    read-stripped :
        (before : List ℕ) (c : ℕ) (s : List ℕ)
        → text ≡ before ++ c ∷ s
        → read view (length before)
          ≡ some (stripped strip d (c ∷ s), length before + length (line d (c ∷ s)))
    unfolding read
    read-stripped before c s parts =
        let total : length text ≡ length before + suc (length s) =
          ap length parts ∙ length-append before (c ∷ s) in
        let more : (length before == length text) ≡ false = ground arith in
        let left : length text - length before ≡ length (c ∷ s) = omega arith in
        rw (more, left)
          (ap (λ p. some (line_until view (length before) p)) (search-line before (c ∷ s) parts)
            ∙ ap some (taken before (c ∷ s) parts))

    read-end : (before : List ℕ) → text ≡ before ++ [] → read view (length before) ≡ none
    unfolding read
    read-end before parts =
        let total : length text ≡ length before = ap length (parts ∙ append-nil before) in
        let end : (length before == length text) ≡ true = ground arith in rw end refl

    abbrev lines_after : ℕ → Iterator → Option (List (List ℕ))
    lines_after n it = lines_from n it.reader it.offset it.line

    lines_from-split_lines :
        (n : ℕ) (before s : List ℕ) (old : List ℕ)
        → text ≡ before ++ s
        → length s ≤ n
        → lines_after n (increment view (length before) old) ≡ some (split_lines strip d s)
    unfolding lines_from split_lines
    lines_from-split_lines n before [] old parts le =
        ap (λ a. lines_after n (advanced view old a)) (read-end before parts)
    lines_from-split_lines zero before (c ∷ s) old parts le = ground arith
    lines_from-split_lines (suc n) before (c ∷ s) old parts le =
        let l = line d (c ∷ s) in
        let parts' : text ≡ (before ++ l) ++ rest d (c ∷ s) =
          parts
          ∙ ap (λ k. before ++ k) (sym (line-append-rest d (c ∷ s)))
          ∙ sym (append_assoc before l (rest d (c ∷ s))) in
        ap (λ a. lines_after (suc n) (advanced view old a)) (read-stripped before c s parts)
        ∙ ap
            (λ k.
              added (stripped strip d (c ∷ s))
                (lines_after n (increment view k (stripped strip d (c ∷ s)))))
            (sym (length-append before l))
        ∙ ap (added (stripped strip d (c ∷ s))) (
            lines_from-split_lines n (before ++ l) (rest d (c ∷ s)) (stripped strip d (c ∷ s))
              parts' (omega (arith, length-rest d c s)))
        ∙ ap some (sym (split_lines-step d strip c s))

-- The loop over the lines of a mapped text, with a round for each of its characters, ends and gives
-- the lines of the text, for each delimiter, with or without it.
pub view-split_lines :
    (view : View) (fuel : ℕ)
    → length view.text ≤ fuel
    → all_lines fuel view ≡ some (split_lines view.strip_delimiter view.delimiter view.text)
view-split_lines view fuel enough =
    lines_from-split_lines view.text view.delimiter view.strip_delimiter fuel [] view.text [] refl
      enough
