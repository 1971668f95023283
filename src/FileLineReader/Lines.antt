-- ===== src/FileLineReader/Lines.antt =====
-- The lines of a text, with no reader and no buffer.
use nvwa.Common.{
  ℕ, ◌≤◌, ◌==◌, if◌then◌else◌, Bool, true, false, ◌&&◌, List, [], ◌∷◌, ◌++◌, length, some, ◌≡◌,
  refl, ap, ◌∙◌, sym, arith, Bool-cases, inl, inr,
}
use nvwa.FileLineReader.Defs.{last?, drop_last}

-- The first line, its delimiter included.
unfoldable pub line : ℕ → List ℕ → List ℕ
line d [] = []
line d (c ∷ s) = if c == d then c ∷ [] else c ∷ line d s

-- What comes after it.
unfoldable pub rest : ℕ → List ℕ → List ℕ
rest d [] = []
rest d (c ∷ s) = let after = rest d s in if c == d then s else after

-- Whether it ends with the delimiter, and not at the end of the file.
unfoldable pub ends : ℕ → List ℕ → Bool
ends d [] = false
ends d (c ∷ s) = let after = ends d s in if c == d then true else after

-- The text without the delimiter where it is stripped.
abbrev pub stripped : Bool → ℕ → List ℕ → List ℕ
stripped strip d s = if ends d s && strip then drop_last (line d s) else line d s

abbrev pub in_first : ℕ → List (List ℕ) → List (List ℕ)
in_first c [] = (c ∷ []) ∷ []
in_first c (l ∷ ls) = (c ∷ l) ∷ ls

-- All the lines.
unfoldable pub split_lines : Bool → ℕ → List ℕ → List (List ℕ)
split_lines strip d [] = []
split_lines strip d (c ∷ s) =
    let ls = split_lines strip d s in
    if c == d then (if strip then [] else c ∷ []) ∷ ls else in_first c ls

unfoldable pub joined : List (List ℕ) → List ℕ
joined [] = []
joined (l ∷ ls) = l ++ joined ls

-- The character is not there.
unfoldable pub Free : ℕ → List ℕ → Type 0
Free d [] = Unit
Free d (c ∷ s) = ((c == d) ≡ false) × Free d s

longer :
    (b : Bool) (c : ℕ) (l : List ℕ)
    → ((y : ℕ) × (ys : List ℕ) × (l ≡ y ∷ ys))
    → (if b then drop_last (c ∷ l) else c ∷ l) ≡ c ∷ (if b then drop_last l else l)
longer true c l (y, ys, e) = rw e refl
longer false c l some_line = refl

alone :
    (strip : Bool) (c : ℕ)
    → (if strip then [] else c ∷ []) ≡ (if strip then drop_last (c ∷ []) else c ∷ [])
alone true c = refl
alone false c = refl

-- What a line ends with is what its last part ends with.
pub last?-append : (xs : List ℕ) (y : ℕ) (ys : List ℕ) → last? (xs ++ y ∷ ys) ≡ last? (y ∷ ys)
last?-append [] y ys = refl
last?-append (x ∷ []) y ys = refl
last?-append (x ∷ x' ∷ xs) y ys = last?-append (x' ∷ xs) y ys

joined-in_first : (c : ℕ) (ls : List (List ℕ)) → joined (in_first c ls) ≡ c ∷ joined ls
unfolding joined
joined-in_first c [] = refl
joined-in_first c (l ∷ ls) = refl

module _ (d : ℕ) where
  pub ends-nil : ends d [] ≡ false
  unfolding ends
  ends-nil = refl

  pub line-nil : line d [] ≡ []
  unfolding line
  line-nil = refl

  pub rest-nil : rest d [] ≡ []
  unfolding rest
  rest-nil = refl

  pub line-append-rest : (s : List ℕ) → line d s ++ rest d s ≡ s
  unfolding line rest
  line-append-rest [] = refl
  line-append-rest (c ∷ s) = elim (Bool-cases (c == d)) [
    | inl h ↦ rw h
    | inr h ↦ rw (h, line-append-rest s)
  ]

  pub length-rest : (c : ℕ) (s : List ℕ) → length (rest d (c ∷ s)) ≤ length s
  unfolding rest
  length-rest c [] = elim (Bool-cases (c == d)) [
    | inl h ↦ rw h (omega arith)
    | inr h ↦ rw h (omega arith)
  ]
  length-rest c (c' ∷ s) = elim (Bool-cases (c == d)) [
    | inl h ↦ rw h (omega arith)
    | inr h ↦ rw h (omega (arith, length-rest c' s))
  ]

  -- A text that is not empty has a line that is not empty.
  pub line-cons : (c : ℕ) (s : List ℕ) → (y : ℕ) × (ys : List ℕ) × (line d (c ∷ s) ≡ y ∷ ys)
  unfolding line
  line-cons c s = elim (Bool-cases (c == d)) [
    | inl h ↦ (c, [], rw h refl)
    | inr h ↦ (c, line d s, rw h refl)
  ]

  -- To read a text line by line is to split it.
  pub split_lines-step :
      (strip : Bool) (c : ℕ) (s : List ℕ)
      → split_lines strip d (c ∷ s)
        ≡ stripped strip d (c ∷ s) ∷ split_lines strip d (rest d (c ∷ s))
  unfolding line rest ends split_lines
  split_lines-step strip c [] = elim (Bool-cases (c == d)) [
    | inl h ↦ rw h (ap (λ l. l ∷ []) (alone strip c))
    | inr h ↦ rw h refl
  ]
  split_lines-step strip c (c' ∷ s) = elim (Bool-cases (c == d)) [
    | inl h ↦ rw h (ap (λ l. l ∷ split_lines strip d (c' ∷ s)) (alone strip c))
    | inr h ↦
        let later = split_lines-step strip c' s in
        let same = longer (ends d (c' ∷ s) && strip) c (line d (c' ∷ s)) (line-cons c' s) in
        rw h
          (ap (in_first c) later ∙ ap (λ l. l ∷ split_lines strip d (rest d (c' ∷ s))) (sym same))
  ]

  pub joined-split_lines : (s : List ℕ) → joined (split_lines false d s) ≡ s
  unfolding split_lines joined
  joined-split_lines [] = refl
  joined-split_lines (c ∷ s) = elim (Bool-cases (c == d)) [
    | inl h ↦ rw (h, joined-split_lines s)
    | inr h ↦ rw (h, joined-in_first c (split_lines false d s), joined-split_lines s)
  ]

  -- A line that ends with its delimiter has it last.
  pub last?-line : (s : List ℕ) → ends d s ≡ true → last? (line d s) ≡ some d
  unfolding line ends
  last?-line [] h = ground arith
  last?-line (c ∷ []) h = elim (Bool-cases (c == d)) [
    | inl same ↦ rw same (ground arith)
    | inr differ ↦ let never : false ≡ true = rw differ at h in ground arith
  ]
  last?-line (c ∷ c' ∷ s) h = elim (Bool-cases (c == d)) [
    | inl same ↦ rw same (ground arith)
    | inr differ ↦
        let later = last?-line (c' ∷ s) (rw differ at h) in
        let (y, ys, e) = line-cons c' s in
        rw (differ, e) (last?-append (c ∷ []) y ys ∙ rw e at later)
  ]
