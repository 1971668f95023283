-- ===== src/FileLineReader/Chunks.antt =====
-- What `fgets` puts into the receiving buffer, against the first line of the stream.
use nvwa.Common.{
  ℕ, zero, suc, ◌≤◌, ◌==◌, true, false, List, [], ◌∷◌, ◌++◌, length, some, ◌≡◌, refl, ap, arith,
  Bool-cases, inl, inr,
}
use nvwa.FileLineReader.Defs.{last?, up_to_newline, c_string}
use nvwa.FileLineReader.Lines.{line, rest, ends, Free}

-- A chunk is the first line, or a part of it that has no line feed.
pub data Taken (s chunk after : List ℕ) : Type 0 where
  whole : chunk ≡ line b'\n' s → after ≡ rest b'\n' s → ends b'\n' s ≡ true → Taken s chunk after
  part : s ≡ chunk ++ after → Free b'\n' chunk → Taken s chunk after

one-more :
    {c : ℕ} {s chunk after : List ℕ}
    → (c == b'\n') ≡ false
    → Taken s chunk after
    → Taken (c ∷ s) (c ∷ chunk) after
unfolding line rest ends Free
one-more {c} other (Taken.whole chunk_is after_is found) =
    Taken.whole (rw (other, chunk_is)) (rw (other, after_is)) (rw (other, found))
one-more {c} other (Taken.part s_is free) = Taken.part (ap (λ l. c ∷ l) s_is) (other, free)

pub up_to_newline-Taken : (n : ℕ) (s : List ℕ) → Taken s (up_to_newline n s).0 (up_to_newline n s).1
unfolding up_to_newline Free line rest ends
up_to_newline-Taken zero s = Taken.part refl tt
up_to_newline-Taken (suc n) [] = Taken.part refl tt
up_to_newline-Taken (suc n) (c ∷ s) = elim (Bool-cases (c == b'\n')) [
  | inl h ↦ rw h (Taken.whole (rw h refl) (rw h refl) (rw h refl))
  | inr h ↦ rw h (one-more h (up_to_newline-Taken n s))
]

-- It is no longer than it may be, and not empty.
pub length-up_to_newline : (n : ℕ) (s : List ℕ) → length (up_to_newline n s).0 ≤ n
unfolding up_to_newline
length-up_to_newline zero s = omega arith
length-up_to_newline (suc n) [] = omega arith
length-up_to_newline (suc n) (c ∷ s) = elim (Bool-cases (c == b'\n')) [
  | inl h ↦ rw h (omega arith)
  | inr h ↦ rw h (omega (arith, length-up_to_newline n s))
]

pub up_to_newline-cons :
    (n c : ℕ) (s : List ℕ) → (more : List ℕ) × ((up_to_newline (suc n) (c ∷ s)).0 ≡ c ∷ more)
unfolding up_to_newline
up_to_newline-cons n c s = elim (Bool-cases (c == b'\n')) [
  | inl h ↦ ([], rw h refl)
  | inr h ↦ ((up_to_newline n s).0, rw h refl)
]

pub up_to_newline-append : (n : ℕ) (s : List ℕ) → (up_to_newline n s).0 ++ (up_to_newline n s).1 ≡ s
unfolding up_to_newline
up_to_newline-append zero s = refl
up_to_newline-append (suc n) [] = refl
up_to_newline-append (suc n) (c ∷ s) = elim (Bool-cases (c == b'\n')) [
  | inl h ↦ rw h refl
  | inr h ↦ rw (h, up_to_newline-append n s)
]

module _ (d : ℕ) where
  pub Free-append : (chunk after : List ℕ) → Free d (chunk ++ after) → Free d chunk × Free d after
  unfolding Free
  Free-append [] after free = (tt, free)
  Free-append (c ∷ chunk) after (other, free) =
      let (left, right) = Free-append chunk after free in ((other, left), right)

  pub line-append :
      (chunk after : List ℕ) → Free d chunk → line d (chunk ++ after) ≡ chunk ++ line d after
  unfolding Free line
  line-append [] after free = refl
  line-append (c ∷ chunk) after (other, free) = rw (other, line-append chunk after free)

  pub rest-append : (chunk after : List ℕ) → Free d chunk → rest d (chunk ++ after) ≡ rest d after
  unfolding Free rest
  rest-append [] after free = refl
  rest-append (c ∷ chunk) after (other, free) = rw (other, rest-append chunk after free)

  pub ends-append : (chunk after : List ℕ) → Free d chunk → ends d (chunk ++ after) ≡ ends d after
  unfolding Free ends
  ends-append [] after free = refl
  ends-append (c ∷ chunk) after (other, free) = rw (other, ends-append chunk after free)

  -- The last character of such a part is another one.
  pub last?-Free :
      (c : ℕ) (s : List ℕ)
      → Free d (c ∷ s)
      → (x : ℕ) × (last? (c ∷ s) ≡ some x) × ((x == d) ≡ false)
  unfolding Free
  last?-Free c [] (other, free) = (c, refl, other)
  last?-Free c (c' ∷ s) (other, free) = last?-Free c' s free

pub c_string-Free : (s : List ℕ) → Free 0 s → c_string s ≡ s
unfolding Free c_string
c_string-Free [] free = refl
c_string-Free (c ∷ s) (other, free) = rw (other, c_string-Free s free)
