-- ===== src/Split/Parts.antt =====
-- The parts of a text, with no iterator.
use nvwa.Common.{
  ℕ, suc, ◌<◌, ◌==◌, if◌then◌else◌, false, List, [], ◌∷◌, ◌++◌, length, take, drop, Option, none,
  some, ◌≡◌, refl, ap, ap₂, ◌∙◌, sym, subst, arith, Bool-cases, inl, inr,
}
use nvwa.Split.Defs.{index_of}

abbrev pub in_first : ℕ → List (List ℕ) → List (List ℕ)
in_first c [] = (c ∷ []) ∷ []
in_first c (p ∷ ps) = (c ∷ p) ∷ ps

-- A text without the delimiter is one part, also when it is empty.
unfoldable pub parts : ℕ → List ℕ → List (List ℕ)
parts d [] = [] ∷ []
parts d (c ∷ s) = let ps = parts d s in if c == d then [] ∷ ps else in_first c ps

-- The parts with the delimiter between them.
unfoldable pub join : ℕ → List (List ℕ) → List ℕ
join d [] = []
join d (p ∷ ps) = elim ps [ [] ↦ p | q ∷ qs ↦ p ++ d ∷ join d ps ]

-- What the first position of the delimiter says of the parts.
Splits : ℕ → List ℕ → Option ℕ → Type 0
Splits d s none = parts d s ≡ s ∷ []
Splits d s (some k) = (k < length s) × (parts d s ≡ take k s ∷ parts d (drop (suc k) s))

Splits-cons :
    (d c : ℕ) (s : List ℕ) (o : Option ℕ)
    → (c == d) ≡ false
    → Splits d s o
    → Splits d (c ∷ s) (elim o [ none ↦ none | some k ↦ some (suc k) ])
unfolding Splits parts
Splits-cons d c s none other split = rw (other, split) refl
Splits-cons d c s (some k) other (lt, split) = (omega (arith, lt), rw (other, split) refl)

index_of-Splits : (d : ℕ) (s : List ℕ) → Splits d s (index_of d s)
unfolding Splits index_of parts
index_of-Splits d [] = refl
index_of-Splits d (c ∷ s) = elim (Bool-cases (c == d)) [
  | inl same ↦ rw same (omega arith, rw same refl)
  | inr other ↦ rw other (Splits-cons d c s (index_of d s) other (index_of-Splits d s))
]

pub parts-none : (d : ℕ) (s : List ℕ) → index_of d s ≡ none → parts d s ≡ s ∷ []
unfolding Splits
parts-none d s e = subst (Splits d s) e (index_of-Splits d s)

pub parts-some :
    (d : ℕ) (s : List ℕ) (k : ℕ)
    → index_of d s ≡ some k
    → (k < length s) × (parts d s ≡ take k s ∷ parts d (drop (suc k) s))
unfolding Splits
parts-some d s k e = subst (Splits d s) e (index_of-Splits d s)

parts-cons : (d : ℕ) (s : List ℕ) → (p : List ℕ) × (ps : List (List ℕ)) × (parts d s ≡ p ∷ ps)
unfolding parts
parts-cons d [] = ([], [], refl)
parts-cons d (c ∷ s) = elim (Bool-cases (c == d)) [
  | inl same ↦ ([], parts d s, rw same refl)
  | inr other ↦ let (p, ps, e) = parts-cons d s in (c ∷ p, ps, rw (other, e) refl)
]

join-in_first :
    (d c : ℕ) (p : List ℕ) (ps : List (List ℕ)) → join d ((c ∷ p) ∷ ps) ≡ c ∷ join d (p ∷ ps)
unfolding join
join-in_first d c p [] = refl
join-in_first d c p (q ∷ qs) = refl

join-empty : (d : ℕ) (p : List ℕ) (ps : List (List ℕ)) → join d ([] ∷ p ∷ ps) ≡ d ∷ join d (p ∷ ps)
unfolding join
join-empty d p ps = refl

pub join-parts : (d : ℕ) (s : List ℕ) → join d (parts d s) ≡ s
unfolding parts
join-parts d [] = unfold join in refl
join-parts d (c ∷ s) =
    let (p, ps, e) = parts-cons d s in
    let later : join d (p ∷ ps) ≡ s = ap (join d) (sym e) ∙ join-parts d s in
    elim (Bool-cases (c == d)) [
      | inl same ↦
          let is_d : d ≡ c = ground arith in rw (same, e) (join-empty d p ps ∙ ap₂ ◌∷◌ is_d later)
      | inr other ↦ rw (other, e) (join-in_first d c p ps ∙ ap (λ l. c ∷ l) later)
    ]
