-- ===== src/Common/Maps.antt =====
-- Memory as a function of the address, and lists of addresses without repetition.
use Prim.Native.Nat.{ℕ}
use mathlib.Core.Path.{◌≡◌, refl}
use mathlib.Core.Bool.{true, false}
use mathlib.Core.List.{List, [], ◌∷◌, ◌++◌}
use native.Mathlib.Omega.{arith}
use nvwa.Common.Tests.{◌==◌, if◌then◌else◌}

module _ {ℓ} {A : Type ℓ} where
  -- The memory after a write.
  abbrev pub updated : (ℕ → A) → ℕ → A → ℕ → A
  updated memory ptr value at = if at == ptr then value else memory at

  pub updated_self : (memory : ℕ → A) (ptr : ℕ) (value : A) → updated memory ptr value ptr ≡ value
  updated_self memory ptr value = let same : (ptr == ptr) ≡ true = ground arith in rw same refl

  pub updated_ne :
      (memory : ℕ → A) (ptr : ℕ) (value : A) (at : ℕ)
      → (at == ptr) ≡ false
      → updated memory ptr value at ≡ memory at
  updated_ne memory ptr value at other = rw other refl

-- `p` is not in the list.
unfoldable pub Absent : ℕ → List ℕ → Type 0
Absent p [] = Unit
Absent p (x ∷ xs) = ((x == p) ≡ false) × Absent p xs

unfoldable pub Distinct : List ℕ → Type 0
Distinct [] = Unit
Distinct (x ∷ xs) = Absent x xs × Distinct xs

pub Absent-append : (q : ℕ) (xs ys : List ℕ) → Absent q (xs ++ ys) → Absent q xs × Absent q ys
unfolding Absent
Absent-append q [] ys absent = (tt, absent)
Absent-append q (x ∷ xs) ys (other, absent) =
    let (left, right) = Absent-append q xs ys absent in ((other, left), right)

pub append-Absent : (q : ℕ) (xs ys : List ℕ) → Absent q xs → Absent q ys → Absent q (xs ++ ys)
unfolding Absent
append-Absent q [] ys left right = right
append-Absent q (x ∷ xs) ys (other, left) right = (other, append-Absent q xs ys left right)

pub Absent-middle :
    (q : ℕ) (before : List ℕ) (p : ℕ) (after : List ℕ)
    → Absent q (before ++ p ∷ after)
    → ((p == q) ≡ false) × Absent q (before ++ after)
unfolding Absent
Absent-middle q [] p after (other, absent) = (other, absent)
Absent-middle q (x ∷ before) p after (other, absent) =
    let (p_other, rest) = Absent-middle q before p after absent in (p_other, (other, rest))

-- Of a list without repetition, a member is not among the others.
pub Distinct-middle :
    (before : List ℕ) (p : ℕ) (after : List ℕ)
    → Distinct (before ++ p ∷ after)
    → Absent p (before ++ after) × Distinct (before ++ after)
unfolding Distinct Absent
Distinct-middle [] p after (absent, distinct) = (absent, distinct)
Distinct-middle (x ∷ before) p after (absent, distinct) =
    let (p_absent, rest) = Distinct-middle before p after distinct in
    let (other, absent') = Absent-middle x before p after absent in
    ((ground arith, p_absent), (absent', rest))

pub Distinct-snoc : (xs : List ℕ) (p : ℕ) → Distinct xs → Absent p xs → Distinct (xs ++ p ∷ [])
unfolding Distinct Absent
Distinct-snoc [] p distinct absent = (tt, tt)
Distinct-snoc (x ∷ xs) p (x_absent, distinct) (other, absent) =
    (append-Absent x xs (p ∷ []) x_absent (ground arith, tt), Distinct-snoc xs p distinct absent)

-- The predicate holds of each address.
unfoldable pub Every : (ℕ → Type 0) → List ℕ → Type 0
Every P [] = Unit
Every P (x ∷ xs) = P x × Every P xs

module _ (P Q : ℕ → Type 0) where
  pub Every-map : ((x : ℕ) → P x → Q x) → (xs : List ℕ) → Every P xs → Every Q xs
  unfolding Every
  Every-map f [] every = tt
  Every-map f (x ∷ xs) (h, every) = (f x h, Every-map f xs every)

  pub Every-Absent :
      (k : ℕ)
      → ((x : ℕ) → (x == k) ≡ false → P x → Q x)
      → (xs : List ℕ) → Absent k xs
      → Every P xs
      → Every Q xs
  unfolding Every Absent
  Every-Absent k f [] absent every = tt
  Every-Absent k f (x ∷ xs) (other, absent) (h, every) =
      (f x other h, Every-Absent k f xs absent every)

  pub Every-zip : (xs : List ℕ) → Every P xs → Every Q xs → Every (λ x. P x × Q x) xs
  unfolding Every
  Every-zip [] left right = tt
  Every-zip (x ∷ xs) (h, left) (k, right) = ((h, k), Every-zip xs left right)

module _ (P : ℕ → Type 0) where
  pub Every-snoc : (xs : List ℕ) (p : ℕ) → Every P xs → P p → Every P (xs ++ p ∷ [])
  unfolding Every
  Every-snoc [] p every h = (h, tt)
  Every-snoc (x ∷ xs) p (k, every) h = (k, Every-snoc xs p every h)

  -- A member, and the others.
  pub Every-middle :
      (before : List ℕ) (p : ℕ) (after : List ℕ)
      → Every P (before ++ p ∷ after)
      → P p × Every P (before ++ after)
  unfolding Every
  Every-middle [] p after every = every
  Every-middle (x ∷ before) p after (h, every) =
      let (k, rest) = Every-middle before p after every in (k, (h, rest))
