-- ===== src/Links.antt =====
-- Circular doubly linked lists, as nvwa/debug_new.cpp and nvwa/memory_trace.cpp keep of the blocks
-- that are allocated: the `next` and the `prev` of each node are functions of its address.
use mathlib.Core.List.{append-nil}
use nvwa.Common.{
  ℕ, ◌==◌, false, List, [], ◌∷◌, ◌++◌, ◌≡◌, refl, arith, updated, updated_self, Absent, Distinct,
  Absent-append, Absent-middle, Distinct-middle, Distinct-snoc,
}

-- From `a` the nodes `xs` lead to `b`, and back.
unfoldable pub Linked : (ℕ → ℕ) → (ℕ → ℕ) → ℕ → List ℕ → ℕ → Type 0
Linked next prev a [] b = (next a ≡ b) × (prev b ≡ a)
Linked next prev a (x ∷ xs) b = (next a ≡ x) × (prev x ≡ a) × Linked next prev x xs b

abbrev pub last_of : ℕ → List ℕ → ℕ
last_of a [] = a
last_of a (x ∷ xs) = last_of x xs

last-Absent : (x : ℕ) (xs : List ℕ) (a : ℕ) → Absent a (x ∷ xs) → (last_of x xs == a) ≡ false
unfolding Absent
last-Absent x [] a (other, absent) = other
last-Absent x (y ∷ ys) a (other, absent) = last-Absent y ys a absent

module _ (next prev : ℕ → ℕ) where
  pub Linked-last : (a : ℕ) (xs : List ℕ) (b : ℕ) → Linked next prev a xs b → prev b ≡ last_of a xs
  unfolding Linked
  Linked-last a [] b (to, from) = from
  Linked-last a (x ∷ xs) b (to, from, links) = Linked-last x xs b links

  pub Linked-split :
      (a : ℕ) (xs : List ℕ) (p : ℕ) (ys : List ℕ) (b : ℕ)
      → Linked next prev a (xs ++ p ∷ ys) b
      → Linked next prev a xs p × Linked next prev p ys b
  unfolding Linked
  Linked-split a [] p ys b (to, from, links) = ((to, from), links)
  Linked-split a (x ∷ xs) p ys b (to, from, links) =
      let (left, right) = Linked-split x xs p ys b links in ((to, from, left), right)

  pub Linked-append :
      (a : ℕ) (xs : List ℕ) (p : ℕ) (ys : List ℕ) (b : ℕ)
      → Linked next prev a xs p
      → Linked next prev p ys b
      → Linked next prev a (xs ++ p ∷ ys) b
  unfolding Linked
  Linked-append a [] p ys b (to, from) right = (to, from, right)
  Linked-append a (x ∷ xs) p ys b (to, from, left) right =
      (to, from, Linked-append x xs p ys b left right)

  -- A write to `next` of a node outside changes nothing.
  pub Linked-next :
      (a : ℕ) (xs : List ℕ) (b k v : ℕ)
      → Absent k (a ∷ xs)
      → Linked next prev a xs b
      → Linked (updated next k v) prev a xs b
  unfolding Linked Absent
  Linked-next a [] b k v (other, absent) (to, from) = (rw other to, from)
  Linked-next a (x ∷ xs) b k v (other, absent) (to, from, links) =
      (rw other to, from, Linked-next x xs b k v absent links)

  pub Linked-prev :
      (a : ℕ) (xs : List ℕ) (b k v : ℕ)
      → Absent k xs
      → (b == k) ≡ false
      → Linked next prev a xs b
      → Linked next (updated prev k v) a xs b
  unfolding Linked Absent
  Linked-prev a [] b k v absent end (to, from) = (to, rw end from)
  Linked-prev a (x ∷ xs) b k v (other, absent) end (to, from, links) =
      (to, rw other from, Linked-prev x xs b k v absent end links)

  -- The last link is turned to `c`.
  pub Linked-retarget :
      (a : ℕ) (xs : List ℕ) (b c : ℕ)
      → Distinct (a ∷ xs)
      → Absent c xs
      → Linked next prev a xs b
      → Linked (updated next (last_of a xs) c) (updated prev c (last_of a xs)) a xs c
  unfolding Linked Distinct Absent
  Linked-retarget a [] b c distinct absent (to, from) =
      (updated_self next a c, updated_self prev c a)
  Linked-retarget a (x ∷ xs) b c (a_absent, distinct) (other, absent) (to, from, links) =
      let before : (a == last_of x xs) ≡ false = ground (arith, last-Absent x xs a a_absent) in
      (rw before to, rw other from, Linked-retarget x xs b c distinct absent links)

Distinct-left : (xs ys : List ℕ) → Distinct (xs ++ ys) → Distinct xs
unfolding Distinct
Distinct-left [] ys distinct = tt
Distinct-left (x ∷ xs) ys (absent, distinct) =
    ((Absent-append x xs ys absent).0, Distinct-left xs ys distinct)

-- The end of a list is not among what comes after it.
last-apart : (a : ℕ) (xs ys : List ℕ) → Distinct (a ∷ xs ++ ys) → Absent (last_of a xs) ys
unfolding Distinct
last-apart a [] ys (absent, distinct) = absent
last-apart a (x ∷ xs) ys (absent, distinct) = last-apart x xs ys distinct

-- The ring of a list's head and the nodes in it, each once.
pub record IsRing (next prev : ℕ → ℕ) (head : ℕ) (nodes : List ℕ) : Type 0 where
  pub distinct : Distinct (head ∷ nodes)
  pub links : Linked next prev head nodes head

module _ (next prev : ℕ → ℕ) (head : ℕ) where
  -- A new node between the last one and the head, by the writes in their order.
  pub insert-IsRing :
      (nodes : List ℕ) (p : ℕ)
      → IsRing next prev head nodes
      → Absent p (head ∷ nodes)
      → IsRing
          (updated (updated next p head) (updated prev p (prev head) head) p)
          (updated (updated prev p (prev head)) head p)
          head
          (nodes ++ p ∷ [])
  unfolding Absent Distinct Linked
  insert-IsRing nodes p ring (other, absent) =
      let (head_absent, distinct) = ring.distinct in
      let last = Linked-last next prev head nodes head ring.links in
      let framed = Linked-next next prev head nodes head p head (other, absent) ring.links in
      let turned =
        Linked-retarget (updated next p head) prev head nodes head p ring.distinct absent framed in
      let p_last : (p == last_of head nodes) ≡ false =
        ground (arith, last-Absent head nodes p (other, absent)) in
      let p_head : (p == head) ≡ false = ground arith in
      record {
        distinct = Distinct-snoc (head ∷ nodes) p ring.distinct (other, absent);
        links =
            rw (other, last)
              (Linked-append (updated (updated next p head) (last_of head nodes) p)
                (updated (updated prev p (last_of head nodes)) head p) head nodes p [] head
                (Linked-prev (updated (updated next p head) (last_of head nodes) p)
                  (updated prev p (last_of head nodes)) head nodes p head p head_absent p_head
                  turned)
                (
                  rw (p_last, updated_self next p head) refl,
                  updated_self (updated prev p (last_of head nodes)) head p,
                ));
      }

  -- `l` is before the node that is taken out.
  joined :
      (xs : List ℕ) (p : ℕ) (ys : List ℕ)
      → Distinct (head ∷ xs ++ ys)
      → Linked next prev head xs p
      → Linked next prev p ys head
      → Linked
          (updated next (last_of head xs) (next p))
          (updated prev (next p) (last_of head xs))
          head
          (xs ++ ys)
          head
  unfolding Distinct Linked Absent
  joined xs p [] distinct left (to, from) =
      let distinct' : Distinct (head ∷ xs) = rw (append-nil xs) at distinct in
      rw (to, append-nil xs) (Linked-retarget next prev head xs p head distinct' distinct'.0 left)
  joined xs p (y ∷ ys) distinct left (to, from, right) =
      let l = last_of head xs in
      let (head_absent, inner) = distinct in
      let (y_head, _) = Absent-middle head xs y ys head_absent in
      let (y_absent, _) = Distinct-middle xs y ys inner in
      let (y_left, y_right) = Absent-append y xs ys y_absent in
      let (head_left, _) = Absent-append head xs (y ∷ ys) head_absent in
      let turned =
        Linked-retarget next prev head xs p y (head_left, Distinct-left xs (y ∷ ys) inner) y_left
          left in
      let framed =
        Linked-next next prev y ys head l y (last-apart head xs (y ∷ ys) distinct) right in
      rw to (
        Linked-append (updated next l y) (updated prev y l) head xs y ys head turned
          (Linked-prev (updated next l y) prev y ys head y l y_right (ground arith) framed))

  -- A node is taken out, by the writes in their order.
  pub remove-IsRing :
      (xs : List ℕ) (p : ℕ) (ys : List ℕ)
      → IsRing next prev head (xs ++ p ∷ ys)
      → IsRing
          (updated next (prev p) (next p))
          (updated prev (updated next (prev p) (next p) p) (prev p))
          head
          (xs ++ ys)
  unfolding Absent Distinct
  remove-IsRing xs p ys ring =
      let (left, right) = Linked-split next prev head xs p ys head ring.links in
      let (head_absent, inner) = ring.distinct in
      let (p_head, head_absent') = Absent-middle head xs p ys head_absent in
      let (p_absent, distinct) = Distinct-middle xs p ys inner in
      let (p_left, _) = Absent-append p xs ys p_absent in
      let before = Linked-last next prev head xs p left in
      let p_last : (p == last_of head xs) ≡ false =
        ground (arith, last-Absent head xs p (ground arith, p_left)) in
      record {
        distinct = (head_absent', distinct);
        links = rw (before, p_last) (joined xs p ys (head_absent', distinct) left right);
      }
