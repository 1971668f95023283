-- ===== src/Split/Iterate.antt =====
-- The loop over the parts of a text.
use nvwa.Common.{
  ℕ, zero, suc, ◌+◌, ◌-◌, ◌≤◌, ◌<◌, List, [], ◌∷◌, length, take, drop, none, some, ok, ◌≡◌, refl,
  ap, ◌∙◌, sym, arith, Option-cases, inl, inr, length-drop, ◌>>=◌,
}
use nvwa.Split.Defs.{Iterator, index_of, find, increment, advance, begin, parts_loop, to_vector}
use nvwa.Split.Parts.{parts, join, parts-none, parts-some, join-parts}

plus : (a b : ℕ) → suc a + b ≡ suc (a + b)
plus a b = omega arith

drop_empty : (n : ℕ) → drop {A = ℕ} n [] ≡ []
drop_empty zero = refl
drop_empty (suc n) = refl

drop_more : (a b : ℕ) (s : List ℕ) → drop (a + b) s ≡ drop b (drop a s)
drop_more zero b s = ap (λ n. drop n s) (omega arith)
drop_more (suc a) b [] = drop_empty (suc a + b) ∙ sym (drop_empty b)
drop_more (suc a) b (c ∷ s) = ap (λ n. drop n (c ∷ s)) (plus a b) ∙ drop_more a b s

take_all : (s : List ℕ) (n : ℕ) → length s ≤ n → take n s ≡ s
take_all [] zero le = refl
take_all [] (suc n) le = refl
take_all (c ∷ s) zero le = elim le [ ]
take_all (c ∷ s) (suc n) le = ap (λ l. c ∷ l) (take_all s n (omega (arith, le)))

module _ (s : List ℕ) (d : ℕ) where
  -- After the last part the iterator is at its end.
  last-part :
      (fuel : ℕ) (cur : List ℕ)
      → parts_loop (suc (suc fuel)) (record { src = some s; pos = none; cur = cur; delimiter = d })
        ≡ ok (cur ∷ [])
  unfolding parts_loop increment advance
  last-part fuel cur = refl

  parts_loop-step :
      (fuel pos : ℕ) (cur : List ℕ) (next : Iterator) (ps : List (List ℕ))
      → increment (record { src = some s; pos = some pos; cur = cur; delimiter = d }) ≡ ok next
      → parts_loop fuel next ≡ ok ps
      → parts_loop (suc fuel) (record { src = some s; pos = some pos; cur = cur; delimiter = d })
        ≡ ok (cur ∷ ps)
  unfolding parts_loop
  parts_loop-step fuel pos cur next ps moves gives = rw (moves, gives) refl

  find-none : (pos : ℕ) → index_of d (drop pos s) ≡ none → find s d pos ≡ none
  unfolding find
  find-none pos absent = rw (absent, find) refl

  find-some : (pos k : ℕ) → index_of d (drop pos s) ≡ some k → find s d pos ≡ some (pos + k)
  unfolding find
  find-some pos k there = rw (there, find) refl

  advance-none :
      (pos : ℕ) (cur : List ℕ)
      → index_of d (drop pos s) ≡ none
      → advance (record { src = some s; pos = some pos; cur = cur; delimiter = d }) s
        ≡ record { src = some s; pos = none; cur = drop pos s; delimiter = d }
  unfolding advance
  advance-none pos cur absent =
      let all = take_all (drop pos s) (length s - pos) (omega (arith, length-drop pos s)) in
      rw (find-none pos absent, advance)
        (ap (λ l. record { src = some s; pos = none; cur = l; delimiter = d }) all)

  increment-none :
      (pos : ℕ) (cur : List ℕ)
      → index_of d (drop pos s) ≡ none
      → increment (record { src = some s; pos = some pos; cur = cur; delimiter = d })
        ≡ ok (record { src = some s; pos = none; cur = drop pos s; delimiter = d })
  unfolding increment
  increment-none pos cur absent = ap ok (advance-none pos cur absent)

  advance-some :
      (pos k : ℕ) (cur : List ℕ)
      → index_of d (drop pos s) ≡ some k
      → advance (record { src = some s; pos = some pos; cur = cur; delimiter = d }) s ≡ record {
        src = some s;
        pos = some (pos + k + 1);
        cur = take k (drop pos s);
        delimiter = d;
      }
  unfolding advance
  advance-some pos k cur there =
      let size : pos + k - pos ≡ k = omega arith in
      rw (find-some pos k there, advance)
        (ap
          (λ n. record {
            src = some s;
            pos = some (pos + k + 1);
            cur = take n (drop pos s);
            delimiter = d;
          })
          size)

  increment-some :
      (pos k : ℕ) (cur : List ℕ)
      → index_of d (drop pos s) ≡ some k
      → increment (record { src = some s; pos = some pos; cur = cur; delimiter = d })
        ≡ ok (record {
          src = some s;
          pos = some (pos + k + 1);
          cur = take k (drop pos s);
          delimiter = d;
        })
  unfolding increment
  increment-some pos k cur there = ap ok (advance-some pos k cur there)

  parts_loop-parts :
      (fuel pos : ℕ) (cur : List ℕ)
      → length (drop pos s) + 2 < fuel
      → parts_loop fuel (record { src = some s; pos = some pos; cur = cur; delimiter = d })
        ≡ ok (cur ∷ parts d (drop pos s))
  parts_loop-parts zero pos cur enough = elim enough [ ]
  parts_loop-parts (suc zero) pos cur enough = absurd (omega (arith, enough))
  parts_loop-parts (suc (suc zero)) pos cur enough = absurd (omega (arith, enough))
  parts_loop-parts (suc (suc (suc fuel))) pos cur enough =
      elim (Option-cases (index_of d (drop pos s))) [
        | inl absent ↦ rw (parts-none d (drop pos s) absent) (
            parts_loop-step (suc (suc fuel)) pos cur
              (record { src = some s; pos = none; cur = drop pos s; delimiter = d })
              (drop pos s ∷ []) (increment-none pos cur absent) (last-part fuel (drop pos s)))
        | inr (k, there) ↦
            let (lt, split) = parts-some d (drop pos s) k there in
            let more : drop (pos + k + 1) s ≡ drop (suc k) (drop pos s) =
              ap (λ n. drop n s) (omega arith) ∙ drop_more pos (suc k) s in
            let shorter : length (drop (pos + k + 1) s) < length (drop pos s) =
              omega (arith, length-drop pos s, length-drop (pos + k + 1) s, lt) in
            let later =
              parts_loop-parts (suc (suc fuel)) (pos + k + 1) (take k (drop pos s))
                (omega (arith, enough, shorter)) in
            rw split (
              parts_loop-step (suc (suc fuel)) pos cur
                (record {
                  src = some s;
                  pos = some (pos + k + 1);
                  cur = take k (drop pos s);
                  delimiter = d;
                })
                (take k (drop pos s) ∷ parts d (drop (suc k) (drop pos s)))
                (increment-some pos k cur there)
                (later ∙ ap (λ r. ok (take k (drop pos s) ∷ parts d r)) more))
      ]

module _ (s : List ℕ) (d : ℕ) where
  first-part :
      (fuel : ℕ) (it : Iterator) (ps : List (List ℕ))
      → increment (record { src = some s; pos = some 0; cur = []; delimiter = d }) ≡ ok it
      → parts_loop fuel it ≡ ok ps
      → (begin s d >>= λ made. parts_loop fuel made) ≡ ok ps
  unfolding begin
  first-part fuel it ps moves gives = rw (moves, gives) refl

  unfolded : to_vector s d ≡ (begin s d >>= λ made. parts_loop (length s + 3) made)
  unfolding to_vector
  unfolded = refl

  -- For a delimiter that is a character, `to_vector` ends with the parts of the text between the
  -- delimiters.
  pub to_vector-parts : to_vector s d ≡ ok (parts d s)
  to_vector-parts = elim (Option-cases (index_of d s)) [
    | inl absent ↦
        let rounds : length s + 3 ≡ suc (suc (length s + 1)) = omega arith in
        rw (parts-none d s absent) (
          unfolded
          ∙ first-part (length s + 3) (record { src = some s; pos = none; cur = s; delimiter = d })
              (s ∷ []) (increment-none s d 0 [] absent)
              (ap (λ n. parts_loop n (record { src = some s; pos = none; cur = s; delimiter = d }))
                  rounds
                ∙ last-part s d (length s + 1) s))
    | inr (k, there) ↦
        let (lt, split) = parts-some d s k there in
        let place : 0 + k + 1 ≡ suc k = omega arith in
        rw split (
          unfolded
          ∙ first-part (length s + 3)
              (record { src = some s; pos = some (0 + k + 1); cur = take k s; delimiter = d })
              (take k s ∷ parts d (drop (suc k) s)) (increment-some s d 0 k [] there)
              (parts_loop-parts s d (length s + 3) (0 + k + 1) (take k s)
                  (omega (arith, length-drop (0 + k + 1) s, lt))
                ∙ ap (λ n. ok (take k s ∷ parts d (drop n s))) place))
  ]

  -- The parts that `to_vector` gives, with the delimiter between them, are the text.
  pub to_vector-join : (to_vector s d >>= λ ps. ok (join d ps)) ≡ ok s
  to_vector-join = rw (to_vector-parts, join-parts d s) refl
