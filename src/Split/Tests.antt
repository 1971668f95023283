-- ===== src/Split/Tests.antt =====
-- The theorems on the parts at concrete texts.
use nvwa.Common.{ℕ, List, [], ◌∷◌, ok, ◌≡◌, refl, ◌>>=◌}
use nvwa.Split.Defs.{to_vector, begin, increment, advance, find, index_of, parts_loop}
use nvwa.Split.Parts.{parts, join}
use nvwa.Split.Iterate.{to_vector-parts, to_vector-join}

-- Numbers, with 9 between them, and at the end.
abbrev text : List ℕ
text = 1 ∷ 2 ∷ 9 ∷ 9 ∷ 3 ∷ 9 ∷ []

to_vector-parts_example : to_vector text 9 ≡ ok (parts 9 text)
to_vector-parts_example = to_vector-parts text 9

to_vector-join_example : (to_vector text 9 >>= λ ps. ok (join 9 ps)) ≡ ok text
to_vector-join_example = to_vector-join text 9

to_vector-text : to_vector text 9 ≡ ok ((1 ∷ 2 ∷ []) ∷ [] ∷ (3 ∷ []) ∷ [] ∷ [])
unfolding to_vector begin increment advance find index_of parts_loop
to_vector-text = refl

to_vector-empty : to_vector [] 9 ≡ ok ([] ∷ [])
unfolding to_vector begin increment advance find index_of parts_loop
to_vector-empty = refl
