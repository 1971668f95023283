-- ===== src/Split/Defs.antt =====
-- The iterator and the vector of its parts, for a delimiter that is a character.
use nvwa.Common.{
  ℕ, zero, suc, ◌+◌, ◌-◌, ◌==◌, if◌then◌else◌, Bool, true, false, List, [], ◌∷◌, length, take, drop,
  Option, none, some, Result, ok, err, fault, assertion, from_option, ◌>>=◌,
}

-- `none` stands for the null `_M_src` and for `npos`.
pub record Iterator : Type 0 where
  pub src : Option (List ℕ)
  pub pos : Option ℕ
  pub cur : List ℕ
  pub delimiter : ℕ

-- The first position of a character in a text.
unfoldable pub index_of : ℕ → List ℕ → Option ℕ
index_of d [] = none
index_of d (c ∷ s) =
    let later = index_of d s in
    if c == d then some 0 else elim later [ none ↦ none | some k ↦ some (suc k) ]

-- `find(ch, pos)` of the string: its first position from `pos` on.
unfoldable pub find : List ℕ → ℕ → ℕ → Option ℕ
find s d pos = elim (index_of d (drop pos s)) [ none ↦ none | some k ↦ some (pos + k) ]

-- The move of `operator++` over a source, and its assertion.
unfoldable pub advance : Iterator → List ℕ → Iterator
advance it s = elim it.pos [
  | none ↦ record it { src = none }
  | some last_pos ↦ elim (find s it.delimiter last_pos) [
    | some pos ↦ record it { pos = some (pos + 1); cur = take (pos - last_pos) (drop last_pos s) }
    | none ↦ record it { pos = none; cur = take (length s - last_pos) (drop last_pos s) }
  ]
]

unfoldable pub increment : Iterator → Result Iterator
increment it = do s ← from_option assertion it.src; ok (advance it s)

-- `iterator(src, delimiter)`, which `begin` makes.
unfoldable pub begin : List ℕ → ℕ → Result Iterator
begin s delimiter =
    increment (record { src = some s; pos = some 0; cur = []; delimiter = delimiter })

-- `it != end()`: both the source and the position tell.
abbrev pub is_end : Iterator → Bool
is_end it = elim it.src [ some s ↦ false | none ↦ elim it.pos [ some pos ↦ false | none ↦ true ] ]

-- The loop of `to_vector`, with a round for each character, two more and the end.
unfoldable pub parts_loop : ℕ → Iterator → Result (List (List ℕ))
parts_loop zero it = err fault
parts_loop (suc fuel) it = elim (is_end it) [
  | true ↦ ok []
  | false ↦ do it' ← increment it; rest ← parts_loop fuel it'; ok (it.cur ∷ rest)
]

unfoldable pub to_vector : List ℕ → ℕ → Result (List (List ℕ))
to_vector s delimiter = do it ← begin s delimiter; parts_loop (length s + 3) it
