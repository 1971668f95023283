-- ===== src/FileLineReader/Reading.antt =====
-- The two loops of `read` get the first line of what is left.
use nvwa.Common.{
  max, ℕ, zero, suc, ◌+◌, ◌-◌, ◌*◌, ◌^◌, ◌≤◌, ◌<◌, ◌==◌, ltb, if◌then◌else◌, Bool, true, List, [],
  ◌∷◌, ◌++◌, length, some, Result, ok, ◌≡◌, refl, ap, ◌∙◌, sym, arith, Bool-cases, inl, inr,
  length-append, ◌&&◌,
}
use nvwa.Bits.Words.{sub_size}
use nvwa.FileLineReader.Defs.{
  Output, write_pos, expanded, last?, up_to_newline, get_line, get_chunk, after_chunk, last_round,
  next_round,
}
use nvwa.FileLineReader.Lines.{line, rest, ends, Free, last?-append, last?-line}
use nvwa.FileLineReader.Chunks.{
  Taken, up_to_newline-Taken, length-up_to_newline, up_to_newline-cons, up_to_newline-append,
  Free-append, line-append, rest-append, ends-append, last?-Free, c_string-Free,
}
use mathlib.Core.List.{append_assoc, append-nil}

-- The line of `s` is added to the output, which has room for one character more, and grows to no
-- more than twice what it needs.
pub record Fetched {S : Type 0} (Good : S → Type 0) (d : ℕ) (s : List ℕ) (before : Output)
    (result : Result (Bool × Output × S)) : Type 0 where
  pub output : Output
  pub state : S
  pub returns : result ≡ ok (ends d s, output, state)
  pub text_is : output.text ≡ before.text ++ line d s
  pub spare : write_pos output < output.capacity
  pub kept : before.capacity ≤ output.capacity
  pub grown : output.capacity ≤ max before.capacity (2 * (write_pos output + 1))
  pub good : Good state

pub room-size :
    (capacity n : ℕ) → n < capacity → capacity < 2 ^ 31 → sub_size capacity n ≡ capacity - n
room-size capacity n lt small = ground arith

-- What the output can hold while `more` characters are left.
pub record Holds (output : Output) (more : ℕ) : Type 0 where
  pub two_left : write_pos output + 1 < output.capacity
  pub small : output.capacity < 2 ^ 31
  pub all_small : 2 * (write_pos output + more + 1) < 2 ^ 31

pub may-get : (n : ℕ) → 0 < n → n < 2 ^ 31 → (ltb 0 n && ltb n (2 ^ 31)) ≡ true
may-get n some_room small = ground arith

pub one-less : (n : ℕ) → suc n - 1 ≡ n
one-less n = omega arith

pub expanded-text : (output : Output) → (expanded output).text ≡ output.text
expanded-text output = elim (Bool-cases (write_pos output + 1 == output.capacity)) [
  | inl h ↦ rw h refl
  | inr h ↦ rw h refl
]

pub expanded-grown :
    (output : Output)
    → (output.capacity ≤ (expanded output).capacity)
      × ((expanded output).capacity ≤ max output.capacity (2 * (write_pos output + 1)))
expanded-grown output = elim (Bool-cases (write_pos output + 1 == output.capacity)) [
  | inl h ↦ rw h (omega arith, ground arith)
  | inr h ↦ rw h (omega arith, omega arith)
]

expanded-Holds :
    (output : Output) (more : ℕ)
    → 0 < write_pos output
    → write_pos output < output.capacity
    → output.capacity < 2 ^ 31
    → 2 * (write_pos output + more + 1) < 2 ^ 31
    → Holds (expanded output) more
expanded-Holds output more some_text fits small all_small =
    elim (Bool-cases (write_pos output + 1 == output.capacity)) [
      | inl h ↦
          rw h (record { two_left = ground arith; small = ground arith; all_small = all_small })
      | inr h ↦ rw h (record { two_left = ground arith; small = small; all_small = all_small })
    ]

-- The chunk that `fgets` gets where `n + 2` characters have room, and what it leaves.
module _ (n c : ℕ) (s : List ℕ) (output : Output)
    (size_is : sub_size output.capacity (write_pos output) ≡ suc (suc n))
    (small : suc (suc n) < 2 ^ 31) (no_nul : Free 0 (c ∷ s)) where
  abbrev chunk : List ℕ
  chunk = (up_to_newline (suc n) (c ∷ s)).0

  abbrev after : List ℕ
  after = (up_to_newline (suc n) (c ∷ s)).1

  abbrev got : Output
  got = record output { text = output.text ++ chunk }

  no_nul_after : Free 0 chunk × Free 0 after
  no_nul_after = Free-append 0 chunk after (rw (up_to_newline-append (suc n) (c ∷ s)) no_nul)

  get_chunk-after : get_chunk (c ∷ s) output ≡ after_chunk got after
  unfolding get_chunk
  get_chunk-after =
      rw
        (
          size_is,
          may-get (suc (suc n)) (omega arith) small,
          one-less (suc n),
          c_string-Free chunk no_nul_after.0,
        )
        refl

  -- A round of the loop is the last where the chunk ends with the line feed.
  get_chunk-last :
      (x : ℕ)
      → last? chunk ≡ some x
      → get_chunk (c ∷ s) output ≡ (
          if x == b'\n'
          then ok (last_round true got after)
          else ok (next_round (expanded got) after))
  unfolding after_chunk
  get_chunk-last x last_is =
      let (more, chunk_is) = up_to_newline-cons n c s in
      let same : last? got.text ≡ some x =
        rw chunk_is (last?-append output.text c more) ∙ rw chunk_is at last_is in
      get_chunk-after ∙ rw same refl

  module _ (holds : Holds output (suc (length s)))
      (n_is : suc (suc n) ≡ output.capacity - write_pos output) where
    sizes :
        (0 < length chunk)
        × (length chunk + length after ≡ suc (length s))
        × (write_pos got < output.capacity)
    sizes =
        let (more, chunk_is) = up_to_newline-cons n c s in
        let some_chunk : 0 < length chunk = rw chunk_is (omega arith) in
        let parts : length chunk + length after ≡ suc (length s) =
          sym (length-append chunk after) ∙ ap length (up_to_newline-append (suc n) (c ∷ s)) in
        let fits : write_pos got < output.capacity =
          rw (length-append output.text chunk)
            (omega (arith, length-up_to_newline (suc n) (c ∷ s), holds.two_left, n_is)) in
        (some_chunk, parts, fits)

    next-Holds : Holds (expanded got) (length after) × (length after ≤ length s)
    next-Holds =
        let (some_chunk, parts, fits) = sizes in
        let adds : write_pos got ≡ write_pos output + length chunk =
          length-append output.text chunk in
        (
          expanded-Holds got (length after) (omega (arith, adds, some_chunk)) fits holds.small
              (omega (arith, adds, parts, holds.all_small)),
          omega (arith, parts, some_chunk),
        )

    get_line-step :
        (fuel : ℕ)
        → Fetched
            (λ s'. s' ≡ rest b'\n' after)
            b'\n'
            after
            (expanded got)
            (get_line fuel after (expanded got))
        → Fetched
            (λ s'. s' ≡ rest b'\n' (c ∷ s))
            b'\n'
            (c ∷ s)
            output
            (get_line (suc fuel) (c ∷ s) output)
    unfolding get_line
    get_line-step fuel next = elim (up_to_newline-Taken (suc n) (c ∷ s)) [
      | Taken.whole line_is rest_is found ↦
          let last_is : last? chunk ≡ some b'\n' = rw line_is (last?-line b'\n' (c ∷ s) found) in
          record {
            output = got;
            state = after;
            returns = rw (get_chunk-last b'\n' last_is, found) refl;
            text_is = ap (λ l. output.text ++ l) line_is;
            spare = sizes.2;
            kept = omega arith;
            grown = omega arith;
            good = rest_is;
          }
      | Taken.part s_is free ↦
          let (more, chunk_is) = up_to_newline-cons n c s in
          let (x, last_is, other) = last?-Free b'\n' c more (rw chunk_is at free) in
          let last_is' : last? chunk ≡ some x = rw chunk_is last_is in
          let so_far : (expanded got).text ≡ output.text ++ chunk = expanded-text got in
          let same_end : ends b'\n' (c ∷ s) ≡ ends b'\n' after =
            ap (ends b'\n') s_is ∙ ends-append b'\n' chunk after free in
          let same_line : line b'\n' (c ∷ s) ≡ chunk ++ line b'\n' after =
            ap (line b'\n') s_is ∙ line-append b'\n' chunk after free in
          let same_rest : rest b'\n' (c ∷ s) ≡ rest b'\n' after =
            ap (rest b'\n') s_is ∙ rest-append b'\n' chunk after free in
          record {
            output = next.output;
            state = next.state;
            returns = rw (get_chunk-last x last_is', other, same_end) next.returns;
            text_is =
                next.text_is
                ∙ ap (λ l. l ++ line b'\n' after) so_far
                ∙ append_assoc output.text chunk (line b'\n' after)
                ∙ ap (λ l. output.text ++ l) (sym same_line);
            spare = next.spare;
            kept = omega (arith, next.kept, expanded-grown got);
            grown = omega (
              arith,
              next.grown,
              expanded-grown got,
              ap length next.text_is,
              length-append (expanded got).text (line b'\n' after),
              ap length so_far,
            );
            good = next.good ∙ sym same_rest;
          }
    ]

-- `get_line` gets the line and leaves the rest.
pub get_line-Fetched :
    (fuel : ℕ) (s : List ℕ) (output : Output)
    → length s < fuel
    → Free 0 s
    → Holds output (length s)
    → Fetched (λ s'. s' ≡ rest b'\n' s) b'\n' s output (get_line fuel s output)
unfolding get_line line rest ends get_chunk
get_line-Fetched zero s output enough no_nul holds = elim enough [ ]
get_line-Fetched (suc fuel) [] output enough no_nul holds = record {
  output = output;
  state = [];
  returns =
      rw
        (
          room-size output.capacity (write_pos output) (omega (arith, holds.two_left)) holds.small,
          may-get (output.capacity - write_pos output) (omega (arith, holds.two_left))
              (omega (arith, holds.small)),
        )
        refl;
  text_is = sym (append-nil output.text);
  spare = omega (arith, holds.two_left);
  kept = omega arith;
  grown = omega arith;
  good = refl;
}
get_line-Fetched (suc fuel) (c ∷ s) output enough no_nul holds =
    let n = output.capacity - write_pos output - 2 in
    let size_is : sub_size output.capacity (write_pos output) ≡ suc (suc n) =
      room-size output.capacity (write_pos output) (omega (arith, holds.two_left)) holds.small
      ∙ omega (arith, holds.two_left) in
    let small : suc (suc n) < 2 ^ 31 = omega (arith, holds.small, holds.two_left) in
    let (next_holds, shorter) = next-Holds n c s output size_is small no_nul holds (omega arith) in
    let (_, no_nul_left) = no_nul_after n c s output size_is small no_nul in
    let next =
      get_line-Fetched fuel (after n c s output size_is small no_nul)
        (expanded (got n c s output size_is small no_nul)) (omega (arith, enough, shorter))
        no_nul_left next_holds in
    get_line-step n c s output size_is small no_nul holds (omega arith) fuel next
