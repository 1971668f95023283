-- ===== src/BoolArray/CopyOut.antt =====
-- `copy_to_bitmap`: the bits of a range, with zeros up to the end of the last byte.
use nvwa.Common.{
  ℕ, zero, suc, ◌+◌, ◌-◌, ◌*◌, ◌/◌, ◌%◌, ◌^◌, ◌≤◌, ◌<◌, ◌==◌, ltb, leb, if◌then◌else◌, Bool, false,
  List, length, drop, length-drop, ◌≡◌, ◌≢◌, refl, ◌∙◌, ap, arith, Bool-cases, inl, inr, lt→ltb,
  dec_lt, Result, ok, ◌>>=◌,
}
use nvwa.Bits.Words.{add_size, low_mask}
use nvwa.Bits.Laws.{testbit-low_mask}
use nvwa.BoolArray.Memory.{write, memcpy, and_byte}
use nvwa.BoolArray.Content.{bits, AreBytes, Rewrites, write-Rewrites, and_byte-Rewrites}
use nvwa.BoolArray.Blocks.{memcpy-Rewrites, byte_at-drop}
use nvwa.BoolArray.Defs.{BoolArray, get_num_bytes_from_bits}
use nvwa.BoolArray.Merging.{copy_to_bitmap, copy_loop, get_8bits}
use nvwa.BoolArray.Valid.{Holds, asserted-Holds}
use nvwa.BoolArray.Range.{range_end, checked_end-ok}
use nvwa.BoolArray.Gather.{get_8bits-Gets}

-- The bits of the destination before `n` are `f`, and so are those past the byte of bit `n - 1`.
record Fills (n : ℕ) (dest : List ℕ) (r : Result (List ℕ)) (f : ℕ → Bool) : Type 0 where
  out : List ℕ
  returns : r ≡ ok out
  same_length : length out ≡ length dest
  are_bytes : AreBytes out
  inside : (j : ℕ) → j < n → bits out j ≡ f j
  outside : (j : ℕ) → n + 7 < 8 * (j / 8) + 8 → bits out j ≡ bits dest j

copy_loop-step :
    (fuel : ℕ) (ba : BoolArray) (end : ℕ) (dest dest' : List ℕ) (i offset v : ℕ)
    → offset < end
    → get_8bits ba offset end ≡ ok v
    → write dest i v ≡ ok dest'
    → copy_loop (suc fuel) ba end dest i offset
      ≡ copy_loop fuel ba end dest' (i + 1) (add_size offset 8)
unfolding copy_loop
copy_loop-step fuel ba end dest dest' i offset v more got stored =
    rw (lt→ltb offset end more, copy_loop, got, stored)

copy_loop-stop :
    (fuel : ℕ) (ba : BoolArray) (end : ℕ) (dest : List ℕ) (i offset : ℕ)
    → end ≤ offset
    → copy_loop (suc fuel) ba end dest i offset ≡ ok dest
unfolding copy_loop
copy_loop-stop fuel ba end dest i offset done =
    let stops : ltb offset end ≡ false = ground arith in rw (stops, copy_loop)

bits-drop : (bytes : List ℕ) (k j : ℕ) → bits (drop k bytes) j ≡ bits bytes (8 * k + j)
unfolding bits
bits-drop bytes k j =
    let byte : (8 * k + j) / 8 ≡ k + j / 8 = omega arith in
    let bit : (8 * k + j) % 8 ≡ j % 8 = omega arith in rw (byte, bit, byte_at-drop bytes k (j / 8))

module _ {ba : BoolArray} {bytes : List ℕ} (h : Holds ba bytes) (begin end : ℕ) (le : end ≤ ba.size)
    (order : begin ≤ end) where
  abbrev from_byte : ℕ → List ℕ → ℕ → Bool
  from_byte i dest j = if leb (8 * i) j then bits bytes (begin + j) else bits dest j

  copy_loop-Fills :
      (fuel i : ℕ) (dest : List ℕ)
      → AreBytes dest
      → begin + 8 * i < end + 8
      → end + 8 ≤ begin + 8 * i + 8 * fuel
      → end - begin ≤ 8 * length dest
      → Fills (end - begin) dest (copy_loop fuel ba end dest i (begin + 8 * i)) (from_byte i dest)
  copy_loop-Fills zero i dest are near enough room = absurd (omega arith)
  copy_loop-Fills (suc fuel) i dest are near enough room = elim (dec_lt (begin + 8 * i) end) [
    | yes more ↦
        let got = get_8bits-Gets h (begin + 8 * i) end more le in
        let step = write-Rewrites dest i got.value (omega arith) got.small are in
        let next : add_size (begin + 8 * i) 8 ≡ begin + 8 * (i + 1) = omega (arith, h.small) in
        let rest =
          copy_loop-Fills fuel (i + 1) step.out step.are_bytes (omega arith) (omega arith)
            (omega (arith, step.same_length)) in
        record {
          out = rest.out;
          returns =
              copy_loop-step fuel ba end dest step.out i (begin + 8 * i) got.value more got.returns
                step.returns
              ∙ (ap (copy_loop fuel ba end step.out (i + 1)) next ∙ rest.returns);
          same_length = rest.same_length ∙ step.same_length;
          are_bytes = rest.are_bytes;
          inside = λ j lt.
              rest.inside j lt
              ∙ ground (
                arith,
                step.content j,
                got.content (j % 8),
                ap (bits bytes) {x = begin + 8 * i + j % 8} {y = begin + j},
              );
          outside = λ j past. rest.outside j past ∙ ground (arith, step.content j);
        }
    | no done ↦ record {
      out = dest;
      returns = copy_loop-stop fuel ba end dest i (begin + 8 * i) (omega arith);
      same_length = refl;
      are_bytes = are;
      inside = λ j lt. ground arith;
      outside = λ j past. refl;
    }
  ]

  -- The copy of whole bytes, or bit by bit, before the last byte is trimmed.
  moved : List ℕ → Result (List ℕ)
  moved dest =
      if begin % 8 == 0
      then memcpy dest (drop (begin / 8) bytes) (get_num_bytes_from_bits (end - begin))
      else copy_loop (end - begin + 1) ba end dest 0 begin

  moved-Fills :
      (dest : List ℕ)
      → AreBytes dest
      → (end - begin + 7) / 8 ≤ length dest
      → Fills (end - begin) dest (moved dest) (λ j. bits bytes (begin + j))
  unfolding moved
  moved-Fills dest are room = elim (Bool-cases (begin % 8 == 0)) [
    | inl aligned ↦
        let n = (end - begin + 7) / 8 in
        let number : get_num_bytes_from_bits (end - begin) ≡ n = omega (arith, h.small) in
        let copied =
          memcpy-Rewrites dest (drop (begin / 8) bytes) n room
            (ground (arith, length-drop (begin / 8) bytes, h.sized)) are
            (λ i. rw (byte_at-drop bytes (begin / 8) i) (h.are_bytes _)) in
        record {
          out = copied.out;
          returns = rw (aligned, number) copied.returns;
          same_length = copied.same_length;
          are_bytes = copied.are_bytes;
          inside = λ j lt.
              copied.content j
              ∙ ground (
                arith,
                bits-drop bytes (begin / 8) j,
                ap (bits bytes) {x = 8 * (begin / 8) + j} {y = begin + j},
              );
          outside = λ j past. copied.content j ∙ ground arith;
        }
    | inr odd ↦
        let start : begin + 8 * 0 ≡ begin = omega arith in
        let copied =
          copy_loop-Fills (end - begin + 1) 0 dest are (omega arith) (omega arith) (omega arith) in
        record {
          out = copied.out;
          returns = rw odd (rw start at copied.returns);
          same_length = copied.same_length;
          are_bytes = copied.are_bytes;
          inside = λ j lt. copied.inside j lt ∙ ground arith;
          outside = copied.outside;
        }
  ]

-- What is written for a range of `n` bits from `begin`.
abbrev pub copied_out : List ℕ → ℕ → ℕ → List ℕ → ℕ → Bool
copied_out bytes begin n dest j =
    if ltb j n
    then bits bytes (begin + j)
    else if ltb (j / 8) ((n + 7) / 8)
    then false
    else bits dest j

trim_copy-Rewrites :
    (bytes : List ℕ) (begin n : ℕ) (dest : List ℕ) (r : Result (List ℕ))
    → n + 7 < 2 ^ 64
    → (n + 7) / 8 ≤ length dest
    → Fills n dest r (λ j. bits bytes (begin + j))
    → Rewrites dest
        (r >>= λ dest'.
          if n % 8 == 0
          then ok dest'
          else and_byte dest' (get_num_bytes_from_bits n - 1) (low_mask (n % 8)))
        (copied_out bytes begin n dest)
trim_copy-Rewrites bytes begin n dest r small room filled = elim (Bool-cases (n % 8 == 0)) [
  | inl whole ↦ record {
    out = filled.out;
    returns = rw (filled.returns, whole);
    same_length = filled.same_length;
    are_bytes = filled.are_bytes;
    content = λ j. ground (arith, filled.inside j, filled.outside j);
  }
  | inr partial ↦
      let last = get_num_bytes_from_bits n - 1 in
      let trimmed =
        and_byte-Rewrites filled.out last (low_mask (n % 8)) (ground (arith, filled.same_length))
          filled.are_bytes in
      record {
        out = trimmed.out;
        returns = rw (filled.returns, partial) trimmed.returns;
        same_length = trimmed.same_length ∙ filled.same_length;
        are_bytes = trimmed.are_bytes;
        content = λ j.
            trimmed.content j
            ∙ ground (arith, filled.inside j, filled.outside j, testbit-low_mask (n % 8) (j % 8));
      }
]

-- `copy_to_bitmap` writes the bits of the range, zeros up to the end of the last byte written, and
-- nothing else.
pub copy_to_bitmap-Rewrites :
    {ba : BoolArray} {bytes : List ℕ} (h : Holds ba bytes) (begin end : ℕ) (dest : List ℕ)
    → begin ≤ range_end ba end
    → range_end ba end ≤ ba.size
    → begin ≢ end
    → AreBytes dest
    → (range_end ba end - begin + 7) / 8 ≤ length dest
    → Rewrites dest
        (copy_to_bitmap ba dest begin end)
        (copied_out bytes begin (range_end ba end - begin) dest)
unfolding copy_to_bitmap
copy_to_bitmap-Rewrites {ba} {bytes} h begin end dest order inside differ are room =
    let asked : (begin == end) ≡ false = ground arith in
    let filled = moved-Fills h begin (range_end ba end) inside order dest are room in
    rw (asserted-Holds h, asked, checked_end-ok ba begin end order inside)
      (unfold moved in
        trim_copy-Rewrites bytes begin (range_end ba end - begin) dest _ (omega (arith, h.small))
          room filled)
