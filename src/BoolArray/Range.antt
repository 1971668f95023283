-- ===== src/BoolArray/Range.antt =====
-- The members that take a range: merges and `copy_to_bitmap`, with their errors.
use nvwa.Common.{
  ℕ, suc, ◌+◌, ◌-◌, ◌/◌, ◌%◌, ◌^◌, ◌≤◌, ◌<◌, ◌==◌, leb, if◌then◌else◌, Bool, true, false, not, ◌&&◌,
  ◌||◌, List, some, length, Result, ok, err, ◌≡◌, ◌≢◌, refl, ap, arith, Bool-cases, inl, inr, ◌⊎◌,
  out_of_range, lt→ltb, fault,
}
use nvwa.Bits.Words.{add_size, sub_size}
use nvwa.BoolArray.Memory.{and_byte}
use nvwa.BoolArray.Content.{read-past}
use nvwa.BoolArray.Defs.{BoolArray, npos}
use nvwa.BoolArray.Merging.{
  checked_end, merge_loop, merge_last, merge_bytes, merge, merge_and, merge_or, shift_ones,
  fill_ones,
}
use nvwa.BoolArray.Valid.{Holds, Becomes, Becomes-Rewrites, Holds-replaced, asserted-Holds}
use nvwa.BoolArray.Gather.{get_8bits-Gets}
use nvwa.BoolArray.Merge.{IsMerge, and-IsMerge, or-IsMerge, merged, merge_bytes-Rewrites}

-- The end that a call means.
abbrev pub range_end : BoolArray → ℕ → ℕ
range_end ba end = if end == npos then ba.size else end

pub checked_end-ok :
    (ba : BoolArray) (begin end : ℕ)
    → begin ≤ range_end ba end
    → range_end ba end ≤ ba.size
    → checked_end ba begin end ≡ ok (range_end ba end)
unfolding checked_end
checked_end-ok ba begin end order inside = ground arith

pub checked_end-throws :
    (ba : BoolArray) (begin end : ℕ)
    → (range_end ba end < begin) ⊎ (ba.size < range_end ba end)
    → checked_end ba begin end ≡ err out_of_range
unfolding checked_end
checked_end-throws ba begin end outside = ground arith

unchanged :
    {ba : BoolArray} {bytes : List ℕ}
    → Holds ba bytes
    → ok ba ≡ ok (record { byte_ptr = some bytes; size = ba.size })
unchanged {ba} h = ap (λ p. ok (record { byte_ptr = p; size = ba.size })) h.held

-- A merge that starts past the end of the destination accesses a byte that is not there.
merge_bytes-faults :
    {rhs : BoolArray} {src : List ℕ} (from : Holds rhs src) (begin end offset : ℕ) (dest : List ℕ)
    → begin < end
    → end ≤ rhs.size
    → length dest ≤ offset / 8
    → merge_bytes and_byte shift_ones fill_ones rhs begin end offset dest ≡ err fault
unfolding merge_bytes merge_loop merge_last
merge_bytes-faults {rhs} from begin end offset dest some_bits inside past =
    let got = get_8bits-Gets from begin end some_bits inside in
    let faults = read-past dest (offset / 8) past in
    let fuel : end - begin + 1 ≡ suc (end - begin) = omega arith in
    elim (Bool-cases
      (not (offset % 8 == 0) && leb (sub_size (add_size begin 8) (offset % 8)) end)) [
        | inl partial ↦ rw (partial, got.returns, faults)
        | inr whole ↦ elim (Bool-cases (leb (add_size begin 8) end)) [
          | inl full ↦ rw (whole, fuel, full, merge_loop, got.returns, faults)
          | inr last ↦
              let few : end - begin < 8 = ground (arith, from.small) in
              rw (
                whole,
                fuel,
                last,
                merge_loop,
                merge_last,
                lt→ltb begin end some_bits,
                lt→ltb (end - begin) 8 few,
                got.returns,
                faults,
              )
        ]
      ]

module _ {ba rhs : BoolArray} {bytes src : List ℕ} (h : Holds ba bytes) (from : Holds rhs src)
    (begin end offset : ℕ) where
  -- The number of bits to merge.
  abbrev count : ℕ
  count = range_end rhs end - begin

  module _ {store : List ℕ → ℕ → ℕ → Result (List ℕ)} {shift fill : ℕ → ℕ → ℕ}
      {op : Bool → Bool → Bool} (laws : IsMerge store shift fill op) where
    merge-Becomes :
        begin ≤ range_end rhs end
        → range_end rhs end ≤ rhs.size
        → offset + count ≤ ba.size
        → Becomes ba.size
            (merge store shift fill rhs begin end offset ba)
            (merged op src bytes begin count offset)
    unfolding merge
    merge-Becomes order inside room = elim (Bool-cases (begin == end)) [
      | inl none_asked ↦ record {
        after = bytes;
        returns = rw (asserted-Holds h, none_asked) (unchanged h);
        holds = Holds-replaced ba bytes h refl h.are_bytes;
        content = λ i. ground arith;
      }
      | inr some_asked ↦
          let fits : leb (add_size offset (sub_size (range_end rhs end) begin)) ba.size ≡ true =
            ground (arith, h.small, from.small) in
          rw (asserted-Holds h, some_asked, checked_end-ok rhs begin end order inside, fits)
            (Becomes-Rewrites ba _ _ h (
              merge_bytes-Rewrites laws from (range_end rhs end) inside bytes begin offset
                h.are_bytes order (omega (arith, h.sized))))
    ]

    merge-throws :
        begin ≢ end
        → (range_end rhs end < begin)
          ⊎ (rhs.size < range_end rhs end)
          ⊎ ((ba.size < offset + count) × (offset + count < 2 ^ 64))
        → merge store shift fill rhs begin end offset ba ≡ err out_of_range
    unfolding merge checked_end
    merge-throws asked outside = rw (asserted-Holds h) (ground (arith, h.small, from.small))

  -- `merge_and`: the bits of the range are those of both arrays; the others stay.
  pub merge_and-Becomes :
      begin ≤ range_end rhs end
      → range_end rhs end ≤ rhs.size
      → offset + count ≤ ba.size
      → Becomes ba.size
          (merge_and rhs begin end offset ba)
          (merged ◌&&◌ src bytes begin count offset)
  unfolding merge_and
  merge_and-Becomes order inside room = merge-Becomes and-IsMerge order inside room

  -- `merge_or`: the bits of the range are those of either array; the others stay.
  pub merge_or-Becomes :
      begin ≤ range_end rhs end
      → range_end rhs end ≤ rhs.size
      → offset + count ≤ ba.size
      → Becomes ba.size
          (merge_or rhs begin end offset ba)
          (merged ◌||◌ src bytes begin count offset)
  unfolding merge_or
  merge_or-Becomes order inside room = merge-Becomes or-IsMerge order inside room

  -- Both merges throw when a range that is not empty leaves one of the arrays, and the position
  -- past its end in the destination fits `size_type`.
  merges_throw :
      begin ≢ end
      → (range_end rhs end < begin)
        ⊎ (rhs.size < range_end rhs end)
        ⊎ ((ba.size < offset + count) × (offset + count < 2 ^ 64))
      → (merge_and rhs begin end offset ba ≡ err out_of_range)
        × (merge_or rhs begin end offset ba ≡ err out_of_range)
  unfolding merge_and merge_or
  merges_throw asked outside =
      (merge-throws and-IsMerge asked outside, merge-throws or-IsMerge asked outside)

  -- Where the source range is valid, with some bits and no two equal ends, the offset is a number
  -- of 64 bits, the bits to merge are at most 2 ^ 64 - 8 less the bits of the destination, and
  -- the sum of the offset and their number wraps round to a number within the destination, the
  -- check of `merge_and` accepts it and the merge accesses a byte that the array does not have.
  pub merge_and_wraps :
      begin < range_end rhs end
      → range_end rhs end ≤ rhs.size
      → begin ≢ end
      → offset < 2 ^ 64
      → 2 ^ 64 ≤ offset + count
      → ba.size + 8 + count ≤ 2 ^ 64
      → add_size offset count ≤ ba.size
      → merge_and rhs begin end offset ba ≡ err fault
  unfolding merge_and merge
  merge_and_wraps some_bits inside asked fits wraps apart accepted =
      let passes : leb (add_size offset (sub_size (range_end rhs end) begin)) ba.size ≡ true =
        ground (arith, h.small, from.small) in
      let differs : (begin == end) ≡ false = ground arith in
      rw (
        asserted-Holds h,
        differs,
        checked_end-ok rhs begin end (omega arith) inside,
        passes,
        merge_bytes-faults from begin (range_end rhs end) offset bytes some_bits inside
            (omega (arith, h.sized)),
      )
