-- ===== src/BoolArray/Merging.antt =====
-- `get_8bits`, `merge_and`, `merge_or` and `copy_to_bitmap`. The two merges are the same code but
-- for three statements, which `merge` takes as arguments; the other array is another object.
use nvwa.Common.{
  ℕ, zero, suc, ◌+◌, ◌-◌, ◌/◌, ◌%◌, ◌==◌, ltb, leb, if◌then◌else◌, true, false, not, ◌&&◌, List,
  some, drop, Result, ok, err, assertion, fault, out_of_range, require, ◌>>=◌, ◌>>◌, bit_and,
  bit_or,
}
use nvwa.Bits.Words.{u8, not32, shl32, shr, high_mask, low_mask, add_size, sub_size}
use nvwa.BoolArray.Memory.{read, write, and_byte, or_byte, memcpy}
use nvwa.BoolArray.Defs.{BoolArray, npos, asserted, pointed, get_num_bytes_from_bits}

-- `retval |= _M_byte_ptr[byte_offset + 1] << (8 - bit_offset)`.
unfoldable pub join_next : List ℕ → ℕ → ℕ → Result ℕ
join_next bytes offset retval = do
  next ← read bytes (offset / 8 + 1)
  ok (u8 (bit_or retval (shl32 next (8 - offset % 8))))

unfoldable pub get_8bits : BoolArray → ℕ → ℕ → Result ℕ
get_8bits ba offset end = do
  bytes ← pointed ba
  first ← read bytes (offset / 8)
  let retval = u8 (shr first (offset % 8))
  if not (offset % 8 == 0) && ltb (offset / 8) (sub_size end 1 / 8)
      then join_next bytes offset retval
      else ok retval

-- The range that a call means, where `npos` stands for the end, or the exception.
unfoldable pub checked_end : BoolArray → ℕ → ℕ → Result ℕ
checked_end rhs begin end =
    let end' = if end == npos then rhs.size else end in
    require (leb begin end' && leb end' rhs.size) out_of_range >> ok end'

-- `store` is `bytes[i] &= value` or `|=`, `shift` moves a value up within a byte, and `fill` makes
-- the bits of a value past the first `n` neutral.
module _ (store : List ℕ → ℕ → ℕ → Result (List ℕ)) (shift fill : ℕ → ℕ → ℕ) where
  -- The statements after the loop: the bits that are left, fewer than eight.
  unfoldable pub merge_last : BoolArray → ℕ → List ℕ → ℕ → ℕ → ℕ → Result (List ℕ)
  merge_last rhs end bytes byte_offset bit_offset begin =
      if ltb begin end
      then (do
        require (ltb (end - begin) 8) assertion
        value ← get_8bits rhs begin end
        let filled = fill value (end - begin)
        store bytes byte_offset (if bit_offset == 0 then filled else shift filled bit_offset))
      else ok bytes

  -- The loop over the full bytes, and what follows it.
  unfoldable pub merge_loop : ℕ → BoolArray → ℕ → List ℕ → ℕ → ℕ → ℕ → Result (List ℕ)
  merge_loop zero rhs end bytes byte_offset bit_offset begin = err fault
  merge_loop (suc fuel) rhs end bytes byte_offset bit_offset begin =
      elim (leb (add_size begin 8) end) [
        | true ↦ do
          value ← get_8bits rhs begin end
          bytes' ← store bytes byte_offset value
          merge_loop fuel rhs end bytes' (byte_offset + 1) bit_offset (begin + 8)
        | false ↦ merge_last rhs end bytes byte_offset bit_offset begin
      ]

  -- The first byte of the destination, if it is partial, and the rest. Each round of the loop takes
  -- eight bits, so the number of bits is fuel enough.
  unfoldable pub merge_bytes : BoolArray → ℕ → ℕ → ℕ → List ℕ → Result (List ℕ)
  merge_bytes rhs begin end offset bytes =
      let byte_offset = offset / 8 in
      let bit_offset = offset % 8 in
      if not (bit_offset == 0) && leb (sub_size (add_size begin 8) bit_offset) end
      then (do
        value ← get_8bits rhs begin end
        bytes' ← store bytes byte_offset (shift value bit_offset)
        merge_loop (end - begin + 1) rhs end bytes' (byte_offset + 1) 0 (begin + (8 - bit_offset)))
      else merge_loop (end - begin + 1) rhs end bytes byte_offset bit_offset begin

  unfoldable pub merge : BoolArray → ℕ → ℕ → ℕ → BoolArray → Result BoolArray
  merge rhs begin end offset ba = do
    bytes ← asserted ba
    if begin == end then ok ba else do
      end' ← checked_end rhs begin end
      require (leb (add_size offset (sub_size end' begin)) ba.size) out_of_range
      bytes' ← merge_bytes rhs begin end' offset bytes
      ok (record ba { byte_ptr = some bytes' })

-- `value = ~(~value << k)`, and `value |= ~0U << n`.
unfoldable pub shift_ones : ℕ → ℕ → ℕ
shift_ones value k = u8 (not32 (shl32 (not32 value) k))

unfoldable pub fill_ones : ℕ → ℕ → ℕ
fill_ones value n = u8 (bit_or value (high_mask n))

-- `value = value << k`, and `value &= ~(~0U << n)`.
unfoldable pub shift_zeros : ℕ → ℕ → ℕ
shift_zeros value k = u8 (shl32 value k)

unfoldable pub fill_zeros : ℕ → ℕ → ℕ
fill_zeros value n = u8 (bit_and value (low_mask n))

unfoldable pub merge_and : BoolArray → ℕ → ℕ → ℕ → BoolArray → Result BoolArray
merge_and = merge and_byte shift_ones fill_ones

unfoldable pub merge_or : BoolArray → ℕ → ℕ → ℕ → BoolArray → Result BoolArray
merge_or = merge or_byte shift_zeros fill_zeros

-- `while (offset < end) { *byte_ptr++ = get_8bits(offset, end); offset += 8; }`
unfoldable pub copy_loop : ℕ → BoolArray → ℕ → List ℕ → ℕ → ℕ → Result (List ℕ)
copy_loop zero ba end dest i offset = err fault
copy_loop (suc fuel) ba end dest i offset = elim (ltb offset end) [
  | true ↦ do
    value ← get_8bits ba offset end
    dest' ← write dest i value
    copy_loop fuel ba end dest' (i + 1) (add_size offset 8)
  | false ↦ ok dest
]

-- The bytes of `dest` after the call.
unfoldable pub copy_to_bitmap : BoolArray → List ℕ → ℕ → ℕ → Result (List ℕ)
copy_to_bitmap ba dest begin end = do
  bytes ← asserted ba
  if begin == end then ok dest else do
    end' ← checked_end ba begin end
    dest' ←
        (if begin % 8 == 0
          then memcpy dest (drop (begin / 8) bytes) (get_num_bytes_from_bits (end' - begin))
          else copy_loop (end' - begin + 1) ba end' dest 0 begin)
    if (end' - begin) % 8 == 0
        then ok dest'
        else and_byte dest' (get_num_bytes_from_bits (end' - begin) - 1)
            (low_mask ((end' - begin) % 8))
