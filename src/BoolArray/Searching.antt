-- ===== src/BoolArray/Searching.antt =====
-- `find_until` and the two members `find`. The two halves of `find_until` are the same code but
-- for the masks and the test, which `search` takes as arguments.
use nvwa.Common.{
  ℕ, zero, suc, ◌+◌, ◌-◌, ◌*◌, ◌/◌, ◌%◌, ◌==◌, leb, if◌then◌else◌, Bool, not, ◌&&◌, List, Result,
  ok, out_of_range, require, ◌>>=◌, ◌>>◌, bit_and, bit_or,
}
use nvwa.Bits.Words.{u8, not32, high_mask, low_mask, sub_size, add_size}
use nvwa.BoolArray.Memory.{read}
use nvwa.BoolArray.Defs.{BoolArray, npos, asserted}
use nvwa.BoolArray.Counting.{bit_ordinal}

-- `hit` tests a byte for the value, `ordinal` is the position in it, and the masks hide the bits
-- before the range and after it.
pub record Scan : Type 0 where
  pub hit : ℕ → Bool
  pub ordinal : ℕ → ℕ
  pub mask_first : ℕ → ℕ → ℕ
  pub mask_last : ℕ → ℕ → ℕ

abbrev pub scan_true : Scan
scan_true = record {
  hit = λ byte_val. not (byte_val == 0);
  ordinal = λ byte_val. bit_ordinal byte_val;
  mask_first = λ byte_val k. u8 (bit_and byte_val (high_mask k));
  mask_last = λ byte_val k. u8 (bit_and byte_val (low_mask k));
}

abbrev pub scan_false : Scan
scan_false = record {
  hit = λ byte_val. not (byte_val == 255);
  ordinal = λ byte_val. bit_ordinal (u8 (not32 byte_val));
  mask_first = λ byte_val k. u8 (bit_or byte_val (low_mask k));
  mask_last = λ byte_val k. u8 (bit_or byte_val (high_mask k));
}

abbrev pub scan_for : Bool → Scan
scan_for value = if value then scan_true else scan_false

-- The loop at byte `i`, with `left` rounds to go, and the last byte after it.
unfoldable pub search_bytes : Scan → ℕ → List ℕ → ℕ → ℕ → ℕ → ℕ → Result ℕ
search_bytes scan zero bytes last end i byte_val =
    let masked = scan.mask_last byte_val (end % 8 + 1) in
    if scan.hit masked then ok (last * 8 + scan.ordinal masked) else ok npos
search_bytes scan (suc left) bytes last end i byte_val =
    if scan.hit byte_val
    then ok (i * 8 + scan.ordinal byte_val)
    else do next ← read bytes (i + 1); search_bytes scan left bytes last end (i + 1) next

unfoldable pub find_until : BoolArray → Bool → ℕ → ℕ → Result ℕ
find_until ba value begin end = do
  bytes ← asserted ba
  if begin == end then ok npos else do
    let end' = if end == npos then ba.size else end
    require (leb begin end' && leb end' ba.size) out_of_range
    let end'' = sub_size end' 1
    let byte_pos_beg = begin / 8
    let byte_pos_end = end'' / 8
    byte_val ← read bytes byte_pos_beg
    let scan = scan_for value
    search_bytes scan (byte_pos_end - byte_pos_beg) bytes byte_pos_end end'' byte_pos_beg
        (scan.mask_first byte_val (begin % 8))

-- `find(value, offset)` and `find(value, offset, count)`.
unfoldable pub find : BoolArray → Bool → ℕ → Result ℕ
find ba value offset = find_until ba value offset ba.size

unfoldable pub find_count : BoolArray → Bool → ℕ → ℕ → Result ℕ
find_count ba value offset count = find_until ba value offset (add_size offset count)
