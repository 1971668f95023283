-- ===== src/BoolArray/Counting.antt =====
-- `count`, over the whole array and over a range, with the two tables of the file.
use nvwa.Common.{
  ℕ, zero, suc, ◌+◌, ◌-◌, ◌*◌, ◌/◌, ◌%◌, ◌==◌, leb, if◌then◌else◌, Bool, true, false, not, ◌&&◌,
  List, Result, ok, err, fault, out_of_range, require, ◌>>=◌, ◌>>◌, bit_and,
}
use nvwa.Bits.Words.{u8, shr, high_mask, low_mask}
use nvwa.BoolArray.Memory.{read}
use nvwa.BoolArray.Defs.{BoolArray, npos, asserted, get_num_bytes_from_bits}

-- `count_bits` and `first_bit_one_offset`, with as many rounds as an `unsigned char` has bits and
-- one more; `bit_count` and `bit_ordinal` are the entries of the tables made from them.
unfoldable pub count_bits : ℕ → ℕ → ℕ
count_bits zero value = 0
count_bits (suc fuel) value =
    let rest = count_bits fuel (shr value 1) in if value == 0 then 0 else bit_and value 1 + rest

unfoldable pub first_bit_one_offset : ℕ → ℕ → ℕ
first_bit_one_offset zero value = 9
first_bit_one_offset (suc fuel) value =
    let rest = first_bit_one_offset fuel (shr value 1) in
    if value == 0 then 9 else if not (bit_and value 1 == 0) then 0 else 1 + rest

unfoldable pub bit_count : ℕ → ℕ
bit_count value = u8 (count_bits 9 value)

unfoldable pub bit_ordinal : ℕ → ℕ
bit_ordinal value = u8 (first_bit_one_offset 9 value)

-- `for (; i < end; ++i) true_cnt += _S_bit_count[_M_byte_ptr[i]]`, with `left` rounds to go.
unfoldable pub table_loop : ℕ → List ℕ → ℕ → ℕ → Result ℕ
table_loop zero bytes i true_cnt = ok true_cnt
table_loop (suc left) bytes i true_cnt = do
  b ← read bytes i
  table_loop left bytes (i + 1) (true_cnt + bit_count b)

-- A `size_t` read from `n` bytes at `i`, the lowest first.
unfoldable pub load : ℕ → List ℕ → ℕ → Result ℕ
load zero bytes i = ok 0
load (suc n) bytes i = do b ← read bytes i; rest ← load n bytes (i + 1); ok (b + 256 * rest)

-- What the build chooses: whether words are counted, and by which function of the compiler.
pub record Popcount : Type 0 where
  pub used : Bool
  pub popcount : ℕ → ℕ

module _ (build : Popcount) where
  -- `while (i <= end - 8)`, then the loop over the bytes that are left.
  unfoldable pub word_loop : ℕ → List ℕ → ℕ → ℕ → ℕ → Result ℕ
  word_loop zero bytes end i true_cnt = err fault
  word_loop (suc fuel) bytes end i true_cnt = elim (leb i (end - 8)) [
    | true ↦ do
      word ← load 8 bytes i
      word_loop fuel bytes end (i + 8) (true_cnt + build.popcount word)
    | false ↦ table_loop (end - i) bytes i true_cnt
  ]

  unfoldable pub count : BoolArray → Result ℕ
  count ba = do
    bytes ← asserted ba
    let byte_cnt = get_num_bytes_from_bits ba.size
    if build.used && leb 8 byte_cnt
        then word_loop (byte_cnt + 1) bytes byte_cnt 0 0
        else table_loop byte_cnt bytes 0 0

  -- `while (byte_pos_beg % 8 != 0)`, then the words.
  unfoldable pub align_loop : ℕ → List ℕ → ℕ → ℕ → ℕ → Result ℕ
  align_loop zero bytes end i true_cnt = err fault
  align_loop (suc fuel) bytes end i true_cnt = elim (i % 8 == 0) [
    | true ↦ word_loop (end + 1) bytes end i true_cnt
    | false ↦ do b ← read bytes i; align_loop fuel bytes end (i + 1) (true_cnt + bit_count b)
  ]

  -- The full bytes from `beg` to `end`.
  unfoldable pub count_bytes : List ℕ → ℕ → ℕ → ℕ → Result ℕ
  count_bytes bytes beg end true_cnt =
      if build.used && leb ((beg + 8 - 1) / 8 * 8 + 8) end
      then align_loop 9 bytes end beg true_cnt
      else table_loop (end - beg) bytes beg true_cnt

  -- The last byte, if it is partial, and the full bytes.
  unfoldable pub count_to_end : List ℕ → ℕ → ℕ → ℕ → ℕ → Result ℕ
  count_to_end bytes beg last valid true_cnt =
      if not (valid == 8)
      then (do
        b ← read bytes last
        count_bytes bytes beg last (true_cnt + bit_count (u8 (bit_and b (low_mask valid)))))
      else count_bytes bytes beg (last + 1) true_cnt

  -- The first byte, if it is partial, and the rest.
  unfoldable pub count_from : List ℕ → ℕ → ℕ → Result ℕ
  count_from bytes begin end =
      let last = (end - 1) / 8 in
      let valid = (end - 1) % 8 + 1 in
      if not (begin % 8 == 0)
      then (do
        b ← read bytes (begin / 8)
        let byte_val = u8 (bit_and b (high_mask (begin % 8)))
        if begin / 8 == last
            then ok (bit_count (u8 (bit_and byte_val (low_mask valid))))
            else count_to_end bytes (begin / 8 + 1) last valid (bit_count byte_val))
      else count_to_end bytes (begin / 8) last valid 0

  -- `count(begin, end)`.
  unfoldable pub count_range : BoolArray → ℕ → ℕ → Result ℕ
  count_range ba begin end = do
    bytes ← asserted ba
    let end' = if end == npos then ba.size else end
    if begin == end' then ok 0 else do
      require (leb begin end' && leb end' ba.size) out_of_range
      count_from bytes begin end'
