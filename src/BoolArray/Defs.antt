-- ===== src/BoolArray/Defs.antt =====
-- The object, its construction and the access to single elements.
use nvwa.Common.{
  ℕ, zero, suc, ◌+◌, ◌-◌, ◌/◌, ◌%◌, ◌==◌, ltb, if◌then◌else◌, Bool, true, false, not, List, Option,
  none, some, Result, ok, out_of_range, bad_alloc, assertion, fault, require, from_option, ◌>>=◌,
  ◌>>◌, bit_and,
}
use nvwa.Bits.Words.{u8, not32, shl32, low_mask, size_max, add_size, sub_size}
use nvwa.BoolArray.Memory.{read, write, and_byte, or_byte, memcpy, memset}

-- `_M_byte_ptr` (`none` is the null pointer) and `_M_length`.
pub record BoolArray : Type 0 where
  pub byte_ptr : Option (List ℕ)
  pub size : ℕ

-- `bool_array::npos`.
abbrev pub npos : ℕ
npos = size_max

abbrev pub get_num_bytes_from_bits : ℕ → ℕ
get_num_bytes_from_bits num_bits = add_size num_bits 7 / 8

-- The local `valid_bits_in_last_byte` of several members.
abbrev pub valid_bits_in_last_byte : ℕ → ℕ
valid_bits_in_last_byte size = sub_size size 1 % 8 + 1

-- `assert(_M_byte_ptr)`, and a use of the pointer with no assertion before it.
abbrev pub asserted : BoolArray → Result (List ℕ)
asserted ba = from_option assertion ba.byte_ptr

abbrev pub pointed : BoolArray → Result (List ℕ)
pointed ba = from_option fault ba.byte_ptr

-- The default constructor.
abbrev pub empty : BoolArray
empty = record { byte_ptr = none; size = 0 }

-- The last statement of several members: clear the bits past the end in the last byte.
unfoldable pub trim : List ℕ → ℕ → Result (List ℕ)
trim bytes size =
    and_byte bytes (get_num_bytes_from_bits size - 1) (low_mask (valid_bits_in_last_byte size))

-- `new (std::nothrow) byte[n]` is a parameter: it fails, or gives bytes of any content.
module _ (allocate : ℕ → Option (List ℕ)) where
  unfoldable pub create : ℕ → BoolArray → Bool × BoolArray
  create size ba =
      if size == 0 then (false, ba) else elim (allocate (get_num_bytes_from_bits size)) [
        | none ↦ (false, ba)
        | some byte_ptr ↦ (true, record { byte_ptr = some byte_ptr; size = size })
      ]

  -- `bool_array(size_type)`.
  unfoldable pub construct : ℕ → Result BoolArray
  construct size = do
    require (not (size == 0)) out_of_range
    let (created, ba) = create size empty
    require created bad_alloc
    ok ba

  -- `bool_array(const void*, size_type)`.
  unfoldable pub construct_from_bitmap : List ℕ → ℕ → Result BoolArray
  construct_from_bitmap ptr size = do
    require (not (size == 0)) out_of_range
    let (created, ba) = create size empty
    require created bad_alloc
    bytes ← pointed ba
    bytes' ← memcpy bytes ptr (get_num_bytes_from_bits ba.size)
    trimmed ← trim bytes' ba.size
    ok (record ba { byte_ptr = some trimmed })

  -- The copy constructor.
  unfoldable pub copy : BoolArray → Result BoolArray
  copy rhs = if rhs.size == 0 then ok empty else do
    let (created, ba) = create rhs.size empty
    require created bad_alloc
    bytes ← pointed ba
    source ← pointed rhs
    bytes' ← memcpy bytes source (sub_size ba.size 1 / 8 + 1)
    ok (record ba { byte_ptr = some bytes' })

-- `swap`, of this object and another.
unfoldable pub swap : BoolArray → BoolArray → BoolArray × BoolArray
swap ba rhs = (
  record { byte_ptr = rhs.byte_ptr; size = rhs.size },
  record { byte_ptr = ba.byte_ptr; size = ba.size },
)

-- `operator=`: the assigned object takes the content of a copy.
unfoldable pub assign : (ℕ → Option (List ℕ)) → BoolArray → BoolArray → Result BoolArray
unfolding swap
assign allocate ba rhs = do temp ← copy allocate rhs; let (ba', temp') = swap ba temp; ok ba'

unfoldable pub initialize : Bool → BoolArray → Result BoolArray
initialize value ba = do
  bytes ← asserted ba
  bytes' ← memset bytes (if value then 255 else 0) (get_num_bytes_from_bits ba.size)
  bytes'' ← (if value then trim bytes' ba.size else ok bytes')
  ok (record ba { byte_ptr = some bytes'' })

-- `_Element`: a byte of the array and a bit of it. `operator bool` and `operator=`.
abbrev pub element_value : List ℕ → ℕ → Result Bool
element_value bytes pos = do b ← read bytes (pos / 8); ok (not (bit_and b (shl32 1 (pos % 8)) == 0))

abbrev pub element_assign : List ℕ → ℕ → Bool → Result (List ℕ)
element_assign bytes pos value =
    if value
    then or_byte bytes (pos / 8) (shl32 1 (pos % 8))
    else and_byte bytes (pos / 8) (not32 (shl32 1 (pos % 8)))

-- `ba[pos]` as a value, and `ba[pos] = value`.
unfoldable pub index : BoolArray → ℕ → Result Bool
index ba pos = do bytes ← asserted ba; require (ltb pos ba.size) assertion; element_value bytes pos

unfoldable pub index_assign : ℕ → Bool → BoolArray → Result BoolArray
index_assign pos value ba = do
  bytes ← asserted ba
  require (ltb pos ba.size) assertion
  bytes' ← element_assign bytes pos value
  ok (record ba { byte_ptr = some bytes' })

unfoldable pub at : BoolArray → ℕ → Result Bool
at ba pos = do require (ltb pos ba.size) out_of_range; bytes ← pointed ba; element_value bytes pos

-- The members `reset` and `set`.
unfoldable pub reset_bit : ℕ → BoolArray → Result BoolArray
reset_bit pos ba = do
  require (ltb pos ba.size) out_of_range
  bytes ← pointed ba
  bytes' ← and_byte bytes (pos / 8) (not32 (shl32 1 (pos % 8)))
  ok (record ba { byte_ptr = some bytes' })

unfoldable pub set_bit : ℕ → BoolArray → Result BoolArray
set_bit pos ba = do
  require (ltb pos ba.size) out_of_range
  bytes ← pointed ba
  bytes' ← or_byte bytes (pos / 8) (shl32 1 (pos % 8))
  ok (record ba { byte_ptr = some bytes' })

-- `for (i = 0; i < byte_cnt; ++i) bytes[i] = ~bytes[i]`, with `left` rounds to go.
unfoldable pub flip_loop : ℕ → ℕ → List ℕ → Result (List ℕ)
flip_loop zero i bytes = ok bytes
flip_loop (suc left) i bytes = do
  b ← read bytes i
  bytes' ← write bytes i (u8 (not32 b))
  flip_loop left (i + 1) bytes'

unfoldable pub flip : BoolArray → Result BoolArray
flip ba = do
  bytes ← asserted ba
  bytes' ← flip_loop (get_num_bytes_from_bits ba.size) 0 bytes
  trimmed ← trim bytes' ba.size
  ok (record ba { byte_ptr = some trimmed })
