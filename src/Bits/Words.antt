-- ===== src/Bits/Words.antt =====
-- Unsigned values of 8, 32 and 64 bits: the conversions and operators that the sources use.
-- `int` operands of bit operators are read as 32-bit patterns, in two's complement.
use nvwa.Common.{ℕ, zero, suc, ◌+◌, ◌-◌, ◌*◌, ◌/◌, ◌%◌, ◌^◌, ◌==◌, Bool}

-- Conversion to `unsigned char`.
abbrev pub u8 : ℕ → ℕ
u8 x = x % 2 ^ 8

-- `~x` on 32 bits.
unfoldable pub not32 : ℕ → ℕ
not32 x = 2 ^ 32 - 1 - x

-- `x << k` on 32 bits.
unfoldable pub shl32 : ℕ → ℕ → ℕ
shl32 x k = x * 2 ^ k % 2 ^ 32

-- `x >> k`.
unfoldable pub shr : ℕ → ℕ → ℕ
shr x k = x / 2 ^ k

-- `~0U << k` and `~(~0U << k)`.
unfoldable pub high_mask : ℕ → ℕ
high_mask k = shl32 (not32 0) k

unfoldable pub low_mask : ℕ → ℕ
low_mask k = not32 (high_mask k)

-- The largest `size_t`, and sums and differences of `size_t`, which wrap.
abbrev pub size_max : ℕ
size_max = 2 ^ 64 - 1

abbrev pub add_size : ℕ → ℕ → ℕ
add_size a b = (a + b) % 2 ^ 64

abbrev pub sub_size : ℕ → ℕ → ℕ
sub_size a b = (a + 2 ^ 64 - b) % 2 ^ 64

-- Bit `j` of `x`, the lowest being bit 0.
unfoldable pub testbit : ℕ → ℕ → Bool
testbit x zero = x % 2 == 1
testbit x (suc j) = testbit (x / 2) j
