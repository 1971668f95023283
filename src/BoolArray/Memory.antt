-- ===== src/BoolArray/Memory.antt =====
-- Arrays of `unsigned char` as the sources of bool_array access them. An access outside the
-- allocated bytes is a fault.
use nvwa.Common.{
  ℕ, ltb, leb, if◌then◌else◌, List, ◌++◌, get_elem?, set, take, drop, replicate, length, Result, ok,
  err, fault, from_option, ◌>>=◌, bit_and, bit_or,
}
use nvwa.Bits.Words.{u8}

abbrev pub read : List ℕ → ℕ → Result ℕ
read bytes i = from_option fault (get_elem? bytes i)

abbrev pub write : List ℕ → ℕ → ℕ → Result (List ℕ)
write bytes i v = if ltb i (length bytes) then ok (set bytes i v) else err fault

-- `bytes[i] &= mask` and `bytes[i] |= mask`; the operand has 32 bits, the byte keeps 8.
abbrev pub and_byte : List ℕ → ℕ → ℕ → Result (List ℕ)
and_byte bytes i mask = do b ← read bytes i; write bytes i (u8 (bit_and b mask))

abbrev pub or_byte : List ℕ → ℕ → ℕ → Result (List ℕ)
or_byte bytes i mask = do b ← read bytes i; write bytes i (u8 (bit_or b mask))

-- `memcpy` of the first `n` bytes of `src`, and `memset` of the first `n` bytes.
abbrev pub memcpy : List ℕ → List ℕ → ℕ → Result (List ℕ)
memcpy dest src n =
    if leb n (length dest)
    then (if leb n (length src) then ok (take n src ++ drop n dest) else err fault)
    else err fault

abbrev pub memset : List ℕ → ℕ → ℕ → Result (List ℕ)
memset dest v n = if leb n (length dest) then ok (replicate n v ++ drop n dest) else err fault
