-- ===== src/BoolArray/Print.antt =====
-- `output_bits` and `operator<<` of nvwa/bool_array.cpp: the array as a text of zeros and ones.
use nvwa.Common.{
  ℕ, zero, suc, ◌+◌, ◌-◌, ◌*◌, ◌/◌, ◌%◌, ◌^◌, ◌≤◌, ◌<◌, ◌==◌, ltb, if◌then◌else◌, Bool, false, List,
  [], ◌∷◌, ◌++◌, length, Result, ok, assertion, require, ◌>>=◌, ◌>>◌, bit_and, not, ◌≡◌, refl, ◌∙◌,
  ap, ap₂, arith, lt→ltb,
}
use nvwa.Bits.Words.{shr, sub_size, testbit}
use nvwa.Bits.Laws.{bit_and-one}
use nvwa.BoolArray.Memory.{read}
use nvwa.BoolArray.Content.{byte_at, bits, AreBytes, read-ok}
use nvwa.BoolArray.Defs.{BoolArray, pointed, get_num_bytes_from_bits}
use nvwa.BoolArray.Valid.{Holds, pointed-Holds, num_bytes_lem}

-- The loop of `output_bits`, with `num_bits` rounds to go.
unfoldable pub output_loop : ℕ → ℕ → List ℕ
output_loop value zero = []
output_loop value (suc num_bits) =
    (if not (bit_and value 1 == 0) then b'1' else b'0') ∷ output_loop (shr value 1) num_bits

unfoldable pub output_bits : ℕ → ℕ → Result (List ℕ)
output_bits value num_bits = require (ltb num_bits 9) assertion >> ok (output_loop value num_bits)

-- `for (; i < byte_cnt - 1; ++i)`, with `left` rounds to go, and the last byte.
unfoldable pub print_loop : ℕ → List ℕ → ℕ → ℕ → Result (List ℕ)
print_loop zero bytes i last_bits = do b ← read bytes i; output_bits b last_bits
print_loop (suc left) bytes i last_bits = do
  b ← read bytes i
  text ← output_bits b 8
  rest ← print_loop left bytes (i + 1) last_bits
  ok (text ++ rest)

-- `operator<<`: the characters that it writes.
unfoldable pub print : BoolArray → Result (List ℕ)
print ba =
    let byte_cnt = get_num_bytes_from_bits ba.size in
    if byte_cnt == 0 then ok [] else do
      bytes ← pointed ba
      print_loop (byte_cnt - 1) bytes 0 (sub_size ba.size ((byte_cnt - 1) * 8) % 2 ^ 32)

-- The characters for `n` bits from bit `i` on.
unfoldable pub bit_text : (ℕ → Bool) → ℕ → ℕ → List ℕ
bit_text f i zero = []
bit_text f i (suc n) = (if f i then b'1' else b'0') ∷ bit_text f (i + 1) n

bit_text-add :
    (f : ℕ → Bool) (i n m : ℕ) → bit_text f i (n + m) ≡ bit_text f i n ++ bit_text f (i + n) m
unfolding bit_text
bit_text-add f i zero m =
    let base : i + 0 ≡ i = omega arith in let all : 0 + m ≡ m = omega arith in rw (base, all)
bit_text-add f i (suc n) m =
    let base : i + suc n ≡ i + 1 + n = omega arith in
    let all : suc n + m ≡ suc (n + m) = omega arith in rw (base, all, bit_text-add f (i + 1) n m)

bit_text-shift :
    (f g : ℕ → Bool) (i j n : ℕ)
    → ((k : ℕ) → k < n → f (i + k) ≡ g (j + k))
    → bit_text f i n ≡ bit_text g j n
unfolding bit_text
bit_text-shift f g i j zero same = refl
bit_text-shift f g i j (suc n) same = ap₂ ◌∷◌ (ap (λ b. if b then b'1' else b'0') head) (
    bit_text-shift f g (i + 1) (j + 1) n λ k h.
      let a : i + 1 + k ≡ i + suc k = omega arith in
      let b : j + 1 + k ≡ j + suc k = omega arith in rw (a, b) (same (suc k) (omega arith)))
  where
    head : f i ≡ g j
    head =
        let a : i + 0 ≡ i = omega arith in
        let b : j + 0 ≡ j = omega arith in rw (a, b) at (same 0 (omega arith))

output_loop-bit_text : (n w v : ℕ) → v < 2 ^ w → output_loop v n ≡ bit_text (testbit v) 0 n
unfolding output_loop bit_text shr
output_loop-bit_text zero w v h = refl
output_loop-bit_text (suc n) w v h = ap₂ ◌∷◌ (unfold testbit in ground (arith, bit_and-one w v h)) (
    output_loop-bit_text n w (v / 2 ^ 1) (omega arith)
    ∙ bit_text-shift (testbit (v / 2 ^ 1)) (testbit v) 0 (0 + 1) n λ k lt.
      let a : 0 + 1 + k ≡ suc k = omega arith in
      let b : 0 + k ≡ k = omega arith in
      let half : v / 2 ^ 1 ≡ v / 2 = omega arith in unfold testbit in rw (a, b, half))

module _ (bytes : List ℕ) (are : AreBytes bytes) where
  byte-bit_text :
      (i n : ℕ) → n ≤ 8 → bit_text (testbit (byte_at bytes i)) 0 n ≡ bit_text (bits bytes) (8 * i) n
  unfolding bits
  byte-bit_text i n le = bit_text-shift _ _ 0 (8 * i) n λ k h.
      let byte : (8 * i + k) / 8 ≡ i = omega arith in
      let bit : (8 * i + k) % 8 ≡ 0 + k = omega arith in rw (byte, bit)

  output_bits-ok :
      (i n : ℕ) → n ≤ 8 → output_bits (byte_at bytes i) n ≡ ok (bit_text (bits bytes) (8 * i) n)
  unfolding output_bits
  output_bits-ok i n le =
      rw (lt→ltb n 9 (omega arith))
        (ap ok (output_loop-bit_text n 8 (byte_at bytes i) (are i) ∙ byte-bit_text i n le))

  print_loop-ok :
      (left i n : ℕ)
      → i + left < length bytes
      → n ≤ 8
      → print_loop left bytes i n ≡ ok (bit_text (bits bytes) (8 * i) (8 * left + n))
  unfolding print_loop
  print_loop-ok zero i n inside le =
      let all : 8 * 0 + n ≡ n = omega arith in
      rw (read-ok bytes i (omega arith), all) (output_bits-ok i n le)
  print_loop-ok (suc left) i n inside le =
      let all : 8 * suc left + n ≡ 8 + (8 * left + n) = omega arith in
      let base : 8 * (i + 1) ≡ 8 * i + 8 = omega arith in
      rw (
        read-ok bytes i (omega arith),
        output_bits-ok i 8 (omega arith),
        print_loop-ok left (i + 1) n (omega arith) le,
        all,
        base,
        bit_text-add (bits bytes) (8 * i) 8 (8 * left + n),
      )

-- `operator<<` writes one character for each element of the array, in order, `1` for true.
pub print-bit_text :
    {ba : BoolArray} {bytes : List ℕ}
    → Holds ba bytes
    → print ba ≡ ok (bit_text (bits bytes) 0 ba.size)
unfolding print
print-bit_text {ba} {bytes} h =
    let some_bytes : (length bytes == 0) ≡ false = ground (arith, h.sized, h.nonempty) in
    let n = sub_size ba.size ((length bytes - 1) * 8) % 2 ^ 32 in
    let last : n ≡ ba.size - (length bytes - 1) * 8 = omega (arith, h.sized, h.small, h.nonempty) in
    let all : 8 * (length bytes - 1) + n ≡ ba.size = omega (arith, last, h.sized, h.nonempty) in
    let start : 8 * 0 ≡ 0 = omega arith in
    rw (num_bytes_lem h, some_bytes, pointed-Holds h)
      (print_loop-ok bytes h.are_bytes (length bytes - 1) 0 n (omega (arith, h.sized, h.nonempty))
          (omega (arith, last, h.sized, h.nonempty))
        ∙ ap ok (ap₂ (bit_text (bits bytes)) start all))
