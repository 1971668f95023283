-- ===== src/BoolArray/Count.antt =====
-- `count` is the number of set bits, by the table and by words alike.
use native.Mathlib.Nat.{pow-suc}
use nvwa.Common.{
  ℕ, zero, suc, ◌+◌, ◌-◌, ◌*◌, ◌/◌, ◌%◌, ◌^◌, ◌≤◌, ◌<◌, ◌==◌, leb, ◌&&◌, List, length, ok, ◌≡◌,
  refl, ◌∙◌, ap, ap₂, arith, Bool-cases, inl, inr,
}
use nvwa.Bits.Words.{testbit, shr}
use nvwa.Bits.Laws.{bit_and-one}
use nvwa.Bits.Ones.{
  count_true, count_true-add, count_true-shift, count_true-le, ones, ones-suc, ones-zero, ones-byte,
  pow_byte,
}
use nvwa.BoolArray.Content.{byte_at, bits, AreBytes, read-ok}
use nvwa.BoolArray.Counting.{
  count_bits, bit_count, table_loop, load, word_loop, align_loop, count_bytes, Popcount,
}

count_bits-ones : (n v : ℕ) → n ≤ 8 → v < 2 ^ n → count_bits (suc n) v ≡ ones n v
unfolding count_bits shr
count_bits-ones zero v le h = ground (arith, ones-zero 0)
count_bits-ones (suc n) v le h = ground (
  arith,
  pow-suc 2 n,
  count_bits-ones n (v / 2),
  ones-suc n v,
  ones-zero (suc n),
  bit_and-one (suc n) v h,
  ap (ones (suc n)) {x = v} {y = 0},
)

-- The entry of the table for a byte.
pub bit_count-ones : (v : ℕ) → v < 256 → bit_count v ≡ ones 8 v
unfolding bit_count
bit_count-ones v h = ground (arith, count_bits-ones 8 v, count_true-le (testbit v) 0 8)

module _ (bytes : List ℕ) (are : AreBytes bytes) where
  byte-ones : (i : ℕ) → ones 8 (byte_at bytes i) ≡ count_true (bits bytes) (8 * i) 8
  unfolding bits
  byte-ones i = count_true-shift _ _ 0 (8 * i) 8 λ j h.
      let byte : (8 * i + j) / 8 ≡ i = omega arith in
      let bit : (8 * i + j) % 8 ≡ 0 + j = omega arith in rw (byte, bit)

  pub bit_count-bits : (i : ℕ) → bit_count (byte_at bytes i) ≡ count_true (bits bytes) (8 * i) 8
  bit_count-bits i = bit_count-ones (byte_at bytes i) (are i) ∙ byte-ones i

  -- The bits of one byte, and those of the next ones.
  split_byte :
      (i n : ℕ)
      → count_true (bits bytes) (8 * i) (8 * suc n)
        ≡ count_true (bits bytes) (8 * i) 8 + count_true (bits bytes) (8 * (i + 1)) (8 * n)
  split_byte i n =
      let all : 8 * suc n ≡ 8 + 8 * n = omega arith in
      let base : 8 * (i + 1) ≡ 8 * i + 8 = omega arith in
      rw (all, base) (count_true-add (bits bytes) (8 * i) 8 (8 * n))

  pub table_loop-ok :
      (left i true_cnt : ℕ)
      → i + left ≤ length bytes
      → table_loop left bytes i true_cnt
        ≡ ok (true_cnt + count_true (bits bytes) (8 * i) (8 * left))
  unfolding table_loop
  table_loop-ok zero i true_cnt h = unfold count_true in ap ok (omega arith)
  table_loop-ok (suc left) i true_cnt h = rw (read-ok bytes i (omega arith)) (
      table_loop-ok left (i + 1) _ (omega arith)
      ∙ ap ok (omega (arith, split_byte i left, bit_count-bits i)))

  -- A word has the bits of its bytes.
  load-ok :
      (n i : ℕ)
      → i + n ≤ length bytes
      → (word : ℕ) × (load n bytes i ≡ ok word)
        × (word < 2 ^ (8 * n))
        × (ones (8 * n) word ≡ count_true (bits bytes) (8 * i) (8 * n))
  unfolding load
  load-ok zero i h = (0, refl, omega arith, unfold count_true in refl)
  load-ok (suc n) i h =
      let (rest, returns, small, same) = load-ok n (i + 1) (omega arith) in
      let b = byte_at bytes i in
      let width : 8 * suc n ≡ 8 * n + 8 = omega arith in
      let width' : 8 * suc n ≡ 8 + 8 * n = omega arith in
      let split = split_byte i n in
      (
        b + 256 * rest,
        rw (read-ok bytes i (omega arith), returns),
        rw width (omega (arith, pow_byte (8 * n), are i)),
        rw split (rw width' (ones-byte (8 * n) b rest (are i) ∙ ap₂ ◌+◌ (byte-ones i) same)),
      )

-- What the compiler documents of its function: the number of one bits of a word.
abbrev pub IsPopcount : Popcount → Type 0
IsPopcount build = (w : ℕ) → w < 2 ^ 64 → build.popcount w ≡ ones 64 w

-- The set bits from byte `i` to byte `end`.
unfoldable pub set_bits : List ℕ → ℕ → ℕ → ℕ
set_bits bytes i end = count_true (bits bytes) (8 * i) (8 * (end - i))

set_bits-run :
    (bytes : List ℕ) (i n : ℕ) → set_bits bytes i (i + n) ≡ count_true (bits bytes) (8 * i) (8 * n)
unfolding set_bits
set_bits-run bytes i n = let all : i + n - i ≡ n = omega arith in rw all

set_bits-split :
    (bytes : List ℕ) (i k end : ℕ)
    → i ≤ k
    → k ≤ end
    → set_bits bytes i end ≡ set_bits bytes i k + set_bits bytes k end
unfolding set_bits
set_bits-split bytes i k end p q =
    let all : 8 * (end - i) ≡ 8 * (k - i) + 8 * (end - k) = omega arith in
    let base : 8 * k ≡ 8 * i + 8 * (k - i) = omega arith in
    rw (all, base) (count_true-add (bits bytes) (8 * i) (8 * (k - i)) (8 * (end - k)))

module _ (build : Popcount) (counts : IsPopcount build) (bytes : List ℕ)
    (are : AreBytes bytes) where
  pub word_loop-ok :
      (fuel end i true_cnt : ℕ)
      → i ≤ end
      → 8 ≤ end
      → end ≤ length bytes
      → end < i + fuel
      → word_loop build fuel bytes end i true_cnt ≡ ok (true_cnt + set_bits bytes i end)
  unfolding word_loop
  word_loop-ok zero end i true_cnt order big inside enough = absurd (omega arith)
  word_loop-ok (suc fuel) end i true_cnt order big inside enough =
      elim (Bool-cases (leb i (end - 8))) [
        | inl more ↦
            let (word, returns, small, same) = load-ok bytes are 8 i (ground arith) in
            rw (more, word_loop, returns, counts word small)
              (word_loop-ok fuel end (i + 8) _ (ground arith) big inside (omega arith)
                ∙ ap ok (
                    omega (
                      arith,
                      same,
                      set_bits-run bytes i 8,
                      set_bits-split bytes i (i + 8) end (omega arith) (ground arith),
                    )))
        | inr last ↦
            rw (last, word_loop)
              (unfold set_bits in table_loop-ok bytes are (end - i) i true_cnt (omega arith))
      ]

  align_loop-ok :
      (fuel end i true_cnt : ℕ)
      → (i + 7) / 8 * 8 + 8 ≤ end
      → end ≤ length bytes
      → (i + 7) / 8 * 8 < i + fuel
      → align_loop build fuel bytes end i true_cnt ≡ ok (true_cnt + set_bits bytes i end)
  unfolding align_loop
  align_loop-ok zero end i true_cnt room inside enough = absurd (omega arith)
  align_loop-ok (suc fuel) end i true_cnt room inside enough = elim (Bool-cases (i % 8 == 0)) [
    | inl aligned ↦
        rw (aligned, align_loop)
          (word_loop-ok (end + 1) end i true_cnt (omega arith) (omega arith) inside (omega arith))
    | inr odd ↦
        let next : (i + 1 + 7) / 8 * 8 ≡ (i + 7) / 8 * 8 = ground arith in
        rw (odd, align_loop, read-ok bytes i (omega arith))
          (align_loop-ok fuel end (i + 1) _ (omega (arith, next)) inside (omega (arith, next))
            ∙ ap ok (
                omega (
                  arith,
                  bit_count-bits bytes are i,
                  set_bits-run bytes i 1,
                  set_bits-split bytes i (i + 1) end (omega arith) (omega arith),
                )))
  ]

  pub count_bytes-ok :
      (beg end true_cnt : ℕ)
      → beg ≤ end
      → end ≤ length bytes
      → count_bytes build bytes beg end true_cnt ≡ ok (true_cnt + set_bits bytes beg end)
  unfolding count_bytes
  count_bytes-ok beg end true_cnt order inside =
      elim (Bool-cases (build.used && leb ((beg + 8 - 1) / 8 * 8 + 8) end)) [
        | inl words ↦
            rw words (align_loop-ok 9 end beg true_cnt (ground arith) inside (omega arith))
        | inr table ↦
            rw table
              (unfold set_bits in table_loop-ok bytes are (end - beg) beg true_cnt (omega arith))
      ]
