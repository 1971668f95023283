-- ===== src/BoolArray/CountRange.antt =====
-- `count()` and `count(begin, end)` are the number of set bits of the array and of a range.
use nvwa.Common.{
  ℕ, ◌+◌, ◌-◌, ◌*◌, ◌/◌, ◌%◌, ◌≤◌, ◌<◌, ◌==◌, ltb, leb, if◌then◌else◌, true, not, ◌&&◌, List,
  length, ok, err, ◌≡◌, ◌≢◌, refl, ◌∙◌, sym, ap, ap₂, arith, Bool-cases, inl, inr, ◌⊎◌,
  out_of_range, bit_and,
}
use nvwa.Bits.Words.{u8, testbit, high_mask, low_mask}
use nvwa.Bits.Laws.{testbit-u8, testbit-bit_and, testbit-high_mask, testbit-low_mask}
use nvwa.Bits.Ones.{count_true, count_true-split, count_true-shift, count_true-none}
use nvwa.BoolArray.Content.{byte_at, bits, read-ok}
use nvwa.BoolArray.Counting.{
  bit_count, count_to_end, count_from, count_range, count, word_loop, table_loop, Popcount,
}
use nvwa.BoolArray.Defs.{BoolArray}
use nvwa.BoolArray.Valid.{Holds, IsClean, asserted-Holds, num_bytes_lem}
use nvwa.BoolArray.Count.{
  bit_count-ones, IsPopcount, set_bits, count_bytes-ok, table_loop-ok, word_loop-ok,
}
use nvwa.BoolArray.Range.{range_end}

-- A byte of which only the bits from `k` to `v` are kept.
masked-count :
    (bytes : List ℕ) (i m k v : ℕ)
    → m < 256
    → k ≤ v
    → v ≤ 8
    → ((j : ℕ) → j < 8 → testbit m j ≡ (leb k j && ltb j v && testbit (byte_at bytes i) j))
    → bit_count m ≡ count_true (bits bytes) (8 * i + k) (v - k)
unfolding bits
masked-count bytes i m k v small order le kept =
    bit_count-ones m small
    ∙ (omega (
      arith,
      count_true-split (testbit m) 0 k 8 (omega arith) (omega arith),
      count_true-split (testbit m) k v 8 order le,
      below,
      above,
    )
        ∙ count_true-shift (testbit m) (bits bytes) k (8 * i + k) (v - k) same)
  where
    below : count_true (testbit m) 0 (k - 0) ≡ 0
    below = count_true-none (testbit m) 0 (k - 0) (λ j h. ground (arith, kept (0 + j)))

    above : count_true (testbit m) v (8 - v) ≡ 0
    above = count_true-none (testbit m) v (8 - v) (λ j h. ground (arith, kept (v + j)))

    same : (j : ℕ) → j < v - k → testbit m (k + j) ≡ bits bytes (8 * i + k + j)
    same j h =
        let byte : (8 * i + k + j) / 8 ≡ i = omega arith in
        let bit : (8 * i + k + j) % 8 ≡ k + j = omega arith in
        rw (byte, bit) (ground (arith, kept (k + j)))

module _ (bytes : List ℕ) (i : ℕ) where
  abbrev b : ℕ
  b = byte_at bytes i

  -- The three masks of the code.
  high-count :
      (k : ℕ)
      → k ≤ 8
      → bit_count (u8 (bit_and b (high_mask k))) ≡ count_true (bits bytes) (8 * i + k) (8 - k)
  high-count k le =
      masked-count bytes i (u8 (bit_and b (high_mask k))) k 8 (omega arith) le (omega arith) (λ j h.
        ground (
          arith,
          testbit-u8 (bit_and b (high_mask k)) j,
          testbit-bit_and b (high_mask k) j,
          testbit-high_mask k j,
        ))

  low-count :
      (v : ℕ) → v ≤ 8 → bit_count (u8 (bit_and b (low_mask v))) ≡ count_true (bits bytes) (8 * i) v
  low-count v le =
      let start : 8 * i ≡ 8 * i + 0 = omega arith in
      let width : v ≡ v - 0 = omega arith in
      masked-count bytes i (u8 (bit_and b (low_mask v))) 0 v (omega arith) (omega arith) le (λ j h.
        ground (
          arith,
          testbit-u8 (bit_and b (low_mask v)) j,
          testbit-bit_and b (low_mask v) j,
          testbit-low_mask v j,
        ))
      ∙ sym (ap₂ (count_true (bits bytes)) start width)

  both-count :
      (k v : ℕ)
      → k ≤ v
      → v ≤ 8
      → bit_count (u8 (bit_and (u8 (bit_and b (high_mask k))) (low_mask v)))
        ≡ count_true (bits bytes) (8 * i + k) (v - k)
  both-count k v order le =
      masked-count bytes i (u8 (bit_and (u8 (bit_and b (high_mask k))) (low_mask v))) k v
        (omega arith) order le
        (λ j h. ground (
          arith,
          testbit-u8 (bit_and (u8 (bit_and b (high_mask k))) (low_mask v)) j,
          testbit-bit_and (u8 (bit_and b (high_mask k))) (low_mask v) j,
          testbit-low_mask v j,
          testbit-u8 (bit_and b (high_mask k)) j,
          testbit-bit_and b (high_mask k) j,
          testbit-high_mask k j,
        ))

module _ (build : Popcount) (counts : IsPopcount build) {ba : BoolArray} {bytes : List ℕ}
    (h : Holds ba bytes) where
  -- From byte `beg` to the bit `end`, of which `last` is the byte.
  count_to_end-ok :
      (beg last valid true_cnt : ℕ)
      → beg ≤ last
      → 0 < valid
      → valid ≤ 8
      → last < length bytes
      → count_to_end build bytes beg last valid true_cnt
        ≡ ok (true_cnt + count_true (bits bytes) (8 * beg) (8 * last + valid - 8 * beg))
  unfolding count_to_end
  count_to_end-ok beg last valid true_cnt order pos le inside = elim (Bool-cases (valid == 8)) [
    | inl full ↦
        let width : 8 * last + valid - 8 * beg ≡ 8 * (last + 1 - beg) = ground arith in
        rw (full, width)
          (unfold set_bits in
            count_bytes-ok build counts bytes h.are_bytes beg (last + 1) true_cnt (omega arith)
              (omega arith))
    | inr partial ↦
        let width : 8 * last - 8 * beg ≡ 8 * (last - beg) = omega arith in
        let rest : 8 * last + valid - 8 * last ≡ valid = omega arith in
        let split =
          count_true-split (bits bytes) (8 * beg) (8 * last) (8 * last + valid) (omega arith)
            (omega arith) in
        rw (partial, read-ok bytes last inside)
          (unfold set_bits in
            count_bytes-ok build counts bytes h.are_bytes beg last _ order (omega arith)
            ∙ ap ok (rw (split, width, rest) (omega (arith, low-count bytes last valid le))))
  ]

  count_from-ok :
      (begin end : ℕ)
      → begin < end
      → end ≤ ba.size
      → count_from build bytes begin end ≡ ok (count_true (bits bytes) begin (end - begin))
  unfolding count_from
  count_from-ok begin end some_bits inside =
      let last = (end - 1) / 8 in
      let valid = (end - 1) % 8 + 1 in
      let to_end = λ (beg true_cnt : ℕ) (order : beg ≤ last).
        count_to_end-ok beg last valid true_cnt order (omega arith) (omega arith)
          (omega (arith, h.sized)) in
      elim (Bool-cases (not (begin % 8 == 0))) [
        | inr aligned ↦
            let start : 8 * (begin / 8) ≡ begin = ground arith in
            let stop : 8 * last + valid ≡ end = omega arith in
            rw aligned (to_end (begin / 8) 0 (omega arith) ∙ ap ok (rw (stop, start) (omega arith)))
        | inl partial ↦
            let start : 8 * (begin / 8) + begin % 8 ≡ begin = omega arith in
            let reads = read-ok bytes (begin / 8) (omega (arith, h.sized)) in
            elim (Bool-cases (begin / 8 == last)) [
              | inl one ↦
                  let width : valid - begin % 8 ≡ end - begin = ground arith in
                  rw (partial, reads, one)
                    (ap ok (
                      both-count bytes (begin / 8) (begin % 8) valid (ground arith) (omega arith)
                      ∙ rw (start, width)))
              | inr several ↦
                  let next : 8 * (begin / 8 + 1) - begin ≡ 8 - begin % 8 = omega arith in
                  let stop : 8 * last + valid ≡ end = omega arith in
                  let split =
                    count_true-split (bits bytes) begin (8 * (begin / 8 + 1)) end (omega arith)
                      (ground arith) in
                  rw (partial, reads, several)
                    (to_end (begin / 8 + 1) _ (ground arith)
                      ∙ ap ok (
                          rw (stop, split, next)
                            (ap
                              (λ (c : ℕ).
                                c
                                + count_true (bits bytes) (8 * (begin / 8 + 1))
                                    (end - 8 * (begin / 8 + 1)))
                              (high-count bytes (begin / 8) (begin % 8) (omega arith) ∙ rw start))))
            ]
      ]

  -- `count(begin, end)` is the number of set bits of the range, for any choice of the build.
  pub count_range-ok :
      (begin end : ℕ)
      → begin ≤ range_end ba end
      → range_end ba end ≤ ba.size
      → count_range build ba begin end
        ≡ ok (count_true (bits bytes) begin (range_end ba end - begin))
  unfolding count_range
  count_range-ok begin end order inside = elim (Bool-cases (begin == range_end ba end)) [
    | inl same ↦
        let none_left : range_end ba end - begin ≡ 0 = ground arith in
        rw (asserted-Holds h, same, none_left) (unfold count_true in refl)
    | inr differ ↦
        let passes : (leb begin (range_end ba end) && leb (range_end ba end) ba.size) ≡ true =
          ground arith in
        rw (asserted-Holds h, differ, passes)
          (count_from-ok begin (range_end ba end) (ground arith) inside)
  ]

  -- It throws when the range is not empty and leaves the array.
  pub count_range-throws :
      (begin end : ℕ)
      → begin ≢ range_end ba end
      → (range_end ba end < begin) ⊎ (ba.size < range_end ba end)
      → count_range build ba begin end ≡ err out_of_range
  unfolding count_range
  count_range-throws begin end differ outside = rw (asserted-Holds h) (ground arith)

  -- `count()` is the number of set bits of the array, whose bits past the end are clear.
  pub count-ok : IsClean ba.size bytes → count build ba ≡ ok (count_true (bits bytes) 0 ba.size)
  unfolding count
  count-ok clean = rw (asserted-Holds h, num_bytes_lem h) (loops ∙ ap ok all)
    where
      n : ℕ
      n = length bytes

      loops :
          (if build.used && leb 8 n
            then word_loop build (n + 1) bytes n 0 0
            else table_loop n bytes 0 0)
          ≡ ok (count_true (bits bytes) 0 (8 * n))
      loops = elim (Bool-cases (build.used && leb 8 n)) [
        | inl words ↦
            let whole : n - 0 ≡ n = omega arith in
            rw words (
              word_loop-ok build counts bytes h.are_bytes (n + 1) n 0 0 (omega arith) (ground arith)
                (omega arith) (omega arith)
              ∙ ap ok (unfold set_bits in rw whole (omega arith)))
        | inr table ↦
            rw table (table_loop-ok bytes h.are_bytes n 0 0 (omega arith) ∙ ap ok (omega arith))
      ]

      all : count_true (bits bytes) 0 (8 * n) ≡ count_true (bits bytes) 0 ba.size
      all =
          let f = bits bytes in
          let whole : 8 * n ≡ 8 * n - 0 = omega arith in
          let front : ba.size - 0 ≡ ba.size = omega arith in
          let parts = count_true-split f 0 ba.size (8 * n) (omega arith) (omega (arith, h.sized)) in
          let rest =
            count_true-none f ba.size (8 * n - ba.size)
              (λ j lt. clean (ba.size + j) (omega arith)) in
          ap (count_true f 0) whole
          ∙ (parts ∙ (ap₂ ◌+◌ (ap (count_true f 0) front) rest ∙ omega arith))
