-- ===== src/BoolArray/Find.antt =====
-- `find_until` is the first position of the range with the value, or `npos`.
use mathlib.Core.Option
use nvwa.Common.{
  ℕ, zero, suc, ◌+◌, ◌-◌, ◌*◌, ◌/◌, ◌%◌, ◌≤◌, ◌<◌, ◌==◌, ltb, leb, if◌then◌else◌, Bool, true, false,
  ◌&&◌, Option, none, some, List, length, ◌≡◌, ◌≢◌, refl, ◌∙◌, sym, ap, arith, Bool-cases, inl, inr,
  ok, err, fault, out_of_range, ◌⊎◌,
}
use nvwa.Bits.Words.{testbit, sub_size}
use nvwa.Bits.First.{first?, first?-none, first?-shift, first?-split, or_else}
use nvwa.BoolArray.Content.{byte_at, bits, AreBytes, read-ok, read-past}
use nvwa.BoolArray.Defs.{BoolArray, npos}
use nvwa.BoolArray.Searching.{Scan, scan_for, search_bytes, find_until, find}
use nvwa.BoolArray.Scans.{IsScan, agrees, scan_for-IsScan}
use nvwa.BoolArray.Valid.{Holds, asserted-Holds}
use nvwa.BoolArray.Range.{range_end}

abbrev pub position : Option ℕ → ℕ
position o = Option.get_or o npos

or_else-none : (o : Option ℕ) → or_else o none ≡ o
or_else-none none = refl
or_else-none (some a) = refl

hit-position :
    (d : ℕ) (hit : Bool) (ordinal : ℕ)
    → (if hit then ok (d + ordinal) else ok npos)
      ≡ ok (position (Option.map (λ j. d + j) (if hit then some ordinal else none)))
hit-position d true ordinal = refl
hit-position d false ordinal = refl

module _ {value : Bool} {scan : Scan} (laws : IsScan value scan) (bytes : List ℕ)
    (are : AreBytes bytes) where
  -- The bits that have the value.
  abbrev wanted : ℕ → Bool
  wanted i = agrees value (bits bytes i)

  wanted-byte : (i j : ℕ) → j < 8 → wanted (8 * i + j) ≡ agrees value (testbit (byte_at bytes i) j)
  wanted-byte i j h =
      unfold bits in
      let byte : (8 * i + j) / 8 ≡ i = omega arith in
      let bit : (8 * i + j) % 8 ≡ j = omega arith in rw (byte, bit)

  -- A byte of which the bits before `k` and from `v` on are hidden.
  scan-masked :
      (i m k v : ℕ)
      → m < 256
      → k ≤ v
      → v ≤ 8
      → ((j : ℕ) → j < 8 → agrees value (testbit m j) ≡ (leb k j && ltb j v && wanted (8 * i + j)))
      → Option.map (λ j. 8 * i + j) (if scan.hit m then some (scan.ordinal m) else none)
        ≡ first? wanted (8 * i + k) (v - k)
  scan-masked i m k v small order le kept =
      ap (Option.map (λ j. 8 * i + j)) (laws.finds m small ∙ middle)
      ∙ sym (first?-shift (8 * i) wanted shown k (v - k) (λ j p q. ground (arith, kept j)))
    where
      shown : ℕ → Bool
      shown j = agrees value (testbit m j)

      middle : first? shown 0 8 ≡ first? shown k (v - k)
      middle =
          let before = first?-none shown 0 (k - 0) (λ j h. ground (arith, kept (0 + j))) in
          let after = first?-none shown v (8 - v) (λ j h. ground (arith, kept (v + j))) in
          first?-split shown 0 k 8 (omega arith) (omega arith)
          ∙ rw before
              (first?-split shown k v 8 order le ∙ rw after (or_else-none (first? shown k (v - k))))

  -- The search from byte `i` on, of which the bits before `k` are hidden.
  search_bytes-ok :
      (left last end i m k : ℕ)
      → i + left ≡ last
      → last ≡ end / 8
      → last < length bytes
      → m < 256
      → 8 * i + k ≤ end
      → k ≤ 8
      → ((j : ℕ) → j < 8 → agrees value (testbit m j) ≡ (leb k j && wanted (8 * i + j)))
      → search_bytes scan left bytes last end i m
        ≡ ok (position (first? wanted (8 * i + k) (end + 1 - (8 * i + k))))
  unfolding search_bytes
  search_bytes-ok zero last end i m k e e' inside small order le kept =
      let width : end + 1 - (8 * i + k) ≡ end % 8 + 1 - k = omega arith in
      let found =
        scan-masked i (scan.mask_last m (end % 8 + 1)) k (end % 8 + 1) (laws.last_small m _)
          (omega arith) (omega arith)
          (λ j lt. ground (arith, laws.last_bits m (end % 8 + 1) j lt, kept j lt)) in
      let here : last * 8 ≡ 8 * i = omega arith in
      rw (width, ← found, here) (hit-position (8 * i) (scan.hit (scan.mask_last m (end % 8 + 1))) _)
  search_bytes-ok (suc left) last end i m k e e' inside small order le kept =
      let found = scan-masked i m k 8 small le (omega arith) (λ j lt. ground (arith, kept j lt)) in
      let width : 8 * (i + 1) - (8 * i + k) ≡ 8 - k = omega arith in
      let split =
        first?-split wanted (8 * i + k) (8 * (i + 1)) (end + 1) (omega arith) (omega arith) in
      let base : 8 * (i + 1) + 0 ≡ 8 * (i + 1) = omega arith in
      let rest =
        search_bytes-ok left last end (i + 1) (byte_at bytes (i + 1)) 0 (omega arith) e' inside
          (are (i + 1)) (omega arith) (omega arith)
          (λ j lt. ground (arith, wanted-byte (i + 1) j lt)) in
      rw (split, width, ← found)
        (elim (Bool-cases (scan.hit m)) [
          | inl hit ↦ rw hit (ap ok (omega arith))
          | inr miss ↦ rw (miss, read-ok bytes (i + 1) (omega arith)) (rw base at rest)
        ])

-- The first position of a range of the array with the value, or `npos`.
abbrev pub first_position : List ℕ → Bool → ℕ → ℕ → ℕ
first_position bytes value begin end =
    position (first? (λ i. agrees value (bits bytes i)) begin (end - begin))

module _ {ba : BoolArray} {bytes : List ℕ} (h : Holds ba bytes) (value : Bool) where
  -- `find_until` gives the first position of the range with the value, and `npos` if there is none.
  pub find_until-ok :
      (begin end : ℕ)
      → begin < range_end ba end
      → range_end ba end ≤ ba.size
      → begin ≢ end
      → find_until ba value begin end ≡ ok (first_position bytes value begin (range_end ba end))
  unfolding find_until
  find_until-ok begin end some_bits inside differ =
      let e = range_end ba end in
      let laws = scan_for-IsScan value in
      let asked : (begin == end) ≡ false = ground arith in
      let passes : (leb begin e && leb e ba.size) ≡ true = ground arith in
      let before : sub_size e 1 ≡ e - 1 = omega (arith, h.small) in
      let first = byte_at bytes (begin / 8) in
      let start : 8 * (begin / 8) + begin % 8 ≡ begin = omega arith in
      let stop : e - 1 + 1 ≡ e = omega arith in
      let found =
        search_bytes-ok laws bytes h.are_bytes ((e - 1) / 8 - begin / 8) ((e - 1) / 8) (e - 1)
          (begin / 8) ((scan_for value).mask_first first (begin % 8)) (begin % 8) (omega arith) refl
          (omega (arith, h.sized)) (laws.first_small first (begin % 8)) (omega arith) (omega arith)
          (λ j lt. ground (
            arith,
            laws.first_bits first (begin % 8) j lt,
            wanted-byte laws bytes h.are_bytes (begin / 8) j lt,
          )) in
      rw
        (
          asserted-Holds h,
          asked,
          passes,
          before,
          read-ok bytes (begin / 8) (omega (arith, h.sized)),
        )
        (rw (start, stop) at found)

  -- An empty range has no position.
  pub find_until-nothing : (begin : ℕ) → find_until ba value begin begin ≡ ok npos
  unfolding find_until
  find_until-nothing begin = rw (asserted-Holds h) (ground arith)

  -- `find_until` throws when the two ends of the range differ and it leaves the array.
  pub find_until-throws :
      (begin end : ℕ)
      → begin ≢ end
      → (range_end ba end < begin) ⊎ (ba.size < range_end ba end)
      → find_until ba value begin end ≡ err out_of_range
  unfolding find_until
  find_until-throws begin end differ outside = rw (asserted-Holds h) (ground arith)

  -- `find(value, offset)` searches from a position to the end of the array.
  pub find-ok :
      (offset : ℕ)
      → offset ≤ ba.size
      → find ba value offset ≡ ok (first_position bytes value offset ba.size)
  unfolding find
  find-ok offset le = elim (Bool-cases (offset == ba.size)) [
    | inl past ↦
        let at_end : offset ≡ ba.size = ground arith in
        let none_left : ba.size - offset ≡ 0 = omega arith in
        rw (none_left, at_end) (find_until-nothing ba.size ∙ unfold first? in refl)
    | inr more ↦
        let whole : range_end ba ba.size ≡ ba.size = ground (arith, h.small) in
        find_until-ok offset ba.size (ground (arith, h.small)) (omega (arith, whole)) (ground arith)
        ∙ ap (λ e. ok (first_position bytes value offset e)) whole
  ]

  -- A search from the very end up to `npos`, in an array that fills its last byte, reads a byte past
  -- the array.
  pub find_until_reads_past : ba.size % 8 ≡ 0 → find_until ba value ba.size npos ≡ err fault
  unfolding find_until
  find_until_reads_past full =
      let asked : (ba.size == npos) ≡ false = ground (arith, h.small) in
      let past = read-past bytes (ba.size / 8) (omega (arith, h.sized)) in
      let passes : (leb ba.size ba.size && leb ba.size ba.size) ≡ true = ground arith in
      rw (asserted-Holds h, asked, passes, past)
