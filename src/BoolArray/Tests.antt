-- ===== src/BoolArray/Tests.antt =====
-- Arrays to run the code on, and the theorems at them.
use nvwa.Common.{
  ℕ, zero, suc, ◌-◌, ◌^◌, ◌<◌, ◌==◌, if◌then◌else◌, true, false, ◌&&◌, ◌||◌, List, [], ◌∷◌, Option,
  some, replicate, ok, err, out_of_range, fault, ◌≡◌, refl, arith, length-replicate, ◌∙◌,
}
use nvwa.Bits.Words.{testbit}
use nvwa.Bits.Ones.{count_true, ones}
use nvwa.BoolArray.Content.{byte_at, bits, bits-past, AreBytes, Rewrites}
use nvwa.BoolArray.Defs.{BoolArray, npos, at, index_assign}
use nvwa.BoolArray.Merging.{merge_and, merge_or, copy_to_bitmap}
use nvwa.BoolArray.Merge.{merged}
use nvwa.BoolArray.Counting.{Popcount, count, count_range}
use nvwa.BoolArray.Searching.{find_until}
use nvwa.BoolArray.Print.{print, bit_text, print-bit_text}
use nvwa.BoolArray.Valid.{Holds, Becomes, IsClean}
use nvwa.BoolArray.Access.{at_lem, index_assign-Becomes}
use nvwa.BoolArray.Create.{IsAllocator}
use nvwa.BoolArray.Range.{merge_and-Becomes, merge_or-Becomes, merge_and_wraps}
use nvwa.BoolArray.CopyOut.{copied_out, copy_to_bitmap-Rewrites}
use nvwa.BoolArray.CountRange.{count_range-ok, count-ok}
use nvwa.BoolArray.Find.{first_position, find_until-ok, find_until-throws, find_until_reads_past}

-- 1010 0101 11, the first element first.
abbrev ten_bytes : List ℕ
ten_bytes = 165 ∷ 3 ∷ []

abbrev ten : BoolArray
ten = record { byte_ptr = some ten_bytes; size = 10 }

abbrev sixteen_bytes : List ℕ
sixteen_bytes = 15 ∷ 240 ∷ []

abbrev sixteen : BoolArray
sixteen = record { byte_ptr = some sixteen_bytes; size = 16 }

two-AreBytes : (a b : ℕ) → a < 256 → b < 256 → AreBytes (a ∷ b ∷ [])
two-AreBytes a b p q zero = p
two-AreBytes a b p q (suc zero) = q
two-AreBytes a b p q (suc (suc i)) = omega arith

ten-Holds : Holds ten ten_bytes
ten-Holds = record {
  held = refl;
  sized = refl;
  are_bytes = two-AreBytes 165 3 (omega arith) (omega arith);
  nonempty = omega arith;
  small = omega arith;
}

sixteen-Holds : Holds sixteen sixteen_bytes
sixteen-Holds = record {
  held = refl;
  sized = refl;
  are_bytes = two-AreBytes 15 240 (omega arith) (omega arith);
  nonempty = omega arith;
  small = omega arith;
}

-- An allocator that always succeeds.
abbrev zeros : ℕ → Option (List ℕ)
zeros n = some (replicate n 0)

abbrev table_only : Popcount
table_only = record { used = false; popcount = λ w. ones 64 w }

abbrev words : Popcount
words = record { used = true; popcount = λ w. ones 64 w }

print-ten :
    print ten ≡ ok (b'1' ∷ b'0' ∷ b'1' ∷ b'0' ∷ b'0' ∷ b'1' ∷ b'0' ∷ b'1' ∷ b'1' ∷ b'1' ∷ [])
print-ten = print-bit_text ten-Holds ∙ unfold bit_text bits testbit in refl

count_eleven : count_range words sixteen 2 13 ≡ ok 3
count_eleven =
    count_range-ok words (λ w h. refl) sixteen-Holds 2 13 (omega arith) (omega arith)
    ∙ unfold count_true bits testbit in refl

at_lem_example : at ten 8 ≡ ok (bits ten_bytes 8)
at_lem_example = at_lem ten-Holds 8

index_assign-Becomes_example :
    Becomes 10 (index_assign 3 true ten) (λ i. if i == 3 then true else bits ten_bytes i)
index_assign-Becomes_example = index_assign-Becomes ten-Holds 3 true (omega arith)

zero_byte : (n i : ℕ) → byte_at (replicate n 0) i < 256
zero_byte zero i = omega arith
zero_byte (suc n) zero = omega arith
zero_byte (suc n) (suc i) = zero_byte n i

zeros-IsAllocator : IsAllocator zeros
zeros-IsAllocator = record {
  gives = λ n bytes e. ground (arith, length-replicate {A = ℕ} n 0);
  bytes = λ n bytes e i. ground (arith, zero_byte n i);
}

merge_and-Becomes_example :
    Becomes 16 (merge_and ten 0 npos 4 sixteen) (merged ◌&&◌ ten_bytes sixteen_bytes 0 10 4)
merge_and-Becomes_example =
    merge_and-Becomes sixteen-Holds ten-Holds 0 npos 4 (omega arith) (omega arith) (omega arith)

merge_or-Becomes_example :
    Becomes 16 (merge_or ten 3 9 6 sixteen) (merged ◌||◌ ten_bytes sixteen_bytes 3 6 6)
merge_or-Becomes_example =
    merge_or-Becomes sixteen-Holds ten-Holds 3 9 6 (omega arith) (omega arith) (omega arith)

merge_and_wraps_example : merge_and ten 0 10 (2 ^ 64 - 5) sixteen ≡ err fault
merge_and_wraps_example =
    merge_and_wraps sixteen-Holds ten-Holds 0 10 (2 ^ 64 - 5) (omega arith) (omega arith)
      (omega arith) (omega arith) (omega arith) (omega arith) (omega arith)

copy_to_bitmap-Rewrites_example :
    Rewrites
      (0 ∷ 255 ∷ [])
      (copy_to_bitmap ten (0 ∷ 255 ∷ []) 3 8)
      (copied_out ten_bytes 3 5 (0 ∷ 255 ∷ []))
copy_to_bitmap-Rewrites_example =
    copy_to_bitmap-Rewrites ten-Holds 3 8 (0 ∷ 255 ∷ []) (omega arith) (omega arith) (omega arith)
      (two-AreBytes 0 255 (omega arith) (omega arith)) (omega arith)

count_range-ok_example :
    count_range words sixteen 2 npos ≡ ok (count_true (bits sixteen_bytes) 2 14)
count_range-ok_example =
    count_range-ok words (λ w h. refl) sixteen-Holds 2 npos (omega arith) (omega arith)

sixteen-IsClean : IsClean 16 sixteen_bytes
sixteen-IsClean i h = bits-past sixteen_bytes i (omega arith)

count-ok_example : count table_only sixteen ≡ ok (count_true (bits sixteen_bytes) 0 16)
count-ok_example = count-ok table_only (λ w h. refl) sixteen-Holds sixteen-IsClean

find_until-ok_example :
    find_until sixteen false 1 npos ≡ ok (first_position sixteen_bytes false 1 16)
find_until-ok_example =
    find_until-ok sixteen-Holds false 1 npos (omega arith) (omega arith) (omega arith)

find_until-throws_example : find_until ten true 4 11 ≡ err out_of_range
find_until-throws_example = find_until-throws ten-Holds true 4 11 (omega arith) (omega arith)

find_until_reads_past_example : find_until sixteen true 16 npos ≡ err fault
find_until_reads_past_example = find_until_reads_past sixteen-Holds true refl
