-- ===== src/BoolArray/Valid.antt =====
-- When an array is in order, and what an operation on it promises.
use nvwa.Common.{
  ℕ, ◌+◌, ◌-◌, ◌/◌, ◌%◌, ◌^◌, ◌≤◌, ◌<◌, ◌==◌, ltb, if◌then◌else◌, Bool, false, ◌&&◌, List, some,
  length, Result, ok, assertion, fault, from_option, ◌≡◌, refl, ◌∙◌, ap, arith, ◌>>=◌,
}
use nvwa.Bits.Words.{testbit, low_mask}
use nvwa.Bits.Laws.{testbit-low_mask}
use nvwa.BoolArray.Content.{bits, bits-past, AreBytes, Rewrites, Rewrites-congr, and_byte-Rewrites}
use nvwa.BoolArray.Defs.{
  BoolArray, asserted, pointed, get_num_bytes_from_bits, valid_bits_in_last_byte, trim,
}

-- The array has `bytes`, as many as its size needs, and its size leaves room for the sums of the
-- code. Nothing is said of the bits past the end.
pub record Holds (ba : BoolArray) (bytes : List ℕ) : Type 0 where
  pub held : ba.byte_ptr ≡ some bytes
  pub sized : length bytes ≡ (ba.size + 7) / 8
  pub are_bytes : AreBytes bytes
  pub nonempty : 0 < ba.size
  pub small : ba.size + 8 < 2 ^ 64

-- The bits past the end are clear.
abbrev pub IsClean : ℕ → List ℕ → Type 0
IsClean size bytes = (i : ℕ) → size ≤ i → bits bytes i ≡ false

-- The operation succeeds with an array of `size` bits, in order, and leaves the bits `f`.
pub record Becomes (size : ℕ) (result : Result BoolArray) (f : ℕ → Bool) : Type 0 where
  pub after : List ℕ
  pub returns : result ≡ ok (record { byte_ptr = some after; size = size })
  pub holds : Holds (record { byte_ptr = some after; size = size }) after
  pub content : (i : ℕ) → bits after i ≡ f i

pub asserted-Holds : {ba : BoolArray} {bytes : List ℕ} → Holds ba bytes → asserted ba ≡ ok bytes
asserted-Holds h = ap (from_option assertion) h.held

pub pointed-Holds : {ba : BoolArray} {bytes : List ℕ} → Holds ba bytes → pointed ba ≡ ok bytes
pointed-Holds h = ap (from_option fault) h.held

-- New bytes of the same number are in order too.
pub Holds-replaced :
    (ba : BoolArray) {bytes : List ℕ} (bytes' : List ℕ)
    → Holds ba bytes
    → length bytes' ≡ length bytes
    → AreBytes bytes'
    → Holds (record ba { byte_ptr = some bytes' }) bytes'
Holds-replaced ba bytes' h same are = record {
  held = refl;
  sized = same ∙ h.sized;
  are_bytes = are;
  nonempty = h.nonempty;
  small = h.small;
}

-- What rewrites the bytes of an array and stores them back is an operation on the array.
pub Becomes-Rewrites :
    (ba : BoolArray) {bytes : List ℕ} (r : Result (List ℕ)) (f : ℕ → Bool)
    → Holds ba bytes
    → Rewrites bytes r f
    → Becomes ba.size (r >>= λ bytes'. ok (record ba { byte_ptr = some bytes' })) f
Becomes-Rewrites ba r f h w = record {
  after = w.out;
  returns = rw w.returns;
  holds = Holds-replaced ba w.out h w.same_length w.are_bytes;
  content = w.content;
}

pub num_bytes_lem :
    {ba : BoolArray} {bytes : List ℕ}
    → Holds ba bytes
    → get_num_bytes_from_bits ba.size ≡ length bytes
num_bytes_lem h = omega (arith, h.small, h.sized)

-- Clearing the bits past the end, where there are `size` bits in `bytes`.
pub trim-Rewrites :
    {ba : BoolArray} {bytes : List ℕ} (bytes' : List ℕ)
    → Holds ba bytes
    → length bytes' ≡ length bytes
    → AreBytes bytes'
    → Rewrites bytes' (trim bytes' ba.size) (λ i. ltb i ba.size && bits bytes' i)
unfolding trim
trim-Rewrites {ba} {bytes} bytes' h same are = Rewrites-congr bytes' _ _ _ clear (
    and_byte-Rewrites bytes' last (low_mask valid)
      (omega (arith, h.small, h.sized, h.nonempty, same)) are)
  where
    last : ℕ
    last = get_num_bytes_from_bits ba.size - 1

    valid : ℕ
    valid = valid_bits_in_last_byte ba.size

    clear :
        (i : ℕ)
        → (if i / 8 == last
            then bits bytes' i && testbit (low_mask valid) (i % 8)
            else bits bytes' i)
          ≡ (ltb i ba.size && bits bytes' i)
    clear i = ground (
      arith,
      testbit-low_mask valid (i % 8),
      bits-past bytes' i,
      h.small,
      h.sized,
      h.nonempty,
      same,
    )

-- The bytes are rewritten, then trimmed, then stored.
pub Becomes-trimmed :
    (ba : BoolArray) {bytes : List ℕ} (r : Result (List ℕ)) (f : ℕ → Bool)
    → Holds ba bytes
    → Rewrites bytes r f
    → Becomes ba.size
        (r >>= λ bytes'.
          trim bytes' ba.size >>= λ trimmed. ok (record ba { byte_ptr = some trimmed }))
        (λ i. ltb i ba.size && f i)
Becomes-trimmed ba r f h w =
    let t = trim-Rewrites w.out h w.same_length w.are_bytes in
    record {
      after = t.out;
      returns = rw (w.returns, t.returns);
      holds = Holds-replaced ba t.out h (t.same_length ∙ w.same_length) t.are_bytes;
      content = λ i. ground (arith, t.content i, w.content i);
    }

pub Becomes-congr :
    (size : ℕ) (r : Result BoolArray) (f g : ℕ → Bool)
    → ((i : ℕ) → f i ≡ g i)
    → Becomes size r f
    → Becomes size r g
Becomes-congr size r f g same b = record {
  after = b.after;
  returns = b.returns;
  holds = b.holds;
  content = λ i. b.content i ∙ same i;
}
