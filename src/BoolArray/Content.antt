-- ===== src/BoolArray/Content.antt =====
-- An array of bytes as a sequence of bits: bit `i` is bit `i % 8` of byte `i / 8`.
use nvwa.Common.{
  ℕ, zero, suc, ◌/◌, ◌%◌, ◌≤◌, ◌<◌, ◌==◌, if◌then◌else◌, Bool, false, ◌&&◌, ◌||◌, List, [], ◌∷◌,
  length, get_or, set, Result, ok, err, fault, ◌>>=◌, bit_and, bit_or, ◌≡◌, refl, ◌∙◌, arith,
  length-set, lt→ltb,
}
use nvwa.Bits.Words.{u8, testbit}
use nvwa.Bits.Laws.{testbit-u8, testbit-bit_and, testbit-bit_or, testbit-wide}
use nvwa.BoolArray.Memory.{read, write, and_byte, or_byte}

abbrev pub byte_at : List ℕ → ℕ → ℕ
byte_at bytes i = get_or bytes i 0

unfoldable pub bits : List ℕ → ℕ → Bool
bits bytes i = testbit (byte_at bytes (i / 8)) (i % 8)

abbrev pub AreBytes : List ℕ → Type 0
AreBytes bytes = (i : ℕ) → byte_at bytes i < 256

-- An update of bytes in place: it meets no fault, keeps the length and leaves the bits `f`.
pub record Rewrites (bytes : List ℕ) (result : Result (List ℕ)) (f : ℕ → Bool) : Type 0 where
  pub out : List ℕ
  pub returns : result ≡ ok out
  pub same_length : length out ≡ length bytes
  pub are_bytes : AreBytes out
  pub content : (i : ℕ) → bits out i ≡ f i

pub read-ok : (bytes : List ℕ) (i : ℕ) → i < length bytes → read bytes i ≡ ok (byte_at bytes i)
read-ok [] i h = absurd (omega arith)
read-ok (b ∷ bytes) zero h = refl
read-ok (b ∷ bytes) (suc i) h = read-ok bytes i (omega arith)

pub read-past : (bytes : List ℕ) (i : ℕ) → length bytes ≤ i → read bytes i ≡ err fault
read-past [] i h = refl
read-past (b ∷ bytes) zero h = absurd (omega arith)
read-past (b ∷ bytes) (suc i) h = read-past bytes i (omega arith)

pub byte_at-set :
    (bytes : List ℕ) (k v i : ℕ)
    → k < length bytes
    → byte_at (set bytes k v) i ≡ (if i == k then v else byte_at bytes i)
byte_at-set [] k v i h = absurd (omega arith)
byte_at-set (b ∷ bytes) zero v zero h = refl
byte_at-set (b ∷ bytes) zero v (suc i) h = ground arith
byte_at-set (b ∷ bytes) (suc k) v zero h = ground arith
byte_at-set (b ∷ bytes) (suc k) v (suc i) h = byte_at-set bytes k v i (omega arith) ∙ ground arith

pub byte_at-past : (bytes : List ℕ) (i : ℕ) → length bytes ≤ i → byte_at bytes i ≡ 0
byte_at-past [] i h = refl
byte_at-past (b ∷ bytes) zero h = absurd (omega arith)
byte_at-past (b ∷ bytes) (suc i) h = byte_at-past bytes i (omega arith)

-- Past the last byte all bits are clear.
pub bits-past : (bytes : List ℕ) (i : ℕ) → length bytes ≤ i / 8 → bits bytes i ≡ false
unfolding bits
bits-past bytes i h =
    rw (byte_at-past bytes (i / 8) h) (testbit-wide 0 0 (i % 8) (omega arith) (omega arith))

pub Rewrites-congr :
    (bytes : List ℕ) (r : Result (List ℕ)) (f g : ℕ → Bool)
    → ((i : ℕ) → f i ≡ g i)
    → Rewrites bytes r f
    → Rewrites bytes r g
Rewrites-congr bytes r f g same w = record {
  out = w.out;
  returns = w.returns;
  same_length = w.same_length;
  are_bytes = w.are_bytes;
  content = λ i. w.content i ∙ same i;
}

-- A byte is replaced, and the bits of the others stay.
pub write-Rewrites :
    (bytes : List ℕ) (k v : ℕ)
    → k < length bytes
    → v < 256
    → AreBytes bytes
    → Rewrites bytes (write bytes k v) (λ i. if i / 8 == k then testbit v (i % 8) else bits bytes i)
unfolding bits
write-Rewrites bytes k v inside small are = record {
  out = set bytes k v;
  returns = rw (lt→ltb k (length bytes) inside);
  same_length = length-set bytes k v;
  are_bytes = λ i. ground (arith, byte_at-set bytes k v i inside, are i);
  content = λ i. rw (byte_at-set bytes k v (i / 8) inside) (ground arith);
}

-- A masked byte: `&=` and `|=` act on the bits of byte `k` alone.
pub and_byte-Rewrites :
    (bytes : List ℕ) (k mask : ℕ)
    → k < length bytes
    → AreBytes bytes
    → Rewrites bytes
        (and_byte bytes k mask)
        (λ i. if i / 8 == k then bits bytes i && testbit mask (i % 8) else bits bytes i)
and_byte-Rewrites bytes k mask inside are = rw (read-ok bytes k inside) (
    Rewrites-congr bytes (write bytes k v) _ _ same
      (write-Rewrites bytes k v inside (omega arith) are))
  where
    v : ℕ
    v = u8 (bit_and (byte_at bytes k) mask)

    same :
        (i : ℕ)
        → (if i / 8 == k then testbit v (i % 8) else bits bytes i)
          ≡ (if i / 8 == k then bits bytes i && testbit mask (i % 8) else bits bytes i)
    same i =
        unfold bits in
        ground (
          arith,
          testbit-u8 (bit_and (byte_at bytes k) mask) (i % 8),
          testbit-bit_and (byte_at bytes k) mask (i % 8),
        )

pub or_byte-Rewrites :
    (bytes : List ℕ) (k mask : ℕ)
    → k < length bytes
    → AreBytes bytes
    → Rewrites bytes
        (or_byte bytes k mask)
        (λ i. if i / 8 == k then bits bytes i || testbit mask (i % 8) else bits bytes i)
or_byte-Rewrites bytes k mask inside are = rw (read-ok bytes k inside) (
    Rewrites-congr bytes (write bytes k v) _ _ same
      (write-Rewrites bytes k v inside (omega arith) are))
  where
    v : ℕ
    v = u8 (bit_or (byte_at bytes k) mask)

    same :
        (i : ℕ)
        → (if i / 8 == k then testbit v (i % 8) else bits bytes i)
          ≡ (if i / 8 == k then bits bytes i || testbit mask (i % 8) else bits bytes i)
    same i =
        unfold bits in
        ground (
          arith,
          testbit-u8 (bit_or (byte_at bytes k) mask) (i % 8),
          testbit-bit_or (byte_at bytes k) mask (i % 8),
        )

-- Two updates in a row, of which the second knows what the first has left.
pub Rewrites-bind :
    (bytes : List ℕ) (r : Result (List ℕ)) (k : List ℕ → Result (List ℕ)) (f g : ℕ → Bool)
    → Rewrites bytes r f
    → ((out : List ℕ)
        → length out ≡ length bytes
        → AreBytes out
        → ((i : ℕ) → bits out i ≡ f i)
        → Rewrites out (k out) g)
    → Rewrites bytes (r >>= k) g
Rewrites-bind bytes r k f g w next =
    let rest = next w.out w.same_length w.are_bytes w.content in
    record {
      out = rest.out;
      returns = rw w.returns rest.returns;
      same_length = rest.same_length ∙ w.same_length;
      are_bytes = rest.are_bytes;
      content = rest.content;
    }
