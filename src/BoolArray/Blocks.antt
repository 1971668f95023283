-- ===== src/BoolArray/Blocks.antt =====
-- `memset` and `memcpy` on bytes, seen bit by bit.
use nvwa.Common.{
  ℕ, zero, suc, ◌+◌, ◌-◌, ◌/◌, ◌%◌, ◌≤◌, ◌<◌, ltb, if◌then◌else◌, Bool, true, false, not, List, [],
  ◌∷◌, ◌++◌, length, Result, ok, ◌≡◌, refl, ◌∙◌, sym, ap, arith, take, drop, replicate, Bool-cases,
  inl, inr, length-append, length-take, length-drop, length-replicate,
}
use nvwa.Bits.Words.{testbit}
use nvwa.Bits.Laws.{testbit-zero, testbit-complement}
use nvwa.BoolArray.Memory.{memset, memcpy}
use nvwa.BoolArray.Content.{byte_at, byte_at-past, bits, AreBytes, Rewrites}

pub byte_at-drop : (bytes : List ℕ) (n i : ℕ) → byte_at (drop n bytes) i ≡ byte_at bytes (n + i)
byte_at-drop bytes zero i = ap (byte_at bytes) (omega arith)
byte_at-drop [] (suc n) i = refl
byte_at-drop (b ∷ bytes) (suc n) i =
    let index : suc n + i ≡ suc (n + i) = omega arith in
    byte_at-drop bytes n i ∙ ap (byte_at (b ∷ bytes)) (sym index)

byte_at-append :
    (front rest : List ℕ) (i : ℕ)
    → byte_at (front ++ rest) i
      ≡ (if ltb i (length front) then byte_at front i else byte_at rest (i - length front))
byte_at-append [] rest i = ground arith
byte_at-append (b ∷ front) rest zero = ground arith
byte_at-append (b ∷ front) rest (suc i) = byte_at-append front rest i ∙ ground arith

-- A new front of `n` bytes over old ones.
byte_at-front :
    (front bytes : List ℕ) (i : ℕ)
    → byte_at (front ++ drop (length front) bytes) i
      ≡ (if ltb i (length front) then byte_at front i else byte_at bytes i)
byte_at-front front bytes i =
    byte_at-append front (drop (length front) bytes) i
    ∙ ground (
      arith,
      byte_at-drop bytes (length front) (i - length front),
      ap (byte_at bytes) {x = length front + (i - length front)} {y = i},
    )

byte_at-replicate : (n v i : ℕ) → i < n → byte_at (replicate n v) i ≡ v
byte_at-replicate zero v i h = absurd (omega arith)
byte_at-replicate (suc n) v zero h = refl
byte_at-replicate (suc n) v (suc i) h = byte_at-replicate n v i (omega arith)

byte_at-take : (bytes : List ℕ) (n i : ℕ) → i < n → byte_at (take n bytes) i ≡ byte_at bytes i
byte_at-take bytes zero i h = absurd (omega arith)
byte_at-take [] (suc n) i h = refl
byte_at-take (b ∷ bytes) (suc n) zero h = refl
byte_at-take (b ∷ bytes) (suc n) (suc i) h = byte_at-take bytes n i (omega arith)

front-Rewrites :
    (front bytes : List ℕ) (n : ℕ) (r : Result (List ℕ)) (f : ℕ → Bool)
    → length front ≡ n
    → n ≤ length bytes
    → AreBytes front
    → AreBytes bytes
    → r ≡ ok (front ++ drop n bytes)
    → ((i : ℕ) → i / 8 < n → bits front i ≡ f i)
    → ((i : ℕ) → n ≤ i / 8 → bits bytes i ≡ f i)
    → Rewrites bytes r f
front-Rewrites front bytes n r f e fits are_front are returns low high = record {
  out = front ++ drop n bytes;
  returns = returns;
  same_length = omega (arith, length-append front (drop n bytes), length-drop n bytes);
  are_bytes = λ i. rw (front_at i) (ground (arith, are i, are_front i));
  content = λ i.
      unfold bits in
      rw (front_at (i / 8)) (elim (Bool-cases (ltb (i / 8) n)) [
        | inl lt ↦ rw lt (unfold bits in low i (ground arith))
        | inr ge ↦ rw ge (unfold bits in high i (ground arith))
      ]);
}
  where
    front_at :
        (i : ℕ)
        → byte_at (front ++ drop n bytes) i ≡ (if ltb i n then byte_at front i else byte_at bytes i)
    front_at i = rw (← e) (byte_at-front front bytes i)

pub memset-Rewrites :
    (bytes : List ℕ) (v n : ℕ)
    → n ≤ length bytes
    → v < 256
    → AreBytes bytes
    → Rewrites bytes
        (memset bytes v n)
        (λ i. if ltb (i / 8) n then testbit v (i % 8) else bits bytes i)
memset-Rewrites bytes v n fits small are =
    front-Rewrites (replicate n v) bytes n _ _ (length-replicate n v) fits
      (λ i. elim (Bool-cases (ltb i n)) [
        | inl lt ↦ rw (byte_at-replicate n v i (ground arith)) small
        | inr ge ↦
            rw (byte_at-past (replicate n v) i (ground (arith, length-replicate n v))) (omega arith)
      ])
      are (ground arith) (λ i lt. unfold bits in ground (arith, byte_at-replicate n v (i / 8) lt))
      (λ i ge. ground arith)

-- `memcpy` gives the first `n` bytes of the destination the bits of the source.
pub memcpy-Rewrites :
    (dest src : List ℕ) (n : ℕ)
    → n ≤ length dest
    → n ≤ length src
    → AreBytes dest
    → AreBytes src
    → Rewrites dest (memcpy dest src n) (λ i. if ltb (i / 8) n then bits src i else bits dest i)
memcpy-Rewrites dest src n fits available are are_src =
    front-Rewrites (take n src) dest n _ _ (omega (arith, length-take n src)) fits
      (λ i. elim (Bool-cases (ltb i n)) [
        | inl lt ↦ rw (byte_at-take src n i (ground arith)) (are_src i)
        | inr ge ↦
            rw (byte_at-past (take n src) i (ground (arith, length-take n src))) (omega arith)
      ])
      are (ground arith) (λ i lt. unfold bits in ground (arith, byte_at-take src n (i / 8) lt))
      (λ i ge. ground arith)

-- The bytes of `memset` with 0 and with ~0.
pub testbit-filled : (value : Bool) (j : ℕ) → j < 8 → testbit (if value then 255 else 0) j ≡ value
testbit-filled true j h = testbit-complement 8 0 j (omega arith) h ∙ ap not (testbit-zero j)
testbit-filled false j h = testbit-zero j
