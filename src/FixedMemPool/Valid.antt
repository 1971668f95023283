-- ===== src/FixedMemPool/Valid.antt =====
-- A pool in order: its chunk is divided into blocks, each of which is either in the free list or in
-- the hands of the client.
use nvwa.Common.{
  updated, Absent, Distinct, Absent-middle, ℕ, suc, ◌+◌, ◌*◌, ◌^◌, ◌≤◌, ◌<◌, true, List, [], ◌∷◌,
  ◌++◌, length, ◌≡◌, arith,
}
use nvwa.FixedMemPool.Defs.{Pool, inside}
use native.Mathlib.Nat.{mul-le-mul_right}

-- No address is in both lists.
unfoldable pub Apart : List ℕ → List ℕ → Type 0
Apart [] ys = Unit
Apart (x ∷ xs) ys = Absent x ys × Apart xs ys

-- The address of a block of a chunk of `n` blocks.
abbrev pub Block : ℕ → ℕ → ℕ → ℕ → Type 0
Block base block_bytes n p = (i : ℕ) × (i < n) × (p ≡ base + i * block_bytes)

unfoldable pub Blocks : ℕ → ℕ → ℕ → List ℕ → Type 0
Blocks base block_bytes n [] = Unit
Blocks base block_bytes n (x ∷ xs) = Block base block_bytes n x × Blocks base block_bytes n xs

-- The free list from a pointer on, the null pointer at its end.
unfoldable pub Chain : (ℕ → ℕ) → ℕ → List ℕ → Type 0
Chain memory ptr [] = ptr ≡ 0
Chain memory ptr (x ∷ xs) = (ptr ≡ x) × (0 < x) × Chain memory (memory x) xs

pub record IsPool (block_bytes n : ℕ) (pool : Pool) (free used : List ℕ) : Type 0 where
  pub allocated : 0 < pool.mem_pool_ptr
  pub wide : 8 ≤ block_bytes
  pub sized : pool.extent ≡ n * block_bytes
  pub chain : Chain pool.memory pool.first_avail_ptr free
  pub free_distinct : Distinct free
  pub used_distinct : Distinct used
  pub apart : Apart free used
  pub free_blocks : Blocks pool.mem_pool_ptr block_bytes n free
  pub used_blocks : Blocks pool.mem_pool_ptr block_bytes n used
  pub all_blocks : length free + length used ≡ n
  pub counted : pool.alloc_cnt ≡ length used
  pub few : n < 2 ^ 31

-- Each block is inside the chunk.
pub Block-inside :
    {block_bytes n p : ℕ} (pool : Pool)
    → 8 ≤ block_bytes
    → pool.extent ≡ n * block_bytes
    → Block pool.mem_pool_ptr block_bytes n p
    → inside pool p ≡ true
Block-inside {block_bytes} {n} pool wide sized (i, lt, at) =
    let ends : suc i * block_bytes ≤ n * block_bytes = mul-le-mul_right block_bytes lt in
    ground (arith, ends)

pub Apart-middle :
    (xs before : List ℕ) (p : ℕ) (after : List ℕ)
    → Apart xs (before ++ p ∷ after)
    → Absent p xs × Apart xs (before ++ after)
unfolding Apart Absent
Apart-middle [] before p after apart = (tt, tt)
Apart-middle (x ∷ xs) before p after (absent, apart) =
    let (other, absent') = Absent-middle x before p after absent in
    let (p_absent, rest) = Apart-middle xs before p after apart in
    ((ground arith, p_absent), (absent', rest))

pub Apart-cons : (xs : List ℕ) (p : ℕ) (ys : List ℕ) → Absent p xs → Apart xs ys → Apart xs (p ∷ ys)
unfolding Apart Absent
Apart-cons [] p ys absent apart = tt
Apart-cons (x ∷ xs) p ys (other, absent) (x_absent, apart) =
    ((ground arith, x_absent), Apart-cons xs p ys absent apart)

-- A write to a block outside of the free list leaves the list as it is.
pub Chain-updated :
    (memory : ℕ → ℕ) (ptr : ℕ) (free : List ℕ) (p value : ℕ)
    → Absent p free
    → Chain memory ptr free
    → Chain (updated memory p value) ptr free
unfolding Absent Chain
Chain-updated memory ptr [] p value absent chain = chain
Chain-updated memory ptr (x ∷ xs) p value (other, absent) (at, pos, chain) =
    (at, pos, rw other (Chain-updated memory (memory x) xs p value absent chain))

module _ (base block_bytes n : ℕ) where
  pub Blocks-middle :
      (before : List ℕ) (p : ℕ) (after : List ℕ)
      → Blocks base block_bytes n (before ++ p ∷ after)
      → Block base block_bytes n p × Blocks base block_bytes n (before ++ after)
  unfolding Blocks
  Blocks-middle [] p after (block, blocks) = (block, blocks)
  Blocks-middle (x ∷ before) p after (block, blocks) =
      let (p_block, rest) = Blocks-middle before p after blocks in (p_block, (block, rest))
