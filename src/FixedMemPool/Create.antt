-- ===== src/FixedMemPool/Create.antt =====
-- `initialize` and `deinitialize`.
use nvwa.Common.{
  updated, updated_self, Absent, Distinct, ℕ, zero, suc, ◌+◌, ◌-◌, ◌*◌, ◌%◌, ◌^◌, ◌≤◌, ◌<◌, ◌==◌,
  ltb, if◌then◌else◌, Bool, true, false, not, List, [], ◌∷◌, length, Result, ok, err, fault, ◌≡◌,
  refl, ap, ◌∙◌, arith,
}
use nvwa.FixedMemPool.Defs.{Pool, inside, store, link_blocks, initialize, deinitialize}
use nvwa.FixedMemPool.Valid.{Apart, Blocks, Chain, IsPool}

-- The addresses of `m` blocks, one after the other.
unfoldable pub blocks_from : ℕ → ℕ → ℕ → List ℕ
blocks_from block_bytes zero block = []
blocks_from block_bytes (suc m) block = block ∷ blocks_from block_bytes m (block + block_bytes)

length-blocks_from : (block_bytes m block : ℕ) → length (blocks_from block_bytes m block) ≡ m
unfolding blocks_from
length-blocks_from block_bytes zero block = refl
length-blocks_from block_bytes (suc m) block =
    ap suc (length-blocks_from block_bytes m (block + block_bytes))

blocks_from-Absent :
    (block_bytes m block p : ℕ) → p < block → Absent p (blocks_from block_bytes m block)
unfolding blocks_from Absent
blocks_from-Absent block_bytes zero block p lt = tt
blocks_from-Absent block_bytes (suc m) block p lt =
    (ground arith, blocks_from-Absent block_bytes m (block + block_bytes) p (omega (arith, lt)))

blocks_from-Distinct :
    (block_bytes m block : ℕ) → 0 < block_bytes → Distinct (blocks_from block_bytes m block)
unfolding blocks_from Distinct
blocks_from-Distinct block_bytes zero block pos = tt
blocks_from-Distinct block_bytes (suc m) block pos = (
  blocks_from-Absent block_bytes m (block + block_bytes) block (omega (arith, pos)),
  blocks_from-Distinct block_bytes m (block + block_bytes) pos,
)

blocks_from-Blocks :
    (base block_bytes n m i block : ℕ)
    → i + m ≤ n
    → block ≡ base + i * block_bytes
    → Blocks base block_bytes n (blocks_from block_bytes m block)
unfolding blocks_from Blocks
blocks_from-Blocks base block_bytes n zero i block le at = tt
blocks_from-Blocks base block_bytes n (suc m) i block le at = (
  (i, omega (arith, le), at),
  blocks_from-Blocks base block_bytes n m (suc i) (block + block_bytes) (omega (arith, le))
      (omega (arith, at)),
)

blocks_from-Apart : (xs : List ℕ) → Apart xs []
unfolding Apart Absent
blocks_from-Apart [] = tt
blocks_from-Apart (x ∷ xs) = (tt, blocks_from-Apart xs)

updated_before :
    (memory : ℕ → ℕ) (ptr value a : ℕ) → a < ptr → updated memory ptr value a ≡ memory a
updated_before memory ptr value a lt =
    let other : (a == ptr) ≡ false = ground (arith, lt) in rw other refl

-- The blocks from one on are linked, and nothing before it has changed.
record Linked (block_bytes m block : ℕ) (pool : Pool) (result : Result Pool) : Type 0 where
  after : Pool
  returns : result ≡ ok after
  chain : Chain after.memory block (blocks_from block_bytes m block)
  before : (a : ℕ) → a < block → after.memory a ≡ pool.memory a
  same_start : after.mem_pool_ptr ≡ pool.mem_pool_ptr
  same_first : after.first_avail_ptr ≡ pool.first_avail_ptr
  same_count : after.alloc_cnt ≡ pool.alloc_cnt
  same_extent : after.extent ≡ pool.extent

link_blocks-Linked :
    (block_bytes k block : ℕ) (pool : Pool)
    → 8 ≤ block_bytes
    → 0 < pool.mem_pool_ptr
    → pool.mem_pool_ptr ≤ block
    → block + suc k * block_bytes ≤ pool.mem_pool_ptr + pool.extent
    → Linked block_bytes (suc k) block pool (link_blocks block_bytes k block pool)
unfolding link_blocks store blocks_from Chain
link_blocks-Linked block_bytes zero block pool wide pos above fits =
    let readable : inside pool block ≡ true = ground arith in
    let same : (block == block) ≡ true = ground arith in
    record {
      after = record pool { memory = updated pool.memory block 0 };
      returns = rw readable refl;
      chain = (refl, omega (arith, pos, above), rw same refl);
      before = λ a lt. updated_before pool.memory block 0 a lt;
      same_start = refl;
      same_first = refl;
      same_count = refl;
      same_extent = refl;
    }
link_blocks-Linked block_bytes (suc k) block pool wide pos above fits =
    let readable : inside pool block ≡ true = ground arith in
    let pool' = record pool { memory = updated pool.memory block (block + block_bytes) } in
    let rest =
      link_blocks-Linked block_bytes k (block + block_bytes) pool' wide pos (omega (arith, above))
        (omega (arith, fits)) in
    let linked : rest.after.memory block ≡ block + block_bytes =
      rest.before block (omega (arith, wide))
      ∙ updated_self pool.memory block (block + block_bytes) in
    record {
      after = rest.after;
      returns = rw readable rest.returns;
      chain = (refl, omega (arith, pos, above), rw linked rest.chain);
      before = λ a lt.
          rest.before a (omega (arith, lt))
          ∙ updated_before pool.memory block (block + block_bytes) a lt;
      same_start = rest.same_start;
      same_first = rest.same_first;
      same_count = rest.same_count;
      same_extent = rest.same_extent;
    }

-- What `initialize` does with the memory that it is given: the blocks are free in their order, and
-- none is in use.
pub record Initialized (block_bytes n ptr : ℕ) (result : Result (Bool × Pool)) : Type 0 where
  pub after : Pool
  pub returns : result ≡ ok (true, after)
  pub valid : IsPool block_bytes n after (blocks_from block_bytes n ptr) []

-- With a chunk for some blocks, fewer than 2 ^ 31, of at least eight bytes and of fewer than 2 ^ 64
-- together, a pool that is not initialized and has no count gets all the blocks into its free list,
-- in their order.
pub initialize-Initialized :
    (alloc_sys : ℕ → ℕ) (block_bytes n : ℕ) (pool : Pool)
    → pool.mem_pool_ptr ≡ 0
    → pool.alloc_cnt ≡ 0
    → 8 ≤ block_bytes
    → 0 < n
    → n < 2 ^ 31
    → n * block_bytes < 2 ^ 64
    → 0 < alloc_sys (n * block_bytes)
    → Initialized block_bytes n
        (alloc_sys (n * block_bytes))
        (initialize alloc_sys block_bytes n pool)
unfolding initialize Apart Distinct Blocks
initialize-Initialized alloc_sys block_bytes zero pool null count wide pos few fits got =
    elim pos [ ]
initialize-Initialized alloc_sys block_bytes (suc k) pool null count wide pos few fits got =
    let ptr = alloc_sys (suc k * block_bytes) in
    let start : Pool = record pool {
      mem_pool_ptr = ptr;
      first_avail_ptr = ptr;
      extent = suc k * block_bytes;
    } in
    let linked = link_blocks-Linked block_bytes k ptr start wide got (omega arith) (omega arith) in
    let not_yet : not (not (pool.mem_pool_ptr == 0)) ≡ true = ground (arith, null) in
    let bytes : suc k * block_bytes % 2 ^ 64 ≡ suc k * block_bytes = omega (arith, fits) in
    let some_memory : (ptr == 0) ≡ false = ground (arith, got) in
    let asked : ltb 0 (suc k) ≡ true = ground arith in
    let less : suc k - 1 ≡ k = omega arith in
    record {
      after = linked.after;
      returns = rw (not_yet, asked, bytes, some_memory, less, linked.returns) refl;
      valid = record {
        allocated = rw linked.same_start got;
        wide = wide;
        sized = linked.same_extent;
        chain = rw linked.same_first linked.chain;
        free_distinct = blocks_from-Distinct block_bytes (suc k) ptr (omega (arith, wide));
        used_distinct = tt;
        apart = blocks_from-Apart (blocks_from block_bytes (suc k) ptr);
        free_blocks =
            rw linked.same_start (
              blocks_from-Blocks ptr block_bytes (suc k) (suc k) 0 ptr (omega arith) (omega arith));
        used_blocks = tt;
        all_blocks = omega (arith, length-blocks_from block_bytes (suc k) ptr);
        counted = linked.same_count ∙ count;
        few = few;
      };
    }

-- Without memory, `initialize` says so and leaves the pool uninitialized.
pub initialize-no_memory :
    (alloc_sys : ℕ → ℕ) (block_bytes n : ℕ) (pool : Pool)
    → pool.mem_pool_ptr ≡ 0
    → 0 < n
    → alloc_sys (n * block_bytes % 2 ^ 64) ≡ 0
    → initialize alloc_sys block_bytes n pool
      ≡ ok (false, record pool { mem_pool_ptr = 0; first_avail_ptr = 0 })
unfolding initialize
initialize-no_memory alloc_sys block_bytes n pool null pos none_got =
    let not_yet : not (not (pool.mem_pool_ptr == 0)) ≡ true = ground (arith, null) in
    let some_asked : ltb 0 n ≡ true = ground (arith, pos) in rw (not_yet, some_asked, none_got) refl

link_blocks-outside :
    (block_bytes k block : ℕ) (pool : Pool)
    → inside pool block ≡ false
    → link_blocks block_bytes k block pool ≡ err fault
unfolding link_blocks store
link_blocks-outside block_bytes zero block pool out = rw out refl
link_blocks-outside block_bytes (suc k) block pool out = rw out refl

link_blocks-second :
    (block_bytes k : ℕ) (pool : Pool)
    → 8 ≤ block_bytes
    → pool.extent ≡ block_bytes
    → link_blocks block_bytes (suc k) pool.mem_pool_ptr pool ≡ err fault
unfolding link_blocks store
link_blocks-second block_bytes k pool wide one =
    let first : inside pool pool.mem_pool_ptr ≡ true = ground arith in
    let out : inside pool (pool.mem_pool_ptr + block_bytes) ≡ false = ground arith in
    rw first (
      link_blocks-outside block_bytes k (pool.mem_pool_ptr + block_bytes)
        (record pool {
          memory = updated pool.memory pool.mem_pool_ptr (pool.mem_pool_ptr + block_bytes);
        })
        out)

-- Where the product of the number of blocks, more than one, and their size of at least eight bytes
-- wraps to the size of one block, and that chunk can be had, `initialize` of an uninitialized pool
-- writes a pointer past the end of the chunk.
pub initialize_wraps :
    (alloc_sys : ℕ → ℕ) (block_bytes n : ℕ) (pool : Pool)
    → pool.mem_pool_ptr ≡ 0
    → 8 ≤ block_bytes
    → 1 < n
    → n * block_bytes % 2 ^ 64 ≡ block_bytes
    → 0 < alloc_sys block_bytes
    → initialize alloc_sys block_bytes n pool ≡ err fault
unfolding initialize
initialize_wraps alloc_sys block_bytes zero pool null wide more wraps got = elim more [ ]
initialize_wraps alloc_sys block_bytes (suc zero) pool null wide more wraps got =
    absurd (omega (arith, more))
initialize_wraps alloc_sys block_bytes (suc (suc k)) pool null wide more wraps got =
    let ptr = alloc_sys block_bytes in
    let start : Pool = record pool {
      mem_pool_ptr = ptr;
      first_avail_ptr = ptr;
      extent = block_bytes;
    } in
    let not_yet : not (not (pool.mem_pool_ptr == 0)) ≡ true = ground (arith, null) in
    let asked : ltb 0 (suc (suc k)) ≡ true = ground arith in
    let some_memory : (ptr == 0) ≡ false = ground (arith, got) in
    let less : suc (suc k) - 1 ≡ suc k = omega arith in
    rw (not_yet, asked, wraps, some_memory, less, link_blocks-second block_bytes k start wide refl)
      refl

deinitialize-count :
    (used : List ℕ) (pool : Pool)
    → 0 < pool.mem_pool_ptr
    → pool.alloc_cnt ≡ length used
    → deinitialize pool
      ≡ ok (
        length used,
        if length used == 0
            then record pool { mem_pool_ptr = 0; first_avail_ptr = 0; extent = 0 }
            else pool,
      )
unfolding deinitialize
deinitialize-count [] pool pos counted =
    let there : not (pool.mem_pool_ptr == 0) ≡ true = ground (arith, pos) in
    rw (counted, there) refl
deinitialize-count (x ∷ used) pool pos counted =
    let some_used : (suc (length used) == 0) ≡ false = ground arith in
    let held : not (pool.alloc_cnt == 0) ≡ true = ground (arith, counted) in
    rw (held, some_used) (ap (λ k. ok (k, pool)) counted)

-- On a pool in order, `deinitialize` gives the number of blocks in use; it keeps the pool while
-- there are any, and otherwise leaves an uninitialized pool.
deinitialize-lem :
    {block_bytes n : ℕ} {pool : Pool} {free used : List ℕ}
    → IsPool block_bytes n pool free used
    → deinitialize pool
      ≡ ok (
        length used,
        if length used == 0
            then record pool { mem_pool_ptr = 0; first_avail_ptr = 0; extent = 0 }
            else pool,
      )
deinitialize-lem {pool} {used} c = deinitialize-count used pool c.allocated c.counted
