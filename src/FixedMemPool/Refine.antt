-- ===== src/FixedMemPool/Refine.antt =====
-- `allocate` and `deallocate` on a pool in order.
use nvwa.Common.{
  updated, Distinct, Distinct-middle, ℕ, suc, ◌+◌, ◌-◌, ◌^◌, ◌<◌, ◌==◌, ltb, Bool, true, false, not,
  List, [], ◌∷◌, ◌++◌, length, Result, ok, ◌≡◌, refl, ap, ◌∙◌, arith, lt→ltb, length-append,
}
use nvwa.FixedMemPool.Defs.{Pool, inside, load, store, bad_alloc_handler, allocate, deallocate}
use nvwa.FixedMemPool.Valid.{
  Apart, Block, Blocks, Chain, IsPool, Block-inside, Apart-middle, Apart-cons, Chain-updated,
  Blocks-middle,
}

-- With an empty free list, the default handler has `allocate` return null.
pub allocate-empty :
    {block_bytes n : ℕ} {pool : Pool} {used : List ℕ} (fuel : ℕ)
    → IsPool block_bytes n pool [] used
    → allocate bad_alloc_handler (suc fuel) pool ≡ ok (0, pool)
unfolding allocate bad_alloc_handler Chain
allocate-empty {pool} fuel c =
    let none_left : (pool.first_avail_ptr == 0) ≡ true = rw c.chain refl in
    rw (none_left, allocate) refl

-- The call gives `p` and takes it from the free list.
pub record Takes (block_bytes n : ℕ) (p : ℕ) (free used : List ℕ) (result : Result (ℕ × Pool))
    : Type 0 where
  pub after : Pool
  pub returns : result ≡ ok (p, after)
  pub valid : IsPool block_bytes n after free (p ∷ used)

-- Otherwise the first block of the free list goes to the client.
pub allocate-Takes :
    {block_bytes n : ℕ} {pool : Pool} {p : ℕ} {free used : List ℕ}
    (handler : Pool → Result (Bool × Pool)) (fuel : ℕ)
    → IsPool block_bytes n pool (p ∷ free) used
    → Takes block_bytes n p free used (allocate handler (suc fuel) pool)
unfolding allocate load Chain Distinct Apart Blocks
allocate-Takes {block_bytes} {n} {pool} {p} {free} {used} handler fuel c =
    let (at, pos, chain) = c.chain in
    let (p_absent, free_distinct) = c.free_distinct in
    let (p_unused, apart) = c.apart in
    let (block, free_blocks) = c.free_blocks in
    let some_left : (pool.first_avail_ptr == 0) ≡ false = ground arith in
    let readable : inside pool p ≡ true = Block-inside pool c.wide c.sized block in
    let loads : load pool pool.first_avail_ptr ≡ ok (pool.memory p) = rw (at, readable) refl in
    let counts : ltb (pool.alloc_cnt + 1) (2 ^ 31) ≡ true =
      lt→ltb (pool.alloc_cnt + 1) (2 ^ 31) (omega (arith, c.counted, c.all_blocks, c.few)) in
    record {
      after = record pool { first_avail_ptr = pool.memory p; alloc_cnt = pool.alloc_cnt + 1 };
      returns =
          rw (some_left, allocate, loads, counts)
            (ap
              (λ q. ok (
                q,
                record pool { first_avail_ptr = pool.memory p; alloc_cnt = pool.alloc_cnt + 1 },
              ))
              at);
      valid = record {
        allocated = c.allocated;
        wide = c.wide;
        sized = c.sized;
        chain = chain;
        free_distinct = free_distinct;
        used_distinct = (p_unused, c.used_distinct);
        apart = Apart-cons free p used p_absent apart;
        free_blocks = free_blocks;
        used_blocks = (block, c.used_blocks);
        all_blocks = omega (arith, c.all_blocks);
        counted = omega (arith, c.counted);
        few = c.few;
      };
    }

-- The call leaves a pool with these blocks free and in use.
pub record Leaves (block_bytes n : ℕ) (free used : List ℕ) (result : Result Pool) : Type 0 where
  pub after : Pool
  pub returns : result ≡ ok after
  pub valid : IsPool block_bytes n after free used

Block-pos :
    (block_bytes n base : ℕ) {p : ℕ} → 0 < base → Block base block_bytes n p → (p == 0) ≡ false
Block-pos block_bytes n base pos (i, lt, at) = ground arith

-- A block in use is written to, and stays in use.
pub store-Leaves :
    {block_bytes n : ℕ} {pool : Pool} {free : List ℕ} (before : List ℕ) (p : ℕ) (after : List ℕ)
    (value : ℕ)
    → IsPool block_bytes n pool free (before ++ p ∷ after)
    → Leaves block_bytes n free (before ++ p ∷ after) (store p value pool)
unfolding store
store-Leaves {block_bytes} {n} {pool} {free} before p after value c =
    let (block, _) = Blocks-middle pool.mem_pool_ptr block_bytes n before p after c.used_blocks in
    let (absent, _) = Apart-middle free before p after c.apart in
    record {
      after = record pool { memory = updated pool.memory p value };
      returns = rw (Block-inside pool c.wide c.sized block) refl;
      valid = record {
        allocated = c.allocated;
        wide = c.wide;
        sized = c.sized;
        chain = Chain-updated pool.memory pool.first_avail_ptr free p value absent c.chain;
        free_distinct = c.free_distinct;
        used_distinct = c.used_distinct;
        apart = c.apart;
        free_blocks = c.free_blocks;
        used_blocks = c.used_blocks;
        all_blocks = c.all_blocks;
        counted = c.counted;
        few = c.few;
      };
    }

-- `deallocate` puts a block in use at the front of the free list.
pub deallocate-Leaves :
    {block_bytes n : ℕ} {pool : Pool} {free : List ℕ} (before : List ℕ) (p : ℕ) (after : List ℕ)
    → IsPool block_bytes n pool free (before ++ p ∷ after)
    → Leaves block_bytes n (p ∷ free) (before ++ after) (deallocate p pool)
unfolding deallocate store Chain Distinct Apart Blocks
deallocate-Leaves {block_bytes} {n} {pool} {free} before p after c =
    let (block, used_blocks) =
      Blocks-middle pool.mem_pool_ptr block_bytes n before p after c.used_blocks in
    let (p_unfree, apart) = Apart-middle free before p after c.apart in
    let (p_absent, used_distinct) = Distinct-middle before p after c.used_distinct in
    let some_block = Block-pos block_bytes n pool.mem_pool_ptr c.allocated block in
    let more : length (before ++ p ∷ after) ≡ suc (length (before ++ after)) =
      length-append before (p ∷ after) ∙ omega (arith, length-append before after) in
    let same : (p == p) ≡ true = ground arith in
    let counted : not (pool.alloc_cnt == 0) ≡ true = ground (arith, c.counted, more) in
    let readable : inside pool p ≡ true = Block-inside pool c.wide c.sized block in
    record {
      after = record pool {
        alloc_cnt = pool.alloc_cnt - 1;
        memory = updated pool.memory p pool.first_avail_ptr;
        first_avail_ptr = p;
      };
      returns = rw (some_block, counted, readable) refl;
      valid = record {
        allocated = c.allocated;
        wide = c.wide;
        sized = c.sized;
        chain = (
          refl,
          ground arith,
          rw same (
              Chain-updated pool.memory pool.first_avail_ptr free p pool.first_avail_ptr p_unfree
                c.chain),
        );
        free_distinct = (p_unfree, c.free_distinct);
        used_distinct = used_distinct;
        apart = (p_absent, apart);
        free_blocks = (block, c.free_blocks);
        used_blocks = used_blocks;
        all_blocks = omega (arith, c.all_blocks, more);
        counted = omega (arith, c.counted, more);
        few = c.few;
      };
    }
