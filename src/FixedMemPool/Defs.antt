-- ===== src/FixedMemPool/Defs.antt =====
-- The static members of `fixed_mem_pool` and its operations. A pointer is an address, 0 for null,
-- and a pointer takes eight bytes. The lock is held through a call, so that calls do not interleave.
use nvwa.Common.{
  updated, ℕ, zero, suc, ◌+◌, ◌-◌, ◌*◌, ◌%◌, ◌^◌, ◌==◌, ltb, leb, if◌then◌else◌, Bool, true, false,
  not, ◌&&◌, bit_and, Result, ok, err, fault, assertion, bad_alloc, require, ◌>>=◌, ◌>>◌,
}

-- `memory` is the pointers in the chunk, by their addresses, and `extent` the bytes of the chunk.
pub record Pool : Type 0 where
  pub mem_pool_ptr : ℕ
  pub first_avail_ptr : ℕ
  pub alloc_cnt : ℕ
  pub memory : ℕ → ℕ
  pub extent : ℕ

-- `block_size::value`, the size of an object rounded up to the alignment.
unfoldable pub block_size : ℕ → ℕ → ℕ
block_size size alignment = bit_and ((size + alignment - 1) % 2 ^ 64) (2 ^ 64 - 1 - (alignment - 1))

-- A pointer is read and written in the chunk only.
abbrev pub inside : Pool → ℕ → Bool
inside pool ptr = leb pool.mem_pool_ptr ptr && leb (ptr + 8) (pool.mem_pool_ptr + pool.extent)

unfoldable pub load : Pool → ℕ → Result ℕ
load pool ptr = require (inside pool ptr) fault >> ok (pool.memory ptr)

unfoldable pub store : ℕ → ℕ → Pool → Result Pool
store ptr value pool =
    require (inside pool ptr) fault >> ok (record pool { memory = updated pool.memory ptr value })

-- The default `bad_alloc_handler`.
unfoldable pub bad_alloc_handler : Pool → Result (Bool × Pool)
bad_alloc_handler pool = ok (false, pool)

-- `allocate`, with a handler and a bound on the rounds of its loop. The count is an `int`.
unfoldable pub allocate : (Pool → Result (Bool × Pool)) → ℕ → Pool → Result (ℕ × Pool)
allocate handler zero pool = err fault
allocate handler (suc fuel) pool = elim (pool.first_avail_ptr == 0) [
  | false ↦ do
    next ← load pool pool.first_avail_ptr
    require (ltb (pool.alloc_cnt + 1) (2 ^ 31)) fault
    ok (
      pool.first_avail_ptr,
      record pool { first_avail_ptr = next; alloc_cnt = pool.alloc_cnt + 1 },
    )
  | true ↦ do
    (again, pool') ← handler pool
    elim again [ true ↦ allocate handler fuel pool' | false ↦ ok (0, pool') ]
]

unfoldable pub deallocate : ℕ → Pool → Result Pool
deallocate block_ptr pool = if block_ptr == 0 then ok pool else do
  require (not (pool.alloc_cnt == 0)) assertion
  pool' ← store block_ptr pool.first_avail_ptr (record pool { alloc_cnt = pool.alloc_cnt - 1 })
  ok (record pool' { first_avail_ptr = block_ptr })

abbrev pub is_initialized : Pool → Bool
is_initialized pool = not (pool.mem_pool_ptr == 0)

-- `while (--size != 0)`, and the null pointer at the end; `n` is `size - 1`, what is to be linked.
unfoldable pub link_blocks : ℕ → ℕ → ℕ → Pool → Result Pool
link_blocks block_bytes zero block pool = store block 0 pool
link_blocks block_bytes (suc n) block pool = do
  let next = block + block_bytes
  pool' ← store block next pool
  link_blocks block_bytes n next pool'

-- `mem_pool_base::alloc_sys` gives the address of a chunk, or null.
module _ (alloc_sys : ℕ → ℕ) where
  unfoldable pub initialize : ℕ → ℕ → Pool → Result (Bool × Pool)
  initialize block_bytes size pool = do
    require (not (is_initialized pool)) assertion
    require (ltb 0 size) assertion
    let bytes = size * block_bytes % 2 ^ 64
    let ptr = alloc_sys bytes
    let pool' : Pool = record pool { mem_pool_ptr = ptr; first_avail_ptr = ptr }
    if ptr == 0 then ok (false, pool') else do
      linked ← link_blocks block_bytes (size - 1) ptr (record pool' { extent = bytes })
      ok (true, linked)

unfoldable pub deinitialize : Pool → Result (ℕ × Pool)
deinitialize pool = if not (pool.alloc_cnt == 0) then ok (pool.alloc_cnt, pool) else do
  require (is_initialized pool) assertion
  ok (0, record pool { mem_pool_ptr = 0; first_avail_ptr = 0; extent = 0 })

abbrev pub get_alloc_count : Pool → ℕ
get_alloc_count pool = pool.alloc_cnt

-- `operator new` of the throwing declaration, for an object of the class itself, and
-- `operator delete` of all of them.
unfoldable pub operator_new : (Pool → Result (Bool × Pool)) → ℕ → Pool → Result (ℕ × Pool)
operator_new handler fuel pool = do
  (ptr, pool') ← allocate handler fuel pool
  if not (ptr == 0) then ok (ptr, pool') else err bad_alloc

unfoldable pub operator_delete : ℕ → Pool → Result Pool
operator_delete ptr pool = if not (ptr == 0) then deallocate ptr pool else ok pool
