-- ===== src/MemoryTrace/Defs.antt =====
-- The state and the operations, for one thread. The context stack has the last context first; a
-- context is two texts without their NUL. What an address holds before it is written is arbitrary.
use nvwa.Common.{
  ℕ, zero, suc, ◌+◌, ◌-◌, ◌%◌, ◌^◌, ◌==◌, ltb, if◌then◌else◌, Bool, true, false, not, ◌&&◌, bit_and,
  List, [], ◌∷◌, Option, none, some, updated, Result, ok, err, bad_alloc, assertion, require, ◌>>◌,
}
use nvwa.Bits.Words.{add_size, sub_size}
use nvwa.Blocks.{find_block}

abbrev pub default_new_alignment : ℕ
default_new_alignment = 16

abbrev pub cmt_magic : ℕ
cmt_magic = 0x4D585443

-- `sizeof(alloc_list_t)` and the offset of `magic` in it.
abbrev pub sizeof_alloc_list_t : ℕ
sizeof_alloc_list_t = 48

abbrev pub magic_offset : ℕ
magic_offset = 44

pub record Context : Type 0 where
  pub file : List ℕ
  pub func : List ℕ

-- `strcmp(lhs, rhs) == 0`.
unfoldable pub same_text : List ℕ → List ℕ → Bool
same_text [] [] = true
same_text [] (y ∷ ys) = false
same_text (x ∷ xs) [] = false
same_text (x ∷ xs) (y ∷ ys) = x == y && same_text xs ys

-- `operator==`.
abbrev pub same_context : Context → Context → Bool
same_context lhs rhs = same_text lhs.file rhs.file && same_text lhs.func rhs.func

-- A message on `new_output_fp`.
pub data Message : Type 0 where
  allocated : Bool → ℕ → ℕ → Context → Message
  invalid_pointer : Bool → ℕ → Message
  mismatch : Bool → ℕ → ℕ → Message
  freed : Bool → ℕ → ℕ → ℕ → Message
  corrupt_near : ℕ → Message
  leaked : ℕ → ℕ → Context → Message
  leaks_found : ℕ → Message

-- The members of `alloc_list_t`, each by the address of its structure, the global variables and the
-- context stack of the thread.
pub record Trace : Type 0 where
  pub next : ℕ → ℕ
  pub prev : ℕ → ℕ
  pub size : ℕ → ℕ
  pub ctx : ℕ → Context
  pub head_size : ℕ → ℕ
  pub is_array : ℕ → Bool
  pub magic : ℕ → ℕ
  pub current_mem_alloc : ℕ
  pub total_mem_alloc_cnt_accum : ℕ
  pub new_verbose_flag : Bool
  pub new_autocheck_flag : Bool
  -- An `int`, as its pattern of 32 bits.
  pub source_count : ℕ
  pub context_stack : List Context
  -- The last message first.
  pub output : List Message

unfoldable pub get_current_context : Trace → Result Context
get_current_context t = elim t.context_stack [ [] ↦ err assertion | ctx ∷ older ↦ ok ctx ]

abbrev pub save_context : Context → Trace → Trace
save_context ctx t = record t { context_stack = ctx ∷ t.context_stack }

unfoldable pub restore_context : Context → Trace → Result Trace
restore_context ctx t = elim t.context_stack [
  | [] ↦ err assertion
  | last ∷ older ↦
      require (same_context last ctx) assertion >> ok (record t { context_stack = older })
]

unfoldable pub align : ℕ → ℕ → ℕ
align alignment s = bit_and ((s + alignment - 1) % 2 ^ 64) (2 ^ 64 - 1 - (alignment - 1)) % 2 ^ 32

abbrev pub aligned_list_node_size : ℕ → ℕ
aligned_list_node_size alignment = align alignment sizeof_alloc_list_t

abbrev pub is_header : Trace → ℕ → Bool → Bool
is_header t ptr is_adjusted =
    t.magic ptr == cmt_magic && (if not is_adjusted then true else t.is_array ptr)

abbrev pub convert_user_ptr : Trace → ℕ → ℕ → Option ℕ
convert_user_ptr t usr_ptr alignment =
    find_block (is_header t) (aligned_list_node_size alignment) usr_ptr alignment

abbrev pub printed : Message → Trace → Trace
printed message t = record t { output = message ∷ t.output }

abbrev pub printed_if : Bool → Message → Trace → Trace
printed_if verbose message t = if verbose then printed message t else t

-- The writes of `alloc_mem`, in their order.
unfoldable pub enlist : ℕ → ℕ → ℕ → Context → Bool → ℕ → Trace → Trace
enlist alloc_list ptr size ctx is_array head t =
    let prev' = updated t.prev ptr (t.prev alloc_list) in
    let next' = updated t.next ptr alloc_list in
    record t {
      ctx = updated t.ctx ptr ctx;
      is_array = updated t.is_array ptr is_array;
      size = updated t.size ptr size;
      head_size = updated t.head_size ptr head;
      magic = updated t.magic ptr cmt_magic;
      prev = updated prev' alloc_list ptr;
      next = updated next' (prev' alloc_list) ptr;
      current_mem_alloc = add_size t.current_mem_alloc size;
      total_mem_alloc_cnt_accum = add_size t.total_mem_alloc_cnt_accum 1;
    }

-- From the answer to the request for memory on.
unfoldable pub place : ℕ → ℕ → Context → Bool → ℕ → Trace → Option ℕ → Result (Option ℕ) × Trace
place alloc_list size ctx is_array head t none = (ok none, t)
place alloc_list size ctx is_array head t (some ptr) =
    let usr_ptr = ptr + head in
    let after = enlist alloc_list ptr size ctx is_array head t in
    (
      ok (some usr_ptr),
      printed_if after.new_verbose_flag (allocated is_array usr_ptr size (after.ctx ptr)) after,
    )

-- The null pointer is thrown as an exception.
abbrev pub or_throw : Result (Option ℕ) × Trace → Result ℕ × Trace
or_throw (ok (some ptr), t) = (ok ptr, t)
or_throw (ok none, t) = (err bad_alloc, t)
or_throw (err reason, t) = (err reason, t)

-- The answers of `malloc` and `aligned_malloc` to a number of bytes, and an alignment.
module _ (malloc : ℕ → Option ℕ) (aligned_malloc : ℕ → ℕ → Option ℕ) (alloc_list : ℕ) where
  abbrev pub granted : ℕ → ℕ → Option ℕ
  granted bytes alignment =
      if ltb default_new_alignment alignment then aligned_malloc bytes alignment else malloc bytes

  unfoldable pub alloc_mem : ℕ → Context → Bool → ℕ → Trace → Result (Option ℕ) × Trace
  alloc_mem size ctx is_array alignment t =
      if ltb alignment default_new_alignment
      then (err assertion, t)
      else (let head = aligned_list_node_size alignment in
          place alloc_list size ctx is_array head t (granted (add_size size head) alignment))

  -- `operator new` and `operator new[]` with a context.
  unfoldable pub operator_new_in : ℕ → Context → Bool → ℕ → Trace → Result ℕ × Trace
  operator_new_in size ctx is_array alignment t = or_throw (alloc_mem size ctx is_array alignment t)

  -- Those without, of the current context.
  unfoldable pub operator_new : ℕ → Bool → ℕ → Trace → Result ℕ × Trace
  operator_new size is_array alignment t = elim (get_current_context t) [
    | ok ctx ↦ operator_new_in size ctx is_array alignment t
    | err reason ↦ (err reason, t)
  ]

  unfoldable pub operator_new_nothrow : ℕ → Bool → ℕ → Trace → Result (Option ℕ) × Trace
  operator_new_nothrow size is_array alignment t = elim (get_current_context t) [
    | ok ctx ↦ alloc_mem size ctx is_array alignment t
    | err reason ↦ (err reason, t)
  ]

-- What becomes of a call: it returns, it ends the program, or a walk over the list does not end.
pub data Outcome {ℓ} (A : Type ℓ) : Type ℓ where
  returns : A → Trace → Outcome A
  aborts : Trace → Outcome A
  hangs : Outcome A

unfoldable pub unlink : ℕ → Trace → Trace
unlink ptr t =
    let next' = updated t.next (t.prev ptr) (t.next ptr) in
    record t {
      current_mem_alloc = sub_size t.current_mem_alloc (t.size ptr);
      magic = updated t.magic ptr 0;
      next = next';
      prev = updated t.prev (next' ptr) (t.prev ptr);
    }

abbrev pub told_freed : ℕ → ℕ → Bool → Trace → Trace
told_freed usr_ptr ptr is_array t =
    printed_if t.new_verbose_flag (freed is_array usr_ptr (t.size ptr) t.current_mem_alloc) t

-- `free_mem`, from the block on.
unfoldable pub free_block : ℕ → ℕ → Bool → Trace → Outcome (Unit {0})
free_block usr_ptr ptr is_array t =
    if (if is_array then not (t.is_array ptr) else t.is_array ptr)
    then aborts (printed (mismatch is_array usr_ptr (t.size ptr)) t)
    else returns tt (told_freed usr_ptr ptr is_array (unlink ptr t))

unfoldable pub free_mem : ℕ → Bool → ℕ → Trace → Outcome (Unit {0})
free_mem usr_ptr is_array alignment t =
    if ltb alignment default_new_alignment
    then aborts t
    else if usr_ptr == 0
    then returns tt t
    else elim (convert_user_ptr t usr_ptr alignment) [
      | none ↦ aborts (printed (invalid_pointer is_array usr_ptr) t)
      | some ptr ↦ free_block usr_ptr ptr is_array t
    ]

-- The loop of `check_leaks`.
unfoldable pub leaks_loop : ℕ → ℕ → ℕ → ℕ → Trace → Outcome ℕ
leaks_loop alloc_list zero ptr leak_cnt t = hangs
leaks_loop alloc_list (suc fuel) ptr leak_cnt t = elim (ptr == alloc_list) [
  | true ↦ returns leak_cnt t
  | false ↦ elim (t.magic ptr == cmt_magic) [
    | false ↦ aborts (printed (corrupt_near (ptr + magic_offset)) t)
    | true ↦
        leaks_loop alloc_list fuel (t.next ptr) (leak_cnt + 1)
          (printed (leaked (ptr + t.head_size ptr) (t.size ptr) (t.ctx ptr)) t)
  ]
]

abbrev pub leaks_told : Outcome ℕ → Outcome ℕ
leaks_told (returns leak_cnt t) =
    returns leak_cnt (if not (leak_cnt == 0) then printed (leaks_found leak_cnt) t else t)
leaks_told (aborts t) = aborts t
leaks_told hangs = hangs

unfoldable pub check_leaks : ℕ → ℕ → Trace → Outcome ℕ
check_leaks alloc_list fuel t = leaks_told (leaks_loop alloc_list fuel (t.next alloc_list) 0 t)

-- The constructor and the destructor of `memory_trace_counter`.
abbrev pub enter_source : Trace → Trace
enter_source t = record t { source_count = (t.source_count + 1) % 2 ^ 32 }

abbrev pub verbose_after : Outcome ℕ → Outcome (Unit {0})
verbose_after (returns leak_cnt t) =
    returns tt (if not (leak_cnt == 0) then record t { new_verbose_flag = true } else t)
verbose_after (aborts t) = aborts t
verbose_after hangs = hangs

unfoldable pub leave_source : ℕ → ℕ → Trace → Outcome (Unit {0})
leave_source alloc_list fuel t =
    let t' = record t { source_count = (t.source_count + (2 ^ 32 - 1)) % 2 ^ 32 } in
    if t'.source_count == 0 && t'.new_autocheck_flag
    then verbose_after (check_leaks alloc_list fuel t')
    else returns tt t'
