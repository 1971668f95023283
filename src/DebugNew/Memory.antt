-- ===== src/DebugNew/Memory.antt =====
-- The global state and the control data of the blocks, for a 64-bit Unix build that keeps file
-- names in the control data and no stack traces. Memory can be read at every address, and what an
-- address holds before it is written is arbitrary. A file name is its characters, without the NUL.
use nvwa.Common.{
  ℕ, zero, suc, ◌+◌, ◌-◌, ◌%◌, ◌^◌, ◌==◌, if◌then◌else◌, Bool, true, false, not, ◌&&◌, bit_and,
  List, ◌∷◌, Option, none, some,
}
use nvwa.Blocks.{find_block}

abbrev pub debug_new_alignment : ℕ
debug_new_alignment = 16

abbrev pub debug_new_filename_len : ℕ
debug_new_filename_len = 44

abbrev pub debug_new_tailcheck_char : ℕ
debug_new_tailcheck_char = 0xCC

abbrev pub debug_new_magic : ℕ
debug_new_magic = 0x4442474E

-- `sizeof(new_ptr_list_t)`.
abbrev pub sizeof_new_ptr_list_t : ℕ
sizeof_new_ptr_list_t = 88

-- The union of the file name and the address of the caller.
pub data Origin : Type 0 where
  file : List ℕ → Origin
  addr : ℕ → Origin

-- What `print_position` prints; an address may be shown as a line that `addr2line` knows.
pub data Position : Type 0 where
  at_line : Origin → ℕ → Position
  at_address : ℕ → Position
  unknown : Position

-- A message on `new_output_fp`.
pub data Message : Type 0 where
  out_of_memory : ℕ → Message
  allocated : Bool → ℕ → ℕ → Position → Message
  invalid_pointer : Bool → ℕ → Position → Message
  mismatch : Bool → ℕ → ℕ → Position → Position → Message
  freed : Bool → ℕ → ℕ → ℕ → Message
  corrupt_near : ℕ → Message
  overwritten : ℕ → Message
  leaked : ℕ → ℕ → Position → Message
  leaks_found : ℕ → ℕ → Message
  check_start : Message
  heap_corrupt : ℕ → ℕ → Position → Message
  object_overwritten : ℕ → ℕ → Position → Message
  check_found : ℕ → Message
  placement_warning : Origin → ℕ → Message
  allocated_from : ℕ → Origin → ℕ → Message
  exception_thrown : Bool → ℕ → Position → Message

-- What a build and a program choose: the address of `new_ptr_list`, `_DEBUG_NEW_TAILCHECK` and the
-- callback that filters leaks, called with the file, the line and the address.
pub record Setup : Type 0 where
  pub new_ptr_list : ℕ
  pub tailcheck : ℕ
  pub leak_whitelist_callback : Option (Option Origin → ℕ → Option Origin → Bool)

-- The members of `new_ptr_list_t`, each by the address of its structure, the bytes of memory, and
-- the global variables.
pub record Memory : Type 0 where
  pub next : ℕ → ℕ
  pub prev : ℕ → ℕ
  pub size : ℕ → ℕ
  pub origin : ℕ → Origin
  pub head_size : ℕ → ℕ
  pub line : ℕ → ℕ
  pub is_array : ℕ → Bool
  pub magic : ℕ → ℕ
  pub byte : ℕ → ℕ
  pub current_mem_alloc : ℕ
  pub total_mem_alloc_cnt_accum : ℕ
  pub new_verbose_flag : Bool
  pub new_autocheck_flag : Bool
  -- An `int`, as its pattern of 32 bits.
  pub source_count : ℕ
  -- The last message first.
  pub output : List Message

unfoldable pub align : ℕ → ℕ → ℕ
align s alignment = bit_and ((s + alignment - 1) % 2 ^ 64) (2 ^ 64 - 1 - (alignment - 1)) % 2 ^ 32

abbrev pub aligned_list_item_size : ℕ → ℕ
aligned_list_item_size alignment = align sizeof_new_ptr_list_t alignment

unfoldable pub print_position : Origin → ℕ → Position
print_position origin line = if not (line == 0) then at_line origin line else elim origin [
  | addr a ↦ if not (a == 0) then at_address a else unknown
  | file name ↦ unknown
]

-- Where a block was allocated.
abbrev pub position : Memory → ℕ → Position
position m ptr = print_position (m.origin ptr) (m.line ptr)

unfoldable pub is_leak_whitelisted : Setup → Memory → ℕ → Bool
is_leak_whitelisted setup m ptr = elim setup.leak_whitelist_callback [
  | none ↦ false
  | some callback ↦
      callback (if not (m.line ptr == 0) then some (m.origin ptr) else none) (m.line ptr)
        (if m.line ptr == 0 then some (m.origin ptr) else none)
]

-- The loop of `check_tail`, with `n` bytes left.
unfoldable pub tail_loop : (ℕ → ℕ) → ℕ → ℕ → Bool
tail_loop byte zero at = true
tail_loop byte (suc n) at =
    let later = tail_loop byte n (at + 1) in
    if not (byte at == debug_new_tailcheck_char) then false else later

abbrev pub check_tail : Setup → Memory → ℕ → Bool
check_tail setup m ptr = tail_loop m.byte setup.tailcheck (ptr + m.size ptr + m.head_size ptr)

-- A header with the magic number, of an array if the pointer has been adjusted.
abbrev pub is_header : Memory → ℕ → Bool → Bool
is_header m ptr is_adjusted =
    m.magic ptr == debug_new_magic && (if not is_adjusted then true else m.is_array ptr)

-- `none` is the null pointer.
abbrev pub convert_user_ptr : Memory → ℕ → ℕ → Option ℕ
convert_user_ptr m usr_ptr alignment =
    find_block (is_header m) (aligned_list_item_size alignment) usr_ptr alignment

abbrev pub printed : Message → Memory → Memory
printed message m = record m { output = message ∷ m.output }

abbrev pub printed_if : Bool → Message → Memory → Memory
printed_if verbose message m = if verbose then printed message m else m
