-- ===== src/Lib.antt =====
-- nvwa is a small collection of C++ utilities. This library models some of its containers and
-- readers and proves what they do. Each component is a module with a file of definitions that
-- follows the source function by function, and files of proofs named for what they prove.
-- Common has the types and lemmas that the components share: lists measured by native numbers,
-- tests, and Result, the outcome of a member function (a value, a thrown out_of_range or
-- bad_alloc, a failed assertion, or an access that C++ leaves undefined, called a fault). Bits
-- has words of 8, 32 and 64 bits and the laws of their operations.
-- BoolArray models nvwa/bool_array.h and nvwa/bool_array.cpp. The object is its byte pointer
-- (none for null, else the list of bytes) and its length. BoolArray.Defs has construction,
-- element access, set, reset, flip, assign and swap; BoolArray.Counting has the tables and
-- count; BoolArray.Searching has find_until and find; BoolArray.Merging has merge_and, merge_or
-- and copy_to_bitmap; BoolArray.Print has the output operator. size_type is 64 bits wide, and
-- sums and differences of sizes wrap as the source's do.
-- FcQueue models nvwa/fc_queue.h for a stateless allocator. The object is four addresses and
-- the cells between begin and end, each of which holds an object or is raw; construct, destroy
-- and a read of a cell in the wrong state are faults. The allocator is a parameter.
-- FcQueue.Threads has the atomic forms of write and read as steps of one producer and one
-- consumer, each access of a shared variable a step.
-- FileLineReader models nvwa/file_line_reader.h and nvwa/file_line_reader.cpp. A stream is the
-- list of the characters left in it; fgets, strlen and fread are the C library's, on streams
-- without read errors.
-- FixedMemPool models nvwa/fixed_mem_pool.h. The static members are addresses and a count, with
-- the pointers stored in the chunk and its extent; a read or write of a pointer outside the
-- chunk is a fault. The allocation of the chunk by the system and the handler of failures are
-- parameters. Each call holds the class-level lock and is one step.
-- MmapLines models the lines of nvwa/mmap_line_view.h; nvwa/mmap_line_reader.h has the same
-- read. The mapped text is the list of its characters, and the lines are those of
-- FileLineReader.Lines.
-- SetAssign models nvwa/set_assign.h on a sequence whose iterators outlive changes elsewhere,
-- such as std::list: a list cut at first_dest. The comparison is a parameter, a strict weak
-- order in the theorems.
-- DebugNew models nvwa/debug_new.cpp for a 64-bit Unix build that keeps file names of up to 43
-- characters and no stack traces. The control data are functions of the address of a block, one
-- for each member, beside the bytes of memory: blocks do not overlap, and memory can be read
-- everywhere, as the source reads what it takes for a header before it knows it to be one.
-- posix_memalign is a parameter; the messages are the values that are printed. DebugNew.Memory
-- has the state and the conversion of pointers, DebugNew.Reports the walks over the list,
-- DebugNew.Alloc alloc_mem, free_pointer and the recorder, DebugNew.Operators the operators.
-- Each call is one step. Blocks and Links have what DebugNew and MemoryTrace share: the
-- conversion of pointers, which the two sources write in the same way, and the circular list.
-- MemoryTrace models nvwa/memory_trace.cpp in the same way, with the context stack of one
-- thread, the last context first. MemoryTrace.Defs has the state and the operations,
-- MemoryTrace.Operators the operators new and delete, MemoryTrace.Programs programs that
-- allocate in nested scopes with checkpoints; malloc and aligned_malloc are parameters.
-- Split models nvwa/split.h for a delimiter that is a character: a position is none for npos,
-- and the source none for null.
-- Tree models the traversals of nvwa/tree.h. A pointer to a node is the node, as they only read
-- the tree, and a child may be null, which depth_first_iteration dereferences all the same: a
-- fault; a value is a number. Tree.BreadthFirst, Tree.DepthFirst and Tree.InOrder each have the
-- state of an iterator and its operator++, and Tree.Defs the loop over a range.
-- Fuel: each loop gets a round for each cell of the queue, or each character left, or each
-- element of the container and the range, or each block in the list, and one more, a loop over
-- a tree a round for each node, or three more for the parts of a text; a loop that runs out of
-- it is a fault, or the outcome that it hangs, so that a theorem that says that a call succeeds
-- shows the fuel to be enough. The loop of allocate turns once with the default handler. The
-- loops of BoolArray count down the number of bytes or bits that are left.
-- Not modelled: stateful allocators, the moves and copies of reader iterators, failures to
-- allocate where a component takes no allocator, the memory order of the atomics (accesses take
-- effect in the order of the steps), and the other components of the repository:
-- static_mem_pool, the changes of a tree, functional, number_range, the mapping of files, and
-- the stream reader.
pub mod Common
pub mod Bits
pub mod BoolArray
pub mod Blocks
pub mod DebugNew
pub mod FcQueue
pub mod FileLineReader
pub mod FixedMemPool
pub mod Links
pub mod MemoryTrace
pub mod MmapLines
pub mod SetAssign
pub mod Split
pub mod Tree
