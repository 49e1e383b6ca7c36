-- ===== src/Lib.antt =====
-- Verification of mini_libc, a freestanding C library for 64-bit Linux.
--
-- The parts that are modelled are the memory allocator (src/memory, include/memory.h) and five
-- routines on strings (strlen.c, strnlen.c, memcmp_zero.c, memcpy.c and memset.c of src/string). The
-- allocator has layers.
-- `malloc_with_arena` (malloc.c) rounds a request up to a size class, takes a block of that class
-- from one of three allocators and writes 16 bytes of metadata before the user's pointer, from which
-- `free_with_arena` finds the allocator again. The small-class allocator (small_class.c) takes blocks
-- of 16 pages from the buddy allocator (buddy.c), which takes chunks of 128 pages from the mmap
-- allocator (mmap.c), which asks the system.
--
-- Files:
-- - Base: names of the standard library, Boolean tests on native numbers, and `update`, the write of
--   one field of one struct.
-- - Bits: machine words. Bits.Words has the masks of the C code and the wrap-around of 64, 32 and 8
--   bits; Bits.Masks has `x & (2 ^ n - 1)`, `x & ~7` and `x | s`; Bits.Count has `__builtin_ctz`.
-- - Links: the intrusive doubly linked lists of the allocators. A pointer is a number and NULL is 0;
--   a field is a function of the address of its struct. `push_front`, `pop_front`, `bypass` and
--   `reset` are the four pieces of code that buddy.c repeats for each of its lists; `IsChain` is the
--   invariant that its comment states.
-- - Memory.Pages: `mmap_alloc` and `mmap_free` as an interface, with the laws that the buddy allocator
--   rests on: regions that are out at once do not overlap, and a context stands for one region.
--   Memory.Bump is the smallest instance, on which the examples run.
-- - Memory.Mmap: src/memory/mmap.c. `Kernel` stands for the system calls mmap and munmap, `KernelLaws`
--   for what their manual says of private anonymous memory. A page from the system is zero, so that a
--   record that is in no list has no `prev`. Memory.Mmap.Lists has the two lists of records, which share
--   the link fields, Memory.Mmap.Sound the invariant, Memory.Mmap.Activate and Memory.Mmap.Free the
--   operations; Memory.Mmap.Instance makes the allocator an instance of Memory.Pages with its laws, so
--   that the theorems on the buddy allocator hold over it.
-- - Memory.Buddy: src/memory/buddy.c. The parts of `struct buddy_chunk_state` and `struct
--   buddy_arena_t` that come once for each order are one `OrderState` per order. Buddy.Records has the
--   records and chunks, Buddy.Alloc the functions buddy_alloc_0 to buddy_alloc_6, Buddy.Free the
--   functions buddy_free_0 to buddy_free_6. The functions of the orders 1 to 5 are the same text up to
--   the order and are instances of one level; order 0 has two bitmap words and order 6 whole chunks.
--   The other modules below are proofs: Buddy.Sound states the invariant, Buddy.Cover counts by how
--   many available blocks a page is covered, and Buddy.Levels, Buddy.FreeLevels and Buddy.Client have
--   the results.
-- - Memory.SmallClass: src/memory/small_class.c. The eighteen lists of the arena share the link fields
--   and have one index. SmallClass.Slots and SmallClass.Take have the bitmap of a block and its counter,
--   SmallClass.Source what `buddy_alloc_4` and `buddy_free_4` do, SmallClass.Sound the invariant, SmallClass.Stock a new
--   block, SmallClass.Drop the block without free slots, SmallClass.Alloc and SmallClass.Serve
--   `small_alloc`, SmallClass.Give, SmallClass.Return and SmallClass.Release the three parts of `small_free`,
--   which is SmallClass.Free, and SmallClass.Client what a client relies on.
-- - Malloc: src/memory/malloc.c: `get_class`, the choice of the allocator, the metadata words x and y,
--   and where an aligned allocation puts them.
-- - Strings: src/string/strlen.c and src/string/strnlen.c: `strlen` and, in Strings.Bounded, `strnlen`
--   on a byte memory, with HASZERO on a word of 8 bytes; Strings.Zeroes: src/string/memcmp_zero.c.
-- - Strings.Copy: src/string/memcpy.c, without the result (the first argument), with the memory as a function
--   from addresses to bytes; its loops run on the steps that the length allows, 8 for those over bytes.
--   Strings.Set: src/string/memset.c, in the same way.
-- - Vector: mini_libcxx/include/vector.hpp, as it runs (not during constant evaluation). `Traits` has what
--   `if constexpr` asks of T. A block of storage has cells that hold no object, an object or an object
--   that was moved from, and an operation ends with `ok`, with `terminated` (std::terminate) or, where
--   the code would have undefined behaviour, with `fault`. The allocator is a test of the requests that
--   it grants. Vector.Grow, Vector.Append, Vector.Insert and Vector.Bulk have the operations; the other
--   modules are proofs: Vector.Cells, Vector.Moves, Vector.Shifts, Vector.Gap, Vector.Closing and
--   Vector.Overwrite on the loops, Vector.Sequence with the invariant `IsVector`, that a vector holds a
--   sequence of objects, and Vector.Appends, Vector.Refused, Vector.Ends, Vector.Opens, Vector.Opening, Vector.Inserts,
--   Vector.Many and Vector.Erasure on the operations. The const and rvalue versions of an operation are
--   the same text up to the constructor of T, and one of them is modelled.
-- - Examples modules: runs and tests.
--
-- Addresses are numbers below 2 ^ 47, as the comment in malloc.c says of user space; a mapped region
-- ends there at the latest, which is a law of the layer below. The allocator needs no fuel: the levels
-- of the buddy allocator call each other from order 0 to order 6, and the loop of a new group runs
-- over a fixed number of records. The loop over the words of a string runs on fuel, of which it takes
-- one for each 8 bytes; the other two loops end within one word.
--
-- Not modelled: the contents of user memory, the threads and the free set of malloc.c, and the parts
-- of the library outside of src/memory (other string routines, cryptography, the other C++ containers,
-- wrappers of system calls).
pub mod Base
pub mod Bits
pub mod Links
pub mod Memory
pub mod Malloc
pub mod Strings
pub mod Vector
