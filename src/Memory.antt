-- ===== src/Memory.antt =====
-- The memory allocator: src/memory/buddy.c, small_class.c, malloc.c and mmap.c, declared in
-- include/memory.h.
pub mod Pages
pub mod Bump
pub mod Mmap
pub mod SmallClass
pub mod Buddy
pub mod Examples
