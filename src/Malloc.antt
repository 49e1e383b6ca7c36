-- ===== src/Malloc.antt =====
-- src/memory/malloc.c: the size classes, and the metadata in the 16 bytes before an allocation, from
-- which a release finds the arena, the context and the allocator.
pub mod Classes
pub mod Metadata
pub mod Tagged
pub mod Shifts
pub mod Examples
use mini_libc.Base.{
  ℕ, zero, suc, ◌+◌, ◌-◌, ◌*◌, ◌/◌, ◌%◌, ◌^◌, bit_and, bit_or, Option, none, some, ltb, leb, ◌==◌,
  if◌then◌else◌,
}
use mini_libc.Bits.Words.{u64, u32, bit_not}
use mini_libc.Bits.Count.{ctz}

abbrev pub task_size : ℕ
task_size = 2 ^ 47 - 1

-- The number of digits of x, of w at most.
pub digits : ℕ → ℕ → ℕ
digits zero x = 0
digits (suc w) x = if x == 0 then 0 else suc (digits w (x / 2))

-- Count leading zeros on 64 bits; the C function is not defined at 0.
abbrev clz : ℕ → ℕ
clz x = 64 - digits 64 x

-- `get_class`; `- size` is `2 ^ 64 - size` on 64 bits.
pub get_class : ℕ → ℕ
get_class size =
    if leb size 512
    then u64 (size + bit_and (u64 (2 ^ 64 - size)) 31)
    else if leb size 262144
    then u64 (2 ^ (64 - clz (size - 1)))
    else u64 (size + bit_and (u64 (2 ^ 64 - size)) 4095)

-- The allocator that `malloc_with_arena` and its kin call for a class, and the one that
-- `free_with_arena_internal` calls. Other sizes between 2048 and 262144 call none.
pub data Target : Type 0 where
  small : ℕ → Target
  buddy : ℕ → Target
  mapped : Target

pub alloc_target : ℕ → Option Target
alloc_target class_size =
    if leb class_size 2048
    then some (small class_size)
    else if leb class_size 262144
    then if class_size == 4096
      then some (buddy 0)
      else if class_size == 8192
      then some (buddy 1)
      else if class_size == 16384
      then some (buddy 2)
      else if class_size == 32768
      then some (buddy 3)
      else if class_size == 65536
      then some (buddy 4)
      else if class_size == 131072
      then some (buddy 5)
      else if class_size == 262144
      then some (buddy 6)
      else none
    else some mapped

-- The two words x and y of the metadata. `tag` is 0, or 4 for `aligned_tagged_alloc`.
pub metadata_x : ℕ → ℕ → ℕ
metadata_x class_size arena =
    if ltb 262144 class_size
    then bit_or arena 7
    else if leb 1024 class_size
    then bit_or arena (bit_and (u32 (ctz 64 class_size + 7)) 7)
    else bit_or arena (bit_and (u32 (class_size / 32)) 7)

pub metadata_y : ℕ → ℕ → ℕ
metadata_y class_size ctx =
    if ltb 262144 class_size
    then bit_or ctx 3
    else if leb 1024 class_size
    then bit_or ctx (bit_and (u32 (ctz 64 class_size + 7) / 8) 3)
    else bit_or ctx (bit_and (u32 (class_size / 32) / 8) 3)

-- The tagged variant also sets bit 2 of y.
pub tagged_y : ℕ → ℕ → ℕ
tagged_y class_size ctx =
    if ltb 262144 class_size then bit_or ctx 7 else bit_or (metadata_y class_size ctx) 4

-- `free_with_arena_internal`: the code s, the context, and the call that is made.
pub class_code : ℕ → ℕ → ℕ
class_code x y = u32 (bit_or (bit_and x 7) (bit_and y 3 * 8))

pub ctx_of : ℕ → ℕ
ctx_of y = bit_and y (bit_not 64 7)

pub arena_of : ℕ → ℕ
arena_of x = bit_and x (bit_not 64 7)

pub free_target : ℕ → Option Target
free_target s =
    if s == 31
    then some mapped
    else if leb s 16
    then some (small (s * 32))
    else if s == 17
    then some (small 1024)
    else if s == 18
    then some (small 2048)
    else if s == 19
    then some (buddy 0)
    else if s == 20
    then some (buddy 1)
    else if s == 21
    then some (buddy 2)
    else if s == 22
    then some (buddy 3)
    else if s == 23
    then some (buddy 4)
    else if s == 24
    then some (buddy 5)
    else if s == 25
    then some (buddy 6)
    else none

-- `aligned_alloc_with_arena` and `aligned_tagged_alloc_with_arena`: how far the metadata are moved
-- into the allocation at ptr.
pub aligned_shift : ℕ → ℕ → ℕ
aligned_shift alignment ptr = u64 (alignment + 2 ^ 64 - 16 - bit_and ptr (alignment - 1))

pub tagged_shift : ℕ → ℕ → ℕ
tagged_shift alignment ptr =
    bit_and (u64 (alignment + 2 ^ 64 - 32 - bit_and ptr (alignment - 1))) (alignment - 1)
