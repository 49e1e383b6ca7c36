-- ===== src/Memory/Buddy.antt =====
-- The buddy allocator, src/memory/buddy.c: chunks of 128 pages, split into blocks of 2 ^ k pages.
-- A field of `struct buddy_chunk_state` is a function of the record's address. The fields that come
-- once for each order k (avail_num[k], bitmapk, splitk, next_avail_idxk, prev_avail_idxk and the
-- arena's availk_list_head) are one `OrderState`; the seven functions for allocation and the seven
-- for release, the same text up to the order, are instances of one definition, but for the orders 0
-- (two bitmap words) and 6 (whole chunks).
pub mod Records
pub mod Alloc
pub mod Free
pub mod Order
pub mod Listed
pub mod Blocks
pub mod Lowest
pub mod Cover
pub mod Sound
pub mod Resplit
pub mod Addresses
pub mod Give
pub mod Split
pub mod Groups
pub mod Reserve
pub mod Grown
pub mod Blank
pub mod Chunk
pub mod Top
pub mod Levels
pub mod Buddies
pub mod FreeSound
pub mod Release
pub mod FreeLevels
pub mod Initial
pub mod Client
pub mod AllocSound
use mini_libc.Base.{
  ℕ, zero, suc, ◌+◌, ◌-◌, ◌*◌, ◌/◌, ◌%◌, ◌^◌, bit_xor, Bool, not, ◌&&◌, ◌||◌, Option, none, some,
  ltb, leb, ◌==◌, if◌then◌else◌, update,
}
use mini_libc.Bits.Words.{u64, u32, u8, set_bit, clear_bit, has_bit}
use mini_libc.Bits.Count.{ctz}
use mini_libc.Links.{Ptr, null, Links, push_front, pop_front, bypass, reset}
use mini_libc.Memory.Pages.{Pages}

-- The number of blocks of order k in a chunk, which is the width of its bitmap.
abbrev pub blocks : ℕ → ℕ
blocks k = 128 / 2 ^ k

-- `bitmap w st` is word w of the bitmap: only order 0 has a second word.
pub record OrderState : Type 0 where
  pub avail_num : Ptr → ℕ
  pub bitmap : ℕ → Ptr → ℕ
  pub split : Ptr → ℕ
  pub links : Links

-- `struct buddy_arena_t` with all `struct buddy_chunk_state` and `struct buddy_chunk_state_group`.
pub record Arena (S : Type 0) : Type 0 where
  pub in_use : Ptr → ℕ
  pub order : ℕ → OrderState
  pub empty : Links
  pub chunk_mmap_ctx : Ptr → ℕ
  pub chunk : Ptr → ℕ
  pub chunk_group_mmap_ctx : Ptr → ℕ
  pub groups : Links
  pub chunk_num : ℕ
  pub mmap_arena : S

abbrev pub keep_chunk_num : ℕ
keep_chunk_num = 1

-- BUDDY_BLOCK_IDX, as it is stored into a uint32_t.
pub block_index : ℕ → ℕ → ℕ → ℕ
block_index chunk block k = u32 (u64 (block + 2 ^ 64 - chunk) / 2 ^ (12 + k))

-- BUDDY_IDX_BLOCK, for an index that is a uint32_t.
unfoldable pub index_block : ℕ → ℕ → ℕ → ℕ
index_block chunk idx k = u64 (chunk + u32 (idx * 2 ^ (12 + k)))

-- Writes of one bitmap word.
abbrev pub write_word : Ptr → ℕ → ℕ → OrderState → OrderState
write_word st w v o = record o { bitmap = update o.bitmap w (update (o.bitmap w) st v) }

-- `st->bitmapk |= 1ull << i` and `st->bitmapk &= ~(1ull << i)`, for k from 1 to 6.
pub mark_free : ℕ → Ptr → ℕ → OrderState → OrderState
mark_free k st i o = write_word st 0 (set_bit (o.bitmap 0 st) i % 2 ^ blocks k) o

pub mark_used : ℕ → Ptr → ℕ → OrderState → OrderState
mark_used k st i o = write_word st 0 (clear_bit (o.bitmap 0 st) i % 2 ^ blocks k) o

-- The same for order 0, where index 64 and up are in the second word.
pub mark_free_0 : Ptr → ℕ → OrderState → OrderState
mark_free_0 st i o =
    if ltb i 64
    then write_word st 0 (set_bit (o.bitmap 0 st) i) o
    else write_word st 1 (set_bit (o.bitmap 1 st) (i - 64)) o

pub mark_used_0 : Ptr → ℕ → OrderState → OrderState
mark_used_0 st i o =
    if ltb i 64
    then write_word st 0 (clear_bit (o.bitmap 0 st) i) o
    else write_word st 1 (clear_bit (o.bitmap 1 st) (i - 64)) o

-- `st->avail_num[k]++; if (st->avail_num[k] == 1)` put st in front of the list of the order.
pub more_avail : Ptr → OrderState → OrderState
more_avail st o =
    let n = u8 (o.avail_num st + 1) in
    record o {
      avail_num = update o.avail_num st n;
      links = if n == 1 then push_front st o.links else o.links;
    }

-- `st->avail_num[k]--; if (st->avail_num[k] == 0)` take st out of the list of the order.
pub less_avail : (Ptr → Links → Links) → Ptr → OrderState → OrderState
less_avail take_out st o =
    let n = u8 (o.avail_num st + 255) in
    record o {
      avail_num = update o.avail_num st n;
      links = if n == 0 then take_out st o.links else o.links;
    }

abbrev pub unlink : Ptr → Links → Links
unlink st l = reset st (bypass st l)

-- `st->splitk |= 1ull << i` and `st->splitk &= ~(1ull << i)`.
pub set_split : ℕ → Ptr → ℕ → OrderState → OrderState
set_split k st i o = record o { split = update o.split st (set_bit (o.split st) i % 2 ^ blocks k) }

pub clear_split : ℕ → Ptr → ℕ → OrderState → OrderState
clear_split k st i o = record o {
  split = update o.split st (clear_bit (o.split st) i % 2 ^ blocks k);
}

-- The index of the lowest available block; `__builtin_ctz` from order 2 on, `__builtin_ctzll` below.
unfoldable pub lowest : ℕ → Ptr → OrderState → ℕ
lowest k st o = ctz (if leb 2 k then 32 else 64) (o.bitmap 0 st)

pub lowest_0 : Ptr → OrderState → ℕ
lowest_0 st o =
    if not (u64 (o.bitmap 0 st) == 0) then ctz 64 (o.bitmap 0 st) else ctz 64 (o.bitmap 1 st) + 64

-- The first branch of `buddy_alloc_k`: a block of the chunk at the head of the list.
pub take_block : ℕ → Ptr → OrderState → OrderState
take_block k st o = less_avail pop_front st (mark_used k st (lowest k st o) o)

pub take_block_0 : Ptr → OrderState → OrderState
take_block_0 st o = less_avail pop_front st (mark_used_0 st (lowest_0 st o) o)

-- A block is given back to the list of its order.
pub add_block : ℕ → Ptr → ℕ → OrderState → OrderState
add_block k st i o = more_avail st (mark_free k st i o)

pub add_block_0 : Ptr → ℕ → OrderState → OrderState
add_block_0 st i o = more_avail st (mark_free_0 st i o)

-- A block leaves the list of its order since it is merged with its buddy.
pub remove_block : ℕ → Ptr → ℕ → OrderState → OrderState
remove_block k st i o = less_avail unlink st (mark_used k st i o)

pub remove_block_0 : Ptr → ℕ → OrderState → OrderState
remove_block_0 st i o = less_avail unlink st (mark_used_0 st i o)

-- `memset` of a record to zero.
pub zero_order : Ptr → OrderState → OrderState
zero_order st o = record o {
  avail_num = update o.avail_num st 0;
  bitmap = λ w. update (o.bitmap w) st 0;
  split = update o.split st 0;
  links = reset st o.links;
}
