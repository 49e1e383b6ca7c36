-- ===== src/Memory/SmallClass.antt =====
-- src/memory/small_class.c: allocations of at most 2048 bytes, from blocks of 65536 bytes that the
-- buddy allocator gives. A block has a header, with a bitmap of its free slots, and slots of one size.

pub mod Slots
pub mod Take
pub mod Source
pub mod Stock
pub mod Drop
pub mod Alloc
pub mod Serve
pub mod Give
pub mod Return
pub mod Release
pub mod Free
pub mod Client
pub mod Examples
pub mod Sound
use mini_libc.Base.{
  ℕ, zero, suc, ◌+◌, ◌-◌, ◌*◌, ◌/◌, ◌%◌, ◌^◌, ◌||◌, not, Option, none, some, leb, ◌==◌,
  if◌then◌else◌, update,
}
use mini_libc.Bits.Words.{u64, u32, set_bit, clear_bit}
use mini_libc.Bits.Count.{ctz}
use mini_libc.Links.{Ptr, null, Links, push_front, bypass}
use mini_libc.Memory.Pages.{Pages}
use mini_libc.Memory.Buddy.{Arena}
use mini_libc.Memory.Buddy.Alloc.{buddy_alloc_4}
use mini_libc.Memory.Buddy.Free.{buddy_free_4}

-- CLASS_BLOCK_HEADER_SIZE: five pointers, 32 words of the bitmap, and avail_num.
abbrev pub class_block_header_size : ℕ
class_block_header_size = 304

-- `(65536 - CLASS_BLOCK_HEADER_SIZE) / size`.
abbrev pub slot_num : ℕ → ℕ
slot_num size = (65536 - class_block_header_size) / size

-- SMALL_CLASS_IDX_SLOT, for an index that is a uint32_t.
abbrev pub idx_slot : Ptr → ℕ → ℕ → ℕ
idx_slot block idx size = u64 (block + class_block_header_size + idx * size)

-- SMALL_CLASS_SLOT_IDX, as it is stored into a uint32_t.
abbrev pub slot_idx : Ptr → ℕ → ℕ → ℕ
slot_idx block slot size = u32 (u64 (slot + 2 ^ 64 - (block + class_block_header_size)) / size)

-- The lists of the arena by one index: 0 to 15 for small_class_avail_lists, 16 for
-- class1024_avail_list, and 17 for class2048_avail_list.
abbrev pub class_list : ℕ → ℕ
class_list size =
    if leb size 512 then u32 (size / 32 + 2 ^ 64 - 1) else (if size == 1024 then 16 else 17)

-- Word i of the bitmap of a block.
abbrev pub set_word : ℕ → Ptr → ℕ → (ℕ → Ptr → ℕ) → ℕ → Ptr → ℕ
set_word i p x bitmap = update bitmap i (update (bitmap i) p x)

-- The loop of `allocate_class_block`, and the word after it.
unfoldable pub fill_words : ℕ → ℕ → Ptr → (ℕ → Ptr → ℕ) → ℕ → Ptr → ℕ
fill_words zero i p bitmap = bitmap
fill_words (suc n) i p bitmap = fill_words n (i + 1) p (set_word i p (2 ^ 64 - 1) bitmap)

unfoldable pub fill_bitmap : ℕ → Ptr → (ℕ → Ptr → ℕ) → ℕ → Ptr → ℕ
fill_bitmap avail_num p bitmap =
    let filled = fill_words (avail_num / 64) 0 p bitmap in
    let avail_num_rem = avail_num % 64 in
    if avail_num_rem == 0
    then filled
    else set_word (avail_num / 64) p (2 ^ avail_num_rem - 1) filled

module _ (P : Pages) where
  -- `struct small_class_arena_t` with all `struct small_class_block`. The fields prev_block and
  -- next_block with block_list are `blocks`.
  pub record SmallArena : Type 0 where
    pub buddy_ctx : Ptr → ℕ
    pub next_avail : Ptr → Ptr
    pub prev_avail : Ptr → Ptr
    pub avail_lists : ℕ → Ptr
    pub blocks : Links
    pub bitmap : ℕ → Ptr → ℕ
    pub avail_num : Ptr → ℕ
    pub buddy_arena : Arena P.State

  -- One of the lists of blocks with free slots.
  abbrev pub avail_links : ℕ → SmallArena → Links
  avail_links c s = record { next = s.next_avail; prev = s.prev_avail; head = s.avail_lists c }

  abbrev pub set_avail_links : ℕ → Links → SmallArena → SmallArena
  set_avail_links c l s = record s {
    next_avail = l.next;
    prev_avail = l.prev;
    avail_lists = update s.avail_lists c l.head;
  }

  -- A block from the buddy allocator, in front of both lists, with all slots free.
  unfoldable pub add_class_block : ℕ → Ptr → ℕ → SmallArena → SmallArena
  add_class_block size ptr ctx s =
      let c = class_list size in
      let l = avail_links c s in
      let s' =
        set_avail_links c (push_front ptr (record l { prev = update l.prev ptr null })) (record s {
          buddy_ctx = update s.buddy_ctx ptr ctx;
          blocks = push_front ptr (record s.blocks { prev = update s.blocks.prev ptr null });
        }) in
      record s' {
        avail_num = update s.avail_num ptr (slot_num size);
        bitmap = fill_bitmap (slot_num size) ptr s.bitmap;
      }

  abbrev pub install : ℕ → Option (Ptr × ℕ) → SmallArena → SmallArena
  install size none s = s
  install size (some (ctx, ptr)) s = add_class_block size ptr ctx s

  unfoldable pub allocate_class_block : ℕ → SmallArena → SmallArena
  allocate_class_block size s =
      let (block, b) = buddy_alloc_4 P s.buddy_arena in
      install size block (record s { buddy_arena = b })

  -- The body of the loop of `small_alloc`, for a word i that is not 0, up to the list.
  unfoldable pub take_bit : ℕ → Ptr → SmallArena → SmallArena
  take_bit i block s = record s {
    bitmap = set_word i block (clear_bit (s.bitmap i block) (ctz 64 (s.bitmap i block))) s.bitmap;
    avail_num = update s.avail_num block (u64 (s.avail_num block + 2 ^ 64 - 1));
  }

  -- `block`, without free slots, leaves the list of which it is the head.
  unfoldable pub drop_head : ℕ → Ptr → SmallArena → SmallArena
  drop_head c block s =
      let next = s.next_avail block in
      record s {
        prev_avail =
            if next == null then s.prev_avail else update s.prev_avail next (s.prev_avail block);
        avail_lists = update s.avail_lists c next;
      }

  unfoldable pub take_slot : ℕ → ℕ → Ptr → SmallArena → Option (Ptr × ℕ) × SmallArena
  take_slot size i block s =
      let s' = take_bit i block s in
      (
        some (block, idx_slot block (64 * i + ctz 64 (s.bitmap i block)) size),
        if s'.avail_num block == 0 then drop_head (class_list size) block s' else s',
      )

  -- The loop of `small_alloc`, over n words from word i on.
  unfoldable pub scan_words : ℕ → ℕ → ℕ → Ptr → SmallArena → Option (Ptr × ℕ) × SmallArena
  scan_words size zero i block s = (none, s)
  scan_words size (suc n) i block s =
      let rest = scan_words size n (i + 1) block s in
      if u64 (s.bitmap i block) == 0 then rest else take_slot size i block s

  unfoldable pub stocked : ℕ → SmallArena → SmallArena
  stocked len s = if s.avail_lists (class_list len) == null then allocate_class_block len s else s

  unfoldable pub small_alloc : SmallArena → ℕ → Option (Ptr × ℕ) × SmallArena
  small_alloc s len =
      let s' = stocked len s in
      let block = s'.avail_lists (class_list len) in
      if block == null then (none, s') else scan_words len ((slot_num len - 1) / 64 + 1) 0 block s'

  -- The block is given back unless it is alone in its list.
  unfoldable pub release_block : ℕ → Ptr → SmallArena → SmallArena
  release_block c block s =
      if not (s.prev_avail block == null) || not (s.next_avail block == null)
      then (let s' = set_avail_links c (bypass block (avail_links c s)) s in
          record s' {
            blocks = bypass block s.blocks;
            buddy_arena = buddy_free_4 P block (s.buddy_ctx block) s.buddy_arena;
          })
      else s

  unfoldable pub give_bit : ℕ → Ptr → SmallArena → SmallArena
  give_bit idx block s = record s {
    bitmap = set_word (idx / 64) block (set_bit (s.bitmap (idx / 64) block) (idx % 64)) s.bitmap;
    avail_num = update s.avail_num block (u64 (s.avail_num block + 1));
  }

  unfoldable pub small_free : SmallArena → (ptr block len : ℕ) → SmallArena
  small_free s ptr block len =
      let c = class_list len in
      let s' = give_bit (slot_idx block ptr len) block s in
      if s'.avail_num block == 1
      then set_avail_links c (push_front block (avail_links c s')) s'
      else (if s'.avail_num block == slot_num len then release_block c block s' else s')
