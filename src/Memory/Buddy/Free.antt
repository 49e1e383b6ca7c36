-- ===== src/Memory/Buddy/Free.antt =====
-- `buddy_free_6` to `buddy_free_0`: a block is merged with its buddy as long as that is available,
-- and a chunk that is available as a whole is given back to the layer below.
use mini_libc.Base.{
  ℕ, suc, ◌+◌, ◌-◌, ◌/◌, ◌^◌, bit_xor, Bool, ◌&&◌, ltb, ◌==◌, if◌then◌else◌, update,
}
use mini_libc.Bits.Words.{u32, has_bit}
use mini_libc.Links.{Ptr, bypass}
use mini_libc.Memory.Pages.{Pages}
use mini_libc.Memory.Buddy.{
  Arena, block_index, index_block, keep_chunk_num, add_block, add_block_0, remove_block,
  remove_block_0, clear_split,
}
use mini_libc.Memory.Buddy.Records.{free_record}

module _ (P : Pages) where
  -- `ptr` lies anywhere in the block.
  abbrev pub Free : Type 0
  Free = (ptr st : ℕ) → Arena P.State → Arena P.State

  unfoldable pub release_chunk : Ptr → Arena P.State → Arena P.State
  release_chunk st a =
      let o = a.order 6 in
      let a' = free_record P st (record a {
        order = update a.order 6 (record o { links = bypass st o.links });
        mmap_arena = P.mmap_free a.mmap_arena (a.chunk_mmap_ctx st);
      }) in
      record a' { chunk_num = u32 (a'.chunk_num + 2 ^ 32 - 1) }

  unfoldable pub buddy_free_6 : Free
  buddy_free_6 ptr st a =
      let idx = block_index (a.chunk st) ptr 6 in
      if has_bit ((a.order 6).bitmap 0 st) (bit_xor idx 1) && ltb keep_chunk_num a.chunk_num
      then release_chunk st a
      else record a { order = update a.order 6 (add_block 6 st idx (a.order 6)) }

  -- `if (block_idx < 64) bitmap0[0] & .. else bitmap0[1] & ..`: both words hold their buddies.
  unfoldable pub buddy_available_0 : Arena P.State → Ptr → ℕ → Bool
  buddy_available_0 a st idx =
      if ltb idx 64
      then has_bit ((a.order 0).bitmap 0 st) (bit_xor idx 1)
      else has_bit ((a.order 0).bitmap 1 st) (bit_xor idx 1 - 64)

  -- Whether the buddy of a block is available.
  unfoldable pub mergeable : ℕ → Ptr → ℕ → Arena P.State → Bool
  mergeable k st idx a =
      if k == 0
      then buddy_available_0 a st idx
      else has_bit ((a.order k).bitmap 0 st) (bit_xor idx 1)

  -- The buddy leaves the list of its order, and the block of the next order is whole again.
  unfoldable pub join_block : ℕ → Ptr → ℕ → Arena P.State → Arena P.State
  join_block k st idx a =
      let o = a.order k in
      let buddy = bit_xor idx 1 in
      let orders =
        update a.order k
          (if k == 0 then remove_block_0 st buddy o else remove_block k st buddy o) in
      record a { order = update orders (suc k) (clear_split (suc k) st (idx / 2) (orders (suc k))) }

  -- The block itself becomes available.
  unfoldable pub return_block : ℕ → Ptr → ℕ → Arena P.State → Arena P.State
  return_block k st idx a =
      let o = a.order k in
      record a {
        order = update a.order k (if k == 0 then add_block_0 st idx o else add_block k st idx o);
      }

  unfoldable pub free_level : ℕ → Free → Free
  free_level k free_next ptr st a =
      let idx = block_index (a.chunk st) ptr k in
      if mergeable k st idx a
      then free_next (index_block (a.chunk st) (idx / 2) (suc k)) st (join_block k st idx a)
      else return_block k st idx a

  unfoldable pub buddy_free_5 : Free
  buddy_free_5 = free_level 5 buddy_free_6

  unfoldable pub buddy_free_4 : Free
  buddy_free_4 = free_level 4 buddy_free_5

  unfoldable pub buddy_free_3 : Free
  buddy_free_3 = free_level 3 buddy_free_4

  unfoldable pub buddy_free_2 : Free
  buddy_free_2 = free_level 2 buddy_free_3

  unfoldable pub buddy_free_1 : Free
  buddy_free_1 = free_level 1 buddy_free_2

  unfoldable pub buddy_free_0 : Free
  buddy_free_0 = free_level 0 buddy_free_1
