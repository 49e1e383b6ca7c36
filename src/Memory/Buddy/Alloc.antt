-- ===== src/Memory/Buddy/Alloc.antt =====
-- `buddy_alloc_6` to `buddy_alloc_0`. The C functions return the block and store the chunk's record
-- into `*ctx_ptr`; here the result is both, and `none` where both are `NULL`.
use mini_libc.Base.{ℕ, suc, ◌+◌, ◌*◌, Option, none, some, ◌==◌, if◌then◌else◌, update}
use mini_libc.Links.{Ptr, null}
use mini_libc.Memory.Pages.{Pages}
use mini_libc.Memory.Buddy.{
  Arena, block_index, index_block, lowest, lowest_0, take_block, take_block_0, add_block,
  add_block_0, set_split,
}
use mini_libc.Memory.Buddy.Records.{allocate_chunk_and_block6}

abbrev pub Allocated : Type 0
Allocated = Option (Ptr × ℕ)

module _ (P : Pages) where
  abbrev pub Alloc : Type 0
  Alloc = Arena P.State → Allocated × Arena P.State

  -- The first branch: the list of order k has a chunk st at its head.
  unfoldable pub alloc_listed : ℕ → Ptr → Alloc
  alloc_listed k st a =
      let o = a.order k in
      let idx = if k == 0 then lowest_0 st o else lowest k st o in
      (
        some (st, index_block (a.chunk st) idx k),
        record a {
          order = update a.order k (if k == 0 then take_block_0 st o else take_block k st o);
        },
      )

  -- The other branch: a block of the next order is split, its upper half becomes available and its
  -- lower half is the result.
  unfoldable pub split_block : ℕ → Ptr → ℕ → Arena P.State → Arena P.State
  split_block k st block a =
      let idx = block_index (a.chunk st) block (suc k) in
      let orders = update a.order (suc k) (set_split (suc k) st idx (a.order (suc k))) in
      let o = orders k in
      record a {
        order =
            update orders k
              (if k == 0 then add_block_0 st (2 * idx + 1) o else add_block k st (2 * idx + 1) o);
      }

  unfoldable pub alloc_split : ℕ → Alloc → Alloc
  alloc_split k alloc_next a =
      let (r, a') = alloc_next a in
      elim r [
        | none ↦ (none, a')
        | some (st, block) ↦ (some (st, block), split_block k st block a')
      ]

  unfoldable pub alloc_level : ℕ → Alloc → Alloc
  alloc_level k alloc_next a =
      let st = (a.order k).links.head in
      if st == null then alloc_split k alloc_next a else alloc_listed k st a

  unfoldable pub alloc_chunk : Alloc
  alloc_chunk a =
      let (r, a') = allocate_chunk_and_block6 P a in
      elim r [ none ↦ (none, a') | some st ↦ (some (st, a'.chunk st), a') ]

  unfoldable pub buddy_alloc_6 : Alloc
  buddy_alloc_6 a =
      let st = (a.order 6).links.head in if st == null then alloc_chunk a else alloc_listed 6 st a

  unfoldable pub buddy_alloc_5 : Alloc
  buddy_alloc_5 = alloc_level 5 buddy_alloc_6

  unfoldable pub buddy_alloc_4 : Alloc
  buddy_alloc_4 = alloc_level 4 buddy_alloc_5

  unfoldable pub buddy_alloc_3 : Alloc
  buddy_alloc_3 = alloc_level 3 buddy_alloc_4

  unfoldable pub buddy_alloc_2 : Alloc
  buddy_alloc_2 = alloc_level 2 buddy_alloc_3

  unfoldable pub buddy_alloc_1 : Alloc
  buddy_alloc_1 = alloc_level 1 buddy_alloc_2

  unfoldable pub buddy_alloc_0 : Alloc
  buddy_alloc_0 = alloc_level 0 buddy_alloc_1
