-- ===== src/Memory/SmallClass/Sound.antt =====
-- The invariant of small_class.c, and that a new state of the buddy allocator keeps it.
use native.Mathlib.Nat.{div-add-mod, mod-lt, div-le_self}
use mini_libc.Base.{ℕ, ◌+◌, ◌%◌, ◌^◌, ◌≤◌, ◌≡◌, ◌≢◌, ◌⊎◌, true, arith, List}
use mini_libc.Links.{Ptr, null, has, Chain}
use mini_libc.Memory.Pages.{Pages, PagesLaws}
use mini_libc.Memory.Buddy.{Arena}
use mini_libc.Memory.Buddy.Sound as Buddy
use mini_libc.Memory.SmallClass.Source.{HoldsBlock}
use mini_libc.Memory.SmallClass.{SmallArena, slot_num, class_list}
use mini_libc.Memory.SmallClass.Slots.{IsCounted}

-- The sizes of the slots: the multiples of 32 up to 512, 1024 and 2048.
abbrev pub IsSlotSize : ℕ → Type 0
IsSlotSize size = ((32 ≤ size) × (size ≤ 512) × (size % 32 ≡ 0)) ⊎ ((size ≡ 1024) ⊎ (size ≡ 2048))

pub slot_size-bounds : (size : ℕ) → IsSlotSize size → (32 ≤ size) × (size ≤ 2048)
slot_size-bounds size h = ground arith

pub class_list-injective :
    (a b : ℕ) → IsSlotSize a → IsSlotSize b → class_list a ≡ class_list b → a ≡ b
class_list-injective a b h k e = ground arith

pub slot_num-bounds : (size : ℕ) → IsSlotSize size → (slot_num size ≢ 0) × (slot_num size ≤ 65536)
slot_num-bounds size h =
    let (lo, hi) = slot_size-bounds size h in
    (
      λ z. absurd (
          omega (
            arith,
            lo,
            hi,
            rw z at (div-add-mod 65232 size),
            mod-lt 65232 {m = size} (omega (arith, lo)),
          )),
      omega (arith, div-le_self 65232 size),
    )

module _ (P : Pages) (L : PagesLaws P) where
  -- `size` has the size of the slots of a block, or 0 where there is no block; `lists` are the lists
  -- of blocks with free slots, and `all` is the list of all blocks.
  pub record IsSound (s : SmallArena P) (size : Ptr → ℕ) (lists : ℕ → List Ptr) (all : List Ptr)
      : Type 0 where
    pub buddy_ok : Buddy.IsSound P L s.buddy_arena
    pub chains : (c : ℕ) → Chain s.next_avail s.prev_avail null (s.avail_lists c) (lists c)
    pub listed :
        (p : Ptr) (c : ℕ)
        → has p (lists c) ≡ true
        → (size p ≢ 0) × (class_list (size p) ≡ c) × (s.avail_num p ≢ 0)
    pub has_slots :
        (p : Ptr) → size p ≢ 0 → s.avail_num p ≢ 0 → has p (lists (class_list (size p))) ≡ true
    pub full : (p : Ptr) → size p ≢ 0 → s.avail_num p ≡ 0 → s.prev_avail p ≡ null
    pub counts : (p : Ptr) → size p ≢ 0 → IsCounted s.bitmap s.avail_num p (slot_num (size p))
    pub sizes : (p : Ptr) → size p ≢ 0 → IsSlotSize (size p)
    pub held : (p : Ptr) → size p ≢ 0 → (i : ℕ) × HoldsBlock P L s.buddy_arena (s.buddy_ctx p) i p
    pub block_chain : Chain s.blocks.next s.blocks.prev null s.blocks.head all
    pub block_used : (p : Ptr) → has p all ≡ true → size p ≢ 0
    pub used_block : (p : Ptr) → size p ≢ 0 → has p all ≡ true

  -- The buddy allocator went on, and the blocks are still held.
  pub buddy-IsSound :
      (s : SmallArena P) (size : Ptr → ℕ) (lists : ℕ → List Ptr) (all : List Ptr)
      (a : Arena P.State)
      → IsSound s size lists all
      → Buddy.IsSound P L a
      → ((ctx i p : ℕ) → HoldsBlock P L s.buddy_arena ctx i p → HoldsBlock P L a ctx i p)
      → IsSound (record s { buddy_arena = a }) size lists all
  buddy-IsSound s size lists all a h ok keeps = record {
    buddy_ok = ok;
    chains = h.chains;
    listed = h.listed;
    has_slots = h.has_slots;
    full = h.full;
    counts = h.counts;
    sizes = h.sizes;
    held = λ p u. let (i, b) = h.held p u in (i, keeps (s.buddy_ctx p) i p b);
    block_chain = h.block_chain;
    block_used = h.block_used;
    used_block = h.used_block;
  }

  -- A block of 65536 bytes lies in user space, and not at 0.
  pub block-bounds :
      (s : SmallArena P) (size : Ptr → ℕ) (lists : ℕ → List Ptr) (all : List Ptr)
      → IsSound s size lists all
      → (p : Ptr) → size p ≢ 0
      → (p ≢ null) × (p + 65536 ≤ 2 ^ 47)
  block-bounds s size lists all h p u =
      let (i, (held, start)) = h.held p u in
      let (positive, end) =
        L.owns_bounds _ _ _ _ (h.buddy_ok.records_ok.chunk_owned (s.buddy_ctx p) held.used) in
      (λ z. positive (omega (arith, z, start)), omega (arith, start, end, held.here.index_lt))
