-- ===== src/Memory/SmallClass/Examples.antt =====
-- Runs of small_class.c over the buddy allocator on the bump layer, from the zeroed arena.
use mathlib.Core.Option.{some-injective, none-ne-some}
use mini_libc.Base.{ℕ, ◌≡◌, ◌≢◌, refl, ap, sym, ◌∙◌, arith, [], Option, some, none, inl, inr}
use mini_libc.Bits.Count.{ctz}
use mini_libc.Bits.Words.{clear_bit, one_shl}
use mini_libc.Memory.Pages.{Disjoint}
use mini_libc.Links.{Ptr, null, push_front}
use mini_libc.Memory.Bump.{bump, bump-laws}
use mini_libc.Memory.Buddy.Initial.{empty_arena, empty_arena-IsSound}
use mini_libc.Memory.Buddy.Alloc.{
  buddy_alloc_4, buddy_alloc_5, buddy_alloc_6, alloc_level, alloc_listed, alloc_split, alloc_chunk,
}
use mini_libc.Memory.Buddy.Records.{
  allocate_chunk_and_block6, allocate_record, allocate_group, take_record, map_chunk, install_chunk,
  link_group,
}
use mini_libc.Memory.SmallClass.{
  SmallArena, slot_num, idx_slot, small_alloc, stocked, scan_words, take_slot, take_bit, drop_head,
  allocate_class_block, add_class_block, fill_bitmap, fill_words, small_free,
}
use mini_libc.Memory.SmallClass.Slots.{slot_free}
use mini_libc.Memory.SmallClass.Sound.{IsSound}
use mini_libc.Memory.SmallClass.Serve.{Outcome, IsServed, small_alloc-Outcome}
use mini_libc.Memory.SmallClass.Give.{InSlot}
use mini_libc.Memory.SmallClass.Free.{IsReturned, small_free-IsReturned}
use mini_libc.Memory.SmallClass.Client.{IsHeld, StillHeld, small_alloc-apart, small_free-keeps}

abbrev start : SmallArena bump
start = record {
  buddy_ctx = λ p. 0;
  next_avail = λ p. null;
  prev_avail = λ p. null;
  avail_lists = λ c. null;
  blocks = record { next = λ p. null; prev = λ p. null; head = null };
  bitmap = λ i p. 0;
  avail_num = λ p. 0;
  buddy_arena = empty_arena bump [];
}

start-IsSound : IsSound bump bump-laws start (λ p. 0) (λ c. []) []
start-IsSound = record {
  buddy_ok = empty_arena-IsSound bump bump-laws [];
  chains = λ c. refl;
  listed = λ p c m. absurd (ground (arith, m));
  has_slots = λ p u a. absurd (u refl);
  full = λ p u a. refl;
  counts = λ p u. absurd (u refl);
  sizes = λ p u. absurd (u refl);
  held = λ p u. absurd (u refl);
  block_chain = refl;
  block_used = λ p m. absurd (ground (arith, m));
  used_block = λ p u. absurd (u refl);
}

-- 63 slots of 1024 bytes are behind the header of a block.
slots_1024 : slot_num 1024 ≡ 63
slots_1024 = refl

small_alloc-Outcome_example : Outcome bump bump-laws start (λ p. 0) 96 (small_alloc bump start 96)
small_alloc-Outcome_example =
    small_alloc-Outcome bump bump-laws start (λ p. 0) (λ c. []) [] start-IsSound 96
      (inl (omega arith, omega arith, refl))

first_slot : (small_alloc bump start 96).0 ≡ some (8192, 8496)
unfolding small_alloc stocked scan_words take_slot take_bit drop_head allocate_class_block
    add_class_block fill_bitmap fill_words buddy_alloc_4 buddy_alloc_5 buddy_alloc_6 alloc_level
    alloc_listed alloc_split alloc_chunk allocate_chunk_and_block6 allocate_record allocate_group
    take_record map_chunk install_chunk link_group push_front ctz
first_slot = refl

abbrev one : SmallArena bump
one = (small_alloc bump start 96).1

served :
    (s : SmallArena bump) (size : Ptr → ℕ) (len block ptr : ℕ)
    (r : Option (Ptr × ℕ) × SmallArena bump)
    → r.0 ≡ some (block, ptr)
    → Outcome bump bump-laws s size len r
    → IsServed bump bump-laws s size len block ptr r.1
served s size len block ptr (none, r) e o = absurd (none-ne-some (block, ptr) e)
served s size len block ptr (some (b, p), r) e o =
    let q = some-injective (b, p) (block, ptr) e in rw (← ap (λ z. z.0) q, ← ap (λ z. z.1) q) o

abbrev first : IsServed bump bump-laws start (λ p. 0) 96 8192 8496 one
first =
    served start (λ p. 0) 96 8192 8496 (small_alloc bump start 96) first_slot
      small_alloc-Outcome_example

first-IsHeld : IsHeld bump bump-laws one first.size' 8192 first.idx
first-IsHeld = record {
  used = λ z. absurd (omega (arith, z, first.block_size));
  idx_lt = rw first.block_size first.idx_lt;
  taken = first.now_taken;
}

second_slot : (small_alloc bump one 96).0 ≡ some (8192, 8592)
unfolding small_alloc stocked scan_words take_slot take_bit drop_head allocate_class_block
    add_class_block fill_bitmap fill_words buddy_alloc_4 buddy_alloc_5 buddy_alloc_6 alloc_level
    alloc_listed alloc_split alloc_chunk allocate_chunk_and_block6 allocate_record allocate_group
    take_record map_chunk install_chunk link_group push_front ctz clear_bit one_shl
second_slot = refl

-- The address behind the metadata.
in_first : InSlot 8192 first.idx 96 8512
in_first = (omega (arith, first.here), omega (arith, first.here))

small_free-IsReturned_example :
    IsReturned bump bump-laws one first.size' 8192 first.idx
      (small_free bump one 8512 8192 (first.size' 8192))
small_free-IsReturned_example =
    small_free-IsReturned bump bump-laws one first.size' first.lists first.all first.sound 8192
      first.idx first-IsHeld.used first-IsHeld.idx_lt first-IsHeld.taken 8512
      (rw first.block_size in_first)

small_alloc-apart_example :
    Disjoint 8592 96 (idx_slot 8192 first.idx (first.size' 8192)) (first.size' 8192)
    × StillHeld bump bump-laws first.size' 8192 first.idx (small_alloc bump one 96).1
small_alloc-apart_example =
    small_alloc-apart bump bump-laws one first.size' first.lists first.all first.sound 96 8192 8592
      (inl (omega arith, omega arith, refl)) second_slot 8192 first.idx first-IsHeld

-- Both slots are held, and the first one is given back.
abbrev two : SmallArena bump
two = (small_alloc bump one 96).1

abbrev second : IsServed bump bump-laws one first.size' 96 8192 8592 two
second = served one first.size' 96 8192 8592 (small_alloc bump one 96) second_slot (
    small_alloc-Outcome bump bump-laws one first.size' first.lists first.all first.sound 96
      (inl (omega arith, omega arith, refl)))

second-IsHeld : IsHeld bump bump-laws two second.size' 8192 second.idx
second-IsHeld = record {
  used = λ z. absurd (omega (arith, z, second.block_size));
  idx_lt = rw second.block_size second.idx_lt;
  taken = second.now_taken;
}

two_slots : first.idx ≢ second.idx
two_slots e = absurd (
    omega
      (arith, second.was_free first-IsHeld.used, first.now_taken, ap (slot_free one.bitmap 8192) e))

first-still_IsHeld : IsHeld bump bump-laws two second.size' 8192 first.idx
first-still_IsHeld = record {
  used = second-IsHeld.used;
  idx_lt = rw second.block_size first.idx_lt;
  taken = second.slots_kept 8192 first.idx first-IsHeld.used (inr two_slots) ∙ first.now_taken;
}

small_free-keeps_example :
    StillHeld bump bump-laws second.size' 8192 second.idx
      (small_free bump two 8512 8192 (second.size' 8192))
small_free-keeps_example =
    small_free-keeps bump bump-laws two second.size' second.lists second.all second.sound 8192
      first.idx 8192 second.idx first-still_IsHeld second-IsHeld (inr (λ e. two_slots (sym e))) 8512
      (rw second.block_size in_first)
