-- ===== src/Memory/Examples.antt =====
-- Runs of the buddy allocator on the bump layer, from the zeroed arena: the first block is the first
-- page of the first chunk, at 8192, and its record is the first of the group at 4096.
use mini_libc.Base.{ℕ, ◌+◌, ◌^◌, ◌≤◌, ◌<◌, ◌≡◌, ◌≢◌, refl, sym, ◌∙◌, arith, some, []}
use mini_libc.Memory.Bump.{bump, bump-laws}
use mini_libc.Bits.Count.{ctz}
use mini_libc.Links.{null, Links, IsChain, push_front}
use mini_libc.Memory.Buddy.{Arena, lowest, index_block, block_index}
use mini_libc.Memory.Buddy.Alloc.{
  buddy_alloc_0, buddy_alloc_1, buddy_alloc_2, buddy_alloc_3, buddy_alloc_4, buddy_alloc_5,
  buddy_alloc_6, alloc_level, alloc_listed, alloc_split, alloc_chunk,
}
use mini_libc.Memory.Buddy.Records.{
  allocate_chunk_and_block6, allocate_record, allocate_group, take_record, map_chunk, install_chunk,
  link_group,
}
use mini_libc.Memory.Buddy.Sound.{IsSound, available}
use mini_libc.Memory.Buddy.Addresses.{block_index-eq}
use mini_libc.Memory.Buddy.Groups.{records, link_group-IsChain}
use mini_libc.Memory.Buddy.AllocSound.{Outcome}
use mini_libc.Memory.Buddy.FreeSound.{Held, Returned}
use mini_libc.Memory.Buddy.Levels.{buddy_alloc, buddy_alloc-IsSound}
use mini_libc.Memory.Buddy.FreeLevels.{buddy_free, buddy_free-IsSound}
use mini_libc.Memory.Buddy.Initial.{empty_arena, empty_arena-IsSound}
use mini_libc.Memory.Buddy.Client.{
  alloc-Held, alloc-keeps_Held, alloc-apart, free-alloc, free-keeps_Held,
}

abbrev start : Arena bump.State
start = empty_arena bump []

first_block : (buddy_alloc bump 0 start).0 ≡ some (4120, 8192)
unfolding buddy_alloc_0 buddy_alloc_1 buddy_alloc_2 buddy_alloc_3 buddy_alloc_4 buddy_alloc_5
    buddy_alloc_6 alloc_level alloc_listed alloc_split alloc_chunk allocate_chunk_and_block6
    allocate_record allocate_group take_record map_chunk install_chunk link_group
first_block = refl

start-IsSound : IsSound bump bump-laws start
start-IsSound = empty_arena-IsSound bump bump-laws []

-- The two halves of the first chunk.
lower_half : (buddy_alloc bump 6 start).0 ≡ some (4120, 8192)
unfolding buddy_alloc_6 alloc_chunk allocate_chunk_and_block6 allocate_record allocate_group
    take_record map_chunk install_chunk link_group
lower_half = refl

abbrev after : Arena bump.State
after = (buddy_alloc bump 6 start).1

after-IsSound : IsSound bump bump-laws after
after-IsSound = (buddy_alloc-IsSound bump bump-laws 6 start (omega arith) start-IsSound).0

abbrev first_index : ℕ
first_index = (alloc-Held bump bump-laws start start-IsSound 6 4120 8192 (omega arith) lower_half).0

first-Held : Held bump bump-laws 6 after 4120 first_index 8192
first-Held = (alloc-Held bump bump-laws start start-IsSound 6 4120 8192 (omega arith) lower_half).1

upper_half : (buddy_alloc bump 6 after).0 ≡ some (4120, 270336)
unfolding buddy_alloc_6 alloc_listed alloc_chunk allocate_chunk_and_block6 allocate_record
    allocate_group take_record map_chunk install_chunk link_group lowest ctz index_block push_front
upper_half = refl

buddy_alloc-IsSound_example :
    IsSound bump bump-laws (buddy_alloc bump 0 start).1
    × Outcome bump bump-laws 0 start (buddy_alloc bump 0 start).0 (buddy_alloc bump 0 start).1
buddy_alloc-IsSound_example = buddy_alloc-IsSound bump bump-laws 0 start (omega arith) start-IsSound

buddy_free-IsSound_example :
    IsSound bump bump-laws (buddy_free bump 6 8192 4120 after)
    × Returned bump bump-laws 6 after 4120 first_index (buddy_free bump 6 8192 4120 after)
buddy_free-IsSound_example =
    buddy_free-IsSound bump bump-laws 6 after 4120 first_index 8192 (omega arith) after-IsSound
      first-Held

alloc-Held_example : (i : ℕ) × Held bump bump-laws 0 (buddy_alloc bump 0 start).1 4120 i 8192
alloc-Held_example =
    alloc-Held bump bump-laws start start-IsSound 0 4120 8192 (omega arith) first_block

alloc-keeps_Held_example : Held bump bump-laws 6 (buddy_alloc bump 6 after).1 4120 first_index 8192
alloc-keeps_Held_example =
    alloc-keeps_Held bump bump-laws after after-IsSound 6 4120 270336 (omega arith) upper_half 6
      4120 first_index 8192 (omega arith) first-Held

alloc-apart_example : ¬ ((270336 ≤ 8192) × (8192 < 270336 + 2 ^ 18))
alloc-apart_example =
    alloc-apart bump bump-laws after after-IsSound 6 4120 270336 (omega arith) upper_half 6 4120
      first_index 8192 (omega arith) first-Held 8192 first-Held.here

free-alloc_example :
    IsSound bump bump-laws (buddy_free bump 0 8192 4120 (buddy_alloc bump 0 start).1)
    × (available bump bump-laws (buddy_free bump 0 8192 4120 (buddy_alloc bump 0 start).1) 4120 7
        ≡ available bump bump-laws start 4120 7)
free-alloc_example =
    free-alloc bump bump-laws start start-IsSound 0 4120 8192 (omega arith) first_block 4120 7
      (omega arith)

-- Both halves are held; the upper one is given back.
abbrev both : Arena bump.State
both = (buddy_alloc bump 6 after).1

both-IsSound : IsSound bump bump-laws both
both-IsSound = (buddy_alloc-IsSound bump bump-laws 6 after (omega arith) after-IsSound).0

abbrev second_index : ℕ
second_index =
    (alloc-Held bump bump-laws after after-IsSound 6 4120 270336 (omega arith) upper_half).0

second-Held : Held bump bump-laws 6 both 4120 second_index 270336
second-Held =
    (alloc-Held bump bump-laws after after-IsSound 6 4120 270336 (omega arith) upper_half).1

first-still_Held : Held bump bump-laws 6 both 4120 first_index 8192
first-still_Held =
    alloc-keeps_Held bump bump-laws after after-IsSound 6 4120 270336 (omega arith) upper_half 6
      4120 first_index 8192 (omega arith) first-Held

halves-apart : first_index ≢ second_index
halves-apart e =
    absurd (omega (arith, e, first-still_Held.here.from_start, second-Held.here.below_end))

free-keeps_Held_example :
    Held bump bump-laws 6 (buddy_free bump 6 270336 4120 both) 4120 first_index 8192
free-keeps_Held_example =
    free-keeps_Held bump bump-laws both both-IsSound 6 4120 second_index 270336 6 4120 first_index
      8192 (omega arith) (omega arith) second-Held first-still_Held
      (λ p small q e. halves-apart (sym e ∙ q.1))

empty_arena-IsSound_example : IsSound bump bump-laws start
empty_arena-IsSound_example = empty_arena-IsSound bump bump-laws []

abbrev no_records : Links
no_records = record { next = λ x. null; prev = λ x. null; head = null }

link_group-IsChain_example : IsChain (link_group 4096 no_records) (records 4096 0 20)
link_group-IsChain_example =
    link_group-IsChain 4096 no_records (record { chain = refl; outside = λ a m. refl })

block_index-eq_example : block_index 8192 15000 0 ≡ 1
block_index-eq_example =
    block_index-eq 8192 1 0 15000 (omega arith) (omega arith)
      (record { index_lt = omega arith; from_start = omega arith; below_end = omega arith })
