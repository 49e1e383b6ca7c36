-- ===== src/Memory/Mmap/Examples.antt =====
-- Runs of mmap.c on the simplest system, which maps one region behind the other and never again where
-- a region was: the group of records is the first page, at 4096, and its first record is at 4112.
use mathlib.Core.Option.{some-injective, none-ne-some}
use mini_libc.Base.{
  ℕ, ◌+◌, ◌-◌, ◌^◌, ◌&&◌, ◌≤◌, ◌<◌, ◌≡◌, ◌⊎◌, inl, inr, refl, ap, arith, leb, if◌then◌else◌, [],
  ◌∷◌, Option, some, none, Bool-cases,
}
use mini_libc.Links.{null, erase, push_front}
use mini_libc.Memory.Mmap.{
  activate, Kernel, KernelLaws, MmapArena, link_records, add_group, allocate_mmap_record_group,
  map_region, mmap_alloc, mmap_free,
}
use mini_libc.Memory.Mmap.Lists.{HasLists, Keeps}
use mini_libc.Memory.Mmap.Groups.{records, add_group-AreLists}
use mini_libc.Memory.Mmap.Sound.{IsSound}
use mini_libc.Memory.Mmap.Free.{mmap_free-IsSound}
use mini_libc.Memory.Mmap.Instance.{Allocated, mmap_alloc-Allocated}
use mini_libc.Memory.Mmap.Instance.{mmap_pages, mmap-laws}
use mini_libc.Memory.Buddy.{Arena}
use mini_libc.Memory.Buddy.Sound as Buddy
use mini_libc.Memory.Buddy.Initial.{empty_arena, empty_arena-IsSound}
use mini_libc.Memory.Buddy.Alloc.{buddy_alloc_6, alloc_chunk}
use mini_libc.Memory.Buddy.Records.{
  allocate_chunk_and_block6, allocate_record, allocate_group, take_record, map_chunk, install_chunk,
  link_group,
}

-- The state is the first address that was never mapped; a refusal is ENOMEM.
abbrev map_next : ℕ → ℕ → ℕ × ℕ
map_next k len = if leb 4096 k && leb (k + len) (2 ^ 47) then (k, k + len) else (2 ^ 64 - 12, k)

abbrev one_way : Kernel
one_way = record { State = ℕ; mmap = map_next; munmap = λ k p len. k }

map_next-cases :
    (k len : ℕ)
    → ((map_next k len ≡ (k, k + len)) × (4096 ≤ k) × (k + len ≤ 2 ^ 47))
      ⊎ (map_next k len ≡ (2 ^ 64 - 12, k))
map_next-cases k len = elim (Bool-cases (leb 4096 k && leb (k + len) (2 ^ 47))) [
  | inl t ↦ inl (rw t refl, ground (arith, t), ground (arith, t))
  | inr t ↦ inr (rw t refl)
]

granted :
    (k len : ℕ)
    → (map_next k len).0 < 2 ^ 63
    → (map_next k len ≡ (k, k + len)) × (4096 ≤ k) × (k + len ≤ 2 ^ 47)
granted k len lt = elim (map_next-cases k len) [
  | inl c ↦ c
  | inr e ↦ absurd (omega (arith, lt, ap (λ r. r.0) e))
]

one_way-laws : KernelLaws one_way
one_way-laws = record {
  mapped = λ k p len. p + len ≤ k;
  mmap_maps = λ k len lt. let (e, lo, hi) = granted k len lt in rw e (omega arith);
  mmap_bounds = λ k len lt. let (e, lo, hi) = granted k len lt in rw e (omega (arith, lo), hi);
  mmap_apart = λ k len p' len' lt m. let (e, lo, hi) = granted k len lt in rw e (inr m);
  mmap_keeps = λ k len p' len' m. elim (map_next-cases k len) [
    | inl (e, lo, hi) ↦ rw e (omega (arith, m))
    | inr e ↦ rw e m
  ];
  munmap_keeps = λ k p len p' len' d m. m;
}

abbrev empty : MmapArena one_way
empty = record {
  len = λ a. 0;
  ptr = λ a. 0;
  next = λ a. null;
  prev = λ a. null;
  active = null;
  inactive = null;
  groups = record { next = λ a. null; prev = λ a. null; head = null };
  kernel = 4096;
}

empty-lists : HasLists one_way empty [] []
empty-lists = record {
  active_chain = refl;
  inactive_chain = refl;
  apart = λ a m. refl;
  outside = λ a m n. refl;
}

empty-IsSound : IsSound one_way one_way-laws empty []
empty-IsSound = record {
  inactives = [];
  pages = [];
  lists = empty-lists;
  group_list = record { chain = refl; outside = λ a m. refl };
  located = λ a m. absurd (elim m [ inl q ↦ ground (arith, q) | inr q ↦ ground (arith, q) ]);
  page_mapped = λ g m. absurd (ground (arith, m));
  region_mapped = λ a m. absurd (ground (arith, m));
  region_bounds = λ a m. absurd (ground (arith, m));
  regions_apart = λ a b m n d. absurd (ground (arith, m));
  page_apart = λ a g m n. absurd (ground (arith, m));
}

add_group-AreLists_example : HasLists one_way (add_group one_way 4096 empty) [] (records 4096 0 127)
add_group-AreLists_example =
    add_group-AreLists 4096 one_way empty [] empty-lists (omega arith) (λ j lt. refl) 127 refl

first_region : (mmap_alloc one_way empty 8192).0 ≡ some (8192, 4112)
unfolding mmap_alloc map_region allocate_mmap_record_group add_group link_records push_front
first_region = refl

abbrev one_region : MmapArena one_way
one_region = (mmap_alloc one_way empty 8192).1

mmap_alloc-Allocated_example :
    Allocated one_way one_way-laws empty [] 8192 (mmap_alloc one_way empty 8192)
mmap_alloc-Allocated_example = mmap_alloc-Allocated one_way one_way-laws empty [] 8192 empty-IsSound

allocated :
    (r : Option (ℕ × ℕ) × MmapArena one_way)
    → r.0 ≡ some (8192, 4112)
    → Allocated one_way one_way-laws empty [] 8192 r
    → IsSound one_way one_way-laws r.1 (4112 ∷ [])
allocated (none, s) e a = absurd (none-ne-some (8192, 4112) e)
allocated (some (p, c), s) e a = rw (← ap (λ z. z.1) (some-injective (p, c) (8192, 4112) e)) a.0

mmap_free-IsSound_example :
    IsSound one_way one_way-laws (mmap_free one_way one_region 4112) (erase 4112 (4112 ∷ []))
    × Keeps one_way one_region (erase 4112 (4112 ∷ [])) (mmap_free one_way one_region 4112)
    × ((mmap_free one_way one_region 4112).kernel ≡ one_region.kernel)
mmap_free-IsSound_example =
    mmap_free-IsSound one_way one_way-laws one_region (4112 ∷ [])
      (allocated (mmap_alloc one_way empty 8192) first_region mmap_alloc-Allocated_example) 4112
      refl

-- The buddy allocator over mmap.c: its group of records is the second page, and its first chunk is
-- behind it.
abbrev stack : Arena (mmap_pages one_way one_way-laws).State
stack = empty_arena (mmap_pages one_way one_way-laws) (empty, [], empty-IsSound)

stack-IsSound :
    Buddy.IsSound (mmap_pages one_way one_way-laws) (mmap-laws one_way one_way-laws) stack
stack-IsSound =
    empty_arena-IsSound (mmap_pages one_way one_way-laws) (mmap-laws one_way one_way-laws)
      (empty, [], empty-IsSound)

first_chunk : (buddy_alloc_6 (mmap_pages one_way one_way-laws) stack).0 ≡ some (8216, 12288)
unfolding buddy_alloc_6 alloc_chunk allocate_chunk_and_block6 allocate_record allocate_group
    take_record map_chunk install_chunk link_group mmap_alloc map_region allocate_mmap_record_group
    add_group link_records push_front activate
first_chunk = refl
