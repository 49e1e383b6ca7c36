-- ===== src/Memory/Mmap.antt =====
-- src/memory/mmap.c: the allocator of whole regions. A record for each region is in one of two lists,
-- of active and of inactive records, which share the link fields. The system is a parameter.
pub mod Lists
pub mod Groups
pub mod Sound
pub mod Activate
pub mod Free
pub mod Instance
pub mod Examples
use mini_libc.Base.{
  ℕ, zero, suc, ◌+◌, ◌-◌, ◌*◌, ◌^◌, ◌≤◌, ◌<◌, ◌≡◌, ◌≢◌, ◌⊎◌, Option, none, some, leb, ◌==◌,
  if◌then◌else◌, update,
}
use mini_libc.Memory.Pages.{Disjoint}
use mini_libc.Links.{Ptr, null, Links, push_front}

-- `mmap` and `munmap` of the system, for private anonymous memory: an address, where the error codes
-- are the numbers from 2 ^ 63 on, that is below 0 as `intptr_t`.
pub record Kernel : Type 1 where
  pub State : Type 0
  pub mmap : State → ℕ → ℕ × State
  pub munmap : State → ℕ → ℕ → State

-- What the manual of the system says: a region is mapped where nothing was, in user space, and
-- mappings stay until they are unmapped.
pub record KernelLaws (K : Kernel) : Type 1 where
  pub mapped : K.State → (p len : ℕ) → Type 0
  pub mmap_maps :
      (k : K.State) (len : ℕ)
      → (K.mmap k len).0 < 2 ^ 63
      → mapped (K.mmap k len).1 (K.mmap k len).0 len
  pub mmap_bounds :
      (k : K.State) (len : ℕ)
      → (K.mmap k len).0 < 2 ^ 63
      → ((K.mmap k len).0 ≢ 0) × ((K.mmap k len).0 + len ≤ 2 ^ 47)
  pub mmap_apart :
      (k : K.State) (len p' len' : ℕ)
      → (K.mmap k len).0 < 2 ^ 63
      → mapped k p' len'
      → Disjoint (K.mmap k len).0 len p' len'
  pub mmap_keeps :
      (k : K.State) (len p' len' : ℕ) → mapped k p' len' → mapped (K.mmap k len).1 p' len'
  pub munmap_keeps :
      (k : K.State) (p len p' len' : ℕ)
      → Disjoint p len p' len'
      → mapped k p' len'
      → mapped (K.munmap k p len) p' len'

-- MMAP_RECORDS_PER_GROUP.
abbrev pub records_per_mmap_group : ℕ
records_per_mmap_group = 127

-- `&group->records[i]`: two pointers, and records of four words.
abbrev pub record_at : Ptr → ℕ → Ptr
record_at group i = group + 16 + 32 * i

-- The loop of `allocate_mmap_record_group`, over the fields `next` and `prev`.
unfoldable pub link_records : Ptr → ℕ → ℕ → (Ptr → Ptr) × (Ptr → Ptr) → (Ptr → Ptr) × (Ptr → Ptr)
link_records group zero i l = l
link_records group (suc n) i l = link_records group n (i + 1) (
  update l.0 (record_at group i) (record_at group (i + 1)),
  update l.1 (record_at group (i + 1)) (record_at group i),
)

module _ (K : Kernel) where
  -- The fields of `struct mmap_record`, `struct mmap_arena_t`, and the state of the system.
  pub record MmapArena : Type 0 where
    pub len : Ptr → ℕ
    pub ptr : Ptr → ℕ
    pub next : Ptr → Ptr
    pub prev : Ptr → Ptr
    pub active : Ptr
    pub inactive : Ptr
    pub groups : Links
    pub kernel : K.State

  -- The links of a new group, before the inactive records.
  unfoldable pub add_group : Ptr → MmapArena → MmapArena
  add_group group s =
      let l = link_records group (records_per_mmap_group - 1) 0 (s.next, s.prev) in
      let last = record_at group (records_per_mmap_group - 1) in
      record s {
        groups = push_front group s.groups;
        next = update l.0 last s.inactive;
        prev = if s.inactive == null then l.1 else update l.1 s.inactive last;
        inactive = record_at group 0;
      }

  unfoldable pub allocate_mmap_record_group : MmapArena → MmapArena
  allocate_mmap_record_group s =
      let (group, k) = K.mmap s.kernel 4096 in
      let s' = record s { kernel = k } in if leb (2 ^ 63) group then s' else add_group group s'

  -- The first inactive record becomes the first active one, for the region at p.
  unfoldable pub activate : ℕ → ℕ → MmapArena → MmapArena
  activate p len s =
      let st = s.inactive in
      let prev1 = if s.next st == null then s.prev else update s.prev (s.next st) null in
      record s {
        inactive = s.next st;
        len = update s.len st len;
        ptr = update s.ptr st p;
        next = update s.next st s.active;
        prev = if s.active == null then prev1 else update prev1 s.active st;
        active = st;
      }

  -- The call of `mmap` for the region, where a record is inactive.
  unfoldable pub map_region : ℕ → MmapArena → Option (ℕ × ℕ) × MmapArena
  map_region len s =
      if s.inactive == null
      then (none, s)
      else (let (p, k) = K.mmap s.kernel len in
          let s' = record s { kernel = k } in
          if leb (2 ^ 63) p then (none, s') else (some (p, s.inactive), activate p len s'))

  unfoldable pub mmap_alloc : MmapArena → ℕ → Option (ℕ × ℕ) × MmapArena
  mmap_alloc s len = map_region len (if s.inactive == null then allocate_mmap_record_group s else s)

  -- The links of `mmap_free`: out of the active records, and in front of the inactive ones.
  unfoldable pub deactivate : Ptr → MmapArena → MmapArena
  deactivate st s =
      let prev1 = if s.next st == null then s.prev else update s.prev (s.next st) (s.prev st) in
      let first = prev1 st == null in
      let next2 = if first then s.next else update s.next (prev1 st) (s.next st) in
      let prev2 = if first then prev1 else update prev1 st null in
      let active' = if first then s.next st else s.active in
      record s {
        len = update s.len st 0;
        ptr = update s.ptr st null;
        active = active';
        next = update next2 st s.inactive;
        prev = if s.inactive == null then prev2 else update prev2 s.inactive st;
        inactive = st;
      }

  unfoldable pub mmap_free : MmapArena → Ptr → MmapArena
  mmap_free s st = deactivate st (record s { kernel = K.munmap s.kernel (s.ptr st) (s.len st) })
