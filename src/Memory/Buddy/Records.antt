-- ===== src/Memory/Buddy/Records.antt =====
-- The records of the buddy allocator: `allocate_buddy_chunk_state_group`,
-- `allocate_buddy_chunk_state`, `free_buddy_chunk_state` and `allocate_chunk_and_block6`.
-- The pages of a group come zeroed from `mmap`; the fields of an address where no record was yet
-- are 0 in the model, so a fresh group needs no writes but those of the source.
use mini_libc.Base.{ℕ, zero, suc, ◌+◌, ◌*◌, ◌-◌, Option, none, some, ◌==◌, if◌then◌else◌, update}
use mini_libc.Bits.Words.{u32}
use mini_libc.Links.{Ptr, null, Links, push_front, reset}
use mini_libc.Memory.Pages.{Pages}
use mini_libc.Memory.Buddy.{Arena, zero_order}

-- BUDDY_RECORDS_PER_GROUP is (4096 - 24) / 200.
abbrev pub records_per_group : ℕ
records_per_group = 20

-- `&group->state_records[i]`.
abbrev pub record_at : Ptr → ℕ → Ptr
record_at group i = group + 24 + 200 * i

abbrev set_next : Ptr → Ptr → Links → Links
set_next p q l = record l { next = update l.next p q }

abbrev set_prev : Ptr → Ptr → Links → Links
set_prev p q l = record l { prev = update l.prev p q }

-- The loop over the records that have a neighbour on both sides, from index i on.
unfoldable pub link_middle : Ptr → ℕ → ℕ → Links → Links
link_middle group zero i l = l
link_middle group (suc left) i l = link_middle group left (i + 1) (
    set_prev (record_at group i) (record_at group (i - 1))
      (set_next (record_at group i) (record_at group (i + 1)) l))

-- The links of the records of a new group, in front of the list of empty records.
unfoldable pub link_group : Ptr → Links → Links
link_group group l =
    let last = record_at group (records_per_group - 1) in
    let l1 = link_middle group (records_per_group - 2) 1 l in
    let l2 = set_next (record_at group 0) (record_at group 1) l1 in
    let l3 = set_prev last (record_at group (records_per_group - 2)) l2 in
    let l4 = set_next last l3.head l3 in
    let l5 = if l4.head == null then l4 else set_prev l4.head last l4 in
    record l5 { head = record_at group 0 }

module _ (P : Pages) where
  -- A failure leaves the list of empty records as it was.
  unfoldable pub allocate_group : Arena P.State → Arena P.State
  allocate_group a =
      let (reply, pages) = P.mmap_alloc a.mmap_arena 4096 in
      elim reply [
        | none ↦ record a { mmap_arena = pages }
        | some (group, ctx) ↦ record a {
          mmap_arena = pages;
          chunk_group_mmap_ctx = update a.chunk_group_mmap_ctx group ctx;
          groups = push_front group a.groups;
          empty = link_group group a.empty;
        }
      ]

  -- The head of the list of empty records is marked as in use; a group is allocated if there is
  -- none. `none` is the `NULL` of the C function.
  unfoldable pub take_record : Arena P.State → Option Ptr × Arena P.State
  take_record a =
      let st = a.empty.head in
      let rest = a.empty.next st in
      if st == null then (none, a) else (
        some st,
        record a {
          empty = record {
            next = update a.empty.next st null;
            prev = if rest == null then a.empty.prev else update a.empty.prev rest null;
            head = rest;
          };
          in_use = update a.in_use st 1;
        },
      )

  unfoldable pub allocate_record : Arena P.State → Option Ptr × Arena P.State
  allocate_record a = take_record (if a.empty.head == null then allocate_group a else a)

  -- The record is zeroed and put in front of the list of empty records.
  unfoldable pub free_record : Ptr → Arena P.State → Arena P.State
  free_record st a = record a {
    in_use = update a.in_use st 0;
    order = λ k. zero_order st (a.order k);
    chunk_mmap_ctx = update a.chunk_mmap_ctx st 0;
    chunk = update a.chunk st 0;
    empty = push_front st (reset st a.empty);
  }

  -- The new chunk, whose block 0 of order 6 is allocated and whose block 1 is available.
  unfoldable pub install_chunk : Ptr → ℕ → ℕ → Arena P.State → Arena P.State
  install_chunk st p ctx a =
      let o = a.order 6 in
      record a {
        chunk = update a.chunk st p;
        chunk_mmap_ctx = update a.chunk_mmap_ctx st ctx;
        order = update a.order 6 (record o {
          bitmap = update o.bitmap 0 (update (o.bitmap 0) st 2);
          avail_num = update o.avail_num st 1;
          links = push_front st o.links;
        });
        chunk_num = u32 (a.chunk_num + 1);
      }

  unfoldable pub map_chunk : Ptr → Arena P.State → Option Ptr × Arena P.State
  map_chunk st a =
      let (reply, pages) = P.mmap_alloc a.mmap_arena 524288 in
      let a' = record a { mmap_arena = pages } in
      elim reply [
        | none ↦ (none, free_record st a')
        | some (p, ctx) ↦ (some st, install_chunk st p ctx a')
      ]

  unfoldable pub allocate_chunk_and_block6 : Arena P.State → Option Ptr × Arena P.State
  allocate_chunk_and_block6 a =
      let (r, a') = allocate_record a in elim r [ none ↦ (none, a') | some st ↦ map_chunk st a' ]
