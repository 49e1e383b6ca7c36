-- ===== src/Memory/Buddy/Grown.antt =====
-- New regions: a page with records, and a chunk.
use mini_libc.Base.{
  ℕ, ◌+◌, ◌≤◌, ◌<◌, ◌≡◌, ◌≢◌, ◌⊎◌, inl, inr, true, arith, update, update_self, update_ne, [], some,
  Option-cases,
}
use native.Mathlib.Decide.{ℕ_discrete}
use mini_libc.Links.{Ptr, null, push_front, has, IsChain}
use mini_libc.Links.Push.{null-members}
use mini_libc.Memory.Pages.{Pages, PagesLaws}
use mini_libc.Memory.Buddy.{Arena}
use mini_libc.Memory.Buddy.Records.{record_at, allocate_group, install_chunk, link_group}
use mini_libc.Memory.Buddy.Groups.{records, has-records, link_group-IsChain}
use mini_libc.Memory.Buddy.Sound.{InGroup, RecordsOk}
use mini_libc.Memory.Buddy.Reserve.{Reserved, InGroup-alloc}

module _ (P : Pages) (L : PagesLaws P) where
  -- The regions of the records, after more memory is mapped.
  alloc-RecordsOk :
      (a : Arena P.State) (len : ℕ)
      → RecordsOk P L a
      → RecordsOk P L (record a { mmap_arena = (P.mmap_alloc a.mmap_arena len).1 })
  alloc-RecordsOk a len h = record {
    empties = h.empties;
    empty_chain = h.empty_chain;
    empty_unused = h.empty_unused;
    null_unused = h.null_unused;
    empty_group =
        λ s m. InGroup-alloc P L a.mmap_arena a.chunk_group_mmap_ctx len s (h.empty_group s m);
    used_group =
        λ s u. InGroup-alloc P L a.mmap_arena a.chunk_group_mmap_ctx len s (h.used_group s u);
    chunk_owned = λ s u. L.alloc_keeps a.mmap_arena len _ _ _ (h.chunk_owned s u);
    ctx_apart = h.ctx_apart;
  }

  module _ (a : Arena P.State) (h : RecordsOk P L a) (group ctx : ℕ)
      (e : (P.mmap_alloc a.mmap_arena 4096).0 ≡ some (group, ctx)) where
    pages : P.State
    pages = (P.mmap_alloc a.mmap_arena 4096).1

    owned : L.owns pages ctx group 4096
    unfolding pages
    owned = L.alloc_owns a.mmap_arena 4096 group ctx e

    -- The page is none of the pages that the groups had before.
    new_group :
        (g : ℕ)
        → L.owns a.mmap_arena (a.chunk_group_mmap_ctx g) g 4096
        → (group + 4096 ≤ g) ⊎ (g + 4096 ≤ group)
    unfolding pages
    new_group g o =
        L.owns_apart pages ctx group 4096 (a.chunk_group_mmap_ctx g) g 4096 owned
          (L.alloc_keeps _ 4096 _ _ _ o)
          λ q. L.alloc_new a.mmap_arena 4096 group ctx g 4096 e (rw q o)

    kept_group :
        (s : Ptr)
        → InGroup P L a.mmap_arena a.chunk_group_mmap_ctx s
        → InGroup P L pages (update a.chunk_group_mmap_ctx group ctx) s
    unfolding pages
    kept_group s i =
        let apart = new_group i.group i.owned in
        record {
          group = i.group;
          index = i.index;
          in_range = i.in_range;
          here = i.here;
          owned =
              rw (update_ne a.chunk_group_mmap_ctx group i.group ctx (ground arith))
                (L.alloc_keeps _ 4096 _ _ _ i.owned);
        }

    record_unused : (j : ℕ) → j < 20 → a.in_use (record_at group j) ≡ 0
    record_unused j lt = elim (ℕ_discrete (a.in_use (record_at group j)) 0) [
      | yes z ↦ z
      | no u ↦
          let i = h.used_group (record_at group j) u in
          absurd (ground (arith, new_group i.group i.owned, i.here, i.in_range))
    ]

    group_state : Arena P.State
    group_state = record a {
      mmap_arena = pages;
      chunk_group_mmap_ctx = update a.chunk_group_mmap_ctx group ctx;
      groups = push_front group a.groups;
      empty = link_group group a.empty;
    }

    group_state-RecordsOk : a.empty.head ≡ null → RecordsOk P L group_state
    unfolding group_state pages
    group_state-RecordsOk dry =
        let empty : IsChain a.empty [] = null-members a.empty h.empties h.empty_chain dry in
        let at : (s : Ptr)
            → has s (records group 0 20) ≡ true
            → (j : ℕ) × (j < 20) × (s ≡ record_at group j) =
          λ s m. let (j, lo, hi, q) = has-records group 0 20 s m in (j, hi, q) in
        record {
          empties = records group 0 20;
          empty_chain = link_group-IsChain group a.empty empty;
          empty_unused = λ s m. let (j, lt, q) = at s m in rw q (record_unused j lt);
          null_unused = h.null_unused;
          empty_group = λ s m.
              let (j, lt, q) = at s m in
              record {
                group = group;
                index = j;
                in_range = lt;
                here = q;
                owned = rw (update_self a.chunk_group_mmap_ctx group ctx) owned;
              };
          used_group = λ s u. kept_group s (h.used_group s u);
          chunk_owned = λ s u. L.alloc_keeps a.mmap_arena 4096 _ _ _ (h.chunk_owned s u);
          ctx_apart = h.ctx_apart;
        }

  pub allocate_group-RecordsOk :
      (a : Arena P.State)
      → RecordsOk P L a
      → a.empty.head ≡ null
      → RecordsOk P L (allocate_group P a)
  unfolding allocate_group group_state pages
  allocate_group-RecordsOk a h dry = elim (Option-cases (P.mmap_alloc a.mmap_arena 4096).0) [
    | inl e ↦ rw (allocate_group, e) (alloc-RecordsOk a 4096 h)
    | inr ((g, ctx), e) ↦ rw (allocate_group, e) (group_state-RecordsOk a h g ctx e dry)
  ]

  -- The new chunk belongs to the record.
  module _ (st : Ptr) (a : Arena P.State) (h : Reserved P L st a) (p ctx : ℕ)
      (e : (P.mmap_alloc a.mmap_arena 524288).0 ≡ some (p, ctx)) where
    new_ctx : (s : Ptr) → a.in_use s ≢ 0 → s ≢ st → a.chunk_mmap_ctx s ≢ ctx
    new_ctx s u ne q =
        L.alloc_new a.mmap_arena 524288 p ctx (a.chunk s) 524288 e (rw q at (h.chunk_owned s u ne))

    pub install_chunk-RecordsOk :
        a.in_use st ≡ 1
        → RecordsOk P L (
            install_chunk P st p ctx
              (record a { mmap_arena = (P.mmap_alloc a.mmap_arena 524288).1 }))
    unfolding install_chunk
    install_chunk-RecordsOk mine =
        let s' = (P.mmap_alloc a.mmap_arena 524288).1 in
        let in_group : (s : Ptr)
            → InGroup P L a.mmap_arena a.chunk_group_mmap_ctx s
            → InGroup P L s' a.chunk_group_mmap_ctx s =
          λ s i. InGroup-alloc P L a.mmap_arena a.chunk_group_mmap_ctx 524288 s i in
        record {
          empties = h.empties;
          empty_chain = h.empty_chain;
          empty_unused = h.empty_unused;
          null_unused = h.null_unused;
          empty_group = λ s m. in_group s (h.empty_group s m);
          used_group = λ s u. elim (ℕ_discrete s st) [
            | yes q ↦ in_group s (rw q h.mine)
            | no ne ↦ in_group s (h.used_group s u ne)
          ];
          chunk_owned = λ s u. elim (ℕ_discrete s st) [
            | yes q ↦
                rw (q, update_self a.chunk_mmap_ctx st ctx, update_self a.chunk st p)
                  (L.alloc_owns a.mmap_arena 524288 p ctx e)
            | no ne ↦
                rw (update_ne a.chunk_mmap_ctx st s ctx ne, update_ne a.chunk st s p ne)
                  (L.alloc_keeps a.mmap_arena 524288 _ _ _ (h.chunk_owned s u ne))
          ];
          ctx_apart = λ s t u v ne. ground (arith, new_ctx s u, new_ctx t v, h.ctx_apart s t u v);
        }
