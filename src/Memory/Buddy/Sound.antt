-- ===== src/Memory/Buddy/Sound.antt =====
-- The invariant of the buddy allocator, in two parts: the bitmaps, counts and lists of the orders,
-- and the records with the regions that they stand for.
use mini_libc.Base.{
  ℕ, ◌+◌, ◌/◌, ◌^◌, ◌≤◌, ◌<◌, ◌≡◌, ◌≢◌, ◌⊎◌, sym, ap, ◌∙◌, true, arith, ◌==◌, if◌then◌else◌, update,
  update_self, update_ne, List,
}
use native.Mathlib.Decide.{ℕ_discrete}
use mini_libc.Links.{Ptr, null, has, IsChain}
use mini_libc.Links.Chain.{start-has}
use mini_libc.Memory.Pages.{Pages, PagesLaws}
use mini_libc.Memory.Buddy.{Arena, OrderState, blocks}
use mini_libc.Memory.Buddy.Records.{record_at, records_per_group}
use mini_libc.Memory.Buddy.Order.{free_count_other}
use mini_libc.Memory.Buddy.Listed.{IsListed}
use mini_libc.Memory.Buddy.Blocks.{Changed}
use mini_libc.Memory.Buddy.Cover.{Orders, cover, cover-add, cover-remove}

-- Each order's list and count are right, no page is in two available blocks, and a record that is
-- not in use has no available block.
pub record OrdersOk (in_use : Ptr → ℕ) (orders : Orders) : Type 0 where
  pub listed : (k : ℕ) → k < 7 → IsListed (blocks k) (orders k)
  pub disjoint : (st : Ptr) (p : ℕ) → p < 128 → cover orders st p ≤ 1
  pub unused_blank : (st : Ptr) (k : ℕ) → k < 7 → in_use st ≡ 0 → (orders k).avail_num st ≡ 0

module _ (in_use : Ptr → ℕ) (orders : Orders) (k : ℕ) (lt : k < 7) (st : Ptr) (i : ℕ)
    (o' : OrderState) where
  module _ (v : ℕ) (c : Changed k v st i (orders k) o') (h : OrdersOk in_use orders) where
    update-IsListed : (j : ℕ) → j < 7 → IsListed (blocks j) (update orders k o' j)
    update-IsListed j l = elim (ℕ_discrete j k) [
      | yes e ↦ rw (e, update_self orders k o') c.listed
      | no ne ↦ rw (update_ne orders k j o' ne) (h.listed j l)
    ]

    update-unused_blank :
        in_use st ≢ 0
        → (t : Ptr) (j : ℕ) → j < 7
        → in_use t ≡ 0
        → (update orders k o' j).avail_num t ≡ 0
    update-unused_blank used t j l e = elim (ℕ_discrete j k) [
      | yes q ↦
          let ne : t ≢ st = λ z. used (ap in_use (sym z) ∙ e) in
          rw (q, update_self orders k o')
            (c.listed.counted t
              ∙ free_count_other (blocks k) st i (orders k) o' c.in_range v t c.marks ne
              ∙ sym ((h.listed k lt).counted t)
              ∙ h.unused_blank t k lt e)
      | no ne ↦ rw (update_ne orders k j o' ne) (h.unused_blank t j l e)
    ]

  pub remove-OrdersOk :
      Changed k 0 st i (orders k) o'
      → in_use st ≢ 0
      → OrdersOk in_use orders
      → OrdersOk in_use (update orders k o')
  remove-OrdersOk c used h = record {
    listed = update-IsListed 0 c h;
    disjoint = λ t p small.
        omega (arith, h.disjoint t p small, cover-remove k lt st i orders o' c t p small);
    unused_blank = update-unused_blank 0 c h used;
  }

  -- A block may become available if none of its pages is.
  pub add-OrdersOk :
      Changed k 1 st i (orders k) o'
      → in_use st ≢ 0
      → ((p : ℕ) → p < 128 → p / 2 ^ k ≡ i → cover orders st p ≡ 0)
      → OrdersOk in_use orders
      → OrdersOk in_use (update orders k o')
  add-OrdersOk c used none h = record {
    listed = update-IsListed 1 c h;
    disjoint = λ t p small.
        ground
          (arith, h.disjoint t p small, cover-add k lt st i orders o' c t p small, none p small);
    unused_blank = update-unused_blank 1 c h used;
  }

module _ (P : Pages) (L : PagesLaws P) where
  -- A record lies in a group, whose page is mapped.
  pub record InGroup (pages : P.State) (group_ctx : Ptr → ℕ) (st : Ptr) : Type 0 where
    pub group : Ptr
    pub index : ℕ
    pub in_range : index < records_per_group
    pub here : st ≡ record_at group index
    pub owned : L.owns pages (group_ctx group) group 4096

  pub record RecordsOk (a : Arena P.State) : Type 0 where
    pub empties : List Ptr
    pub empty_chain : IsChain a.empty empties
    pub empty_unused : (st : Ptr) → has st empties ≡ true → a.in_use st ≡ 0
    pub null_unused : a.in_use null ≡ 0
    pub empty_group :
        (st : Ptr) → has st empties ≡ true → InGroup a.mmap_arena a.chunk_group_mmap_ctx st
    pub used_group : (st : Ptr) → a.in_use st ≢ 0 → InGroup a.mmap_arena a.chunk_group_mmap_ctx st
    pub chunk_owned :
        (st : Ptr) → a.in_use st ≢ 0 → L.owns a.mmap_arena (a.chunk_mmap_ctx st) (a.chunk st) 524288
    pub ctx_apart :
        (s t : Ptr)
        → a.in_use s ≢ 0
        → a.in_use t ≢ 0
        → s ≢ t
        → a.chunk_mmap_ctx s ≢ a.chunk_mmap_ctx t

  pub record IsSound (a : Arena P.State) : Type 0 where
    pub orders_ok : OrdersOk a.in_use a.order
    pub records_ok : RecordsOk a

  -- 1 if page p of the chunk of st is available, else 0; a chunk that is not there counts as
  -- available as a whole.
  unfoldable pub available : Arena P.State → Ptr → ℕ → ℕ
  available a st p = if a.in_use st == 0 then 1 else cover a.order st p

  -- The chunks in use do not overlap.
  pub chunks_apart :
      (a : Arena P.State) (s t : Ptr)
      → IsSound a
      → a.in_use s ≢ 0
      → a.in_use t ≢ 0
      → s ≢ t
      → (a.chunk s + 524288 ≤ a.chunk t) ⊎ (a.chunk t + 524288 ≤ a.chunk s)
  chunks_apart a s t h us ut ne =
      L.owns_apart a.mmap_arena (a.chunk_mmap_ctx s) (a.chunk s) 524288 (a.chunk_mmap_ctx t)
        (a.chunk t) 524288 (h.records_ok.chunk_owned s us) (h.records_ok.chunk_owned t ut)
        (h.records_ok.ctx_apart s t us ut ne)

  -- The records do not hang on the orders.
  pub RecordsOk-order :
      (a : Arena P.State) (orders : Orders) → RecordsOk a → RecordsOk (record a { order = orders })
  RecordsOk-order a orders h = record {
    empties = h.empties;
    empty_chain = h.empty_chain;
    empty_unused = h.empty_unused;
    null_unused = h.null_unused;
    empty_group = h.empty_group;
    used_group = h.used_group;
    chunk_owned = h.chunk_owned;
    ctx_apart = h.ctx_apart;
  }

  pub RecordsOk-chunk_num :
      (a : Arena P.State) (n : ℕ) → RecordsOk a → RecordsOk (record a { chunk_num = n })
  RecordsOk-chunk_num a n h = record {
    empties = h.empties;
    empty_chain = h.empty_chain;
    empty_unused = h.empty_unused;
    null_unused = h.null_unused;
    empty_group = h.empty_group;
    used_group = h.used_group;
    chunk_owned = h.chunk_owned;
    ctx_apart = h.ctx_apart;
  }

-- The chunk at the head of a list is in use.
pub head_used :
    (in_use : Ptr → ℕ) (orders : Orders) (k : ℕ)
    → k < 7
    → OrdersOk in_use orders
    → (orders k).links.head ≢ null
    → in_use (orders k).links.head ≢ 0
head_used in_use orders k lt h ne z =
    let l = h.listed k lt in
    let links = (orders k).links in
    ground (
      arith,
      start-has links.next links.prev null links.head l.members l.chain.chain,
      l.listed links.head,
      h.unused_blank links.head k,
    )
