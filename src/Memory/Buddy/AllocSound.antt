-- ===== src/Memory/Buddy/AllocSound.antt =====
-- Allocation takes exactly the pages of one block, at every order.
use mini_libc.Base.{ℕ, ◌+◌, ◌*◌, ◌^◌, ◌≤◌, ◌<◌, ◌≡◌, ◌≢◌, refl, arith, none, some}
use mini_libc.Bits.Words.{u32}
use mini_libc.Links.{Ptr, null}
use mini_libc.Memory.Pages.{Pages, PagesLaws}
use mini_libc.Memory.Buddy.{Arena, blocks}
use mini_libc.Memory.Buddy.Alloc.{Allocated, Alloc, alloc_listed}
use mini_libc.Memory.Buddy.Blocks.{blocks-Bounds, Changed, lowest_any, take_any}
use mini_libc.Memory.Buddy.Lowest.{take_any-Changed}
use mini_libc.Memory.Buddy.Cover.{cover-remove, in_block}
use mini_libc.Memory.Buddy.Sound.{remove-OrdersOk, RecordsOk-order, IsSound, available, head_used}
use mini_libc.Memory.Buddy.Addresses.{index_block-eq}

module _ (P : Pages) (L : PagesLaws P) where
  -- The block at `block` of the chunk of st is what the allocation took, and nothing else.
  pub record Taken (k : ℕ) (a : Arena P.State) (st block : ℕ) (a' : Arena P.State) : Type 0 where
    pub index : ℕ
    pub index_lt : index < blocks k
    pub used : a'.in_use st ≢ 0
    pub here : block ≡ a'.chunk st + index * 2 ^ (12 + k)
    pub pages :
        (t : Ptr) (p : ℕ)
        → p < 128
        → available P L a t p ≡ available P L a' t p + in_block k st index t p
    pub kept : (t : Ptr) → a.in_use t ≢ 0 → (a'.in_use t ≡ a.in_use t) × (a'.chunk t ≡ a.chunk t)
    pub old_chunk : a.in_use st ≢ 0 → a'.chunk_num ≡ a.chunk_num
    pub new_chunk : a.in_use st ≡ 0 → a'.chunk_num ≡ u32 (a.chunk_num + 1)

  -- Where there is no memory, nothing is taken: the chunks, the heads of the lists and the counts are
  -- what they were. A group of empty records may have come.
  pub record Untouched (a a' : Arena P.State) : Type 0 where
    pub pages : (t : Ptr) (p : ℕ) → p < 128 → available P L a' t p ≡ available P L a t p
    pub kept : (t : Ptr) → a.in_use t ≢ 0 → (a'.in_use t ≡ a.in_use t) × (a'.chunk t ≡ a.chunk t)
    pub same_in_use : (t : Ptr) → a'.in_use t ≡ a.in_use t
    pub same_ctx : (t : Ptr) → a.in_use t ≢ 0 → a'.chunk_mmap_ctx t ≡ a.chunk_mmap_ctx t
    pub same_heads : (k : ℕ) → (a'.order k).links.head ≡ (a.order k).links.head
    pub same_counts : (k : ℕ) (t : Ptr) → k < 7 → (a'.order k).avail_num t ≡ (a.order k).avail_num t
    pub same_chunk_num : a'.chunk_num ≡ a.chunk_num

  abbrev pub Outcome : ℕ → Arena P.State → Allocated → Arena P.State → Type 0
  Outcome k a none a' = Untouched a a'
  Outcome k a (some (st, block)) a' = Taken k a st block a'

  abbrev pub AllocSpec : ℕ → Alloc P → Type 0
  AllocSpec k f =
      (a : Arena P.State) → IsSound P L a → IsSound P L (f a).1 × Outcome k a (f a).0 (f a).1

  pub chunk_fits :
      (a : Arena P.State) (st : Ptr)
      → IsSound P L a
      → a.in_use st ≢ 0
      → a.chunk st + 524288 ≤ 2 ^ 47
  chunk_fits a st h u = (L.owns_bounds _ _ _ _ (h.records_ok.chunk_owned st u)).1

  pub alloc_listed-IsSound :
      (k : ℕ) (a : Arena P.State)
      → k < 7
      → IsSound P L a
      → (a.order k).links.head ≢ null
      → let r = alloc_listed P k (a.order k).links.head a in IsSound P L r.1 × Outcome k a r.0 r.1
  unfolding alloc_listed available
  alloc_listed-IsSound k a lt h ne =
      let st = (a.order k).links.head in
      let o = a.order k in
      let used : a.in_use st ≢ 0 = head_used a.in_use a.order k lt h.orders_ok ne in
      let c : Changed k 0 st (lowest_any k st o) o (take_any k st o) =
        take_any-Changed k (blocks-Bounds k lt) st o (h.orders_ok.listed k lt) ne refl in
      (
        record {
          orders_ok =
              remove-OrdersOk a.in_use a.order k lt st (lowest_any k st o) (take_any k st o) c used
                h.orders_ok;
          records_ok = RecordsOk-order P L a _ h.records_ok;
        },
        record {
          index = lowest_any k st o;
          index_lt = c.in_range;
          used = used;
          here =
              index_block-eq (a.chunk st) (lowest_any k st o) k lt (chunk_fits a st h used)
                c.in_range;
          pages = λ t p small. ground (
            arith,
            cover-remove k lt st (lowest_any k st o) a.order (take_any k st o) c t p small,
          );
          kept = λ t u. (refl, refl);
          old_chunk = λ u. refl;
          new_chunk = λ z. absurd (used z);
        },
      )
