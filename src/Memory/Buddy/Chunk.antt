-- ===== src/Memory/Buddy/Chunk.antt =====
-- A new chunk: half of it is the block of order 6 that was asked for, the other half is available.
use mini_libc.Base.{ℕ, zero, suc, ◌/◌, ◌^◌, ◌<◌, ◌≡◌, ◌≢◌, refl, sym, arith, update, some}
use mini_libc.Bits.{bit}
use mini_libc.Bits.Count.{total-zero, total-le}
use mini_libc.Links.{Ptr, null, push_front, reset}
use mini_libc.Memory.Pages.{Pages, PagesLaws}
use mini_libc.Memory.Buddy.{Arena, OrderState, blocks, write_word, more_avail, zero_order}
use mini_libc.Memory.Buddy.Records.{free_record, install_chunk}
use mini_libc.Memory.Buddy.Order.{is_free, Marks}
use mini_libc.Memory.Buddy.Listed.{more_avail-IsListed}
use mini_libc.Memory.Buddy.Blocks.{Changed}
use mini_libc.Memory.Buddy.Cover.{Orders, cover, cover-add, page_in_range}
use mini_libc.Memory.Buddy.Sound.{OrdersOk, IsSound, available, add-OrdersOk}
use mini_libc.Memory.Buddy.AllocSound.{Taken, Untouched}
use mini_libc.Memory.Buddy.Reserve.{
  Reserved-alloc, free_record-RecordsOk, taken_state, taken-Reserved,
}
use mini_libc.Memory.Buddy.Grown.{install_chunk-RecordsOk}
use mini_libc.Memory.Buddy.Blank.{zero-OrdersOk, zero-cover}

module _ (in_use : Ptr → ℕ) (orders : Orders) (h : OrdersOk in_use orders) (st : Ptr)
    (blank : (k : ℕ) → k < 7 → (orders k).avail_num st ≡ 0) where
  no_block : (k i : ℕ) → k < 7 → i < blocks k → is_free (orders k) st i ≡ 0
  no_block k i lt range = omega (
    arith,
    total-le (blocks k) i (is_free (orders k) st) range,
    (h.listed k lt).counted st,
    blank k lt,
  )

  no_page : (p : ℕ) → p < 128 → cover orders st p ≡ 0
  unfolding cover
  no_page p small = total-zero 7 _ (λ k lt. no_block k (p / 2 ^ k) lt (page_in_range k p lt small))

  upper_half : OrderState
  upper_half = write_word st 0 2 (orders 6)

  upper_half-Marks : Marks 2 1 st 1 (orders 6) upper_half
  unfolding upper_half is_free bit
  upper_half-Marks t zero lt = ground (arith, no_block 6 0 (omega arith) (omega arith))
  upper_half-Marks t (suc zero) lt = ground (arith)
  upper_half-Marks t (suc (suc j)) lt = absurd (omega arith)

  new_order : OrderState
  new_order = record (orders 6) {
    bitmap = update (orders 6).bitmap 0 (update ((orders 6).bitmap 0) st 2);
    avail_num = update (orders 6).avail_num st 1;
    links = push_front st (orders 6).links;
  }

  new_order-eq : more_avail st upper_half ≡ new_order
  unfolding more_avail upper_half new_order
  new_order-eq = rw (blank 6 (omega arith)) refl

  new_order-Changed : st ≢ null → Changed 6 1 st 1 (orders 6) new_order
  unfolding upper_half new_order push_front is_free
  new_order-Changed ne = record {
    in_range = omega arith;
    marks = upper_half-Marks;
    before = no_block 6 1 (omega arith) (omega arith);
    listed = rw (sym new_order-eq) (
        more_avail-IsListed 2 (omega arith) st 1 (orders 6) upper_half (omega arith) ne
          upper_half-Marks (no_block 6 1 (omega arith) (omega arith)) (λ t. refl) refl
          (h.listed 6 (omega arith)));
  }

-- A record without an available block may be in use or not.
pub used-OrdersOk :
    (in_use : Ptr → ℕ) (orders : Orders) (st : Ptr)
    → OrdersOk in_use orders
    → OrdersOk (update in_use st 1) orders
used-OrdersOk in_use orders st h = record {
  listed = h.listed;
  disjoint = h.disjoint;
  unused_blank = λ t k lt e. h.unused_blank t k lt (ground arith);
}

module _ (P : Pages) (L : PagesLaws P) where
  -- The record is taken from a, whose list of empty records is not empty.
  module _ (a : Arena P.State) (h : IsSound P L a) (ne : a.empty.head ≢ null)
      (dead : a.in_use a.empty.head ≡ 0) where
    abbrev reserved : Arena P.State
    reserved = taken_state P L a h.records_ok ne

    blank : (k : ℕ) → k < 7 → (a.order k).avail_num a.empty.head ≡ 0
    blank k lt = h.orders_ok.unused_blank a.empty.head k lt dead

    abbrev pub moved : Arena P.State
    moved = record reserved { mmap_arena = (P.mmap_alloc a.mmap_arena 524288).1 }

    pub failed-IsSound : IsSound P L (free_record P a.empty.head moved)
    unfolding free_record
    failed-IsSound = record {
      orders_ok =
          zero-OrdersOk (update a.in_use a.empty.head 1) a.order a.empty.head
            (used-OrdersOk a.in_use a.order a.empty.head h.orders_ok) blank;
      records_ok =
          free_record-RecordsOk P L a.empty.head moved (
            Reserved-alloc P L a.empty.head reserved 524288 (taken-Reserved P L a h.records_ok ne));
    }

    pub failed-Untouched : Untouched P L a (free_record P a.empty.head moved)
    unfolding free_record available zero_order reset
    failed-Untouched = record {
      pages = λ t p small. ground (arith, dead, zero-cover a.order a.empty.head t p);
      kept = λ t u. (ground arith, ground arith);
      same_in_use = λ t. ground (arith, dead);
      same_ctx = λ t u. ground (arith, dead);
      same_heads = λ k. refl;
      same_counts = λ k t lt. ground (arith, blank k lt);
      same_chunk_num = refl;
    }

    module _ (p ctx : ℕ) (e : (P.mmap_alloc a.mmap_arena 524288).0 ≡ some (p, ctx)) where
      change :
          Changed 6 1 a.empty.head 1
            (a.order 6)
            (new_order a.in_use a.order h.orders_ok a.empty.head blank)
      change = new_order-Changed a.in_use a.order h.orders_ok a.empty.head blank ne

      pub installed-IsSound : IsSound P L (install_chunk P a.empty.head p ctx moved)
      unfolding install_chunk new_order
      installed-IsSound = record {
        orders_ok =
            add-OrdersOk (update a.in_use a.empty.head 1) a.order 6 (omega arith) a.empty.head 1 _
              change (ground arith)
              (λ q small z. no_page a.in_use a.order h.orders_ok a.empty.head blank q small)
              (used-OrdersOk a.in_use a.order a.empty.head h.orders_ok);
        records_ok =
            install_chunk-RecordsOk P L a.empty.head reserved (taken-Reserved P L a h.records_ok ne)
              p ctx e (ground arith);
      }

      pub installed-Taken :
          Taken P L 6 a a.empty.head
            ((install_chunk P a.empty.head p ctx moved).chunk a.empty.head)
            (install_chunk P a.empty.head p ctx moved)
      unfolding install_chunk new_order available
      installed-Taken = record {
        index = 0;
        index_lt = omega arith;
        used = ground arith;
        here = ground arith;
        pages = λ t q small. ground (
          arith,
          dead,
          no_page a.in_use a.order h.orders_ok a.empty.head blank q small,
          cover-add 6 (omega arith) a.empty.head 1 a.order _ change t q small,
        );
        kept = λ t u. (ground arith, ground arith);
        old_chunk = λ u. absurd (u dead);
        new_chunk = λ u. refl;
      }
