-- ===== src/Memory/Buddy/Split.antt =====
-- A level of the allocation: a block of the next order is split where the list of this order is
-- empty.
use mini_libc.Base.{
  ℕ, suc, ◌+◌, ◌*◌, ◌%◌, ◌^◌, ◌≤◌, ◌<◌, ◌≡◌, ◌≢◌, ap, ◌∙◌, arith, update, Option-cases, inl, inr,
  ==_false, ==_true,
}
use native.Mathlib.Decide.{ℕ_discrete}
use native.Mathlib.Nat.{one-le-pow}
use mini_libc.Memory.Buddy.Blocks.{add_any}
use mini_libc.Bits.Words.{set_bit}
use mini_libc.Links.{Ptr, null}
use mini_libc.Memory.Pages.{Pages, PagesLaws}
use mini_libc.Memory.Buddy.{Arena, blocks, block_index, set_split}
use mini_libc.Memory.Buddy.Alloc.{Alloc, split_block, alloc_split, alloc_level}
use mini_libc.Memory.Buddy.Cover.{Orders, cover, in_block, in_block-halves, half_page, blocks-suc}
use mini_libc.Memory.Buddy.Sound.{RecordsOk-order, IsSound, available, OrdersOk}
use mini_libc.Memory.Buddy.Resplit.{resplit, resplit-cover, resplit-OrdersOk}
use mini_libc.Memory.Buddy.Addresses.{block_index-eq, lower_half}
use mini_libc.Memory.Buddy.Give.{BlockTaken, give-OrdersOk, give-cover}
use mini_libc.Memory.Buddy.AllocSound.{Taken, AllocSpec, chunk_fits, alloc_listed-IsSound}

module _ (P : Pages) (L : PagesLaws P) where
  pub available-le_one :
      (a : Arena P.State) (t : Ptr) (p : ℕ) → IsSound P L a → p < 128 → available P L a t p ≤ 1
  unfolding available
  available-le_one a t p h small = ground (arith, h.orders_ok.disjoint t p small)

  pub available-used :
      (a : Arena P.State) (t : Ptr) (p : ℕ)
      → a.in_use t ≢ 0
      → available P L a t p ≡ cover a.order t p
  unfolding available
  available-used a t p u = rw (==_false (a.in_use t) 0 u)

  module _ (k : ℕ) (a a' : Arena P.State) (st block : ℕ) (lt : suc k < 7) (ha : IsSound P L a)
      (h : IsSound P L a') (t : Taken P L (suc k) a st block a') where
    upper : ℕ
    upper = 2 * t.index + 1

    taken-index : block_index (a'.chunk st) block (suc k) ≡ t.index
    taken-index =
        block_index-eq (a'.chunk st) t.index (suc k) block lt (chunk_fits P L a' st h t.used)
          (record {
            index_lt = t.index_lt;
            from_start = omega (arith, t.here);
            below_end = omega (arith, t.here, one-le-pow (12 + suc k) 2 (omega arith));
          })

    abbrev orders : Orders
    orders = resplit a'.in_use a'.order (suc k) (
        update (a'.order (suc k)).split st
          (set_bit ((a'.order (suc k)).split st) t.index % 2 ^ blocks (suc k)))

    orders-cover : (s : Ptr) (p : ℕ) → cover orders s p ≡ cover a'.order s p
    orders-cover s p = resplit-cover a'.in_use a'.order (suc k) _ s p

    orders-ok : OrdersOk a'.in_use orders
    orders-ok = resplit-OrdersOk a'.in_use a'.order (suc k) _ h.orders_ok

    upper-range : upper < blocks k
    unfolding upper
    upper-range = omega (arith, blocks-suc k, t.index_lt)

    upper-taken : BlockTaken orders k st upper
    unfolding upper
    upper-taken p small e = ground (
      arith,
      half_page k p,
      t.pages st p small,
      available-le_one a st p ha small,
      available-used a' st p t.used,
      orders-cover st p,
    )

    not_null : st ≢ null
    not_null e = t.used (ap a'.in_use e ∙ h.records_ok.null_unused)

    split-eq :
        split_block P k st block a'
        ≡ record a' { order = update orders k (add_any k st upper (orders k)) }
    unfolding split_block set_split upper
    split-eq = rw taken-index

    split-IsSound :
        IsSound P L (record a' { order = update orders k (add_any k st upper (orders k)) })
    split-IsSound = record {
      orders_ok =
          give-OrdersOk a'.in_use orders orders-ok k (omega arith) st upper upper-range t.used
            not_null upper-taken;
      records_ok = RecordsOk-order P L a' _ h.records_ok;
    }

    split-cover :
        (s : Ptr) (p : ℕ)
        → p < 128
        → cover (update orders k (add_any k st upper (orders k))) s p
          ≡ cover a'.order s p + in_block k st upper s p
    split-cover s p small =
        give-cover a'.in_use orders orders-ok k (omega arith) st upper upper-range t.used not_null
          upper-taken s p small
        ∙ ap (λ z. z + in_block k st upper s p) (orders-cover s p)

    split-Taken :
        Taken P L k a st block
          (record a' { order = update orders k (add_any k st upper (orders k)) })
    unfolding upper available
    split-Taken = record {
      index = 2 * t.index;
      index_lt = omega (arith, blocks-suc k, t.index_lt);
      used = t.used;
      here = t.here ∙ ap (λ z. a'.chunk st + z) (lower_half t.index k);
      pages = λ s p small. ground (
        arith,
        t.used,
        t.pages s p small,
        split-cover s p small,
        in_block-halves k st t.index s p,
      );
      kept = t.kept;
      old_chunk = t.old_chunk;
      new_chunk = t.new_chunk;
    }

  alloc_split_sound :
      (k : ℕ) (f : Alloc P)
      → suc k < 7
      → AllocSpec P L (suc k) f
      → AllocSpec P L k (alloc_split P k f)
  unfolding alloc_split
  alloc_split_sound k f lt spec a h =
      let (ok, out) = spec a h in
      elim (Option-cases (f a).0) [
        | inl e ↦ rw (alloc_split, e) (ok, rw e at out)
        | inr (r, e) ↦
            let t : Taken P L (suc k) a r.0 r.1 (f a).1 = rw e at out in
            rw (alloc_split, e, split-eq k a (f a).1 r.0 r.1 lt h ok t)
              (
                split-IsSound k a (f a).1 r.0 r.1 lt h ok t,
                split-Taken k a (f a).1 r.0 r.1 lt h ok t,
              )
      ]

  pub alloc_level_sound :
      (k : ℕ) (f : Alloc P)
      → suc k < 7
      → AllocSpec P L (suc k) f
      → AllocSpec P L k (alloc_level P k f)
  unfolding alloc_level
  alloc_level_sound k f lt spec a h = elim (ℕ_discrete (a.order k).links.head null) [
    | yes z ↦ rw (==_true (a.order k).links.head null z) (alloc_split_sound k f lt spec a h)
    | no ne ↦
        rw (==_false (a.order k).links.head null ne)
          (alloc_listed-IsSound P L k a (omega arith) h ne)
  ]
