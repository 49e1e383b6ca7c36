-- ===== src/Memory/Buddy/FreeSound.antt =====
-- Release gives back exactly the pages of one block, at every order.
use mini_libc.Base.{
  ℕ, suc, ◌+◌, ◌/◌, ◌^◌, bit_xor, ◌<◌, ◌≡◌, ◌≢◌, refl, sym, ap, ◌∙◌, arith, ==_false, ==_true,
  update,
}
use native.Mathlib.Decide.{ℕ_discrete}
use mini_libc.Bits.Words.{buddy_index}
use mini_libc.Links.{Ptr, null}
use mini_libc.Memory.Pages.{Pages, PagesLaws}
use mini_libc.Memory.Buddy.{Arena, blocks, block_index, index_block, clear_split}
use mini_libc.Memory.Buddy.Free.{Free, join_block, return_block, free_level}
use mini_libc.Memory.Buddy.Order.{is_free}
use mini_libc.Memory.Buddy.Blocks.{remove_any}
use mini_libc.Memory.Buddy.Cover.{Orders, cover, in_block, half_page, blocks-suc}
use mini_libc.Memory.Buddy.Sound.{OrdersOk, RecordsOk-order, IsSound, available}
use mini_libc.Memory.Buddy.AllocSound.{chunk_fits}
use mini_libc.Memory.Buddy.Addresses.{InBlock, index_block-eq, block_index-eq}
use native.Mathlib.Nat.{one-le-pow}
use mini_libc.Memory.Buddy.Buddies.{buddy-lt, mergeable-eq}
use mini_libc.Memory.Buddy.Give.{
  BlockTaken, give-OrdersOk, give-cover, withdraw-OrdersOk, withdraw-cover,
}
use mini_libc.Memory.Buddy.Resplit.{resplit-cover, resplit-OrdersOk}
use mini_libc.Memory.Buddy.Split.{available-used}

module _ (P : Pages) (L : PagesLaws P) where
  -- The block idx of order k of st is allocated, and ptr is one of its addresses.
  pub record Held (k : ℕ) (a : Arena P.State) (st idx ptr : ℕ) : Type 0 where
    pub used : a.in_use st ≢ 0
    pub here : InBlock (a.chunk st) idx k ptr
    pub taken : (p : ℕ) → p < 128 → p / 2 ^ k ≡ idx → available P L a st p ≡ 0

  pub record Returned (k : ℕ) (a : Arena P.State) (st idx : ℕ) (a' : Arena P.State) : Type 0 where
    pub pages :
        (t : Ptr) (p : ℕ)
        → p < 128
        → available P L a' t p ≡ available P L a t p + in_block k st idx t p
    pub kept : (t : Ptr) → t ≢ st → (a'.in_use t ≡ a.in_use t) × (a'.chunk t ≡ a.chunk t)
    pub same_chunk : a'.in_use st ≢ 0 → (a'.in_use st ≡ a.in_use st) × (a'.chunk st ≡ a.chunk st)

  abbrev pub FreeSpec : ℕ → Free P → Type 0
  FreeSpec k f =
      (a : Arena P.State) (st idx ptr : ℕ)
      → IsSound P L a
      → Held k a st idx ptr
      → IsSound P L (f ptr st a) × Returned k a st idx (f ptr st a)

  module _ (k : ℕ) (a : Arena P.State) (st idx ptr : ℕ) (lt : k < 7) (h : IsSound P L a)
      (b : Held k a st idx ptr) where
    pub st-not_null : st ≢ null
    st-not_null e = b.used (ap a.in_use e ∙ h.records_ok.null_unused)

    pub held-index : block_index (a.chunk st) ptr k ≡ idx
    held-index = block_index-eq (a.chunk st) idx k ptr lt (chunk_fits P L a st h b.used) b.here

    pub block-taken : BlockTaken a.order k st idx
    block-taken p small e = sym (available-used P L a st p b.used) ∙ b.taken p small e

    -- The block itself becomes available.
    pub return_block-IsSound :
        IsSound P L (return_block P k st idx a) × Returned k a st idx (return_block P k st idx a)
    unfolding return_block available
    return_block-IsSound = (
      record {
        orders_ok =
            give-OrdersOk a.in_use a.order h.orders_ok k lt st idx b.here.index_lt b.used
              st-not_null block-taken;
        records_ok = RecordsOk-order P L a _ h.records_ok;
      },
      record {
        pages = λ t p small. ground (
          arith,
          b.used,
          give-cover a.in_use a.order h.orders_ok k lt st idx b.here.index_lt b.used st-not_null
              block-taken t p small,
        );
        kept = λ t ne. (refl, refl);
        same_chunk = λ u. (refl, refl);
      },
    )

    -- The buddy leaves its list, so that the block of the next order is allocated as a whole.
    module _ (below : k < 6) (on : is_free (a.order k) st (bit_xor idx 1) ≡ 1) where
      pub range : bit_xor idx 1 < blocks k
      range = buddy-lt k idx lt b.here.index_lt

      abbrev pub removed : Orders
      removed = update a.order k (remove_any k st (bit_xor idx 1) (a.order k))

      removed-ok : OrdersOk a.in_use removed
      removed-ok =
          withdraw-OrdersOk a.in_use a.order h.orders_ok k lt st (bit_xor idx 1) range b.used on

      pub removed-cover :
          (t : Ptr) (p : ℕ)
          → p < 128
          → cover a.order t p ≡ cover removed t p + in_block k st (bit_xor idx 1) t p
      removed-cover =
          withdraw-cover a.in_use a.order h.orders_ok k lt st (bit_xor idx 1) range b.used on

      joined-cover :
          (t : Ptr) (p : ℕ) → cover (join_block P k st idx a).order t p ≡ cover removed t p
      unfolding join_block clear_split
      joined-cover t p = resplit-cover a.in_use removed (suc k) _ t p

      joined-IsSound : IsSound P L (join_block P k st idx a)
      unfolding join_block clear_split
      joined-IsSound = record {
        orders_ok = resplit-OrdersOk a.in_use removed (suc k) _ removed-ok;
        records_ok = RecordsOk-order P L a _ h.records_ok;
      }

      whole :
          (t : Ptr) (p : ℕ)
          → in_block (suc k) st (idx / 2) t p
            ≡ in_block k st idx t p + in_block k st (bit_xor idx 1) t p
      whole t p = ground (arith, buddy_index idx, half_page k p)

      joined-Held :
          Held
            (suc k)
            (join_block P k st idx a)
            st
            (idx / 2)
            (index_block (a.chunk st) (idx / 2) (suc k))
      unfolding join_block available
      joined-Held =
          let i_lt : idx / 2 < blocks (suc k) =
            ground (arith, blocks-suc k, b.here.index_lt, range, buddy_index idx) in
          let e =
            index_block-eq (a.chunk st) (idx / 2) (suc k) (omega arith)
              (chunk_fits P L a st h b.used) i_lt in
          record {
            used = b.used;
            here = record {
              index_lt = i_lt;
              from_start = omega (arith, e);
              below_end = omega (arith, e, one-le-pow (12 + suc k) 2 (omega arith));
            };
            taken = λ p small q. ground (
              arith,
              b.used,
              whole st p,
              joined-cover st p,
              removed-cover st p small,
              h.orders_ok.disjoint st p small,
              block-taken p small,
            );
          }

      joined-Returned :
          (a' : Arena P.State)
          → Returned (suc k) (join_block P k st idx a) st (idx / 2) a'
          → Returned k a st idx a'
      unfolding join_block available
      joined-Returned a' r = record {
        pages = λ t p small. ground (
          arith,
          b.used,
          whole t p,
          joined-cover t p,
          removed-cover t p small,
          r.pages t p small,
        );
        kept = r.kept;
        same_chunk = r.same_chunk;
      }

  pub free_level_sound :
      (k : ℕ) (f : Free P) → suc k < 7 → FreeSpec (suc k) f → FreeSpec k (free_level P k f)
  unfolding free_level
  free_level_sound k f lt spec a st idx ptr h b =
      let lt' : k < 7 = omega arith in
      let e = held-index k a st idx ptr lt' h b in
      let m = mergeable-eq P k st idx a lt' b.here.index_lt in
      elim (ℕ_discrete (is_free (a.order k) st (bit_xor idx 1)) 1) [
        | yes on ↦
            let (ok, r) =
              spec (join_block P k st idx a) st (idx / 2)
                (index_block (a.chunk st) (idx / 2) (suc k))
                (joined-IsSound k a st idx ptr lt' h b (omega arith) on)
                (joined-Held k a st idx ptr lt' h b (omega arith) on) in
            rw (free_level, e, m, ==_true (is_free (a.order k) st (bit_xor idx 1)) 1 on)
              (ok, joined-Returned k a st idx ptr lt' h b (omega arith) on _ r)
        | no off ↦
            rw (free_level, e, m, ==_false (is_free (a.order k) st (bit_xor idx 1)) 1 off)
              (return_block-IsSound k a st idx ptr lt' h b)
      ]
