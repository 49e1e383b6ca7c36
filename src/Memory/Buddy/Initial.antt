-- ===== src/Memory/Buddy/Initial.antt =====
-- The zeroed arena, where no chunk and no record is there.
use mini_libc.Base.{ℕ, ◌/◌, ◌%◌, ◌^◌, ◌≡◌, refl, sym, arith, []}
use mathlib.Core.Bool.{false≢true}
use mini_libc.Bits.{bit-zero}
use mini_libc.Bits.Count.{total-zero}
use mini_libc.Links.{Ptr, null, Links, IsChain}
use mini_libc.Memory.Pages.{Pages, PagesLaws}
use mini_libc.Memory.Buddy.{Arena, OrderState, blocks}
use mini_libc.Memory.Buddy.Order.{is_free}
use mini_libc.Memory.Buddy.Listed.{IsListed}
use mini_libc.Memory.Buddy.Cover.{cover}
use mini_libc.Memory.Buddy.Sound.{IsSound}

abbrev no_links : Links
no_links = record { next = λ x. null; prev = λ x. null; head = null }

abbrev no_blocks : OrderState
no_blocks = record { avail_num = λ x. 0; bitmap = λ w x. 0; split = λ x. 0; links = no_links }

abbrev pub empty_arena : (P : Pages) → P.State → Arena P.State
empty_arena P s = record {
  in_use = λ x. 0;
  order = λ k. no_blocks;
  empty = no_links;
  chunk_mmap_ctx = λ x. 0;
  chunk = λ x. 0;
  chunk_group_mmap_ctx = λ x. 0;
  groups = no_links;
  chunk_num = 0;
  mmap_arena = s;
}

no_links-IsChain : IsChain no_links []
no_links-IsChain = record { chain = refl; outside = λ a m. refl }

not-free : (st : Ptr) (i : ℕ) → is_free no_blocks st i ≡ 0
unfolding is_free
not-free st i = bit-zero (i % 64)

no_blocks-IsListed : (n : ℕ) → IsListed n no_blocks
no_blocks-IsListed n = record {
  members = [];
  chain = no_links-IsChain;
  counted = λ st. sym (total-zero n (is_free no_blocks st) (λ i lt. not-free st i));
  listed = λ st. refl;
}

no_cover : (st : Ptr) (p : ℕ) → cover (λ k. no_blocks) st p ≡ 0
unfolding cover
no_cover st p = total-zero 7 _ (λ k lt. not-free st (p / 2 ^ k))

-- The zeroed arena is sound, and no page of it is allocated.
pub empty_arena-IsSound :
    (P : Pages) (L : PagesLaws P) (s : P.State) → IsSound P L (empty_arena P s)
empty_arena-IsSound P L s = record {
  orders_ok = record {
    listed = λ k lt. no_blocks-IsListed (blocks k);
    disjoint = λ st p lt. omega (arith, no_cover st p);
    unused_blank = λ st k lt e. refl;
  };
  records_ok = record {
    empties = [];
    empty_chain = no_links-IsChain;
    empty_unused = λ st m. refl;
    null_unused = refl;
    empty_group = λ st m. absurd (false≢true m);
    used_group = λ st u. absurd (u refl);
    chunk_owned = λ st u. absurd (u refl);
    ctx_apart = λ st t u v ne. absurd (u refl);
  };
}
