-- ===== src/Memory/Buddy/Blank.antt =====
-- A record that is zeroed has no available block.
use mini_libc.Base.{
  ℕ, ◌/◌, ◌%◌, ◌^◌, ◌<◌, ◌≡◌, ◌≢◌, refl, ◌∙◌, true, arith, ==_false, ==_true, ◌==◌, if◌then◌else◌,
  update, update_self, update_ne,
}
use native.Mathlib.Decide.{ℕ_discrete}
use mini_libc.Bits.{bit-zero}
use mini_libc.Bits.Count.{total-zero, total-same}
use mini_libc.Links.{Ptr, null, has, erase, bypass}
use mini_libc.Links.Push.{reset-IsChain}
use mini_libc.Links.Unlink.{has-erase_ne, has-erase_self, reset-bypass-IsChain}
use mini_libc.Memory.Buddy.{OrderState, blocks, zero_order}
use mini_libc.Memory.Buddy.Order.{is_free, free_count}
use mini_libc.Memory.Buddy.Listed.{IsListed}
use mini_libc.Memory.Buddy.Cover.{Orders, cover}
use mini_libc.Memory.Buddy.Sound.{OrdersOk}

pub zero_order-free :
    (st : Ptr) (o : OrderState) (t : Ptr) (i : ℕ)
    → is_free (zero_order st o) t i ≡ (if t == st then 0 else is_free o t i)
unfolding zero_order is_free
zero_order-free st o t i = ground (arith, bit-zero (i % 64))

zero_order-count :
    (n : ℕ) (st : Ptr) (o : OrderState) (t : Ptr)
    → free_count n (zero_order st o) t ≡ (if t == st then 0 else free_count n o t)
zero_order-count n st o t = elim (ℕ_discrete t st) [
  | yes e ↦ rw (==_true t st e) (total-zero n _ (λ i lt. ground (arith, zero_order-free st o t i)))
  | no ne ↦
      rw (==_false t st ne) (total-same n _ _ (λ i lt. ground (arith, zero_order-free st o t i)))
]

module _ (n : ℕ) (st : Ptr) (o : OrderState) (h : IsListed n o) where
  -- A record in no list.
  pub zero-IsListed : o.avail_num st ≡ 0 → IsListed n (zero_order st o)
  unfolding zero_order
  zero-IsListed z = record {
    members = h.members;
    chain = reset-IsChain st o.links h.members h.chain (ground (arith, h.listed st));
    counted = λ t. ground (arith, zero_order-count n st o t, h.counted t);
    listed = λ t. ground (arith, h.listed t, h.listed st);
  }

  -- A record in the list, which is taken out before.
  pub bypass-IsListed :
      o.avail_num st ≢ 0 → IsListed n (zero_order st (record o { links = bypass st o.links }))
  unfolding zero_order is_free
  bypass-IsListed u =
      let m : has st h.members ≡ true = ground (arith, h.listed st) in
      record {
        members = erase st h.members;
        chain = reset-bypass-IsChain st o.links h.members h.chain m;
        counted = λ t. ground (arith, zero_order-count n st o t, h.counted t);
        listed = λ t. ground (
          arith,
          h.listed t,
          has-erase_ne t st h.members,
          has-erase_self o.links.next o.links.prev null o.links.head st h.members h.chain.chain,
        );
      }

-- The orders after the record st is zeroed, in all of them.
module _ (in_use : Ptr → ℕ) (orders : Orders) (st : Ptr) where
  blank-cover :
      (orders' : Orders)
      → ((k : ℕ)
          → k < 7
          → (t : Ptr) (i : ℕ)
          → is_free (orders' k) t i ≡ (if t == st then 0 else is_free (orders k) t i))
      → (t : Ptr) (p : ℕ) → cover orders' t p ≡ (if t == st then 0 else cover orders t p)
  unfolding cover
  blank-cover orders' same t p = elim (ℕ_discrete t st) [
    | yes e ↦ rw (==_true t st e) (total-zero 7 _ (λ k lt. ground (arith, same k lt t (p / 2 ^ k))))
    | no ne ↦
        rw (==_false t st ne) (total-same 7 _ _ (λ k lt. ground (arith, same k lt t (p / 2 ^ k))))
  ]

  module _ (orders' : Orders) (h : OrdersOk in_use orders)
      (lists : (k : ℕ) → k < 7 → IsListed (blocks k) (orders' k))
      (same : (k : ℕ)
        → k < 7
        → (t : Ptr) (i : ℕ)
        → is_free (orders' k) t i ≡ (if t == st then 0 else is_free (orders k) t i))
      (counts : (k : ℕ)
        → k < 7
        → (t : Ptr)
        → (orders' k).avail_num t ≡ (if t == st then 0 else (orders k).avail_num t)) where
    pub blank-OrdersOk : OrdersOk (update in_use st 0) orders'
    blank-OrdersOk = record {
      listed = lists;
      disjoint = λ t p small. ground (arith, blank-cover orders' same t p, h.disjoint t p small);
      unused_blank = λ t k lt e. ground (arith, counts k lt t, h.unused_blank t k lt);
    }

pub zero-OrdersOk :
    (in_use : Ptr → ℕ) (orders : Orders) (st : Ptr)
    → OrdersOk in_use orders
    → ((k : ℕ) → k < 7 → (orders k).avail_num st ≡ 0)
    → OrdersOk (update in_use st 0) (λ k. zero_order st (orders k))
unfolding zero_order
zero-OrdersOk in_use orders st h z =
    blank-OrdersOk in_use orders st (λ k. zero_order st (orders k)) h
      (λ k lt. zero-IsListed (blocks k) st (orders k) (h.listed k lt) (z k lt))
      (λ k lt. zero_order-free st (orders k)) (λ k lt t. refl)

pub zero-cover :
    (orders : Orders) (st t : Ptr) (p : ℕ)
    → cover (λ k. zero_order st (orders k)) t p ≡ (if t == st then 0 else cover orders t p)
zero-cover orders st t p =
    blank-cover (λ s. 0) orders st (λ k. zero_order st (orders k))
      (λ k lt. zero_order-free st (orders k)) t p

-- The record leaves the list of order 6 first.
module _ (in_use : Ptr → ℕ) (orders : Orders) (st : Ptr) where
  abbrev pub bypassed : Orders
  bypassed = update orders 6 (record (orders 6) { links = bypass st (orders 6).links })

  bypassed-free :
      (k : ℕ) (t : Ptr) (i : ℕ)
      → is_free (zero_order st (bypassed k)) t i ≡ (if t == st then 0 else is_free (orders k) t i)
  bypassed-free k t i =
      zero_order-free st (bypassed k) t i
      ∙ elim (ℕ_discrete k 6) [ yes e ↦ unfold is_free in ground arith | no ne ↦ ground arith ]

  pub bypassed-cover :
      (t : Ptr) (p : ℕ)
      → cover (λ k. zero_order st (bypassed k)) t p ≡ (if t == st then 0 else cover orders t p)
  bypassed-cover t p =
      blank-cover in_use orders st (λ k. zero_order st (bypassed k)) (λ k lt. bypassed-free k) t p

  bypassed-counts :
      (k : ℕ) (t : Ptr)
      → (zero_order st (bypassed k)).avail_num t ≡ (if t == st then 0 else (orders k).avail_num t)
  unfolding zero_order
  bypassed-counts k t = ground arith

  module _ (h : OrdersOk in_use orders) (top : (orders 6).avail_num st ≢ 0)
      (below : (k : ℕ) → k < 6 → (orders k).avail_num st ≡ 0) where
    bypassed-lists : (k : ℕ) → k < 7 → IsListed (blocks k) (zero_order st (bypassed k))
    bypassed-lists k lt = elim (ℕ_discrete k 6) [
      | yes e ↦
          rw (e, update_self orders 6 (record (orders 6) { links = bypass st (orders 6).links }))
            (bypass-IsListed 2 st (orders 6) (h.listed 6 (omega arith)) top)
      | no ne ↦
          rw (update_ne orders 6 k (record (orders 6) { links = bypass st (orders 6).links }) ne)
            (zero-IsListed (blocks k) st (orders k) (h.listed k lt) (below k (omega arith)))
    ]

    pub bypassed-OrdersOk : OrdersOk (update in_use st 0) (λ k. zero_order st (bypassed k))
    bypassed-OrdersOk =
        blank-OrdersOk in_use orders st (λ k. zero_order st (bypassed k)) h bypassed-lists
          (λ k lt. bypassed-free k) (λ k lt. bypassed-counts k)
