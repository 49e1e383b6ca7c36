-- ===== src/Memory/Buddy/Give.antt =====
-- A block none of whose pages is available becomes available, and an available block stops to be.
use mini_libc.Base.{ℕ, ◌+◌, ◌*◌, ◌/◌, ◌^◌, ◌≤◌, ◌<◌, ◌≡◌, ◌≢◌, arith, update}
use mini_libc.Links.{Ptr, null}
use mini_libc.Memory.Buddy.{blocks}
use mini_libc.Memory.Buddy.Order.{is_free}
use mini_libc.Memory.Buddy.Blocks.{
  blocks-Bounds, Changed, add_any, add_any-Changed, remove_any, remove_any-Changed,
}
use mini_libc.Memory.Buddy.Cover.{
  Orders, cover, cover-add, cover-remove, in_block, is_free-le-cover, first_page, first_page-lt,
}
use mini_libc.Memory.Buddy.Sound.{OrdersOk, remove-OrdersOk, add-OrdersOk}

-- No page of the block is available.
abbrev pub BlockTaken : Orders → ℕ → Ptr → ℕ → Type 0
BlockTaken orders k st i = (p : ℕ) → p < 128 → p / 2 ^ k ≡ i → cover orders st p ≡ 0

module _ (in_use : Ptr → ℕ) (orders : Orders) (h : OrdersOk in_use orders) (k : ℕ) (lt : k < 7)
    (st : Ptr) (i : ℕ) (range : i < blocks k) where
  pub taken-not_free : BlockTaken orders k st i → is_free (orders k) st i ≡ 0
  taken-not_free none =
      let e = first_page k i in
      let small = first_page-lt k i lt range in
      let le : is_free (orders k) st i ≤ cover orders st (i * 2 ^ k) =
        rw e at (is_free-le-cover orders k st (i * 2 ^ k) lt) in
      omega (arith, le, none (i * 2 ^ k) small e)

  module _ (used : in_use st ≢ 0) where
    add-Changed :
        st ≢ null
        → BlockTaken orders k st i
        → Changed k 1 st i (orders k) (add_any k st i (orders k))
    add-Changed ne none =
        add_any-Changed k (blocks-Bounds k lt) st (orders k) (h.listed k lt) i ne range
          (taken-not_free none)

    pub give-OrdersOk :
        st ≢ null
        → BlockTaken orders k st i
        → OrdersOk in_use (update orders k (add_any k st i (orders k)))
    give-OrdersOk ne none =
        add-OrdersOk in_use orders k lt st i (add_any k st i (orders k)) (add-Changed ne none) used
          none h

    pub give-cover :
        st ≢ null
        → BlockTaken orders k st i
        → (t : Ptr) (p : ℕ) → p < 128
        → cover (update orders k (add_any k st i (orders k))) t p
          ≡ cover orders t p + in_block k st i t p
    give-cover ne none =
        cover-add k lt st i orders (add_any k st i (orders k)) (add-Changed ne none)

    remove-Changed :
        is_free (orders k) st i ≡ 1 → Changed k 0 st i (orders k) (remove_any k st i (orders k))
    remove-Changed on =
        remove_any-Changed k (blocks-Bounds k lt) st (orders k) (h.listed k lt) i range on

    pub withdraw-OrdersOk :
        is_free (orders k) st i ≡ 1
        → OrdersOk in_use (update orders k (remove_any k st i (orders k)))
    withdraw-OrdersOk on =
        remove-OrdersOk in_use orders k lt st i (remove_any k st i (orders k)) (remove-Changed on)
          used h

    pub withdraw-cover :
        is_free (orders k) st i ≡ 1
        → (t : Ptr) (p : ℕ) → p < 128
        → cover orders t p
          ≡ cover (update orders k (remove_any k st i (orders k))) t p + in_block k st i t p
    withdraw-cover on =
        cover-remove k lt st i orders (remove_any k st i (orders k)) (remove-Changed on)
