-- ===== src/Memory/Buddy/Resplit.antt =====
-- `splitk` takes no part in the invariant: marking a block as split, or as whole again, changes no
-- list, no count and no page.
use mini_libc.Base.{ℕ, ◌≡◌, ◌∙◌, update, update_self, update_ne}
use native.Mathlib.Decide.{ℕ_discrete}
use mini_libc.Links.{Ptr}
use mini_libc.Memory.Buddy.{blocks}
use mini_libc.Memory.Buddy.Order.{is_free}
use mini_libc.Memory.Buddy.Listed.{IsListed}
use mini_libc.Memory.Buddy.Cover.{Orders, cover, cover-same}
use mini_libc.Memory.Buddy.Sound.{OrdersOk}

module _ (in_use : Ptr → ℕ) (orders : Orders) (k : ℕ) (s : Ptr → ℕ) where
  abbrev pub resplit : Orders
  resplit = update orders k (record (orders k) { split = s })

  resplit-free : (j : ℕ) (t : Ptr) (i : ℕ) → is_free (resplit j) t i ≡ is_free (orders j) t i
  unfolding is_free
  resplit-free j t i = elim (ℕ_discrete j k) [
    | yes e ↦ rw (e, update_self orders k (record (orders k) { split = s }))
    | no ne ↦ rw (update_ne orders k j (record (orders k) { split = s }) ne)
  ]

  resplit-IsListed : (j : ℕ) → IsListed (blocks j) (orders j) → IsListed (blocks j) (resplit j)
  unfolding is_free
  resplit-IsListed j h = elim (ℕ_discrete j k) [
    | yes e ↦
        let h' : IsListed (blocks k) (orders k) = rw e at h in
        rw (e, update_self orders k (record (orders k) { split = s }))
          (record {
            members = h'.members;
            chain = h'.chain;
            counted = h'.counted;
            listed = h'.listed;
          })
    | no ne ↦ rw (update_ne orders k j (record (orders k) { split = s }) ne) h
  ]

  resplit-avail : (j : ℕ) (t : Ptr) → (resplit j).avail_num t ≡ (orders j).avail_num t
  resplit-avail j t = elim (ℕ_discrete j k) [
    | yes e ↦ rw (e, update_self orders k (record (orders k) { split = s }))
    | no ne ↦ rw (update_ne orders k j (record (orders k) { split = s }) ne)
  ]

  pub resplit-cover : (t : Ptr) (p : ℕ) → cover resplit t p ≡ cover orders t p
  resplit-cover t p = cover-same orders resplit t p (λ j i l. resplit-free j t i)

  pub resplit-OrdersOk : OrdersOk in_use orders → OrdersOk in_use resplit
  resplit-OrdersOk h = record {
    listed = λ j l. resplit-IsListed j (h.listed j l);
    disjoint = λ t p l. rw (resplit-cover t p) (h.disjoint t p l);
    unused_blank = λ t j l e. resplit-avail j t ∙ h.unused_blank t j l e;
  }
