-- ===== src/Memory/Buddy/Listed.antt =====
-- The list of one order: it holds exactly the chunks with an available block of that order, and
-- `avail_num` counts those blocks.
use mini_libc.Base.{
  ℕ, ◌+◌, ◌≤◌, ◌<◌, ◌≡◌, ◌≢◌, inl, inr, true, false, List, ◌∷◌, arith, ltb, ◌==◌, Bool-cases,
}
use mini_libc.Bits.Words.{u8}
use mini_libc.Bits.Count.{total-le_length}
use mini_libc.Links.{Ptr, null, Links, has, erase, IsChain}
use mini_libc.Links.Push.{push_front-IsChain}
use mini_libc.Links.Unlink.{has-erase_ne, has-erase_self}
use mini_libc.Memory.Buddy.{OrderState, more_avail, less_avail}
use mini_libc.Memory.Buddy.Order.{
  is_free, is_free_le_one, Marks, free_count, free_count_add, free_count_remove, free_count_other,
}

-- For an order with n blocks in a chunk.
pub record IsListed (n : ℕ) (o : OrderState) : Type 0 where
  pub members : List Ptr
  pub chain : IsChain o.links members
  pub counted : (st : Ptr) → o.avail_num st ≡ free_count n o st
  pub listed : (st : Ptr) → has st members ≡ ltb 0 (o.avail_num st)

free_count-le : (n : ℕ) (o : OrderState) (st : Ptr) → free_count n o st ≤ n
free_count-le n o st = total-le_length n (is_free o st) (is_free_le_one o st)

module _ (n : ℕ) (small : n ≤ 128) (st : Ptr) (i : ℕ) (o o' : OrderState) (lt : i < n) where
  -- A block that was not available becomes available.
  pub more_avail-IsListed :
      st ≢ null
      → Marks n 1 st i o o'
      → is_free o st i ≡ 0
      → ((t : Ptr) → o'.avail_num t ≡ o.avail_num t)
      → o'.links ≡ o.links
      → IsListed n o
      → IsListed n (more_avail st o')
  unfolding more_avail is_free
  more_avail-IsListed ne m off same_num same_links h =
      let bound = free_count-le n o st in
      let grown = free_count_add n st i o o' lt m off in
      let counted' : (t : Ptr) → (more_avail st o').avail_num t ≡ free_count n o' t = λ t.
        ground
          (arith, bound, grown, same_num t, h.counted t, free_count_other n st i o o' lt 1 t m) in
      elim (Bool-cases (u8 (o'.avail_num st + 1) == 1)) [
        | inl first ↦
            let fresh : has st h.members ≡ false =
              ground (arith, bound, same_num st, h.counted st, h.listed st) in
            record {
              members = st ∷ h.members;
              chain =
                  rw (first, same_links) (push_front-IsChain st o.links h.members h.chain ne fresh);
              counted = counted';
              listed = λ t. ground (arith, same_num t, h.listed t);
            }
        | inr more ↦ record {
          members = h.members;
          chain = rw (more, same_links) h.chain;
          counted = counted';
          listed = λ t. ground (arith, bound, same_num t, h.counted t, h.listed t);
        }
      ]

  -- An available block is no longer available; `take_out` is what the source does to the list.
  pub less_avail-IsListed :
      (take_out : Ptr → Links → Links)
      → Marks n 0 st i o o'
      → is_free o st i ≡ 1
      → ((t : Ptr) → o'.avail_num t ≡ o.avail_num t)
      → o'.links ≡ o.links
      → (h : IsListed n o)
      → (has st h.members ≡ true → IsChain (take_out st o.links) (erase st h.members))
      → IsListed n (less_avail take_out st o')
  unfolding less_avail is_free
  less_avail-IsListed take_out m on same_num same_links h out =
      let bound = free_count-le n o st in
      let shrunk = free_count_remove n st i o o' lt m on in
      let counted' : (t : Ptr) → (less_avail take_out st o').avail_num t ≡ free_count n o' t = λ t.
        ground
          (arith, bound, shrunk, same_num t, h.counted t, free_count_other n st i o o' lt 0 t m) in
      let inside : has st h.members ≡ true = ground (arith, shrunk, h.counted st, h.listed st) in
      elim (Bool-cases (u8 (o'.avail_num st + 255) == 0)) [
        | inl last ↦ record {
          members = erase st h.members;
          chain = rw (last, same_links) (out inside);
          counted = counted';
          listed = λ t. ground (
            arith,
            same_num t,
            h.listed t,
            has-erase_ne t st h.members,
            has-erase_self o.links.next o.links.prev null o.links.head st h.members h.chain.chain,
          );
        }
        | inr more ↦ record {
          members = h.members;
          chain = rw (more, same_links) h.chain;
          counted = counted';
          listed = λ t. ground (arith, bound, shrunk, same_num t, h.counted t, h.listed t);
        }
      ]
