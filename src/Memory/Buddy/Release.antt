-- ===== src/Memory/Buddy/Release.antt =====
-- `buddy_free_6`: a chunk that is available as a whole goes back to the layer below.
use mini_libc.Base.{
  ℕ, ◌+◌, ◌*◌, ◌/◌, ◌^◌, bit_xor, ◌≤◌, ◌<◌, ◌≡◌, ◌≢◌, inl, inr, ap, ◌∙◌, ◌&&◌, arith, ltb, ◌==◌,
  update, update_ne, Bool-cases,
}
use mini_libc.Bits.Count.{total-zero, total-le}
use mini_libc.Bits.Words.{has_bit, has_bit-eq, buddy_index}
use mini_libc.Links.{Ptr}
use mini_libc.Memory.Pages.{Pages, PagesLaws}
use mini_libc.Memory.Buddy.{Arena, blocks, keep_chunk_num}
use mini_libc.Memory.Buddy.Records.{free_record}
use mini_libc.Memory.Buddy.Free.{release_chunk, return_block, buddy_free_6}
use mini_libc.Memory.Buddy.Order.{is_free}
use mini_libc.Memory.Buddy.Blocks.{in_word_0, remove_any}
use mini_libc.Memory.Buddy.Give.{withdraw-cover}
use mini_libc.Memory.Buddy.Cover.{
  Orders, cover, in_block, is_free-le-cover, first_page, first_page-lt,
}
use mini_libc.Memory.Buddy.Sound.{InGroup, RecordsOk, IsSound, available, RecordsOk-chunk_num}
use mini_libc.Memory.Buddy.Reserve.{Reserved, free_record-RecordsOk}
use mini_libc.Memory.Buddy.Blank.{bypassed, bypassed-cover, bypassed-OrdersOk}
use mini_libc.Memory.Buddy.Buddies.{buddy-lt}
use mini_libc.Memory.Buddy.FreeSound.{
  Held, Returned, FreeSpec, held-index, block-taken, return_block-IsSound,
}

module _ (P : Pages) (L : PagesLaws P) where
  module _ (a : Arena P.State) (st : Ptr) (h : RecordsOk P L a) (used : a.in_use st ≢ 0) where
    -- The chunk's region is none of the others.
    InGroup-free :
        (s : Ptr)
        → InGroup P L a.mmap_arena a.chunk_group_mmap_ctx s
        → InGroup P L (P.mmap_free a.mmap_arena (a.chunk_mmap_ctx st)) a.chunk_group_mmap_ctx s
    InGroup-free s i = record {
      group = i.group;
      index = i.index;
      in_range = i.in_range;
      here = i.here;
      owned = L.free_keeps a.mmap_arena (a.chunk_mmap_ctx st) _ _ _ i.owned λ e.
          let o =
            L.owns_one a.mmap_arena (a.chunk_mmap_ctx st) i.group 4096 (a.chunk st) 524288
              (rw e at i.owned) (h.chunk_owned st used) in
          ground (arith, o);
    }

    abbrev unmapped : Orders → Arena P.State
    unmapped orders = record a {
      order = orders;
      mmap_arena = P.mmap_free a.mmap_arena (a.chunk_mmap_ctx st);
    }

    unmapped-Reserved : (orders : Orders) → Reserved P L st (unmapped orders)
    unmapped-Reserved orders = record {
      empties = h.empties;
      empty_chain = h.empty_chain;
      apart = ground (arith, h.empty_unused st);
      not_null = λ e. used (ap a.in_use e ∙ h.null_unused);
      empty_unused = h.empty_unused;
      null_unused = h.null_unused;
      empty_group = λ s m. InGroup-free s (h.empty_group s m);
      mine = InGroup-free st (h.used_group st used);
      used_group = λ s u ne. InGroup-free s (h.used_group s u);
      chunk_owned = λ s u ne.
          L.free_keeps a.mmap_arena (a.chunk_mmap_ctx st) _ _ _ (h.chunk_owned s u)
            (h.ctx_apart s st u used ne);
      ctx_apart = λ s t u v n m ne. h.ctx_apart s t u v ne;
    }

  module _ (a : Arena P.State) (st idx ptr : ℕ) (h : IsSound P L a) (b : Held P L 6 a st idx ptr)
      (on : is_free (a.order 6) st (bit_xor idx 1) ≡ 1) where
    top : (a.order 6).avail_num st ≢ 0
    top = omega (
      arith,
      total-le 2 (bit_xor idx 1) (is_free (a.order 6) st)
          (buddy-lt 6 idx (omega arith) b.here.index_lt),
      (h.orders_ok.listed 6 (omega arith)).counted st,
    )

    other_half : (p : ℕ) → p < 128 → p / 64 ≢ idx → p / 64 ≡ bit_xor idx 1
    other_half p small ne = ground (arith, buddy_index idx, b.here.index_lt)

    half_free : (p : ℕ) → p < 128 → cover a.order st p + in_block 6 st idx st p ≡ 1
    half_free p small =
        let n = block-taken P L 6 a st idx ptr (omega arith) h b p small in
        let other = other_half p small in
        let c : p / 64 ≡ bit_xor idx 1 → 1 ≤ cover a.order st p = λ e.
          let le = is_free-le-cover a.order 6 st p (omega arith) in omega (arith, on, rw e at le) in
        ground (arith, n, other, c, h.orders_ok.disjoint st p small)

    -- No block of a lower order is left.
    below-free : (k i : ℕ) → k < 6 → i < blocks k → is_free (a.order k) st i ≡ 0
    below-free k i lt range =
        let p = i * 2 ^ k in
        let small = first_page-lt k i (omega arith) range in
        let e = first_page k i in
        let buddy = bit_xor idx 1 in
        let o' = remove_any 6 st buddy (a.order 6) in
        let c =
          withdraw-cover a.in_use a.order h.orders_ok 6 (omega arith) st buddy
            (buddy-lt 6 idx (omega arith) b.here.index_lt) b.used on st p small in
        let none_left : cover (update a.order 6 o') st p ≡ 0 =
          ground (arith, c, half_free p small, other_half p small) in
        let le = is_free-le-cover (update a.order 6 o') k st p (omega arith) in
        let le' = rw (e, update_ne a.order 6 k o' (omega arith)) at le in
        omega (arith, none_left, le')

    below : (k : ℕ) → k < 6 → (a.order k).avail_num st ≡ 0
    below k lt =
        (h.orders_ok.listed k (omega arith)).counted st
        ∙ total-zero (blocks k) _ (λ i r. below-free k i lt r)

    release_chunk-IsSound :
        IsSound P L (release_chunk P st a) × Returned P L 6 a st idx (release_chunk P st a)
    unfolding release_chunk free_record available
    release_chunk-IsSound = (
      record {
        orders_ok = bypassed-OrdersOk a.in_use a.order st h.orders_ok top below;
        records_ok =
            RecordsOk-chunk_num P L
              (free_record P st (unmapped a st h.records_ok b.used (bypassed a.in_use a.order st)))
              _
              (free_record-RecordsOk P L st
                (unmapped a st h.records_ok b.used (bypassed a.in_use a.order st))
                (unmapped-Reserved a st h.records_ok b.used (bypassed a.in_use a.order st)));
      },
      record {
        pages = λ t p small.
            ground (arith, b.used, half_free p small, bypassed-cover a.in_use a.order st t p);
        kept = λ t ne. (ground arith, ground arith);
        same_chunk = λ u. absurd (ground arith);
      },
    )

  pub buddy_free_6-ok : FreeSpec P L 6 (buddy_free_6 P)
  unfolding buddy_free_6 return_block
  buddy_free_6-ok a st idx ptr h b =
      let e = held-index P L 6 a st idx ptr (omega arith) h b in
      let l : bit_xor idx 1 < 64 = omega (arith, buddy-lt 6 idx (omega arith) b.here.index_lt) in
      let m : has_bit ((a.order 6).bitmap 0 st) (bit_xor idx 1)
          ≡ (is_free (a.order 6) st (bit_xor idx 1) == 1) =
        ground (
          arith,
          has_bit-eq ((a.order 6).bitmap 0 st) (bit_xor idx 1) l,
          in_word_0 (a.order 6) st (bit_xor idx 1) l,
        ) in
      elim (Bool-cases
        (has_bit ((a.order 6).bitmap 0 st) (bit_xor idx 1) && ltb keep_chunk_num a.chunk_num)) [
          | inl yes_free ↦
              rw (buddy_free_6, e, yes_free) (release_chunk-IsSound a st idx ptr h b (ground arith))
          | inr kept ↦
              rw (buddy_free_6, e, kept) (return_block-IsSound P L 6 a st idx ptr (omega arith) h b)
        ]
