-- ===== src/Memory/Mmap/Free.antt =====
-- `mmap_free` keeps the invariant.
use mini_libc.Base.{◌≡◌, refl, inl, inr, sym, true, List, ◌∷◌, update_ne}
use mini_libc.Links.{Ptr, null, has, erase}
use mini_libc.Links.Unlink.{has-erase_other, has-erase_self}
use mini_libc.Links.Chain.{ne_of_has, has-cases}
use mini_libc.Memory.Mmap.{Kernel, KernelLaws, MmapArena, deactivate, mmap_free}
use mini_libc.Memory.Mmap.Lists.{Keeps, deactivate-AreLists}
use mini_libc.Memory.Mmap.Sound.{IsSound}

module _ (K : Kernel) (laws : KernelLaws K) where
  module _ (s : MmapArena K) (xs : List Ptr) (h : IsSound K laws s xs) where
    erased-IsSound : (x : Ptr) → has x xs ≡ true → IsSound K laws (mmap_free K s x) (erase x xs)
    unfolding mmap_free deactivate
    erased-IsSound x m =
        let s1 = record s { kernel = K.munmap s.kernel (s.ptr x) (s.len x) } in
        let out = has-erase_self s.next s.prev null s.active x xs h.lists.active_chain in
        let was = λ (a : Ptr) (q : has a (erase x xs) ≡ true). has-erase_other a x xs q in
        let ne = λ (a : Ptr) (q : has a (erase x xs) ≡ true). ne_of_has a x (erase x xs) q out in
        let old_ptr =
          λ (a : Ptr) (q : has a (erase x xs) ≡ true). update_ne s.ptr x a null (ne a q) in
        let old_len = λ (a : Ptr) (q : has a (erase x xs) ≡ true). update_ne s.len x a 0 (ne a q) in
        record {
          inactives = x ∷ h.inactives;
          pages = h.pages;
          lists = deactivate-AreLists K s1 xs x h.inactives h.lists m;
          group_list = h.group_list;
          located = λ a q. h.located a (elim q [
            | inl q' ↦ inl (was a q')
            | inr q' ↦ elim (has-cases a x h.inactives q') [
              | inl e ↦ inl (rw e m)
              | inr (_, i) ↦ inr i
            ]
          ]);
          page_mapped = λ g n.
              laws.munmap_keeps s.kernel (s.ptr x) (s.len x) g 4096 (h.page_apart x g m n)
                (h.page_mapped g n);
          region_mapped = λ a q.
              rw (old_ptr a q, old_len a q)
                (laws.munmap_keeps s.kernel (s.ptr x) (s.len x) (s.ptr a) (s.len a)
                  (h.regions_apart x a m (was a q) (λ e. ne a q (sym e)))
                  (h.region_mapped a (was a q)));
          region_bounds = λ a q. rw (old_ptr a q, old_len a q) (h.region_bounds a (was a q));
          regions_apart = λ a b q r d.
              rw (old_ptr a q, old_len a q, old_ptr b r, old_len b r)
                (h.regions_apart a b (was a q) (was b r) d);
          page_apart = λ a g q n. rw (old_ptr a q, old_len a q) (h.page_apart a g (was a q) n);
        }

    -- From a sound arena, `mmap_free` of an active record unmaps the region that the record stands for,
    -- and leads to a sound arena, whose active records are the others, in the same order, each for
    -- the region that it stood for.
    pub mmap_free-IsSound :
        (x : Ptr)
        → has x xs ≡ true
        → let r = mmap_free K s x in
          IsSound K laws r (erase x xs)
          × Keeps K s (erase x xs) r
          × (r.kernel ≡ K.munmap s.kernel (s.ptr x) (s.len x))
    unfolding mmap_free deactivate
    mmap_free-IsSound x m =
        let out = has-erase_self s.next s.prev null s.active x xs h.lists.active_chain in
        (
          erased-IsSound x m,
          λ c q.
              let ne = ne_of_has c x (erase x xs) q out in
              (update_ne s.ptr x c null ne, update_ne s.len x c 0 ne),
          refl,
        )
