-- ===== src/Memory/Mmap/Activate.antt =====
-- The record of a new region: `mmap_alloc` keeps the invariant.
use mathlib.Core.Bool.{false≢true}
use mini_libc.Base.{
  ℕ, ◌^◌, ◌<◌, ◌≡◌, ◌≢◌, inl, inr, sym, ap, ◌∙◌, true, false, List, ◌∷◌, arith, update, update_ne,
  update_self, Bool-cases,
}
use mini_libc.Links.{Ptr, null, has}
use mini_libc.Links.Chain.{ne_of_has, has-cases}
use mini_libc.Memory.Mmap.{Kernel, KernelLaws, MmapArena, activate}
use mini_libc.Memory.Mmap.Lists.{HasLists, activate-AreLists}
use mini_libc.Memory.Mmap.Sound.{IsSound, some_inactive}

module _ (K : Kernel) (laws : KernelLaws K) where
  module _ (s : MmapArena K) (xs : List Ptr) (h : IsSound K laws s xs) where
    -- The region of a successful call of `mmap` is recorded.
    pub activate-IsSound :
        (len : ℕ)
        → s.inactive ≢ null
        → (K.mmap s.kernel len).0 < 2 ^ 63
        → IsSound K laws
            (activate K (K.mmap s.kernel len).0 len (record s { kernel = (K.mmap s.kernel len).1 }))
            (s.inactive ∷ xs)
          × (has s.inactive xs ≡ false)
    unfolding activate
    activate-IsSound len ne ok_ptr =
        let x = s.inactive in
        let p = (K.mmap s.kernel len).0 in
        let s1 = record s { kernel = (K.mmap s.kernel len).1 } in
        let (zs, e) = some_inactive K laws s xs h.inactives h.lists ne in
        let lists : HasLists K s xs (x ∷ zs) = rw e at h.lists in
        let out : has x xs ≡ false = elim (Bool-cases (has x xs)) [
          | inl m ↦ absurd (false≢true (sym (lists.apart x m) ∙ ground arith))
          | inr o ↦ o
        ] in
        let len' = update s.len x len in
        let ptr' = update s.ptr x p in
        let old_ptr =
          λ (a : Ptr) (m : has a xs ≡ true). update_ne s.ptr x a p (ne_of_has a x xs m out) in
        let old_len =
          λ (a : Ptr) (m : has a xs ≡ true). update_ne s.len x a len (ne_of_has a x xs m out) in
        let new_ptr = update_self s.ptr x p in
        let new_len = update_self s.len x len in
        let fresh =
          λ (q l : ℕ) (m : laws.mapped s.kernel q l). laws.mmap_apart s.kernel len q l ok_ptr m in
        (
          record {
            inactives = zs;
            pages = h.pages;
            lists = activate-AreLists K s1 xs p len zs lists;
            group_list = h.group_list;
            located = λ a m. h.located a (elim m [
              | inl m' ↦ elim (has-cases a x xs m') [
                | inl q ↦ inr (rw (e, q) (ground arith))
                | inr (d, m'') ↦ inl m''
              ]
              | inr m' ↦ inr (rw e (ground arith))
            ]);
            page_mapped = λ g m. laws.mmap_keeps s.kernel len g 4096 (h.page_mapped g m);
            region_mapped = λ a m. elim (has-cases a x xs m) [
              | inl q ↦
                  rw (ap ptr' q, ap len' q, new_ptr, new_len) (laws.mmap_maps s.kernel len ok_ptr)
              | inr (d, m') ↦
                  rw (old_ptr a m', old_len a m')
                    (laws.mmap_keeps s.kernel len (s.ptr a) (s.len a) (h.region_mapped a m'))
            ];
            region_bounds = λ a m. elim (has-cases a x xs m) [
              | inl q ↦
                  rw (ap ptr' q, ap len' q, new_ptr, new_len) (laws.mmap_bounds s.kernel len ok_ptr)
              | inr (d, m') ↦ rw (old_ptr a m', old_len a m') (h.region_bounds a m')
            ];
            regions_apart = λ a b m n d. elim (has-cases a x xs m) [
              | inl q ↦ elim (has-cases b x xs n) [
                | inl r ↦ absurd (d (q ∙ sym r))
                | inr (_, n') ↦
                    rw (ap ptr' q, ap len' q, new_ptr, new_len, old_ptr b n', old_len b n')
                      (fresh (s.ptr b) (s.len b) (h.region_mapped b n'))
              ]
              | inr (_, m') ↦ elim (has-cases b x xs n) [
                | inl r ↦
                    rw (ap ptr' r, ap len' r, new_ptr, new_len, old_ptr a m', old_len a m')
                      (elim (fresh (s.ptr a) (s.len a) (h.region_mapped a m')) [
                        | inl y ↦ inr y
                        | inr y ↦ inl y
                      ])
                | inr (_, n') ↦
                    rw (old_ptr a m', old_len a m', old_ptr b n', old_len b n')
                      (h.regions_apart a b m' n' d)
              ]
            ];
            page_apart = λ a g m n. elim (has-cases a x xs m) [
              | inl q ↦
                  rw (ap ptr' q, ap len' q, new_ptr, new_len) (fresh g 4096 (h.page_mapped g n))
              | inr (_, m') ↦ rw (old_ptr a m', old_len a m') (h.page_apart a g m' n)
            ];
          },
          out,
        )
