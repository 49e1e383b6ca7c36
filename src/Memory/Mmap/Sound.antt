-- ===== src/Memory/Mmap/Sound.antt =====
-- The invariant of mmap.c, and that calls of the system and new groups keep it.
use mini_libc.Base.{
  ℕ, ◌+◌, ◌^◌, ◌≤◌, ◌<◌, ◌≡◌, ◌≢◌, ◌⊎◌, inl, inr, refl, sym, ap, ◌∙◌, true, leb, List, [], ◌∷◌,
  arith, Bool-cases,
}
use mini_libc.Memory.Pages.{Disjoint}
use mini_libc.Links.{Ptr, null, has, IsChain}
use mini_libc.Links.Push.{push_front-IsChain}
use mini_libc.Links.Chain.{has-cases}
use mini_libc.Memory.Mmap.{
  Kernel, KernelLaws, MmapArena, record_at, add_group, allocate_mmap_record_group,
}
use mini_libc.Memory.Mmap.Lists.{HasLists}
use mini_libc.Memory.Mmap.Groups.{records, has-records, add_group-AreLists}

module _ (K : Kernel) (laws : KernelLaws K) where
  -- `actives` are the records of the regions that are out, `pages` the groups of records.
  pub record IsSound (s : MmapArena K) (actives : List Ptr) : Type 0 where
    pub inactives : List Ptr
    pub pages : List Ptr
    pub lists : HasLists K s actives inactives
    pub group_list : IsChain s.groups pages
    pub located :
        (a : Ptr)
        → (has a actives ≡ true) ⊎ (has a inactives ≡ true)
        → (g : Ptr) × (has g pages ≡ true) × (g ≤ a) × (a < g + 4096)
    pub page_mapped : (g : Ptr) → has g pages ≡ true → laws.mapped s.kernel g 4096
    pub region_mapped : (a : Ptr) → has a actives ≡ true → laws.mapped s.kernel (s.ptr a) (s.len a)
    pub region_bounds :
        (a : Ptr) → has a actives ≡ true → (s.ptr a ≢ 0) × (s.ptr a + s.len a ≤ 2 ^ 47)
    pub regions_apart :
        (a b : Ptr)
        → has a actives ≡ true
        → has b actives ≡ true
        → a ≢ b
        → Disjoint (s.ptr a) (s.len a) (s.ptr b) (s.len b)
    pub page_apart :
        (a g : Ptr)
        → has a actives ≡ true
        → has g pages ≡ true
        → Disjoint (s.ptr a) (s.len a) g 4096

  -- A call of `mmap`, whatever comes of it.
  pub kernel-IsSound :
      (s : MmapArena K) (xs : List Ptr) (len : ℕ)
      → IsSound s xs
      → IsSound (record s { kernel = (K.mmap s.kernel len).1 }) xs
  kernel-IsSound s xs len h = record {
    inactives = h.inactives;
    pages = h.pages;
    lists = h.lists;
    group_list = h.group_list;
    located = h.located;
    page_mapped = λ g m. laws.mmap_keeps s.kernel len g 4096 (h.page_mapped g m);
    region_mapped = λ a m. laws.mmap_keeps s.kernel len (s.ptr a) (s.len a) (h.region_mapped a m);
    region_bounds = h.region_bounds;
    regions_apart = h.regions_apart;
    page_apart = h.page_apart;
  }

  none_inactive :
      (s : MmapArena K) (xs ys : List Ptr)
      → HasLists K s xs ys
      → s.inactive ≡ null
      → HasLists K s xs []
  none_inactive s xs [] h e = h
  none_inactive s xs (y ∷ ys) h e = absurd (h.inactive_chain.1 (sym h.inactive_chain.0 ∙ e))

  pub some_inactive :
      (s : MmapArena K) (xs ys : List Ptr)
      → HasLists K s xs ys
      → s.inactive ≢ null
      → (zs : List Ptr) × (ys ≡ s.inactive ∷ zs)
  some_inactive s xs [] h ne = absurd (ne h.inactive_chain)
  some_inactive s xs (y ∷ ys) h ne = (ys, ap (λ z. z ∷ ys) (sym h.inactive_chain.0))

  module _ (s : MmapArena K) (xs : List Ptr) (h : IsSound s xs) where
    -- A new group is apart from all that is mapped.
    add_group-IsSound :
        s.inactive ≡ null
        → (K.mmap s.kernel 4096).0 < 2 ^ 63
        → IsSound
            (add_group K (K.mmap s.kernel 4096).0 (record s { kernel = (K.mmap s.kernel 4096).1 }))
            xs
    unfolding add_group
    add_group-IsSound e ok_ptr =
        let group = (K.mmap s.kernel 4096).0 in
        let s1 = record s { kernel = (K.mmap s.kernel 4096).1 } in
        let bounds = laws.mmap_bounds s.kernel 4096 ok_ptr in
        let page_new = λ (g : Ptr) (m : has g h.pages ≡ true).
          laws.mmap_apart s.kernel 4096 g 4096 ok_ptr (h.page_mapped g m) in
        record {
          inactives = records group 0 127;
          pages = group ∷ h.pages;
          lists =
              add_group-AreLists group K s1 xs (none_inactive s1 xs h.inactives h.lists e) bounds.0
                (λ j lt. elim (Bool-cases (has (record_at group j) xs)) [
                  | inl m ↦
                      let (g, m', lo, hi) = h.located (record_at group j) (inl m) in
                      absurd (elim (page_new g m') [
                        | inl d ↦ omega (arith, d, lo, hi)
                        | inr d ↦ omega (arith, d, lo, hi)
                      ])
                  | inr o ↦ o
                ])
                127 refl;
          group_list =
              push_front-IsChain group s.groups h.pages h.group_list bounds.0
                (elim (Bool-cases (has group h.pages)) [
                  | inl m ↦ absurd (elim (page_new group m) [
                    | inl d ↦ omega (arith, d)
                    | inr d ↦ omega (arith, d)
                  ])
                  | inr o ↦ o
                ]);
          located = λ a m. elim m [
            | inl m' ↦ let (g, q, lo, hi) = h.located a (inl m') in (g, ground (arith, q), lo, hi)
            | inr m' ↦
                let (j, lo, hi, q) = has-records group 0 127 a m' in
                (group, ground arith, omega (arith, q), omega (arith, q, hi))
          ];
          page_mapped = λ g m. elim (has-cases g group h.pages m) [
            | inl q ↦ rw q (laws.mmap_maps s.kernel 4096 ok_ptr)
            | inr (ne, m') ↦ laws.mmap_keeps s.kernel 4096 g 4096 (h.page_mapped g m')
          ];
          region_mapped =
              λ a m. laws.mmap_keeps s.kernel 4096 (s.ptr a) (s.len a) (h.region_mapped a m);
          region_bounds = h.region_bounds;
          regions_apart = h.regions_apart;
          page_apart = λ a g m m'. elim (has-cases g group h.pages m') [
            | inl q ↦
                rw q
                  (elim (laws.mmap_apart s.kernel 4096 (s.ptr a) (s.len a) ok_ptr
                    (h.region_mapped a m)) [ inl d ↦ inr d | inr d ↦ inl d ])
            | inr (ne, m'') ↦ h.page_apart a g m m''
          ];
        }

    -- The records that were active stay as they are.
    pub allocate_mmap_record_group-IsSound :
        s.inactive ≡ null
        → IsSound (allocate_mmap_record_group K s) xs
          × ((allocate_mmap_record_group K s).ptr ≡ s.ptr)
          × ((allocate_mmap_record_group K s).len ≡ s.len)
    unfolding allocate_mmap_record_group add_group
    allocate_mmap_record_group-IsSound e =
        elim (Bool-cases (leb (2 ^ 63) (K.mmap s.kernel 4096).0)) [
          | inl t ↦ rw t (kernel-IsSound s xs 4096 h, refl, refl)
          | inr t ↦ rw t (add_group-IsSound e (ground (arith, t)), refl, refl)
        ]
