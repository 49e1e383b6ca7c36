-- ===== src/Memory/Mmap/Instance.antt =====
-- mmap.c as the layer below the buddy allocator.
use mathlib.Core.Option.{some-injective, none-ne-some}
use mini_libc.Base.{
  ℕ, ◌^◌, ◌≡◌, ◌≢◌, inl, inr, refl, sym, ap, ◌∙◌, Bool, true, false, leb, List, ◌∷◌, arith, ◌==◌,
  update_ne, update_self, Bool-cases, Option, none, some,
}
use mini_libc.Links.{Ptr, null, has, erase}
use mini_libc.Links.Unlink.{has-erase_ne}
use mini_libc.Links.Chain.{ne_of_has}
use mini_libc.Memory.Pages.{Pages, PagesLaws}
use mini_libc.Memory.Mmap.{
  Kernel, KernelLaws, MmapArena, allocate_mmap_record_group, activate, map_region, mmap_alloc,
  deactivate, mmap_free,
}
use mini_libc.Memory.Mmap.Lists.{Keeps}
use mini_libc.Memory.Mmap.Sound.{IsSound, kernel-IsSound, allocate_mmap_record_group-IsSound}
use mini_libc.Memory.Mmap.Activate.{activate-IsSound}
use mini_libc.Memory.Mmap.Free.{mmap_free-IsSound}

module _ (K : Kernel) (laws : KernelLaws K) where
  -- What a call for `len` bytes leaves behind, where xs are the active records.
  abbrev pub Allocated : MmapArena K → List Ptr → ℕ → Option (ℕ × ℕ) × MmapArena K → Type 0
  Allocated s xs len (none, r) = IsSound K laws r xs × Keeps K s xs r
  Allocated s xs len (some (p, c), r) =
      IsSound K laws r (c ∷ xs)
      × (has c xs ≡ false)
      × (r.ptr c ≡ p)
      × (r.len c ≡ len)
      × Keeps K s xs r

  module _ (s : MmapArena K) (xs : List Ptr) (len : ℕ) where
    map_region-Allocated :
        (s1 : MmapArena K)
        → IsSound K laws s1 xs
        → (s1.ptr ≡ s.ptr)
        → (s1.len ≡ s.len)
        → Allocated s xs len (map_region K len s1)
    unfolding map_region activate
    map_region-Allocated s1 h ep el = elim (Bool-cases (s1.inactive == null)) [
      | inl z ↦ rw z (h, λ c m. (ap (λ f. f c) ep, ap (λ f. f c) el))
      | inr nz ↦ elim (Bool-cases (leb (2 ^ 63) (K.mmap s1.kernel len).0)) [
        | inl t ↦
            rw (nz, t)
              (kernel-IsSound K laws s1 xs len h, λ c m. (ap (λ f. f c) ep, ap (λ f. f c) el))
        | inr t ↦
            let (sound, out) =
              activate-IsSound K laws s1 xs h len (ground (arith, nz)) (ground (arith, t)) in
            rw (nz, t)
              (
                sound,
                out,
                update_self s1.ptr s1.inactive (K.mmap s1.kernel len).0,
                update_self s1.len s1.inactive len,
                λ c m. (
                  update_ne s1.ptr s1.inactive c (K.mmap s1.kernel len).0
                        (ne_of_has c s1.inactive xs m out)
                      ∙ ap (λ f. f c) ep,
                  update_ne s1.len s1.inactive c len (ne_of_has c s1.inactive xs m out)
                      ∙ ap (λ f. f c) el,
                ),
              )
      ]
    ]

    -- From a sound arena, `mmap_alloc` leads to a sound arena, in which the active records stand for
    -- the regions they stood for. If it returns a region, this one has a record that was not active,
    -- and is apart from the others, as soundness says; if it returns NULL, no record is added.
    pub mmap_alloc-Allocated : IsSound K laws s xs → Allocated s xs len (mmap_alloc K s len)
    unfolding mmap_alloc
    mmap_alloc-Allocated h = elim (Bool-cases (s.inactive == null)) [
      | inl z ↦
          let (h1, ep, el) = allocate_mmap_record_group-IsSound K laws s xs h (ground (arith, z)) in
          rw z (map_region-Allocated (allocate_mmap_record_group K s) h1 ep el)
      | inr nz ↦ rw nz (map_region-Allocated s h refl refl)
    ]

  -- A sound arena with its active records.
  abbrev SoundArena : Type 0
  SoundArena = (s : MmapArena K) × (xs : List Ptr) × IsSound K laws s xs

  abbrev after :
      (s : MmapArena K) (xs : List Ptr) (len : ℕ) (r : Option (ℕ × ℕ) × MmapArena K)
      → Allocated s xs len r
      → Option (ℕ × ℕ) × SoundArena
  after s xs len (none, r) a = (none, (r, xs, a.0))
  after s xs len (some (p, c), r) a = (some (p, c), (r, c ∷ xs, a.0))

  abbrev free_active : (s : SoundArena) (c : Ptr) (b : Bool) → has c s.1 ≡ b → SoundArena
  free_active s c true m =
      (mmap_free K s.0 c, erase c s.1, (mmap_free-IsSound K laws s.0 s.1 s.2 c m).0)
  free_active s c false m = s

  -- The arenas that the operations reach. A context that stands for no region is not given back.
  abbrev pub mmap_pages : Pages
  mmap_pages = record {
    State = SoundArena;
    mmap_alloc =
        λ s len. after s.0 s.1 len (mmap_alloc K s.0 len) (mmap_alloc-Allocated s.0 s.1 len s.2);
    mmap_free = λ s c. free_active s c (has c s.1) refl;
  }

  -- The context c is the active record of the region.
  abbrev Owned : SoundArena → (c p len : ℕ) → Type 0
  Owned s c p len = (has c s.1 ≡ true) × (s.0.ptr c ≡ p) × (s.0.len c ≡ len)

  after-owns :
      (s : MmapArena K) (xs : List Ptr) (len : ℕ) (r : Option (ℕ × ℕ) × MmapArena K)
      (a : Allocated s xs len r) (p c : ℕ)
      → (after s xs len r a).0 ≡ some (p, c)
      → Owned (after s xs len r a).1 c p len × (has c xs ≡ false)
  after-owns s xs len (none, r) a p c e = absurd (none-ne-some (p, c) e)
  after-owns s xs len (some (q, d), r) a p c e =
      let pair = some-injective (q, d) (p, c) e in
      let ep : q ≡ p = ap (λ z. z.0) pair in
      let ec : d ≡ c = ap (λ z. z.1) pair in
      (
        (ground (arith, ec), ap r.ptr (sym ec) ∙ a.2 ∙ ep, ap r.len (sym ec) ∙ a.3),
        ap (λ z. has z xs) (sym ec) ∙ a.1,
      )

  after-keeps :
      (s : MmapArena K) (xs : List Ptr) (l : ℕ) (r : Option (ℕ × ℕ) × MmapArena K)
      (a : Allocated s xs l r) (c : ℕ)
      → has c xs ≡ true
      → Owned (after s xs l r a).1 c (s.ptr c) (s.len c)
  after-keeps s xs l (none, r) a c m = (m, (a.1 c m).0, (a.1 c m).1)
  after-keeps s xs l (some (q, d), r) a c m = (ground arith, (a.4 c m).0, (a.4 c m).1)

  free_active-keeps :
      (s : SoundArena) (c' : Ptr) (b : Bool) (m' : has c' s.1 ≡ b) (c p len : ℕ)
      → Owned s c p len
      → c ≢ c'
      → Owned (free_active s c' b m') c p len
  unfolding mmap_free deactivate
  free_active-keeps s c' false m' c p len o ne = o
  free_active-keeps s c' true m' c p len o ne = (
    has-erase_ne c c' s.1 ne ∙ o.0,
    update_ne s.0.ptr c' c null ne ∙ o.1,
    update_ne s.0.len c' c 0 ne ∙ o.2,
  )

  -- The laws that the buddy allocator rests on.
  pub mmap-laws : PagesLaws mmap_pages
  mmap-laws = record {
    owns = Owned;
    owns_bounds = λ s c p len o. rw (← o.1, ← o.2) (s.2.region_bounds c o.0);
    owns_one = λ s c p len p' len' o o'. (sym o.1 ∙ o'.1, sym o.2 ∙ o'.2);
    owns_apart = λ s c p len c' p' len' o o' ne.
        rw (← o.1, ← o.2, ← o'.1, ← o'.2) (s.2.regions_apart c c' o.0 o'.0 ne);
    alloc_owns = λ s len p c e.
        (after-owns s.0 s.1 len (mmap_alloc K s.0 len) (mmap_alloc-Allocated s.0 s.1 len s.2) p c
          e).0;
    alloc_new = λ s len p c p' len' e o.
        let q =
          (after-owns s.0 s.1 len (mmap_alloc K s.0 len) (mmap_alloc-Allocated s.0 s.1 len s.2) p c
            e).1 in
        cc (q, o.0);
    alloc_keeps = λ s l c p len o.
        rw (← o.1, ← o.2)
          (after-keeps s.0 s.1 l (mmap_alloc K s.0 l) (mmap_alloc-Allocated s.0 s.1 l s.2) c o.0);
    free_keeps = λ s c' c p len o ne. free_active-keeps s c' (has c' s.1) refl c p len o ne;
  }
