-- ===== src/Memory/SmallClass/Alloc.antt =====
-- `small_alloc` keeps the invariant of small_class.c, and what it returns.
use native.Mathlib.Decide.{ℕ_discrete}
use mini_libc.Base.{
  ℕ, ◌≡◌, ◌≢◌, refl, sym, ◌∙◌, inl, inr, arith, ◌==◌, List, ◌∷◌, update, update_ne, update_self,
  Option, none, some, Bool-cases,
}
use mini_libc.Links.{Ptr, null, push_front}
use mini_libc.Memory.Pages.{Pages, PagesLaws}
use mini_libc.Memory.Buddy.{Arena}
use mini_libc.Memory.Buddy.Sound as Buddy
use mini_libc.Memory.Buddy.Levels.{buddy_alloc-IsSound}
use mini_libc.Memory.Buddy.Alloc.{buddy_alloc_4}
use mini_libc.Memory.SmallClass.{
  SmallArena, slot_num, class_list, stocked, install, add_class_block, allocate_class_block,
}
use mini_libc.Memory.SmallClass.Slots.{slot_free, fill_bitmap-other}
use mini_libc.Memory.SmallClass.Source.{Given, buddy_alloc_4-Given}
use mini_libc.Memory.SmallClass.Sound.{IsSound, IsSlotSize, buddy-IsSound}
use mini_libc.Memory.SmallClass.Stock.{add_class_block-IsSound}

module _ (P : Pages) (L : PagesLaws P) where
  -- A sound arena in which the blocks that there were have their sizes and their slots.
  pub record IsGrown (s : SmallArena P) (size : Ptr → ℕ) (s' : SmallArena P) : Type 0 where
    pub size' : Ptr → ℕ
    pub lists : ℕ → List Ptr
    pub all : List Ptr
    pub sound : IsSound P L s' size' lists all
    pub sizes_kept : (p : Ptr) → size p ≢ 0 → size' p ≡ size p
    pub slots_kept :
        (p : Ptr) (j : ℕ) → size p ≢ 0 → slot_free s'.bitmap p j ≡ slot_free s.bitmap p j

  module _ (s : SmallArena P) (size : Ptr → ℕ) (lists : ℕ → List Ptr) (all : List Ptr)
      (h : IsSound P L s size lists all) (len : ℕ) (ok : IsSlotSize len) where
    install-IsGrown :
        (block : Option (ℕ × ℕ)) (a : Arena P.State)
        → Buddy.IsSound P L a
        → Given P L s.buddy_arena block a
        → IsGrown s size (install P len block (record s { buddy_arena = a }))
    unfolding add_class_block
    install-IsGrown none a good keeps = record {
      size' = size;
      lists = lists;
      all = all;
      sound = buddy-IsSound P L s size lists all a h good keeps;
      sizes_kept = λ p u. refl;
      slots_kept = λ p j u. refl;
    }
    install-IsGrown (some (ctx, x)) a good (keeps, (i, held), ne, new) =
        let out : (p : Ptr) → size p ≢ 0 → p ≢ x =
          λ p u. new (s.buddy_ctx p) (h.held p u).0 p (h.held p u).1 in
        let unused : size x ≡ 0 = elim (ℕ_discrete (size x) 0) [
          | yes e ↦ e
          | no u ↦ absurd (out x u refl)
        ] in
        let s1 = record s { buddy_arena = a } in
        record {
          size' = update size x len;
          lists = update lists (class_list len) (x ∷ lists (class_list len));
          all = x ∷ all;
          sound =
              add_class_block-IsSound P L s1 size lists all
                (buddy-IsSound P L s size lists all a h good keeps) len x ctx i ok ne unused held;
          sizes_kept = λ p u. update_ne size x p len (out p u);
          slots_kept = λ p j u. fill_bitmap-other (slot_num len) x s.bitmap p j (out p u);
        }

    allocate_class_block-IsGrown : IsGrown s size (allocate_class_block P len s)
    unfolding allocate_class_block
    allocate_class_block-IsGrown =
        let r = buddy_alloc_4 P s.buddy_arena in
        install-IsGrown r.0 r.1 (buddy_alloc-IsSound P L 4 s.buddy_arena (omega arith) h.buddy_ok).0
          (buddy_alloc_4-Given P L s.buddy_arena h.buddy_ok)

    pub stocked-IsGrown : IsGrown s size (stocked P len s)
    unfolding stocked
    stocked-IsGrown = elim (Bool-cases (s.avail_lists (class_list len) == null)) [
      | inl z ↦ rw z allocate_class_block-IsGrown
      | inr nz ↦ rw nz (record {
        size' = size;
        lists = lists;
        all = all;
        sound = h;
        sizes_kept = λ p u. refl;
        slots_kept = λ p j u. refl;
      })
    ]

    install-none :
        (block : Option (ℕ × ℕ)) (a : Arena P.State)
        → Given P L s.buddy_arena block a
        → (install P len block (record s { buddy_arena = a })).avail_lists (class_list len) ≡ null
        → block ≡ none
    unfolding add_class_block push_front
    install-none none a given e = refl
    install-none (some (ctx, x)) a (keeps, held, ne, new) e =
        absurd (ne (sym (update_self s.avail_lists (class_list len) x) ∙ e))

    -- After `stocked` the list is empty only where it was, and the buddy allocator has no block.
    pub stocked-none :
        (stocked P len s).avail_lists (class_list len) ≡ null
        → (s.avail_lists (class_list len) ≡ null) × ((buddy_alloc_4 P s.buddy_arena).0 ≡ none)
    unfolding stocked allocate_class_block
    stocked-none e = elim (Bool-cases (s.avail_lists (class_list len) == null)) [
      | inl z ↦
          let r = buddy_alloc_4 P s.buddy_arena in
          (
            ground (arith, z),
            install-none r.0 r.1 (buddy_alloc_4-Given P L s.buddy_arena h.buddy_ok) (rw z at e),
          )
      | inr nz ↦ absurd (ground (arith, nz, rw nz at e))
    ]
