-- ===== src/Memory/SmallClass/Free.antt =====
-- `small_free` keeps the invariant of small_class.c.
use mini_libc.Base.{
  ℕ, ◌<◌, ◌≡◌, ◌≢◌, ◌⊎◌, refl, sym, ◌∙◌, not, ◌&&◌, ◌||◌, inl, inr, arith, ◌==◌, if◌then◌else◌,
  List, update, update_ne, update_self, Bool-cases,
}
use mini_libc.Bits.Count.{total-all}
use mini_libc.Links.{Ptr, null, erase}
use mini_libc.Memory.Pages.{Pages, PagesLaws}
use mini_libc.Memory.SmallClass.{
  SmallArena, slot_num, class_list, give_bit, release_block, small_free,
}
use mini_libc.Memory.SmallClass.Slots.{slot_free, slot_free_le_one}
use mini_libc.Memory.SmallClass.Give.{IsGiven, give_bit-IsGiven, InSlot, slot_idx-InSlot}
use mini_libc.Memory.SmallClass.Return.{stay-IsSound, relist-IsSound}
use mini_libc.Memory.SmallClass.Release.{released-IsSound}
use mini_libc.Memory.SmallClass.Sound.{IsSound, slot_num-bounds, block-bounds}

module _ (P : Pages) (L : PagesLaws P) where
  -- Exactly slot `idx` of the block became free. The block stays, or all of its slots are free and it is
  -- no block any more; the others stay.
  pub record IsReturned (s : SmallArena P) (size : Ptr → ℕ) (block idx : ℕ) (r : SmallArena P)
      : Type 0 where
    pub size' : Ptr → ℕ
    pub lists : ℕ → List Ptr
    pub all : List Ptr
    pub sound : IsSound P L r size' lists all
    pub others_stay : (p : Ptr) → p ≢ block → size' p ≡ size p
    pub slots :
        (p : Ptr) (j : ℕ)
        → slot_free r.bitmap p j
          ≡ (if (p == block) && (j == idx) then 1 else slot_free s.bitmap p j)
    pub stays_or_free :
        (size' block ≡ size block)
        ⊎ ((size' block ≡ 0)
            × ((j : ℕ) → j < slot_num (size block) → slot_free r.bitmap block j ≡ 1))

  module _ (s : SmallArena P) (size : Ptr → ℕ) (lists : ℕ → List Ptr) (all : List Ptr)
      (h : IsSound P L s size lists all) (block idx : ℕ) (used : size block ≢ 0)
      (lt : idx < slot_num (size block)) (was_taken : slot_free s.bitmap block idx ≡ 0) where
    abbrev given : SmallArena P
    given = give_bit P idx block s

    bit-IsGiven :
        IsGiven s.bitmap s.avail_num block (slot_num (size block)) idx given.bitmap given.avail_num
    bit-IsGiven =
        give_bit-IsGiven P s block (slot_num (size block)) idx
          (slot_num-bounds (size block) (h.sizes block used)).1 (h.counts block used) lt was_taken

    -- The slots are those after `give_bit`, and no block goes.
    stays :
        (lists' : ℕ → List Ptr) (r : SmallArena P)
        → r.bitmap ≡ given.bitmap
        → IsSound P L r size lists' all
        → IsReturned s size block idx r
    stays lists' r same sound = record {
      size' = size;
      lists = lists';
      all = all;
      sound = sound;
      others_stay = λ p d. refl;
      slots = λ p j. rw same (bit-IsGiven.slots p j);
      stays_or_free = inl refl;
    }

    release-IsReturned :
        s.avail_num block ≢ 0
        → given.avail_num block ≡ slot_num (size block)
        → IsReturned s size block idx (release_block P (class_list (size block)) block given)
    unfolding release_block
    release-IsReturned more every =
        let kept = stay-IsSound P L s size lists all h block idx used bit-IsGiven more in
        let now : given.avail_num block ≢ 0 =
          λ z. absurd (omega (arith, bit-IsGiven.one_more, z)) in
        elim (Bool-cases
          (not (given.prev_avail block == null) || not (given.next_avail block == null))) [
            | inl t ↦ rw t (record {
              size' = update size block 0;
              lists = _;
              all = erase block all;
              sound = released-IsSound P L given size lists all kept block used now;
              others_stay = λ p d. update_ne size block p 0 d;
              slots = bit-IsGiven.slots;
              stays_or_free = inr (
                update_self size block 0,
                λ j l.
                    total-all (slot_num (size block)) j (slot_free given.bitmap block)
                      (slot_free_le_one given.bitmap block) (sym bit-IsGiven.counts.counted ∙ every)
                      l,
              );
            })
            | inr t ↦ rw t (stays lists given refl kept)
          ]

    -- From a sound arena: `small_free` of a taken slot, by any of its addresses and its size, leads
    -- to a sound arena in which that slot is free and no other slot has changed. Every other block
    -- stays; so does this one, unless all of its slots are free.
    pub small_free-IsReturned :
        (ptr : ℕ)
        → InSlot block idx (size block) ptr
        → IsReturned s size block idx (small_free P s ptr block (size block))
    unfolding small_free
    small_free-IsReturned ptr inside =
        let (ne, fits) = block-bounds P L s size lists all h block used in
        let at = slot_idx-InSlot block (size block) idx ptr (h.sizes block used) lt fits inside in
        rw at (elim (Bool-cases (given.avail_num block == 1)) [
          | inl one ↦ rw one (
              stays _ _ refl (
                relist-IsSound P L s size lists all h block idx used bit-IsGiven
                  (ground (arith, bit-IsGiven.one_more, one)) ne))
          | inr more ↦
              let more' : s.avail_num block ≢ 0 = ground (arith, bit-IsGiven.one_more, more) in
              elim (Bool-cases (given.avail_num block == slot_num (size block))) [
                | inl every ↦ rw (more, every) (release-IsReturned more' (ground (arith, every)))
                | inr part ↦
                    rw (more, part)
                      (stays lists given refl
                        (stay-IsSound P L s size lists all h block idx used bit-IsGiven more'))
              ]
        ])
