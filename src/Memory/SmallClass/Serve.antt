-- ===== src/Memory/SmallClass/Serve.antt =====
-- `small_alloc` takes a free slot of the first block of its list, and keeps the invariant.
use mini_libc.Base.{
  ℕ, ◌+◌, ◌-◌, ◌*◌, ◌/◌, ◌≤◌, ◌<◌, ◌≡◌, ◌≢◌, ◌⊎◌, refl, sym, ap, ◌∙◌, false, inl, inr, arith, ◌==◌,
  List, [], ◌∷◌, update, Option, none, some, Bool-cases,
}
use mini_libc.Bits.Words.{u64}
use mini_libc.Bits.Count.{total-zero, ctz}
use mini_libc.Links.{Ptr, null, Chain}
use mini_libc.Memory.Pages.{Pages, PagesLaws}
use mini_libc.Memory.SmallClass.{
  SmallArena, slot_num, class_list, idx_slot, take_bit, take_slot, drop_head, scan_words, stocked,
  small_alloc,
}
use mini_libc.Memory.SmallClass.Slots.{slot_free, IsCounted}
use mini_libc.Memory.SmallClass.Take.{IsTaken, take_bit-IsTaken, scan_words-cases}
use mini_libc.Memory.SmallClass.Sound.{IsSound, IsSlotSize, class_list-injective, slot_num-bounds}
use mini_libc.Memory.SmallClass.Drop.{keep_head-IsSound, drop_head-IsSound}
use mini_libc.Memory.SmallClass.Alloc.{IsGrown, stocked-IsGrown, stocked-none}
use mini_libc.Memory.Buddy.Alloc.{buddy_alloc_4}

module _ (P : Pages) (L : PagesLaws P) where
  -- A slot of a block was taken: it was free if the block was there before, and no other slot of the
  -- blocks that were there has changed.
  pub record IsServed (s : SmallArena P) (size : Ptr → ℕ) (len : ℕ) (block ptr : ℕ)
      (r : SmallArena P) : Type 0 where
    pub size' : Ptr → ℕ
    pub lists : ℕ → List Ptr
    pub all : List Ptr
    pub sound : IsSound P L r size' lists all
    pub sizes_kept : (p : Ptr) → size p ≢ 0 → size' p ≡ size p
    pub idx : ℕ
    pub idx_lt : idx < slot_num len
    pub block_size : size' block ≡ len
    pub here : ptr ≡ idx_slot block idx len
    pub now_taken : slot_free r.bitmap block idx ≡ 0
    pub was_free : size block ≢ 0 → slot_free s.bitmap block idx ≡ 1
    pub slots_kept :
        (p : Ptr) (j : ℕ)
        → size p ≢ 0
        → ((p ≢ block) ⊎ (j ≢ idx))
        → slot_free r.bitmap p j ≡ slot_free s.bitmap p j

  abbrev pub Outcome : SmallArena P → (Ptr → ℕ) → ℕ → Option (Ptr × ℕ) × SmallArena P → Type 0
  Outcome s size len (none, r) =
      IsGrown P L s size r
      × (s.avail_lists (class_list len) ≡ null)
      × ((buddy_alloc_4 P s.buddy_arena).0 ≡ none)
  Outcome s size len (some (block, ptr), r) = IsServed s size len block ptr r

  module _ (s : SmallArena P) (size : Ptr → ℕ) (lists : ℕ → List Ptr) (all : List Ptr)
      (h : IsSound P L s size lists all) (len : ℕ) (ok : IsSlotSize len) where
    split_list :
        (zs : List Ptr) (c : Ptr)
        → Chain s.next_avail s.prev_avail null c zs
        → c ≢ null
        → (ys : List Ptr) × (zs ≡ c ∷ ys)
    split_list [] c h ne = absurd (ne h)
    split_list (z ∷ zs) c h ne = (zs, ap (λ y. y ∷ zs) (sym h.0))

    module _ (block : Ptr) (ys : List Ptr) (e : lists (class_list len) ≡ block ∷ ys)
        (es : size block ≡ len) (used : size block ≢ 0) (w : ℕ) (lt : w ≤ (slot_num len - 1) / 64)
        (ne : (u64 (s.bitmap w block) == 0) ≡ false) where
      abbrev taken : SmallArena P
      taken = take_bit P w block s

      abbrev idx : ℕ
      idx = 64 * w + ctz 64 (s.bitmap w block)

      bit-IsTaken :
          IsTaken s.bitmap s.avail_num block
            (slot_num (size block))
            idx
            taken.bitmap
            taken.avail_num
      bit-IsTaken =
          take_bit-IsTaken P len block s w ne (slot_num (size block))
            (slot_num-bounds (size block) (h.sizes block used)).1 (h.counts block used) (rw es lt)

      served :
          (lists' : ℕ → List Ptr) (r : SmallArena P)
          → r.bitmap ≡ taken.bitmap
          → IsSound P L r size lists' all
          → IsServed s size len block (idx_slot block idx len) r
      served lists' r same sound = record {
        size' = size;
        lists = lists';
        all = all;
        sound = sound;
        sizes_kept = λ p u. refl;
        idx = idx;
        idx_lt = rw es at bit-IsTaken.index_lt;
        block_size = es;
        here = refl;
        now_taken = rw same (bit-IsTaken.slots block idx ∙ ground arith);
        was_free = λ u. bit-IsTaken.was_free;
        slots_kept = λ p j u d. rw same (bit-IsTaken.slots p j ∙ ground arith);
      }

      take_slot-Outcome : Outcome s size len (take_slot P len w block s)
      unfolding take_slot drop_head
      take_slot-Outcome = elim (Bool-cases (taken.avail_num block == 0)) [
        | inl z ↦ rw z (
            served (update lists (class_list len) ys) (drop_head P (class_list len) block taken)
              refl
              (rw es at (
                drop_head-IsSound P L s size lists all h w block idx used bit-IsTaken ys (rw es e)
                  (ground (arith, z)))))
        | inr nz ↦ rw nz (
            served lists taken refl (
              keep_head-IsSound P L s size lists all h w block idx used bit-IsTaken
                (ground (arith, nz))))
      ]

    scan_words-Outcome :
        s.avail_lists (class_list len) ≢ null
        → Outcome s size len
            (scan_words P len ((slot_num len - 1) / 64 + 1) 0 (s.avail_lists (class_list len)) s)
    scan_words-Outcome ne =
        let k = class_list len in
        let block = s.avail_lists k in
        let n = (slot_num len - 1) / 64 + 1 in
        let (ys, e) = split_list (lists k) block (h.chains k) ne in
        let (used, same_class, more) = h.listed block k (rw e (ground arith)) in
        let es : size block ≡ len =
          class_list-injective (size block) len (h.sizes block used) ok same_class in
        elim (scan_words-cases P len block s n 0) [
          | inl (w, lo, hi, q, some_bit) ↦
              rw q (take_slot-Outcome block ys e es used w (omega (arith, hi)) some_bit)
          | inr zeros ↦
              let c : IsCounted s.bitmap s.avail_num block (slot_num len) =
                rw es at (h.counts block used) in
              absurd (
                more (
                  c.counted
                  ∙ total-zero (slot_num len) (slot_free s.bitmap block)
                      (λ j lt. zeros j (omega arith) (omega (arith, lt)))))
        ]

  grown_used :
      (s : SmallArena P) (size : Ptr → ℕ) (s' : SmallArena P) (g : IsGrown P L s size s') (p : Ptr)
      → size p ≢ 0
      → g.size' p ≢ 0
  grown_used s size s' g p u z = u (sym (g.sizes_kept p u) ∙ z)

  -- What is kept from the stocked arena on is kept from the start; its list has a block, so that
  -- a slot is returned.
  after_stock :
      (s : SmallArena P) (size : Ptr → ℕ) (s' : SmallArena P) (g : IsGrown P L s size s') (len : ℕ)
      (r : Option (Ptr × ℕ) × SmallArena P)
      → s'.avail_lists (class_list len) ≢ null
      → Outcome s' g.size' len r
      → Outcome s size len r
  after_stock s size s' g len (none, r) ne (grown, empty, refused) = absurd (ne empty)
  after_stock s size s' g len (some (block, ptr), r) ne o = record {
    size' = o.size';
    lists = o.lists;
    all = o.all;
    sound = o.sound;
    sizes_kept = λ p u. o.sizes_kept p (grown_used s size s' g p u) ∙ g.sizes_kept p u;
    idx = o.idx;
    idx_lt = o.idx_lt;
    block_size = o.block_size;
    here = o.here;
    now_taken = o.now_taken;
    was_free = λ u. sym (g.slots_kept block o.idx u) ∙ o.was_free (grown_used s size s' g block u);
    slots_kept = λ p j u d. o.slots_kept p j (grown_used s size s' g p u) d ∙ g.slots_kept p j u;
  }

  -- From a sound arena, a call of `small_alloc` for a size of the classes leads to a sound arena. If it
  -- returns a slot, this is a slot of a block of that size, it is taken now, and it was free if the
  -- block was there before; no other slot of a block that was there has changed. It returns `NULL`
  -- only where the list of its class is empty and `buddy_alloc_4` returns none, so that the end of the
  -- loop over the bitmap is never reached; then no slot of a block that was there has changed.
  pub small_alloc-Outcome :
      (s : SmallArena P) (size : Ptr → ℕ) (lists : ℕ → List Ptr) (all : List Ptr)
      → IsSound P L s size lists all
      → (len : ℕ) → IsSlotSize len
      → Outcome s size len (small_alloc P s len)
  unfolding small_alloc
  small_alloc-Outcome s size lists all h len ok =
      let s' = stocked P len s in
      let g = stocked-IsGrown P L s size lists all h len ok in
      elim (Bool-cases (s'.avail_lists (class_list len) == null)) [
        | inl z ↦
            let (empty, refused) = stocked-none P L s size lists all h len ok (ground (arith, z)) in
            rw z (g, empty, refused)
        | inr nz ↦ rw nz (
            after_stock s size s' g len _ (ground (arith, nz))
              (scan_words-Outcome s' g.size' g.lists g.all g.sound len ok (ground (arith, nz))))
      ]
