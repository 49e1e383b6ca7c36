-- ===== src/Memory/SmallClass/Drop.antt =====
-- The slot that `small_alloc` takes: the invariant of small_class.c is kept, whether the block stays in
-- its list or leaves it.
use native.Mathlib.Decide.{ℕ_discrete}
use mini_libc.Base.{
  ℕ, ◌≡◌, ◌≢◌, refl, sym, ap, ◌∙◌, true, false, arith, List, ◌∷◌, update, update_ne, update_self,
}
use mini_libc.Links.{Ptr, null, has, Chain}
use mini_libc.Links.Chain.{frame, start-has, ne_of_has}
use mini_libc.Links.Push.{head-Chain}
use mini_libc.Memory.Pages.{Pages, PagesLaws}
use mini_libc.Memory.SmallClass.{SmallArena, slot_num, class_list, take_bit, drop_head}
use mini_libc.Memory.SmallClass.Slots.{IsCounted, IsCounted-same}
use mini_libc.Memory.SmallClass.Take.{IsTaken}
use mini_libc.Memory.SmallClass.Sound.{IsSound}

module _ (P : Pages) (L : PagesLaws P) (s : SmallArena P) (size : Ptr → ℕ) (lists : ℕ → List Ptr)
    (all : List Ptr) (h : IsSound P L s size lists all) (w block idx : ℕ) (used : size block ≢ 0)
    (t : IsTaken s.bitmap s.avail_num block
      (slot_num (size block))
      idx
      (take_bit P w block s).bitmap
      (take_bit P w block s).avail_num) where
  abbrev taken : SmallArena P
  taken = take_bit P w block s

  counts_after :
      (p : Ptr) → size p ≢ 0 → IsCounted taken.bitmap taken.avail_num p (slot_num (size p))
  counts_after p u = elim (ℕ_discrete p block) [
    | yes e ↦ rw e t.counts
    | no d ↦
        IsCounted-same s.bitmap taken.bitmap s.avail_num taken.avail_num p (slot_num (size p))
          (λ j. t.slots p j ∙ ground arith) (t.others p d) (h.counts p u)
  ]

  -- Other slots of the block are free.
  pub keep_head-IsSound : taken.avail_num block ≢ 0 → IsSound P L taken size lists all
  unfolding take_bit
  keep_head-IsSound more =
      let same : (p : Ptr) → (taken.avail_num p ≡ 0) → s.avail_num p ≡ 0 = λ p z.
        elim (ℕ_discrete p block) [
          | yes e ↦ absurd (more (ap taken.avail_num (sym e) ∙ z))
          | no d ↦ sym (t.others p d) ∙ z
        ] in
      record {
        buddy_ok = h.buddy_ok;
        chains = h.chains;
        listed = λ p c m. let (u, q, a) = h.listed p c m in (u, q, λ z. a (same p z));
        has_slots = λ p u a. elim (ℕ_discrete p block) [
          | yes e ↦ h.has_slots p u (λ z. absurd (omega (arith, t.one_less, ap s.avail_num e, z)))
          | no d ↦ h.has_slots p u (λ z. a (t.others p d ∙ z))
        ];
        full = λ p u a. h.full p u (same p a);
        counts = counts_after;
        sizes = h.sizes;
        held = h.held;
        block_chain = h.block_chain;
        block_used = h.block_used;
        used_block = h.used_block;
      }

  -- A member of a list without the block is another member of what it was.
  dropped :
      (ys : List Ptr)
      → let k = class_list (size block) in
        lists k ≡ block ∷ ys
        → has block ys ≡ false
        → (p : Ptr) (i : ℕ) → has p (update lists k ys i) ≡ true
        → (has p (lists i) ≡ true) × (p ≢ block)
  dropped ys e out p i m =
      let k = class_list (size block) in
      elim (ℕ_discrete i k) [
        | yes q ↦
            let m' : has p ys ≡ true =
              sym (ap (has p) (ap (update lists k ys) q ∙ update_self lists k ys)) ∙ m in
            (ap (λ j. has p (lists j)) q ∙ ap (has p) e ∙ ground arith, ne_of_has p block ys m' out)
        | no d ↦
            let m' = ap (has p) (sym (update_ne lists k i ys d)) ∙ m in
            (m', λ z. d (sym (h.listed block i (ap (λ y. has y (lists i)) (sym z) ∙ m')).1))
      ]

  -- The slot was the last free one of the block.
  pub drop_head-IsSound :
      (ys : List Ptr)
      → let k = class_list (size block) in
        lists k ≡ block ∷ ys
        → taken.avail_num block ≡ 0
        → IsSound P L (drop_head P k block taken) size (update lists k ys) all
  unfolding take_bit drop_head
  drop_head-IsSound ys e none_left =
      let k = class_list (size block) in
      let s' = drop_head P k block taken in
      let c : Chain s.next_avail s.prev_avail null (s.avail_lists k) (block ∷ ys) =
        rw e at (h.chains k) in
      let start = start-has s.next_avail s.prev_avail block (s.next_avail block) ys c.4 in
      let inside : (p : Ptr) → has p ys ≡ true → has p (lists k) ≡ true =
        λ p m. rw e (ground arith) in
      record {
        buddy_ok = h.buddy_ok;
        chains = λ i. elim (ℕ_discrete i k) [
          | yes q ↦
              rw
                (
                  ap (update lists k ys) q,
                  ap s'.avail_lists q,
                  update_self lists k ys,
                  update_self s.avail_lists k (s.next_avail block),
                )
                (head-Chain s.next_avail s.prev_avail s.next_avail s'.prev_avail block null
                  (s.next_avail block) ys (λ a m. refl) (ground (arith, c.2))
                  (λ a m d. ground arith) c.4)
          | no d ↦
              rw (update_ne lists k i ys d, update_ne s.avail_lists k i (s.next_avail block) d)
                (frame s.next_avail s.prev_avail s.next_avail s'.prev_avail null (s.avail_lists i)
                  (lists i) (λ a m. refl)
                  (λ a m. ground (arith, start, h.listed a i m, inside a, h.listed a k))
                  (h.chains i))
        ];
        listed = λ p i m.
            let (m', d) = dropped ys e c.3 p i m in
            let (u, q, a) = h.listed p i m' in (u, q, λ z. a (sym (t.others p d) ∙ z));
        has_slots = λ p u a.
            let d : p ≢ block = λ z. a (ap taken.avail_num z ∙ none_left) in
            let m = h.has_slots p u (λ z. a (t.others p d ∙ z)) in
            elim (ℕ_discrete (class_list (size p)) k) [
              | yes q ↦
                  let m' : has p (block ∷ ys) ≡ true =
                    sym (ap (has p) e) ∙ ap (λ i. has p (lists i)) (sym q) ∙ m in
                  rw (q, update_self lists k ys) (ground (arith, d, m'))
              | no nq ↦ ap (has p) (update_ne lists k (class_list (size p)) ys nq) ∙ m
            ];
        full = λ p u a. elim (ℕ_discrete p block) [
          | yes q ↦ ground (arith, c.2, q, ap s.prev_avail q)
          | no d ↦ ground (arith, c.2, h.full p u (sym (t.others p d) ∙ a))
        ];
        counts = counts_after;
        sizes = h.sizes;
        held = h.held;
        block_chain = h.block_chain;
        block_used = h.block_used;
        used_block = h.used_block;
      }
