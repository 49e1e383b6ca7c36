-- ===== src/Memory/SmallClass/Return.antt =====
-- A slot is given back to a block that stays: the invariant of small_class.c is kept.
use native.Mathlib.Decide.{ℕ_discrete}
use mathlib.Core.Bool.{false≢true}
use mini_libc.Base.{
  ℕ, ◌≡◌, ◌≢◌, sym, ap, ◌∙◌, false, inl, inr, arith, List, ◌∷◌, update, update_ne, update_self,
  Bool-cases,
}
use mini_libc.Links.{Ptr, null, has, push_front}
use mini_libc.Links.Chain.{frame, start-has, ne_of_has}
use mini_libc.Memory.Pages.{Pages, PagesLaws}
use mini_libc.Memory.SmallClass.{
  SmallArena, slot_num, class_list, give_bit, avail_links, set_avail_links,
}
use mini_libc.Memory.SmallClass.Slots.{IsCounted, IsCounted-same}
use mini_libc.Memory.SmallClass.Give.{IsGiven}
use mini_libc.Memory.SmallClass.Stock.{push-Chain, has-pushed}
use mini_libc.Memory.SmallClass.Sound.{IsSound}

module _ (P : Pages) (L : PagesLaws P) (s : SmallArena P) (size : Ptr → ℕ) (lists : ℕ → List Ptr)
    (all : List Ptr) (h : IsSound P L s size lists all) (block idx : ℕ) (used : size block ≢ 0)
    (g : IsGiven s.bitmap s.avail_num block
      (slot_num (size block))
      idx
      (give_bit P idx block s).bitmap
      (give_bit P idx block s).avail_num) where
  abbrev given : SmallArena P
  given = give_bit P idx block s

  counts_after :
      (p : Ptr) → size p ≢ 0 → IsCounted given.bitmap given.avail_num p (slot_num (size p))
  counts_after p u = elim (ℕ_discrete p block) [
    | yes e ↦ rw e g.counts
    | no d ↦
        IsCounted-same s.bitmap given.bitmap s.avail_num given.avail_num p (slot_num (size p))
          (λ j. g.slots p j ∙ ground arith) (g.others p d) (h.counts p u)
  ]

  -- The block had other free slots.
  pub stay-IsSound : s.avail_num block ≢ 0 → IsSound P L given size lists all
  unfolding give_bit
  stay-IsSound more =
      let same : (p : Ptr) → (given.avail_num p ≡ 0) → s.avail_num p ≡ 0 = λ p z.
        elim (ℕ_discrete p block) [
          | yes e ↦ absurd (omega (arith, g.one_more, ap given.avail_num e, z))
          | no d ↦ sym (g.others p d) ∙ z
        ] in
      record {
        buddy_ok = h.buddy_ok;
        chains = h.chains;
        listed = λ p c m. let (u, q, a) = h.listed p c m in (u, q, λ z. a (same p z));
        has_slots = λ p u a. elim (ℕ_discrete p block) [
          | yes e ↦ h.has_slots p u (λ z. more (ap s.avail_num (sym e) ∙ z))
          | no d ↦ h.has_slots p u (λ z. a (g.others p d ∙ z))
        ];
        full = λ p u a. h.full p u (same p a);
        counts = counts_after;
        sizes = h.sizes;
        held = h.held;
        block_chain = h.block_chain;
        block_used = h.block_used;
        used_block = h.used_block;
      }

  -- The block had no free slot, and comes back to the front of its list.
  pub relist-IsSound :
      let k = class_list (size block) in
      s.avail_num block ≡ 0
      → block ≢ null
      → IsSound P L
          (set_avail_links P k (push_front block (avail_links P k given)) given)
          size
          (update lists k (block ∷ lists k))
          all
  unfolding give_bit push_front
  relist-IsSound none_left ne =
      let k = class_list (size block) in
      let s' = set_avail_links P k (push_front block (avail_links P k given)) given in
      let out : (c : ℕ) → has block (lists c) ≡ false = λ c.
        elim (Bool-cases (has block (lists c))) [
          | inl m ↦ absurd ((h.listed block c m).2 none_left)
          | inr o ↦ o
        ] in
      let start =
        start-has s.next_avail s.prev_avail null (s.avail_lists k) (lists k) (h.chains k) in
      record {
        buddy_ok = h.buddy_ok;
        chains = λ c. elim (ℕ_discrete c k) [
          | yes e ↦
              rw
                (
                  ap s'.avail_lists e,
                  ap (update lists k (block ∷ lists k)) e,
                  update_self lists k (block ∷ lists k),
                  update_self s.avail_lists k block,
                )
                (push-Chain (avail_links P k s) block (lists k) (h.chains k) (out k) ne
                  (h.full block used none_left))
          | no d ↦
              rw (update_ne lists k c (block ∷ lists k) d, update_ne s.avail_lists k c block d)
                (frame s.next_avail s.prev_avail s'.next_avail s'.prev_avail null (s.avail_lists c)
                  (lists c)
                  (λ a m. update_ne s.next_avail block a _ (ne_of_has a block (lists c) m (out c)))
                  (λ a m. ground (
                    arith,
                    ne_of_has a block (lists c) m (out c),
                    start,
                    h.listed a c m,
                    h.listed a k,
                  ))
                  (h.chains c))
        ];
        listed = λ p c m. elim (ℕ_discrete p block) [
          | yes e ↦ elim (ℕ_discrete c k) [
            | yes q ↦ (
              λ z. used (ap size (sym e) ∙ z),
              ap (λ y. class_list (size y)) e ∙ sym q,
              λ z. absurd (omega (arith, g.one_more, ap given.avail_num e, z)),
            )
            | no q ↦ absurd (
                false≢true (
                  sym (out c)
                  ∙ ap (λ z. has z (lists c)) (sym e)
                  ∙ ap (has p) (sym (update_ne lists k c (block ∷ lists k) q))
                  ∙ m))
          ]
          | no d ↦
              let (u, q, a) = h.listed p c (sym (has-pushed lists k block p c d) ∙ m) in
              (u, q, λ z. a (sym (g.others p d) ∙ z))
        ];
        has_slots = λ p u a. elim (ℕ_discrete p block) [
          | yes e ↦ rw (e, update_self lists k (block ∷ lists k)) (ground arith)
          | no d ↦
              has-pushed lists k block p (class_list (size p)) d
              ∙ h.has_slots p u (λ z. a (g.others p d ∙ z))
        ];
        full = λ p u a. elim (ℕ_discrete p block) [
          | yes e ↦ absurd (omega (arith, g.one_more, ap given.avail_num e, a))
          | no d ↦ ground (arith, start, h.listed p k, h.full p, d, u, g.others p d, a)
        ];
        counts = counts_after;
        sizes = h.sizes;
        held = h.held;
        block_chain = h.block_chain;
        block_used = h.block_used;
        used_block = h.used_block;
      }
