-- ===== src/Memory/SmallClass/Stock.antt =====
-- `allocate_class_block` keeps the invariant of small_class.c.
use native.Mathlib.Decide.{ℕ_discrete}
use mathlib.Core.Bool.{false≢true}
use mini_libc.Base.{
  ℕ, ◌≡◌, ◌≢◌, refl, sym, ap, ◌∙◌, false, inl, inr, arith, List, ◌∷◌, update, update_ne,
  update_self, Bool-cases,
}
use mini_libc.Links.{Ptr, null, has, Chain, Links, push_front}
use mini_libc.Links.Chain.{frame, start-has, ne_of_has}
use mini_libc.Links.Push.{head-Chain}
use mini_libc.Memory.Pages.{Pages, PagesLaws}
use mini_libc.Memory.SmallClass.{SmallArena, avail_links, slot_num, class_list, add_class_block}
use mini_libc.Memory.SmallClass.Slots.{IsCounted-same, fill_bitmap-other, fill_bitmap-IsCounted}
use mini_libc.Memory.SmallClass.Source.{HoldsBlock}
use mini_libc.Memory.SmallClass.Sound.{IsSlotSize, IsSound, slot_num-bounds}

-- A struct that is in no list, and has no `prev`, comes in front of one.
pub push-Chain :
    (l : Links) (x : Ptr) (xs : List Ptr)
    → Chain l.next l.prev null l.head xs
    → has x xs ≡ false
    → x ≢ null
    → l.prev x ≡ null
    → let l' = push_front x l in Chain l'.next l'.prev null l'.head (x ∷ xs)
unfolding push_front
push-Chain l x xs c out ne clean =
    let start = start-has l.next l.prev null l.head xs c in
    (
      refl,
      ne,
      ground (arith, start, out, clean),
      out,
      rw (update_self l.next x l.head) (
          head-Chain l.next l.prev _ _ null x l.head xs
            (λ a m. update_ne l.next x a l.head (ne_of_has a x xs m out)) (ground arith)
            (λ a m d. ground (arith, ne_of_has a x xs m out)) c),
    )

-- The same, where `prev` is first set to `NULL`.
push_new-Chain :
    (l : Links) (x : Ptr) (xs : List Ptr)
    → Chain l.next l.prev null l.head xs
    → has x xs ≡ false
    → x ≢ null
    → let l' = push_front x (record l { prev = update l.prev x null }) in
      Chain l'.next l'.prev null l'.head (x ∷ xs)
push_new-Chain l x xs c out ne =
    push-Chain (record l { prev = update l.prev x null }) x xs
      (frame l.next l.prev l.next (update l.prev x null) null l.head xs (λ a m. refl)
        (λ a m. update_ne l.prev x a null (ne_of_has a x xs m out)) c)
      out ne (update_self l.prev x null)

-- A list with a new head has the other members that it had.
pub has-pushed :
    (lists : ℕ → List Ptr) (k : ℕ) (x p : Ptr) (c : ℕ)
    → p ≢ x
    → has p (update lists k (x ∷ lists k) c) ≡ has p (lists c)
has-pushed lists k x p c d = elim (ℕ_discrete c k) [
  | yes e ↦ rw (e, update_self lists k (x ∷ lists k)) (ground arith)
  | no ne ↦ ap (has p) (update_ne lists k c (x ∷ lists k) ne)
]

module _ (P : Pages) (L : PagesLaws P) (s : SmallArena P) (size : Ptr → ℕ) (lists : ℕ → List Ptr)
    (all : List Ptr) (h : IsSound P L s size lists all) where
  -- A new block, which is none of those that there are.
  pub add_class_block-IsSound :
      (len x ctx i : ℕ)
      → IsSlotSize len
      → x ≢ null
      → size x ≡ 0
      → HoldsBlock P L s.buddy_arena ctx i x
      → IsSound P L
          (add_class_block P len x ctx s)
          (update size x len)
          (update lists (class_list len) (x ∷ lists (class_list len)))
          (x ∷ all)
  unfolding add_class_block push_front
  add_class_block-IsSound len x ctx i ok ne unused held =
      let k = class_list len in
      let new_out : (c : ℕ) → has x (lists c) ≡ false = λ c. elim (Bool-cases (has x (lists c))) [
        | inl m ↦ absurd ((h.listed x c m).0 unused)
        | inr o ↦ o
      ] in
      let start =
        start-has s.next_avail s.prev_avail null (s.avail_lists k) (lists k) (h.chains k) in
      let all_out : has x all ≡ false = elim (Bool-cases (has x all)) [
        | inl m ↦ absurd (h.block_used x m unused)
        | inr o ↦ o
      ] in
      let s' = add_class_block P len x ctx s in
      record {
        buddy_ok = h.buddy_ok;
        chains = λ c. elim (ℕ_discrete c k) [
          | yes e ↦
              rw
                (
                  ap s'.avail_lists e,
                  ap (update lists k (x ∷ lists k)) e,
                  update_self lists k (x ∷ lists k),
                  update_self s.avail_lists k x,
                )
                (push_new-Chain (avail_links P k s) x (lists k) (h.chains k) (new_out k) ne)
          | no d ↦
              rw (update_ne lists k c (x ∷ lists k) d, update_ne s.avail_lists k c x d)
                (frame s.next_avail s.prev_avail s'.next_avail s'.prev_avail null (s.avail_lists c)
                  (lists c)
                  (λ a m. update_ne s.next_avail x a _ (ne_of_has a x (lists c) m (new_out c)))
                  (λ a m. ground (
                    arith,
                    ne_of_has a x (lists c) m (new_out c),
                    start,
                    h.listed a c m,
                    h.listed a k,
                  ))
                  (h.chains c))
        ];
        listed = λ p c m. elim (ℕ_discrete p x) [
          | yes e ↦ elim (ℕ_discrete c k) [
            | yes ec ↦
                rw
                  (
                    ap (update size x len) e,
                    update_self size x len,
                    ap (update s.avail_num x (slot_num len)) e,
                    update_self s.avail_num x (slot_num len),
                  )
                  (ground (arith, ok), sym ec, (slot_num-bounds len ok).0)
            | no dc ↦ absurd (
                false≢true (
                  sym (new_out c)
                  ∙ ap (λ z. has z (lists c)) (sym e)
                  ∙ ap (has p) (sym (update_ne lists k c (x ∷ lists k) dc))
                  ∙ m))
          ]
          | no d ↦
              rw (update_ne size x p len d, update_ne s.avail_num x p (slot_num len) d)
                (h.listed p c (sym (has-pushed lists k x p c d) ∙ m))
        ];
        has_slots = λ p u a. elim (ℕ_discrete p x) [
          | yes e ↦ rw (e, update_self size x len, update_self lists k (x ∷ lists k)) (ground arith)
          | no d ↦ rw (update_ne size x p len d) (
              has-pushed lists k x p (class_list (size p)) d
              ∙ h.has_slots p (λ z. u (update_ne size x p len d ∙ z))
                  (λ z. a (update_ne s.avail_num x p (slot_num len) d ∙ z)))
        ];
        full = λ p u a. elim (ℕ_discrete p x) [
          | yes e ↦ absurd (
              (slot_num-bounds len ok).0 (
                sym (update_self s.avail_num x (slot_num len))
                ∙ ap (update s.avail_num x (slot_num len)) (sym e)
                ∙ a))
          | no d ↦ ground (arith, start, h.listed p k, h.full p, d, u, a)
        ];
        counts = λ p u. elim (ℕ_discrete p x) [
          | yes e ↦
              rw (e, update_self size x len)
                (fill_bitmap-IsCounted (slot_num len) x s.bitmap s'.avail_num
                  (slot_num-bounds len ok).0 (update_self s.avail_num x (slot_num len)))
          | no d ↦ rw (update_ne size x p len d) (
              IsCounted-same s.bitmap s'.bitmap s.avail_num s'.avail_num p (slot_num (size p))
                (λ j. fill_bitmap-other (slot_num len) x s.bitmap p j d)
                (update_ne s.avail_num x p (slot_num len) d)
                (h.counts p (λ z. u (update_ne size x p len d ∙ z))))
        ];
        sizes = λ p u. elim (ℕ_discrete p x) [
          | yes e ↦ rw (ap (update size x len) e, update_self size x len) ok
          | no d ↦ rw (update_ne size x p len d) (h.sizes p (λ z. u (update_ne size x p len d ∙ z)))
        ];
        held = λ p u. elim (ℕ_discrete p x) [
          | yes e ↦ rw (ap (update s.buddy_ctx x ctx) e, update_self s.buddy_ctx x ctx, e) (i, held)
          | no d ↦
              rw (update_ne s.buddy_ctx x p ctx d)
                (h.held p (λ z. u (update_ne size x p len d ∙ z)))
        ];
        block_chain = push_new-Chain s.blocks x all h.block_chain all_out ne;
        block_used = λ p m. elim (ℕ_discrete p x) [
          | yes e ↦ ground (arith, ok)
          | no d ↦ ground (arith, h.block_used p)
        ];
        used_block = λ p u. ground (arith, h.used_block p);
      }
