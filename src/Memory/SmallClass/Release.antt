-- ===== src/Memory/SmallClass/Release.antt =====
-- A block without taken slots is given back to the buddy allocator, unless it is alone in its list: the
-- invariant of small_class.c is kept.
use native.Mathlib.Decide.{ℕ_discrete}
use mini_libc.Base.{
  ℕ, ◌≡◌, ◌≢◌, sym, ap, ◌∙◌, true, false, inl, inr, arith, List, update, update_ne, update_self,
  Bool-cases,
}
use mini_libc.Links.{Ptr, null, has, erase, bypass}
use mini_libc.Links.Chain.{frame, ne_of_has}
use mini_libc.Links.Unlink.{
  has-erase_other, has-erase_ne, has-erase_self, bypass-Chain, bypass-outside,
}
use mini_libc.Memory.Pages.{Pages, PagesLaws}
use mini_libc.Memory.Buddy.Free.{buddy_free_4}
use mini_libc.Memory.Buddy.FreeLevels.{buddy_free-IsSound}
use mini_libc.Memory.SmallClass.{SmallArena, class_list, avail_links, set_avail_links}
use mini_libc.Memory.SmallClass.Source.{buddy_free_4-keeps}
use mini_libc.Memory.SmallClass.Sound.{IsSound}

module _ (P : Pages) (L : PagesLaws P) (s : SmallArena P) (size : Ptr → ℕ) (lists : ℕ → List Ptr)
    (all : List Ptr) (h : IsSound P L s size lists all) (block : ℕ) (used : size block ≢ 0)
    (free_slots : s.avail_num block ≢ 0) where
  abbrev k : ℕ
  k = class_list (size block)

  abbrev listed_here : has block (lists k) ≡ true
  listed_here = h.has_slots block used free_slots

  abbrev unlinked : SmallArena P
  unlinked = set_avail_links P k (bypass block (avail_links P k s)) s

  -- The block with its links taken out and its memory given back.
  abbrev pub released : SmallArena P
  released = record unlinked {
    blocks = bypass block s.blocks;
    buddy_arena = buddy_free_4 P block (s.buddy_ctx block) s.buddy_arena;
  }

  old_size : (p : Ptr) → update size block 0 p ≢ 0 → (p ≢ block) × (size p ≢ 0)
  old_size p u = ground (arith, u)

  still_listed :
      (p : Ptr) (c : ℕ)
      → has p (update lists k (erase block (lists k)) c) ≡ true
      → (has p (lists c) ≡ true) × (p ≢ block)
  still_listed p c m =
      let out =
        has-erase_self s.next_avail s.prev_avail null (s.avail_lists k) block (lists k)
          (h.chains k) in
      elim (ℕ_discrete c k) [
        | yes e ↦
            let m' : has p (erase block (lists k)) ≡ true =
              sym (
                ap (has p) (
                  ap (update lists k (erase block (lists k))) e
                  ∙ update_self lists k (erase block (lists k))))
              ∙ m in
            (
              ap (λ j. has p (lists j)) e ∙ has-erase_other p block (lists k) m',
              ne_of_has p block (erase block (lists k)) m' out,
            )
        | no d ↦
            let m' = ap (has p) (sym (update_ne lists k c (erase block (lists k)) d)) ∙ m in
            (m', λ z. d (sym (h.listed block c (ap (λ y. has y (lists c)) (sym z) ∙ m')).1))
      ]

  pub released-IsSound :
      IsSound P L released
        (update size block 0)
        (update lists k (erase block (lists k)))
        (erase block all)
  released-IsSound =
      let (i, held) = h.held block used in
      let bypassed = bypass-outside block (avail_links P k s) (lists k) (h.chains k) listed_here in
      let not_here : (p : Ptr) (c : ℕ) → c ≢ k → has p (lists c) ≡ true → has p (lists k) ≡ false =
        λ p c d m. elim (Bool-cases (has p (lists k))) [
          | inl m' ↦ absurd (d (sym (h.listed p c m).1 ∙ (h.listed p k m').1))
          | inr o ↦ o
        ] in
      let all_out =
        has-erase_self s.blocks.next s.blocks.prev null s.blocks.head block all h.block_chain in
      record {
        buddy_ok =
            (buddy_free-IsSound P L 4 s.buddy_arena (s.buddy_ctx block) i block (omega arith)
              h.buddy_ok held.0).0;
        chains = λ c. elim (ℕ_discrete c k) [
          | yes e ↦
              rw
                (
                  ap released.avail_lists e,
                  ap (update lists k (erase block (lists k))) e,
                  update_self lists k (erase block (lists k)),
                  update_self s.avail_lists k (bypass block (avail_links P k s)).head,
                )
                (bypass-Chain block (avail_links P k s) (lists k) (h.chains k) listed_here)
          | no d ↦
              rw
                (
                  update_ne lists k c (erase block (lists k)) d,
                  update_ne s.avail_lists k c (bypass block (avail_links P k s)).head d,
                )
                (frame s.next_avail s.prev_avail released.next_avail released.prev_avail null
                  (s.avail_lists c) (lists c) (λ a m. (bypassed a (not_here a c d m)).0)
                  (λ a m. (bypassed a (not_here a c d m)).1) (h.chains c))
        ];
        listed = λ p c m.
            let (m', d) = still_listed p c m in rw (update_ne size block p 0 d) (h.listed p c m');
        has_slots = λ p u a.
            let (d, u') = old_size p u in
            let m = h.has_slots p u' a in
            rw (update_ne size block p 0 d) (elim (ℕ_discrete (class_list (size p)) k) [
              | yes e ↦
                  rw (e, update_self lists k (erase block (lists k)))
                    (has-erase_ne p block (lists k) d ∙ ap (λ j. has p (lists j)) (sym e) ∙ m)
              | no ne ↦
                  ap (has p) (update_ne lists k (class_list (size p)) (erase block (lists k)) ne)
                  ∙ m
            ]);
        full = λ p u a.
            let (d, u') = old_size p u in
            (bypassed p (elim (Bool-cases (has p (lists k))) [
              | inl m ↦ absurd ((h.listed p k m).2 a)
              | inr o ↦ o
            ])).1
            ∙ h.full p u' a;
        counts =
            λ p u. let (d, u') = old_size p u in rw (update_ne size block p 0 d) (h.counts p u');
        sizes = λ p u. let (d, u') = old_size p u in rw (update_ne size block p 0 d) (h.sizes p u');
        held = λ p u.
            let (d, u') = old_size p u in
            let (j, other) = h.held p u' in
            (
              j,
              buddy_free_4-keeps P L s.buddy_arena (s.buddy_ctx block) i block h.buddy_ok held
                  (s.buddy_ctx p) j p other d,
            );
        block_chain = bypass-Chain block s.blocks all h.block_chain (h.used_block block used);
        block_used = λ p m.
            rw (update_ne size block p 0 (ne_of_has p block (erase block all) m all_out))
              (h.block_used p (has-erase_other p block all m));
        used_block =
            λ p u. let (d, u') = old_size p u in has-erase_ne p block all d ∙ h.used_block p u';
      }
