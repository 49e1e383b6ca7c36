-- ===== src/Memory/Mmap/Lists.antt =====
-- The two lists of mmap.c, which share the link fields.
use mathlib.Core.Bool.{false≢true}
use mini_libc.Base.{
  ℕ, ◌≡◌, inl, inr, refl, sym, ◌∙◌, true, false, List, ◌∷◌, arith, ◌==◌, if◌then◌else◌, ==_refl,
  update, Bool-cases,
}
use mini_libc.Links.{Ptr, null, has, erase, Chain}
use mini_libc.Links.Chain.{
  frame, start-has, ne_of_has, next-has, prev-has, not-has-null, prev-ne_self, next-ne_self,
}
use mini_libc.Links.Push.{head-Chain}
use mini_libc.Links.Unlink.{IsBypassed, erase-Chain, has-erase_other, has-erase_ne, has-erase_self}
use mini_libc.Memory.Mmap.{Kernel, MmapArena, activate, deactivate}

-- Each record is in one list, or in none, where it has no `prev`.
pub record AreLists (next prev : Ptr → Ptr) (active inactive : Ptr) (xs ys : List Ptr)
    : Type 0 where
  pub active_chain : Chain next prev null active xs
  pub inactive_chain : Chain next prev null inactive ys
  pub apart : (a : Ptr) → has a xs ≡ true → has a ys ≡ false
  pub outside : (a : Ptr) → has a xs ≡ false → has a ys ≡ false → prev a ≡ null

abbrev pub HasLists : (K : Kernel) → MmapArena K → List Ptr → List Ptr → Type 0
HasLists K s = AreLists s.next s.prev s.active s.inactive

-- The records of xs stand for the same regions in both states.
abbrev pub Keeps : (K : Kernel) → MmapArena K → List Ptr → MmapArena K → Type 0
Keeps K s xs r = (c : Ptr) → has c xs ≡ true → (r.ptr c ≡ s.ptr c) × (r.len c ≡ s.len c)

module _ (K : Kernel) (s : MmapArena K) (xs : List Ptr) where
  -- The first inactive record becomes the first active one.
  pub activate-AreLists :
      (p len : ℕ) (ys : List Ptr)
      → HasLists K s xs (s.inactive ∷ ys)
      → HasLists K (activate K p len s) (s.inactive ∷ xs) ys
  unfolding activate
  activate-AreLists p len ys h =
      let x = s.inactive in
      let c = h.inactive_chain in
      let out : has x xs ≡ false = elim (Bool-cases (has x xs)) [
        | inl m ↦ absurd (false≢true (sym (h.apart x m) ∙ ground arith))
        | inr n ↦ n
      ] in
      let start_a = start-has s.next s.prev null s.active xs h.active_chain in
      let start_i = start-has s.next s.prev x (s.next x) ys c.4 in
      let s' = activate K p len s in
      record {
        active_chain = (
          refl,
          c.1,
          ground (arith, c.2, out, start_a, start_i, c.3),
          out,
          rw (==_refl x) (
              head-Chain s.next s.prev s'.next s'.prev null x s.active xs
                (λ a m. ground (arith, ne_of_has a x xs m out)) (ground arith)
                (λ a m ne. ground (arith, h.apart a m, start_i)) h.active_chain),
        );
        inactive_chain =
            head-Chain s.next s.prev s'.next s'.prev x null (s.next x) ys
              (λ a m. ground (arith, ne_of_has a x ys m c.3))
              (ground (arith, start_i, start_a, h.apart s.active))
              (λ a m ne. ground (arith, start_a, h.apart s.active)) c.4;
        apart = λ a m. ground (arith, h.apart a, c.3);
        outside = λ a m n. ground (arith, h.outside a, start_a, start_i, c.2);
      }

  -- An active record becomes the first inactive one.
  pub deactivate-AreLists :
      (x : Ptr) (ys : List Ptr)
      → HasLists K s xs ys
      → has x xs ≡ true
      → HasLists K (deactivate K x s) (erase x xs) (x ∷ ys)
  unfolding deactivate
  deactivate-AreLists x ys h m =
      let c = h.active_chain in
      let no_null = not-has-null s.next s.prev null s.active xs c in
      let p-ne = prev-ne_self s.next s.prev null s.active x xs c no_null m in
      let n-ne = next-ne_self s.next s.prev null s.active x xs c m in
      let n-has = next-has s.next s.prev null s.active x xs c m in
      let p-has = prev-has s.next s.prev null s.active x xs c m in
      let start_i = start-has s.next s.prev null s.inactive ys h.inactive_chain in
      let prev1 = if s.next x == null then s.prev else update s.prev (s.next x) (s.prev x) in
      let same : prev1 x ≡ s.prev x = ground (arith, n-ne) in
      let next2 = if prev1 x == null then s.next else update s.next (prev1 x) (s.next x) in
      let prev2 = if prev1 x == null then prev1 else update prev1 x null in
      let s' = deactivate K x s in
      let by : IsBypassed s.next s.prev next2 prev2 x = record {
        next_of_prev = ground (arith, same, p-ne);
        prev_of_next = ground (arith, same, p-ne, n-ne);
        next_else = ground (arith, same);
        prev_else = ground (arith, same, p-ne);
      } in
      let out = has-erase_self s.next s.prev null s.active x xs c in
      let not_i = h.apart x m in
      let head' : s'.active ≡ (if s.active == x then s.next x else s.active) =
        ground (arith, same, p-has, no_null) in
      record {
        active_chain =
            frame next2 prev2 s'.next s'.prev null s'.active (erase x xs)
              (λ a q. ground (arith, ne_of_has a x (erase x xs) q out))
              (λ a q. ground (arith, start_i, h.apart a (has-erase_other a x xs q)))
              (rw head' (erase-Chain s.next s.prev next2 prev2 x by null s.active xs no_null m c));
        inactive_chain = (
          refl,
          ground (arith, no_null),
          ground (arith, same, start_i, not_i),
          not_i,
          rw (==_refl x) (
              head-Chain s.next s.prev s'.next s'.prev null x s.inactive ys
                (λ a q. ground (arith, same, ne_of_has a x ys q not_i, p-has, h.apart a))
                (ground arith)
                (λ a q ne. ground (arith, same, ne_of_has a x ys q not_i, n-has, h.apart a))
                h.inactive_chain),
        );
        apart = λ a q.
            ground (arith, ne_of_has a x (erase x xs) q out, h.apart a (has-erase_other a x xs q));
        outside = λ a q r. ground (arith, same, has-erase_ne a x xs, h.outside a, start_i, n-has);
      }
