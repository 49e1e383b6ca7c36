-- ===== src/Links/Unlink.antt =====
-- Taking any member out of a list.
use mathlib.Core.Bool.{false≢true}
use mini_libc.Base.{
  ◌≡◌, ◌≢◌, inl, inr, refl, sym, ap, ◌∙◌, true, false, List, [], ◌∷◌, arith, ◌==◌, if◌then◌else◌,
}
use mini_libc.Links.{Ptr, null, Links, bypass, reset, has, erase, Chain, IsChain}
use mini_libc.Links.Chain.{
  frame, ne_of_has, has-cases, next-has, prev-has, not-has-null, prev-ne_self, next-ne_self,
}

pub has-erase_other : (a x : Ptr) (xs : List Ptr) → has a (erase x xs) ≡ true → has a xs ≡ true
has-erase_other a x [] h = h
has-erase_other a x (y ∷ ys) h = ground (arith, has-erase_other a x ys)

pub has-erase_ne : (a x : Ptr) (xs : List Ptr) → a ≢ x → has a (erase x xs) ≡ has a xs
has-erase_ne a x [] h = refl
has-erase_ne a x (y ∷ ys) h = ground (arith, has-erase_ne a x ys h)

pub has-erase_self :
    (next prev : Ptr → Ptr) (b c x : Ptr) (xs : List Ptr)
    → Chain next prev b c xs
    → has x (erase x xs) ≡ false
has-erase_self next prev b c x [] h = refl
has-erase_self next prev b c x (y ∷ ys) h =
    ground (arith, h.3, has-erase_self next prev y (next y) x ys h.4)

-- What the links are after x, with neighbours p and q, is taken out.
pub record IsBypassed (next prev next' prev' : Ptr → Ptr) (x : Ptr) : Type 0 where
  pub next_of_prev : prev x ≢ null → next' (prev x) ≡ next x
  pub prev_of_next : next x ≢ null → prev' (next x) ≡ prev x
  pub next_else : (a : Ptr) → a ≢ x → a ≢ prev x → next' a ≡ next a
  pub prev_else : (a : Ptr) → a ≢ x → a ≢ next x → prev' a ≡ prev a

module _ (next prev next' prev' : Ptr → Ptr) (x : Ptr)
    (by : IsBypassed next prev next' prev' x) where
  -- The rest of the chain behind x hangs on the predecessor of x.
  rest-Chain :
      (b : Ptr) (ys : List Ptr)
      → prev x ≡ b
      → has x ys ≡ false
      → has b ys ≡ false
      → Chain next prev x (next x) ys
      → Chain next' prev' b (next x) ys
  rest-Chain b [] e out apart h = h
  rest-Chain b (y ∷ ys) e out apart h =
      let y-ne-x : y ≢ x = ground arith in
      let y-ne-prev : y ≢ prev x = ground arith in
      (
        h.0,
        h.1,
        ground (arith, by.prev_of_next),
        h.3,
        rw (by.next_else y y-ne-x y-ne-prev) (
            frame next prev next' prev' y (next y) ys
              (λ a m.
                by.next_else a (ne_of_has a x ys m (ground arith))
                  (λ q. ne_of_has a b ys m (ground arith) (q ∙ e)))
              (λ a m.
                by.prev_else a (ne_of_has a x ys m (ground arith))
                  (λ q. ne_of_has a y ys m h.3 (q ∙ h.0)))
              h.4),
      )

  pub erase-Chain :
      (b c : Ptr) (xs : List Ptr)
      → has b xs ≡ false
      → has x xs ≡ true
      → Chain next prev b c xs
      → Chain next' prev' b (if c == x then next x else c) (erase x xs)
  erase-Chain b c [] apart m h = absurd (false≢true m)
  erase-Chain b c (y ∷ ys) apart m h = elim (has-cases x y ys m) [
    | inl e ↦
        let at : (c == x) ≡ true = ground (arith, h.0) in
        let at' : (x == y) ≡ true = ground arith in
        let tail : Chain next prev x (next x) ys = rw e h.4 in
        rw (at, at') (rest-Chain b ys (ap prev e ∙ h.2) (rw e h.3) (ground arith) tail)
    | inr (ne, r) ↦
        let off : (c == x) ≡ false = ground (arith, h.0) in
        let off' : (x == y) ≡ false = ground arith in
        let here : next' y ≡ (if next y == x then next x else next y) = ground (
          arith,
          prev-has next prev y (next y) x ys h.4 r,
          by.next_of_prev,
          by.next_else y,
          h.1,
          h.3,
        ) in
        rw (off, off')
          (
            h.0,
            h.1,
            ground (arith, by.prev_else y, next-has next prev y (next y) x ys h.4 r, h.1, h.3, h.2),
            has-erase_ne y x ys (λ q. ne (sym q)) ∙ h.3,
            rw here (erase-Chain y (next y) ys h.3 r h.4),
          )
  ]

-- A member that is taken out of a list leaves a list of the others, in the same order, where the
-- invariants of the links hold.
pub reset-bypass-IsChain :
    (x : Ptr) (l : Links) (xs : List Ptr)
    → IsChain l xs
    → has x xs ≡ true
    → IsChain (reset x (bypass x l)) (erase x xs)
unfolding reset bypass
reset-bypass-IsChain x l xs h m =
    let no_null = not-has-null l.next l.prev null l.head xs h.chain in
    let p-ne = prev-ne_self l.next l.prev null l.head x xs h.chain no_null m in
    let n-ne = next-ne_self l.next l.prev null l.head x xs h.chain m in
    let n-has = next-has l.next l.prev null l.head x xs h.chain m in
    let l' = reset x (bypass x l) in
    let by : IsBypassed l.next l.prev l'.next l'.prev x = record {
      next_of_prev = ground (arith, p-ne);
      prev_of_next = ground (arith, p-ne, n-ne);
      next_else = ground arith;
      prev_else = ground (arith, p-ne);
    } in
    let head' : l'.head ≡ (if l.head == x then l.next x else l.head) = ground (arith, p-ne) in
    record {
      chain =
          rw head'
            (erase-Chain l.next l.prev l'.next l'.prev x by null l.head xs no_null m h.chain);
      outside = λ a out. ground (arith, has-erase_ne a x xs, h.outside a, n-has, p-ne);
    }

-- `bypass` alone, which leaves the links of x as they are.
pub bypass-Chain :
    (x : Ptr) (l : Links) (xs : List Ptr)
    → Chain l.next l.prev null l.head xs
    → has x xs ≡ true
    → Chain (bypass x l).next (bypass x l).prev null (bypass x l).head (erase x xs)
unfolding bypass
bypass-Chain x l xs c m =
    let no_null = not-has-null l.next l.prev null l.head xs c in
    let p-ne = prev-ne_self l.next l.prev null l.head x xs c no_null m in
    let n-ne = next-ne_self l.next l.prev null l.head x xs c m in
    let l' = bypass x l in
    let by : IsBypassed l.next l.prev l'.next l'.prev x = record {
      next_of_prev = ground (arith, p-ne);
      prev_of_next = ground (arith, p-ne, n-ne);
      next_else = ground arith;
      prev_else = ground (arith, p-ne);
    } in
    let head' : l'.head ≡ (if l.head == x then l.next x else l.head) = ground (arith, p-ne) in
    rw head' (erase-Chain l.next l.prev l'.next l'.prev x by null l.head xs no_null m c)

-- Links of structs that are not in the list, nor NULL, stay.
pub bypass-outside :
    (x : Ptr) (l : Links) (xs : List Ptr)
    → Chain l.next l.prev null l.head xs
    → has x xs ≡ true
    → (a : Ptr) → has a xs ≡ false
    → ((bypass x l).next a ≡ l.next a) × ((bypass x l).prev a ≡ l.prev a)
unfolding bypass
bypass-outside x l xs c m a out =
    let no_null = not-has-null l.next l.prev null l.head xs c in
    let p-ne = prev-ne_self l.next l.prev null l.head x xs c no_null m in
    let n-has = next-has l.next l.prev null l.head x xs c m in
    let p-has = prev-has l.next l.prev null l.head x xs c m in
    (ground (arith, p-has), ground (arith, p-ne, n-has))
