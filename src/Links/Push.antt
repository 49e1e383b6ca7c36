-- ===== src/Links/Push.antt =====
-- Putting a struct in front of a list, and taking the first one off.
use mini_libc.Base.{sym, ap, ◌==◌, ◌≡◌, ◌≢◌, refl, ◌∙◌, true, false, List, [], ◌∷◌, arith, ==_refl}
use mini_libc.Links.{Ptr, null, Links, push_front, pop_front, reset, has, erase, Chain, IsChain}
use mini_libc.Links.Chain.{frame, start-has, ne_of_has}

-- The chain from `c` on, when only the `prev` of `c` changes among its members.
pub head-Chain :
    (next prev next' prev' : Ptr → Ptr) (b b' c : Ptr) (xs : List Ptr)
    → ((a : Ptr) → has a xs ≡ true → next' a ≡ next a)
    → (c ≢ null → prev' c ≡ b')
    → ((a : Ptr) → has a xs ≡ true → a ≢ c → prev' a ≡ prev a)
    → Chain next prev b c xs
    → Chain next' prev' b' c xs
head-Chain next prev next' prev' b b' c [] n first p h = h
head-Chain next prev next' prev' b b' c (y ∷ ys) n first p h = (
  h.0,
  h.1,
  ground (arith, first),
  h.3,
  rw (n y (ground arith)) (
      frame next prev next' prev' y (next y) ys (λ a m. n a (ground arith))
        (λ a m. p a (ground arith) (λ e. ne_of_has a y ys m h.3 (e ∙ h.0))) h.4),
)

-- An address that is not NULL and not in a list becomes its head, before the members in their order,
-- and the invariants of the links hold.
pub push_front-IsChain :
    (x : Ptr) (l : Links) (xs : List Ptr)
    → IsChain l xs
    → x ≢ null
    → has x xs ≡ false
    → IsChain (push_front x l) (x ∷ xs)
unfolding push_front
push_front-IsChain x l xs h ne out = record {
  chain = (
    refl,
    ne,
    ground (arith, h.outside x out, start-has l.next l.prev null l.head xs h.chain),
    out,
    rw (==_refl x) (
        head-Chain l.next l.prev (push_front x l).next (push_front x l).prev null x l.head xs
          (λ a m. ground (arith, ne_of_has a x xs m out)) (ground arith) (λ a m q. ground arith)
          h.chain),
  );
  outside = λ a m. ground (arith, start-has l.next l.prev null l.head xs h.chain, h.outside a);
}

-- The head of the list goes, and has no links afterwards.
pub pop_front-IsChain :
    (x : Ptr) (l : Links) (xs : List Ptr) → IsChain l (x ∷ xs) → IsChain (pop_front x l) xs
unfolding pop_front
pop_front-IsChain x l xs h = record {
  chain =
      head-Chain l.next l.prev (pop_front x l).next (pop_front x l).prev x null (l.next x) xs
        (λ a m. ground (arith, ne_of_has a x xs m h.chain.3)) (ground arith) (λ a m q. ground arith)
        h.chain.4;
  outside = λ a m. ground (arith, h.outside a, h.chain.2);
}

pub pop_front-erase :
    (x : Ptr) (l : Links) (xs : List Ptr)
    → IsChain l xs
    → l.head ≡ x
    → x ≢ null
    → IsChain (pop_front x l) (erase x xs)
pop_front-erase x l [] h e ne = absurd (ne (sym e ∙ h.chain))
pop_front-erase x l (y ∷ ys) h e ne =
    let same : y ≡ x = sym h.chain.0 ∙ e in
    let hit : (x == y) ≡ true = ground arith in rw hit (pop_front-IsChain x l ys (rw same at h))

-- A node outside of a list may lose its links.
pub reset-IsChain :
    (x : Ptr) (l : Links) (xs : List Ptr) → IsChain l xs → has x xs ≡ false → IsChain (reset x l) xs
unfolding reset
reset-IsChain x l xs h out = record {
  chain =
      frame l.next l.prev (reset x l).next (reset x l).prev null l.head xs
        (λ a m. ground (arith, ne_of_has a x xs m out))
        (λ a m. ground (arith, ne_of_has a x xs m out)) h.chain;
  outside = λ a m. ground (arith, h.outside a m);
}

pub head-members :
    (l : Links) (xs : List Ptr)
    → IsChain l xs
    → l.head ≢ null
    → (ys : List Ptr) × (xs ≡ l.head ∷ ys)
head-members l [] h ne = absurd (ne h.chain)
head-members l (x ∷ xs) h ne = (xs, ap (λ z. z ∷ xs) (sym h.chain.0))

pub null-members : (l : Links) (xs : List Ptr) → IsChain l xs → l.head ≡ null → IsChain l []
null-members l [] h e = h
null-members l (x ∷ xs) h e = absurd (h.chain.1 (sym h.chain.0 ∙ e))
