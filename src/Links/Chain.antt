-- ===== src/Links/Chain.antt =====
-- Chains: what they do not depend on, and where the neighbours of a member are.
use mini_libc.Base.{◌≡◌, ◌≢◌, ◌⊎◌, inl, inr, refl, sym, ap, ◌∙◌, true, false, List, [], ◌∷◌, arith}
use mathlib.Core.Bool.{false≢true, true≢false}
use mini_libc.Links.{Ptr, null, has, Chain}

pub has-cases :
    (x y : Ptr) (ys : List Ptr) → has x (y ∷ ys) ≡ true → (x ≡ y) ⊎ ((x ≢ y) × (has x ys ≡ true))
has-cases x y ys h = ground arith

pub ne_of_has : (a x : Ptr) (xs : List Ptr) → has a xs ≡ true → has x xs ≡ false → a ≢ x
ne_of_has a x xs m out e = true≢false (sym m ∙ ap (λ z. has z xs) e ∙ out)

module _ (next prev : Ptr → Ptr) where
  pub not-has-null : (b c : Ptr) (xs : List Ptr) → Chain next prev b c xs → has null xs ≡ false
  not-has-null b c [] h = refl
  not-has-null b c (x ∷ xs) h = ground (arith, not-has-null x (next x) xs h.4)

  -- A chain is read only at its members.
  pub frame :
      (next' prev' : Ptr → Ptr) (b c : Ptr) (xs : List Ptr)
      → ((a : Ptr) → has a xs ≡ true → next' a ≡ next a)
      → ((a : Ptr) → has a xs ≡ true → prev' a ≡ prev a)
      → Chain next prev b c xs
      → Chain next' prev' b c xs
  frame next' prev' b c [] n p h = h
  frame next' prev' b c (x ∷ xs) n p h = (
    h.0,
    h.1,
    ground (arith, p x),
    h.3,
    let rest =
          frame next' prev' x (next x) xs (λ a m. n a (ground arith)) (λ a m. p a (ground arith))
            h.4 in
        rw (n x (ground arith)) rest,
  )

  -- The neighbours of a member are members, or the ends.
  pub next-has :
      (b c x : Ptr) (xs : List Ptr)
      → Chain next prev b c xs
      → has x xs ≡ true
      → (next x ≡ null) ⊎ (has (next x) xs ≡ true)
  next-has b c x [] h m = absurd (false≢true m)
  next-has b c x (y ∷ []) h m = elim (has-cases x y [] m) [
    | inl e ↦ inl (rw e h.4)
    | inr (ne, r) ↦ absurd (false≢true r)
  ]
  next-has b c x (y ∷ z ∷ zs) h m = elim (has-cases x y (z ∷ zs) m) [
    | inl e ↦ inr (rw e (ground (arith, h.4.0)))
    | inr (ne, r) ↦ elim (next-has y (next y) x (z ∷ zs) h.4 r) [
      | inl e ↦ inl e
      | inr q ↦ inr (ground (arith, q))
    ]
  ]

  pub prev-has :
      (b c x : Ptr) (xs : List Ptr)
      → Chain next prev b c xs
      → has x xs ≡ true
      → ((c ≡ x) × (prev x ≡ b)) ⊎ ((c ≢ x) × (has (prev x) xs ≡ true))
  prev-has b c x [] h m = absurd (false≢true m)
  prev-has b c x (y ∷ ys) h m = elim (has-cases x y ys m) [
    | inl e ↦ inl (h.0 ∙ sym e, ap prev e ∙ h.2)
    | inr (ne, r) ↦ inr (
      λ q. ne (sym q ∙ h.0),
      elim (prev-has y (next y) x ys h.4 r) [
        | inl (e, f) ↦ ground arith
        | inr (ne', q) ↦ ground arith
      ],
    )
  ]

  pub start-has :
      (b c : Ptr) (xs : List Ptr) → Chain next prev b c xs → (c ≡ null) ⊎ (has c xs ≡ true)
  start-has b c [] h = inl h
  start-has b c (x ∷ xs) h = inr (ground (arith, h.0))

  pub prev-ne_self :
      (b c x : Ptr) (xs : List Ptr)
      → Chain next prev b c xs
      → has b xs ≡ false
      → has x xs ≡ true
      → prev x ≢ x
  prev-ne_self b c x [] h apart m = absurd (false≢true m)
  prev-ne_self b c x (y ∷ ys) h apart m = elim (has-cases x y ys m) [
    | inl e ↦ rw e (ground (arith, h.2))
    | inr (ne, r) ↦ prev-ne_self y (next y) x ys h.4 h.3 r
  ]

  pub next-ne_self :
      (b c x : Ptr) (xs : List Ptr) → Chain next prev b c xs → has x xs ≡ true → next x ≢ x
  next-ne_self b c x [] h m = absurd (false≢true m)
  next-ne_self b c x (y ∷ ys) h m = elim (has-cases x y ys m) [
    | inl e ↦ rw e (ground (arith, start-has y (next y) ys h.4, h.1, h.3))
    | inr (ne, r) ↦ next-ne_self y (next y) x ys h.4 r
  ]
