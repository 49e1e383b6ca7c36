-- ===== src/Vector/Cells.antt =====
-- What the loops over the cells of a block do, where no object is lost or missing.
use native.Mathlib.Decide.{ℕ_discrete}
use mini_libc.Base.{
  ℕ, zero, suc, ◌+◌, ◌-◌, ◌≤◌, ◌<◌, ◌≡◌, ◌≢◌, ◌⊎◌, inl, inr, refl, ap, ◌∙◌, true, false, ◌||◌, ltb,
  Bool-cases, update_ne, ==_true, arith,
}
use mini_libc.Vector.{
  Outcome, ok, ◌>>=◌, Traits, Cell, raw, moved, live, is_raw, Buffer, read_cell, move_from, write,
  assign_at, construct_at, destroy_at, construct_many, destroy_down,
}

-- The run ends normally, with a result of which P holds.
abbrev pub Returns {ℓ} : {A : Type 0} → Outcome A → (A → Type ℓ) → Type ℓ
Returns {A = A} m P = (a : A) × (m ≡ ok a) × P a

pub Returns-bind {ℓ κ} :
    {A B : Type 0} {P : A → Type ℓ} {Q : B → Type κ} (m : Outcome A) (k : A → Outcome B)
    → Returns m P
    → ((a : A) → P a → Returns (k a) Q)
    → Returns (m >>= k) Q
Returns-bind m k (a, e, p) h = let (b, e', q) = h a p in (b, rw e e', q)

-- A new object may be made in the cell.
abbrev pub Free : {A : Type 0} → Traits → Cell A → Type 0
Free t c = (t.trivially_destructible || is_raw c) ≡ true

abbrev pub Within : ℕ → ℕ → ℕ → Type 0
Within i k j = (i ≤ j) × (j < i + k)

abbrev pub Without : ℕ → ℕ → ℕ → Type 0
Without i k j = (j < i) ⊎ (i + k ≤ j)

module _ {A : Type 0} where
  -- The k cells from i on hold g 0, g 1, and so on.
  pub record Built (i k : ℕ) (g : ℕ → A) (b b' : Buffer A) : Type 0 where
    pub size : b'.size ≡ b.size
    pub inside : (j : ℕ) → Within i k j → b'.cell j ≡ live (g (j - i))
    pub outside : (j : ℕ) → Without i k j → b'.cell j ≡ b.cell j

  pub move_from-live :
      (i : ℕ) (a : A) (b : Buffer A)
      → b.cell i ≡ live a
      → i < b.size
      → move_from i b ≡ ok (a, write i moved b)
  unfolding move_from read_cell
  move_from-live i a b e lt = let l : ltb i b.size ≡ true = ground arith in rw (l, e) refl

  pub assign_at-ok :
      (i : ℕ) (a : A) (b : Buffer A)
      → is_raw (b.cell i) ≡ false
      → i < b.size
      → assign_at i a b ≡ ok (write i (live a) b)
  unfolding assign_at
  assign_at-ok i a b e lt = let l : ltb i b.size ≡ true = ground arith in rw (l, e) refl

  module _ (t : Traits) where
    pub Free_of_trivial : t.trivially_destructible ≡ true → (c : Cell A) → Free t c
    Free_of_trivial y c = rw y refl

    pub Free_of_raw : (c : Cell A) → is_raw c ≡ true → Free t c
    Free_of_raw c e = elim (Bool-cases t.trivially_destructible) [
      | inl y ↦ rw y refl
      | inr n ↦ rw n e
    ]

    -- Cells that held objects are free again.
    pub record Cleared (i k : ℕ) (b b' : Buffer A) : Type 0 where
      pub size : b'.size ≡ b.size
      pub inside : (j : ℕ) → Within i k j → Free t (b'.cell j)
      pub outside : (j : ℕ) → Without i k j → b'.cell j ≡ b.cell j

    pub construct_at-ok :
        (i : ℕ) (a : A) (b : Buffer A)
        → Free t (b.cell i)
        → i < b.size
        → construct_at t i a b ≡ ok (write i (live a) b)
    unfolding construct_at
    construct_at-ok i a b e lt = let l : ltb i b.size ≡ true = ground arith in rw (l, e) refl

    pub destroy_at-Cleared :
        (i : ℕ) (b : Buffer A)
        → is_raw (b.cell i) ≡ false
        → i < b.size
        → Returns (destroy_at t i b) (Cleared i 1 b)
    unfolding destroy_at
    destroy_at-Cleared i b e lt = elim (Bool-cases t.trivially_destructible) [
      | inl y ↦
          let e1 : destroy_at t i b ≡ ok b = rw y refl in
          (
            b,
            e1,
            record {
              size = refl;
              inside = λ j w. Free_of_trivial y (b.cell j);
              outside = λ j w. refl;
            },
          )
      | inr n ↦
          let l : ltb i b.size ≡ true = ground arith in
          let e1 : destroy_at t i b ≡ ok (write i raw b) = rw (n, l, e) refl in
          (
            write i raw b,
            e1,
            record {
              size = refl;
              inside = λ j w. rw (==_true j i (omega (arith, w))) (Free_of_raw raw refl);
              outside = λ j w. update_ne b.cell i j raw (omega (arith, w));
            },
          )
    ]

    pub construct_many-Built :
        (k i : ℕ) (g : ℕ → A) (b : Buffer A)
        → ((j : ℕ) → Within i k j → Free t (b.cell j))
        → i + k ≤ b.size
        → Returns (construct_many t k i g b) (Built i k g b)
    unfolding construct_many
    construct_many-Built zero i g b free fits = (
      b,
      refl,
      record { size = refl; inside = λ j w. absurd (omega arith); outside = λ j w. refl },
    )
    construct_many-Built (suc k) i g b free fits =
        let b1 = write i (live (g 0)) b in
        let e = construct_at-ok i (g 0) b (free i (omega arith)) (omega arith) in
        let keeps = λ (j : ℕ) (ne : j ≢ i). update_ne b.cell i j (live (g 0)) ne in
        let (b2, e2, r) =
          construct_many-Built k (i + 1) (λ j. g (suc j)) b1
            (λ j w. rw (keeps j (omega (arith, w))) (free j (omega (arith, w)))) (omega arith) in
        (
          b2,
          rw e e2,
          record {
            size = r.size;
            inside = λ j w. elim (ℕ_discrete j i) [
              | yes q ↦
                  let z : j - i ≡ 0 = omega arith in
                  r.outside j (inl (omega arith)) ∙ rw (==_true j i q, z) refl
              | no q ↦
                  let z : suc (j - (i + 1)) ≡ j - i = omega (arith, w) in
                  r.inside j (omega (arith, w)) ∙ ap (λ x. live (g x)) z
            ];
            outside = λ j w.
                r.outside j (elim w [ inl a ↦ inl (omega arith) | inr a ↦ inr (omega arith) ])
                ∙ keeps j (omega (arith, w));
          },
        )

    pub destroy_down-Cleared :
        (k i : ℕ) (b : Buffer A)
        → ((j : ℕ) → Within i k j → is_raw (b.cell j) ≡ false)
        → i + k ≤ b.size
        → Returns (destroy_down t k i b) (Cleared i k b)
    unfolding destroy_down
    destroy_down-Cleared zero i b alive fits = (
      b,
      refl,
      record { size = refl; inside = λ j w. absurd (omega arith); outside = λ j w. refl },
    )
    destroy_down-Cleared (suc k) i b alive fits =
        let (b1, e1, c) =
          destroy_at-Cleared (i + k) b (alive (i + k) (omega arith)) (omega arith) in
        let (b2, e2, r) =
          destroy_down-Cleared k i b1
            (λ j w. rw (c.outside j (inl (omega arith))) (alive j (omega (arith, w))))
            (omega (arith, c.size)) in
        (
          b2,
          rw e1 e2,
          record {
            size = r.size ∙ c.size;
            inside = λ j w. elim (ℕ_discrete j (i + k)) [
              | yes q ↦ rw (r.outside j (inr (omega arith))) (c.inside j (omega arith))
              | no q ↦ r.inside j (omega (arith, w))
            ];
            outside = λ j w.
                r.outside j (elim w [ inl a ↦ inl (omega arith) | inr a ↦ inr (omega arith) ])
                ∙ c.outside j (elim w [ inl a ↦ inl (omega arith) | inr a ↦ inr (omega arith) ]);
          },
        )
