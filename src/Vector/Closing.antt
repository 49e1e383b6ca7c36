-- ===== src/Vector/Closing.antt =====
-- The loops of `erase`, which move objects down inside a block.
use native.Mathlib.Decide.{ℕ_discrete, dec_lt}
use mini_libc.Base.{
  ℕ, zero, suc, ◌+◌, ◌-◌, ◌≤◌, ◌<◌, ◌≡◌, ◌≢◌, inl, inr, refl, sym, ap, ◌∙◌, true, false, ◌&&◌, ltb,
  leb, if◌then◌else◌, update_self, update_ne, arith,
}
use mini_libc.Vector.{write, Traits, moved, live, is_raw, Buffer, copy_cells}
use mini_libc.Vector.Cells.{Returns, Within, Without}
use mini_libc.Vector.Cells.{destroy_at-Cleared}
use mini_libc.Vector.Cells.{construct_at-ok, assign_at-ok, move_from-live}
use mini_libc.Vector.Insert.{close_assign, close_replace}

module _ {A : Type 0} (t : Traits) where
  pub record CanClose (k i count : ℕ) (f : ℕ → A) (b : Buffer A) : Type 0 where
    pub positive : 0 < count
    pub held : (j : ℕ) → Within (i + count) k j → b.cell j ≡ live (f j)
    pub used : (j : ℕ) → Within i (k + count) j → is_raw (b.cell j) ≡ false
    pub room : i + k + count ≤ b.size

  pub record Closed (k i count : ℕ) (f : ℕ → A) (b b' : Buffer A) : Type 0 where
    pub size : b'.size ≡ b.size
    pub inside : (j : ℕ) → Within i k j → b'.cell j ≡ live (f (j + count))
    pub left : (j : ℕ) → Within (i + k) count j → is_raw (b'.cell j) ≡ false
    pub outside : (j : ℕ) → Without i (k + count) j → b'.cell j ≡ b.cell j

  none_Closed :
      (i count : ℕ) (f : ℕ → A) (b : Buffer A) → CanClose 0 i count f b → Closed 0 i count f b b
  none_Closed i count f b h = record {
    size = refl;
    inside = λ j w. absurd (omega (arith, w));
    left = λ j w. h.used j (omega (arith, w));
    outside = λ j w. refl;
  }

  -- One round, whichever way the object is put in place.
  module _ (k i count : ℕ) (f : ℕ → A) (b b2 : Buffer A) (h : CanClose (suc k) i count f b)
      (size : b2.size ≡ b.size) (first : b2.cell i ≡ live (f (i + count)))
      (gone : b2.cell (i + count) ≡ moved)
      (same : (j : ℕ) → j ≢ i → j ≢ i + count → b2.cell j ≡ b.cell j) where
    rest_CanClose : CanClose k (i + 1) count f b2
    rest_CanClose = record {
      positive = h.positive;
      held = λ j w. same j (omega (arith, w)) (omega (arith, w)) ∙ h.held j (omega (arith, w));
      used = λ j w. elim (ℕ_discrete j (i + count)) [
        | yes q ↦ rw (ap b2.cell q, gone) refl
        | no q ↦ rw (same j (omega (arith, w)) q) (h.used j (omega (arith, w)))
      ];
      room = omega (arith, size, h.room);
    }

    rest_Closed : (r : Buffer A) → Closed k (i + 1) count f b2 r → Closed (suc k) i count f b r
    rest_Closed r p = record {
      size = p.size ∙ size;
      inside = λ j w. elim (ℕ_discrete j i) [
        | yes q ↦
            p.outside j (inl (omega arith))
            ∙ ap b2.cell q
            ∙ first
            ∙ ap (λ x. live (f (x + count))) (sym q)
        | no q ↦ p.inside j (omega (arith, w))
      ];
      left = λ j w. p.left j (omega (arith, w));
      outside = λ j w.
          p.outside j (elim w [ inl a ↦ inl (omega arith) | inr a ↦ inr (omega arith) ])
          ∙ same j (omega (arith, w, h.positive)) (omega (arith, w));
    }

  pub close_assign-Closed :
      (k i count : ℕ) (f : ℕ → A) (b : Buffer A)
      → CanClose k i count f b
      → Returns (close_assign t k i count b) (Closed k i count f b)
  unfolding close_assign
  close_assign-Closed zero i count f b h = (b, refl, none_Closed i count f b h)
  close_assign-Closed (suc k) i count f b h =
      let s = i + count in
      let b1 = write s moved b in
      let b2 = write i (live (f s)) b1 in
      let keeps1 = λ (j : ℕ) (n : j ≢ s). update_ne b.cell s j moved n in
      let keeps2 = λ (j : ℕ) (n : j ≢ i). update_ne b1.cell i j (live (f s)) n in
      let ne : s ≢ i = omega (arith, h.positive) in
      let ne' : i ≢ s = omega (arith, h.positive) in
      let e1 = move_from-live s (f s) b (h.held s (omega arith)) (omega (arith, h.room)) in
      let e2 =
        assign_at-ok i (f s) b1 (rw (keeps1 i ne') (h.used i (omega arith)))
          (omega (arith, h.room)) in
      let first = update_self b1.cell i (live (f s)) in
      let gone = keeps2 s ne ∙ update_self b.cell s moved in
      let same = λ (j : ℕ) (n : j ≢ i) (n' : j ≢ s). keeps2 j n ∙ keeps1 j n' in
      let (r, e3, p) =
        close_assign-Closed k (i + 1) count f b2
          (rest_CanClose k i count f b b2 h refl first gone same) in
      (r, rw (e1, e2) e3, rest_Closed k i count f b b2 h refl first gone same r p)

  pub close_replace-Closed :
      (k i count : ℕ) (f : ℕ → A) (b : Buffer A)
      → CanClose k i count f b
      → Returns (close_replace t k i count b) (Closed k i count f b)
  unfolding close_replace
  close_replace-Closed zero i count f b h = (b, refl, none_Closed i count f b h)
  close_replace-Closed (suc k) i count f b h =
      let s = i + count in
      let ne : s ≢ i = omega (arith, h.positive) in
      let ne' : i ≢ s = omega (arith, h.positive) in
      let (b0, e0, c) = destroy_at-Cleared t i b (h.used i (omega arith)) (omega (arith, h.room)) in
      let clear = λ (j : ℕ) (n : j ≢ i).
        c.outside j (elim (dec_lt j i) [ yes l ↦ inl l | no l ↦ inr (omega arith) ]) in
      let b1 = write s moved b0 in
      let b2 = write i (live (f s)) b1 in
      let keeps1 = λ (j : ℕ) (n : j ≢ s). update_ne b0.cell s j moved n in
      let keeps2 = λ (j : ℕ) (n : j ≢ i). update_ne b1.cell i j (live (f s)) n in
      let e1 =
        move_from-live s (f s) b0 (clear s ne ∙ h.held s (omega arith))
          (omega (arith, h.room, c.size)) in
      let e2 =
        construct_at-ok t i (f s) b1 (rw (keeps1 i ne') (c.inside i (omega arith)))
          (omega (arith, h.room, c.size)) in
      let first = update_self b1.cell i (live (f s)) in
      let gone = keeps2 s ne ∙ update_self b0.cell s moved in
      let same = λ (j : ℕ) (n : j ≢ i) (n' : j ≢ s). keeps2 j n ∙ keeps1 j n' ∙ clear j n in
      let (r, e3, p) =
        close_replace-Closed k (i + 1) count f b2
          (rest_CanClose k i count f b b2 h c.size first gone same) in
      (r, rw (e0, e1, e2) e3, rest_Closed k i count f b b2 h c.size first gone same r p)

  pub copy_cells-Closed :
      (k i count : ℕ) (f : ℕ → A) (b : Buffer A)
      → CanClose k i count f b
      → Returns (copy_cells i (i + count) k b b) (Closed k i count f b)
  unfolding copy_cells
  copy_cells-Closed k i count f b h =
      let l1 : leb (i + k) b.size ≡ true = ground (arith, h.room) in
      let l2 : leb (i + count + k) b.size ≡ true = ground (arith, h.room) in
      let test = λ (j : ℕ). leb i j && ltb j (i + k) in
      let b' = record b { cell = λ j. if test j then b.cell (j - i + (i + count)) else b.cell j } in
      (
        b',
        rw (l1, l2) refl,
        record {
          size = refl;
          inside = λ j w.
              let y : test j ≡ true = ground (arith, w) in
              let z : j - i + (i + count) ≡ j + count = omega (arith, w) in
              rw (y, z) (h.held (j + count) (omega (arith, w)));
          left = λ j w.
              let n : test j ≡ false = ground (arith, w) in rw n (h.used j (omega (arith, w)));
          outside = λ j w.
              let n : test j ≡ false = elim w [
                | inl a ↦ ground (arith, a)
                | inr a ↦ ground (arith, a)
              ] in
              rw n refl;
        },
      )
