-- ===== src/Vector/Shifts.antt =====
-- The loops of `shift_by`, which move objects up inside a block.
use native.Mathlib.Decide.{ℕ_discrete, dec_lt}
use mini_libc.Base.{
  ℕ, zero, suc, ◌+◌, ◌-◌, ◌≤◌, ◌<◌, ◌≡◌, ◌≢◌, inl, inr, refl, sym, ap, ◌∙◌, true, false, ◌&&◌, ltb,
  leb, if◌then◌else◌, update_self, update_ne, ==_true, arith,
}
use mini_libc.Vector.{Traits, moved, live, is_raw, Buffer, write, copy_cells}
use mini_libc.Vector.Insert.{shift_construct, shift_assign, shift_replace}
use mini_libc.Vector.Cells.{
  Returns, Free, Within, Without, move_from-live, assign_at-ok, construct_at-ok, destroy_at-Cleared,
}

module _ {A : Type 0} (t : Traits) where
  -- The k objects below low are moved up by `shift` to free cells.
  pub record Lifted (k low shift : ℕ) (f : ℕ → A) (b b' : Buffer A) : Type 0 where
    pub size : b'.size ≡ b.size
    pub inside : (j : ℕ) → Within low k j → b'.cell j ≡ live (f (j - shift))
    pub left : (j : ℕ) → Within (low - shift) k j → is_raw (b'.cell j) ≡ false
    pub outside : (j : ℕ) → Without low k j → Without (low - shift) k j → b'.cell j ≡ b.cell j

  pub shift_construct-Lifted :
      (k low shift : ℕ) (f : ℕ → A) (b : Buffer A)
      → k ≤ shift
      → shift ≤ low
      → ((j : ℕ) → Within (low - shift) k j → b.cell j ≡ live (f j))
      → ((j : ℕ) → Within low k j → Free t (b.cell j))
      → low + k ≤ b.size
      → Returns (shift_construct t k low shift b) (Lifted k low shift f b)
  unfolding shift_construct
  shift_construct-Lifted zero low shift f b few le held free room = (
    b,
    refl,
    record {
      size = refl;
      inside = λ j w. absurd (omega (arith, w));
      left = λ j w. absurd (omega (arith, w));
      outside = λ j w w'. refl;
    },
  )
  shift_construct-Lifted (suc k) low shift f b few le held free room =
      let s = low + k - shift in
      let d = low + k in
      let b1 = write s moved b in
      let b2 = write d (live (f s)) b1 in
      let keeps1 = λ (j : ℕ) (ne : j ≢ s). update_ne b.cell s j moved ne in
      let keeps2 = λ (j : ℕ) (ne : j ≢ d). update_ne b1.cell d j (live (f s)) ne in
      let keeps = λ (j : ℕ) (ne : j ≢ s) (ne' : j ≢ d). keeps2 j ne' ∙ keeps1 j ne in
      let e1 = move_from-live s (f s) b (held s (omega arith)) (omega arith) in
      let e2 =
        construct_at-ok t d (f s) b1 (rw (keeps1 d (omega arith)) (free d (omega arith)))
          (omega arith) in
      let (r, e3, p) =
        shift_construct-Lifted k low shift f b2 (omega arith) le
          (λ j w. keeps j (omega (arith, w)) (omega (arith, w)) ∙ held j (omega (arith, w)))
          (λ j w. rw (keeps j (omega (arith, w)) (omega (arith, w))) (free j (omega (arith, w))))
          (omega arith) in
      (
        r,
        rw (e1, e2) e3,
        record {
          size = p.size;
          inside = λ j w. elim (ℕ_discrete j d) [
            | yes q ↦
                let z : s ≡ j - shift = omega arith in
                p.outside j (inr (omega arith)) (inr (omega arith))
                ∙ rw (==_true j d q) (ap (λ x. live (f x)) z)
            | no q ↦ p.inside j (omega (arith, w))
          ];
          left = λ j w. elim (ℕ_discrete j s) [
            | yes q ↦
                rw
                  (
                    p.outside j (inl (omega arith)) (inr (omega arith)),
                    keeps2 j (omega arith),
                    ==_true j s q,
                  )
                  refl
            | no q ↦ p.left j (omega (arith, w))
          ];
          outside = λ j w w'.
              p.outside j (elim w [ inl a ↦ inl a | inr a ↦ inr (omega arith) ])
                (elim w' [ inl a ↦ inl a | inr a ↦ inr (omega arith) ])
              ∙ keeps j (omega (arith, w')) (omega (arith, w));
        },
      )

  -- Objects are moved up over cells that hold objects, or did.
  pub record Slid (k low shift : ℕ) (f : ℕ → A) (b b' : Buffer A) : Type 0 where
    pub size : b'.size ≡ b.size
    pub inside : (j : ℕ) → Within low k j → b'.cell j ≡ live (f (j - shift))
    pub left : (j : ℕ) → Within (low - shift) shift j → is_raw (b'.cell j) ≡ false
    pub outside : (j : ℕ) → Without (low - shift) (shift + k) j → b'.cell j ≡ b.cell j

  pub record CanSlide (k low shift : ℕ) (f : ℕ → A) (b : Buffer A) : Type 0 where
    pub positive : 0 < shift
    pub le : shift ≤ low
    pub held : (j : ℕ) → Within (low - shift) k j → b.cell j ≡ live (f j)
    pub used : (j : ℕ) → Within (low - shift) (shift + k) j → is_raw (b.cell j) ≡ false
    pub room : low + k ≤ b.size

  -- One round, whichever way the object at the top is put in place.
  module _ (k low shift : ℕ) (f : ℕ → A) (b b2 : Buffer A) (h : CanSlide (suc k) low shift f b)
      (size : b2.size ≡ b.size) (top : b2.cell (low + k) ≡ live (f (low + k - shift)))
      (gone : b2.cell (low + k - shift) ≡ moved)
      (same : (j : ℕ) → j ≢ low + k → j ≢ low + k - shift → b2.cell j ≡ b.cell j) where
    rest_CanSlide : CanSlide k low shift f b2
    rest_CanSlide = record {
      positive = h.positive;
      le = h.le;
      held = λ j w.
          same j (omega (arith, w, h.positive)) (omega (arith, w)) ∙ h.held j (omega (arith, w));
      used = λ j w. elim (ℕ_discrete j (low + k - shift)) [
        | yes q ↦ rw (ap b2.cell q, gone) refl
        | no q ↦ rw (same j (omega (arith, w, h.le)) q) (h.used j (omega (arith, w)))
      ];
      room = omega (arith, size, h.room);
    }

    rest_Slid : (r : Buffer A) → Slid k low shift f b2 r → Slid (suc k) low shift f b r
    rest_Slid r p = record {
      size = p.size ∙ size;
      inside = λ j w. elim (ℕ_discrete j (low + k)) [
        | yes q ↦
            p.outside j (inr (omega (arith, h.le)))
            ∙ ap b2.cell q
            ∙ top
            ∙ ap (λ x. live (f (x - shift))) (sym q)
        | no q ↦ p.inside j (omega (arith, w))
      ];
      left = p.left;
      outside = λ j w.
          p.outside j (elim w [ inl a ↦ inl a | inr a ↦ inr (omega arith) ])
          ∙ same j (omega (arith, w, h.le)) (omega (arith, w, h.le));
    }

  none_Slid :
      (low shift : ℕ) (f : ℕ → A) (b : Buffer A) → CanSlide 0 low shift f b → Slid 0 low shift f b b
  none_Slid low shift f b h = record {
    size = refl;
    inside = λ j w. absurd (omega (arith, w));
    left = λ j w. h.used j (omega (arith, w));
    outside = λ j w. refl;
  }

  pub shift_assign-Slid :
      (k low shift : ℕ) (f : ℕ → A) (b : Buffer A)
      → CanSlide k low shift f b
      → Returns (shift_assign t k low shift b) (Slid k low shift f b)
  unfolding shift_assign
  shift_assign-Slid zero low shift f b h = (b, refl, none_Slid low shift f b h)
  shift_assign-Slid (suc k) low shift f b h =
      let s = low + k - shift in
      let d = low + k in
      let b1 = write s moved b in
      let b2 = write d (live (f s)) b1 in
      let keeps1 = λ (j : ℕ) (ne : j ≢ s). update_ne b.cell s j moved ne in
      let keeps2 = λ (j : ℕ) (ne : j ≢ d). update_ne b1.cell d j (live (f s)) ne in
      let ne : d ≢ s = omega (arith, h.positive, h.le) in
      let e1 = move_from-live s (f s) b (h.held s (omega (arith, h.le))) (omega (arith, h.room)) in
      let e2 =
        assign_at-ok d (f s) b1 (rw (keeps1 d ne) (h.used d (omega (arith, h.le))))
          (omega (arith, h.room)) in
      let top = update_self b1.cell d (live (f s)) in
      let gone = keeps2 s (omega (arith, ne)) ∙ update_self b.cell s moved in
      let same = λ (j : ℕ) (n : j ≢ d) (n' : j ≢ s). keeps2 j n ∙ keeps1 j n' in
      let (r, e3, p) =
        shift_assign-Slid k low shift f b2
          (rest_CanSlide k low shift f b b2 h refl top gone same) in
      (r, rw (e1, e2) e3, rest_Slid k low shift f b b2 h refl top gone same r p)

  pub shift_replace-Slid :
      (k low shift : ℕ) (f : ℕ → A) (b : Buffer A)
      → CanSlide k low shift f b
      → Returns (shift_replace t k low shift b) (Slid k low shift f b)
  unfolding shift_replace
  shift_replace-Slid zero low shift f b h = (b, refl, none_Slid low shift f b h)
  shift_replace-Slid (suc k) low shift f b h =
      let s = low + k - shift in
      let d = low + k in
      let ne : s ≢ d = omega (arith, h.positive, h.le) in
      let (b0, e0, c) =
        destroy_at-Cleared t d b (h.used d (omega (arith, h.le))) (omega (arith, h.room)) in
      let clear = λ (j : ℕ) (n : j ≢ d).
        c.outside j (elim (dec_lt j d) [ yes l ↦ inl l | no l ↦ inr (omega arith) ]) in
      let b1 = write s moved b0 in
      let b2 = write d (live (f s)) b1 in
      let keeps1 = λ (j : ℕ) (n : j ≢ s). update_ne b0.cell s j moved n in
      let keeps2 = λ (j : ℕ) (n : j ≢ d). update_ne b1.cell d j (live (f s)) n in
      let e1 =
        move_from-live s (f s) b0 (clear s ne ∙ h.held s (omega (arith, h.le)))
          (omega (arith, h.room, c.size)) in
      let e2 =
        construct_at-ok t d (f s) b1 (rw (keeps1 d (omega (arith, ne))) (c.inside d (omega arith)))
          (omega (arith, h.room, c.size)) in
      let top = update_self b1.cell d (live (f s)) in
      let gone = keeps2 s ne ∙ update_self b0.cell s moved in
      let same = λ (j : ℕ) (n : j ≢ d) (n' : j ≢ s). keeps2 j n ∙ keeps1 j n' ∙ clear j n in
      let (r, e3, p) =
        shift_replace-Slid k low shift f b2
          (rest_CanSlide k low shift f b b2 h c.size top gone same) in
      (r, rw (e0, e1, e2) e3, rest_Slid k low shift f b b2 h c.size top gone same r p)

  -- `memmove` keeps what it copies from, which the caller overwrites.
  pub copy_cells-Slid :
      (k src low shift : ℕ) (f : ℕ → A) (b : Buffer A)
      → src + shift ≡ low
      → CanSlide k low shift f b
      → Returns (copy_cells low src k b b) (Slid k low shift f b)
  unfolding copy_cells
  copy_cells-Slid k src low shift f b e h =
      let l1 : leb (low + k) b.size ≡ true = ground (arith, h.room) in
      let l2 : leb (src + k) b.size ≡ true = ground (arith, h.room) in
      let b' = record b {
        cell = λ j. if leb low j && ltb j (low + k) then b.cell (j - low + src) else b.cell j;
      } in
      (
        b',
        rw (l1, l2) refl,
        record {
          size = refl;
          inside = λ j w.
              let y : (leb low j && ltb j (low + k)) ≡ true = ground (arith, w) in
              let z : j - low + src ≡ j - shift = omega (arith, w) in
              rw (y, z) (h.held (j - shift) (omega (arith, w)));
          left = λ j w.
              let n : (leb low j && ltb j (low + k)) ≡ false = ground (arith, w) in
              rw n (h.used j (omega (arith, w)));
          outside = λ j w.
              let n : (leb low j && ltb j (low + k)) ≡ false = elim w [
                | inl a ↦ ground (arith, a, h.le)
                | inr a ↦ ground (arith, a, h.le)
              ] in
              rw n refl;
        },
      )
