-- ===== src/Vector/Gap.antt =====
-- The moves inside a block, as a whole: a gap opens.
use native.Mathlib.Decide.{ℕ_discrete, dec_lt}
use mini_libc.Base.{
  ℕ, zero, suc, ◌+◌, ◌-◌, ◌≤◌, ◌<◌, ◌≡◌, inl, inr, refl, ◌∙◌, Bool, true, false, ◌||◌, ltb,
  if◌then◌else◌, Bool-cases, arith,
}
use mini_libc.Vector.{Traits, live, is_raw, Buffer}
use mini_libc.Vector.Insert.{destroy_up, move_up}
use mini_libc.Vector.Cells.{Returns, Free, Within, Cleared, destroy_at-Cleared}
use mini_libc.Vector.Shifts.{
  Lifted, shift_construct-Lifted, Slid, CanSlide, shift_assign-Slid, shift_replace-Slid,
  copy_cells-Slid,
}

module _ {A : Type 0} (t : Traits) where
  pub destroy_up-Cleared :
      (k i : ℕ) (b : Buffer A)
      → ((j : ℕ) → Within i k j → is_raw (b.cell j) ≡ false)
      → i + k ≤ b.size
      → Returns (destroy_up t k i b) (Cleared t i k b)
  unfolding destroy_up
  destroy_up-Cleared zero i b alive fits = (
    b,
    refl,
    record { size = refl; inside = λ j w. absurd (omega (arith, w)); outside = λ j w. refl },
  )
  destroy_up-Cleared (suc k) i b alive fits =
      let (b1, e1, c) = destroy_at-Cleared t i b (alive i (omega arith)) (omega arith) in
      let (b2, e2, r) =
        destroy_up-Cleared k (i + 1) b1
          (λ j w. rw (c.outside j (inr (omega (arith, w)))) (alive j (omega (arith, w))))
          (omega (arith, c.size)) in
      (
        b2,
        rw e1 e2,
        record {
          size = r.size ∙ c.size;
          inside = λ j w. elim (ℕ_discrete j i) [
            | yes q ↦ rw (r.outside j (inl (omega arith))) (c.inside j (omega arith))
            | no q ↦ r.inside j (omega (arith, w))
          ];
          outside = λ j w.
              r.outside j (elim w [ inl a ↦ inl (omega arith) | inr a ↦ inr (omega arith) ])
              ∙ c.outside j (elim w [ inl a ↦ inl (omega arith) | inr a ↦ inr (omega arith) ]);
        },
      )

  -- A block whose first n cells hold f 0, ..., f (n - 1), and the others none.
  pub record Stores (n : ℕ) (f : ℕ → A) (m : ℕ) (b : Buffer A) : Type 0 where
    pub size : b.size ≡ m
    pub held : (j : ℕ) → j < n → b.cell j ≡ live (f j)
    pub rest : (j : ℕ) → n ≤ j → Free t (b.cell j)

  -- The same n objects around a gap. In the gap, the cells that held objects are `used`.
  pub record Opened (index shift n : ℕ) (f : ℕ → A) (m : ℕ) (used : Bool) (b : Buffer A)
      : Type 0 where
    pub size : b.size ≡ m
    pub below : (j : ℕ) → j < index → b.cell j ≡ live (f j)
    pub gap :
        (j : ℕ)
        → index ≤ j
        → j < index + shift
        → j < n
        → if used then is_raw (b.cell j) ≡ false else Free t (b.cell j)
    pub new_gap : (j : ℕ) → index ≤ j → j < index + shift → n ≤ j → Free t (b.cell j)
    pub above : (j : ℕ) → index + shift ≤ j → j < n + shift → b.cell j ≡ live (f (j - shift))
    pub rest : (j : ℕ) → n + shift ≤ j → Free t (b.cell j)

  module _ (index shift n : ℕ) (f : ℕ → A) (m : ℕ) (b : Buffer A) (s : Stores n f m b)
      (positive : 0 < shift) (inside : index < n) (room : n + shift ≤ m) where
    Slid-Opened :
        (b1 b2 : Buffer A)
        → index + shift < n
        → Lifted t shift n shift f b b1
        → Slid t (n - (index + shift)) (index + shift) shift f b1 b2
        → Opened index shift n f m true b2
    Slid-Opened b1 b2 lt l d = record {
      size = d.size ∙ l.size ∙ s.size;
      below = λ j lo.
          d.outside j (inl (omega arith))
          ∙ l.outside j (inl (omega arith)) (inl (omega arith))
          ∙ s.held j (omega arith);
      gap = λ j lo hi lt'. d.left j (omega arith);
      new_gap = λ j lo hi le. absurd (omega arith);
      above = λ j lo hi. elim (dec_lt j n) [
        | yes below_n ↦ d.inside j (omega arith)
        | no above_n ↦ d.outside j (inr (omega arith)) ∙ l.inside j (omega arith)
      ];
      rest = λ j le.
          rw (d.outside j (inr (omega arith)), l.outside j (inr (omega arith)) (inr (omega arith)))
            (s.rest j (omega arith));
    }

    Lifted-CanSlide :
        (b1 : Buffer A)
        → index + shift < n
        → Lifted t shift n shift f b b1
        → CanSlide t (n - (index + shift)) (index + shift) shift f b1
    Lifted-CanSlide b1 lt l = record {
      positive = positive;
      le = omega arith;
      held = λ j w.
          l.outside j (inl (omega (arith, w))) (inl (omega (arith, w)))
          ∙ s.held j (omega (arith, w));
      used = λ j w. elim (dec_lt j (n - shift)) [
        | yes low ↦
            rw (l.outside j (inl (omega (arith, w))) (inl low), s.held j (omega (arith, w))) refl
        | no high ↦ l.left j (omega (arith, w))
      ];
      room = omega (arith, l.size, s.size);
    }

    pub move_up-Opened :
        (t.move_assignable || t.destructible) ≡ true
        → Returns (move_up t n index shift b) (Opened index shift n f m true)
    unfolding move_up
    move_up-Opened can = elim (dec_lt (index + shift) n) [
      | yes lt ↦
          let c : ltb (index + shift) n ≡ true = ground arith in
          let (b1, e1, l) =
            shift_construct-Lifted t shift n shift f b (omega arith) (omega arith)
              (λ j w. s.held j (omega (arith, w))) (λ j w. s.rest j (omega (arith, w)))
              (omega (arith, s.size)) in
          let h = Lifted-CanSlide b1 lt l in
          let k = n - (index + shift) in
          let low = index + shift in
          elim (Bool-cases t.move_assignable) [
            | inl y ↦ elim (Bool-cases t.trivially_move_assignable) [
              | inl y' ↦
                  let (b2, e2, d) = copy_cells-Slid t k index low shift f b1 refl h in
                  (b2, simp (c, e1, y, y') e2, Slid-Opened b1 b2 lt l d)
              | inr y' ↦
                  let (b2, e2, d) = shift_assign-Slid t k low shift f b1 h in
                  (b2, simp (c, e1, y, y') e2, Slid-Opened b1 b2 lt l d)
            ]
            | inr y ↦
                let z : t.destructible ≡ true = cc (can, y) in
                let (b2, e2, d) = shift_replace-Slid t k low shift f b1 h in
                (b2, simp (c, e1, y, z) e2, Slid-Opened b1 b2 lt l d)
          ]
      | no ge ↦
          let c : ltb (index + shift) n ≡ false = ground arith in
          let (b1, e1, l) =
            shift_construct-Lifted t (n - index) (index + shift) shift f b (omega arith)
              (omega arith) (λ j w. s.held j (omega (arith, w)))
              (λ j w. s.rest j (omega (arith, w))) (omega (arith, s.size)) in
          (
            b1,
            rw c e1,
            record {
              size = l.size ∙ s.size;
              below = λ j lo.
                  l.outside j (inl (omega arith)) (inl (omega arith)) ∙ s.held j (omega arith);
              gap = λ j lo hi lt'. l.left j (omega arith);
              new_gap = λ j lo hi le.
                  rw (l.outside j (inl (omega arith)) (inr (omega arith))) (s.rest j le);
              above = λ j lo hi. l.inside j (omega arith);
              rest = λ j le.
                  rw (l.outside j (inr (omega arith)) (inr (omega arith))) (s.rest j (omega arith));
            },
          )
    ]
