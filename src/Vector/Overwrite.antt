-- ===== src/Vector/Overwrite.antt =====
-- The loops that write copies of one object over a gap.
use native.Mathlib.Decide.{dec_lt}
use mini_libc.Base.{
  ℕ, zero, suc, ◌+◌, ◌≤◌, ◌<◌, ◌≡◌, inl, inr, refl, ◌∙◌, false, ==_true, if◌then◌else◌, Bool-cases,
  update_ne, arith,
}
use mini_libc.Base.{==_true}
use mini_libc.Vector.{write, ◌>>=◌, Traits, live, is_raw, Buffer}
use mini_libc.Vector.Cells.{Returns, Within, Built}
use mini_libc.Vector.{destroy_at}
use mini_libc.Vector.Cells.{destroy_at-Cleared}
use mini_libc.Vector.{assign_at, construct_at}
use mini_libc.Vector.Cells.{construct_at-ok, assign_at-ok}
use mini_libc.Vector.Bulk.{overwrite}

module _ {A : Type 0} (t : Traits) (a : A) where
  overwrite_step :
      (low : ℕ) (b : Buffer A)
      → is_raw (b.cell low) ≡ false
      → low < b.size
      → Returns
          (if t.copy_assignable
            then assign_at low a b
            else destroy_at t low b >>= construct_at t low a)
          (Built low 1 (λ _. a) b)
  overwrite_step low b used lt = elim (Bool-cases t.copy_assignable) [
    | inl y ↦ (
      write low (live a) b,
      simp (y, assign_at-ok low a b used lt),
      record {
        size = refl;
        inside = λ j w. rw (==_true j low (omega (arith, w))) refl;
        outside = λ j w. update_ne b.cell low j (live a) (omega (arith, w));
      },
    )
    | inr y ↦
        let (b1, e1, c) = destroy_at-Cleared t low b used lt in
        let e2 = construct_at-ok t low a b1 (c.inside low (omega arith)) (omega (arith, c.size)) in
        (
          write low (live a) b1,
          simp (y, e1, e2),
          record {
            size = c.size;
            inside = λ j w. rw (==_true j low (omega (arith, w))) refl;
            outside = λ j w. update_ne b1.cell low j (live a) (omega (arith, w)) ∙ c.outside j w;
          },
        )
  ]

  -- Two runs of objects, one behind the other.
  pub adjacent-Built :
      (i k m l total : ℕ) (b b1 b2 : Buffer A)
      → i + k ≡ m
      → k + l ≡ total
      → Built i k (λ _. a) b b1
      → Built m l (λ _. a) b1 b2
      → Built i total (λ _. a) b b2
  adjacent-Built i k m l total b b1 b2 e e' p q = record {
    size = q.size ∙ p.size;
    inside = λ j w. elim (dec_lt j m) [
      | yes low ↦ q.outside j (inl low) ∙ p.inside j (omega (arith, w, e))
      | no high ↦ q.inside j (omega (arith, w, e, e'))
    ];
    outside = λ j w.
        q.outside j (elim w [ inl x ↦ inl (omega (arith, e)) | inr x ↦ inr (omega (arith, e, e')) ])
        ∙ p.outside j (elim w [ inl x ↦ inl x | inr x ↦ inr (omega (arith, e')) ]);
  }

  pub overwrite-Built :
      (k low : ℕ) (b : Buffer A)
      → ((j : ℕ) → Within low k j → is_raw (b.cell j) ≡ false)
      → low + k ≤ b.size
      → Returns (overwrite t k low a b) (Built low k (λ _. a) b)
  unfolding overwrite
  overwrite-Built zero low b used fits = (
    b,
    refl,
    record { size = refl; inside = λ j w. absurd (omega (arith, w)); outside = λ j w. refl },
  )
  overwrite-Built (suc k) low b used fits =
      let (b1, e1, p) = overwrite_step low b (used low (omega arith)) (omega arith) in
      let (b2, e2, q) =
        overwrite-Built k (low + 1) b1
          (λ j w. rw (p.outside j (inr (omega (arith, w)))) (used j (omega (arith, w))))
          (omega (arith, p.size)) in
      (b2, rw e1 e2, adjacent-Built low 1 (low + 1) k (suc k) b b1 b2 refl (omega arith) p q)
