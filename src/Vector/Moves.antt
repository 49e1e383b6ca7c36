-- ===== src/Vector/Moves.antt =====
-- The loop that moves objects to another block and destroys them where they were.
use native.Mathlib.Decide.{ℕ_discrete}
use mini_libc.Base.{
  ℕ, zero, suc, ◌+◌, ◌-◌, ◌≤◌, ◌≡◌, ◌≢◌, inl, inr, refl, ap, ◌∙◌, update_ne, ==_true, arith,
}
use mini_libc.Vector.{Traits, moved, live, Buffer, write}
use mini_libc.Vector.Grow.{move_and_destroy}
use mini_libc.Vector.Cells.{
  Returns, Free, Within, Built, Cleared, move_from-live, construct_at-ok, destroy_at-Cleared,
}

module _ {A : Type 0} (t : Traits) where
  -- Objects moved to another block, and destroyed where they were.
  pub record Relocated (i k shift : ℕ) (f : ℕ → A) (src dst : Buffer A) (r : Buffer A × Buffer A)
      : Type 0 where
    pub left : Cleared t i k src r.0
    pub right : Built (i + shift) k (λ j. f (i + j)) dst r.1

  pub move_and_destroy-Relocated :
      (k i shift : ℕ) (f : ℕ → A) (src dst : Buffer A)
      → ((j : ℕ) → Within i k j → src.cell j ≡ live (f j))
      → ((j : ℕ) → Within (i + shift) k j → Free t (dst.cell j))
      → i + k ≤ src.size
      → i + shift + k ≤ dst.size
      → Returns (move_and_destroy t k i shift src dst) (Relocated i k shift f src dst)
  unfolding move_and_destroy
  move_and_destroy-Relocated zero i shift f src dst held free fits room = (
    (src, dst),
    refl,
    record {
      left = record {
        size = refl;
        inside = λ j w. absurd (omega (arith, w));
        outside = λ j w. refl;
      };
      right = record {
        size = refl;
        inside = λ j w. absurd (omega (arith, w));
        outside = λ j w. refl;
      };
    },
  )
  move_and_destroy-Relocated (suc k) i shift f src dst held free fits room =
      let s1 = write i moved src in
      let d1 = write (i + shift) (live (f i)) dst in
      let e1 = move_from-live i (f i) src (held i (omega arith)) (omega arith) in
      let e2 =
        construct_at-ok t (i + shift) (f i) dst (free (i + shift) (omega arith)) (omega arith) in
      let (s2, e3, c) = destroy_at-Cleared t i s1 (rw (==_true i i refl) refl) (omega arith) in
      let keeps = λ (j : ℕ) (ne : j ≢ i). update_ne src.cell i j moved ne in
      let keeps_d =
        λ (j : ℕ) (ne : j ≢ i + shift). update_ne dst.cell (i + shift) j (live (f i)) ne in
      let (r, e4, p) =
        move_and_destroy-Relocated k (i + 1) shift f s2 d1
          (λ j w.
            c.outside j (inr (omega (arith, w)))
            ∙ keeps j (omega (arith, w))
            ∙ held j (omega (arith, w)))
          (λ j w. rw (keeps_d j (omega (arith, w))) (free j (omega (arith, w))))
          (omega (arith, c.size)) (omega arith) in
      (
        r,
        rw (e1, e2, e3) e4,
        record {
          left = record {
            size = p.left.size ∙ c.size;
            inside = λ j w. elim (ℕ_discrete j i) [
              | yes q ↦ rw (p.left.outside j (inl (omega arith))) (c.inside j (omega arith))
              | no q ↦ p.left.inside j (omega (arith, w))
            ];
            outside = λ j w.
                p.left.outside j (elim w [ inl a ↦ inl (omega arith) | inr a ↦ inr (omega arith) ])
                ∙ c.outside j (elim w [ inl a ↦ inl (omega arith) | inr a ↦ inr (omega arith) ])
                ∙ keeps j (omega (arith, w));
          };
          right = record {
            size = p.right.size;
            inside = λ j w. elim (ℕ_discrete j (i + shift)) [
              | yes q ↦
                  let z : i + (j - (i + shift)) ≡ i = omega arith in
                  p.right.outside j (inl (omega arith)) ∙ rw (==_true j (i + shift) q, z) refl
              | no q ↦
                  let z : i + 1 + (j - (i + 1 + shift)) ≡ i + (j - (i + shift)) =
                    omega (arith, w) in
                  p.right.inside j (omega (arith, w)) ∙ ap (λ x. live (f x)) z
            ];
            outside = λ j w.
                p.right.outside j (elim w [ inl a ↦ inl (omega arith) | inr a ↦ inr (omega arith) ])
                ∙ keeps_d j (omega (arith, w));
          };
        },
      )
