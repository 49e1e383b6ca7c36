-- ===== src/Vector/Erasure.antt =====
-- `erase`, on the sequence that the vector holds.
use native.Mathlib.Decide.{ℕ_discrete, dec_lt, dec_le}
use mini_libc.Base.{
  ℕ, ◌+◌, ◌-◌, ◌≤◌, ◌<◌, ◌≡◌, inl, inr, refl, ◌∙◌, true, false, ◌||◌, ltb, leb, ◌==◌, if◌then◌else◌,
  Bool-cases, some, arith,
}
use mini_libc.Vector.{terminated, Traits, Buffer, Vector}
use mini_libc.Vector.Cells.{Returns, Cleared, Free_of_trivial}
use mini_libc.Vector.Gap.{Stores}
use mini_libc.Vector.Cells.{destroy_down-Cleared}
use mini_libc.Vector.Sequence.{IsType, IsVector, block_of}
use mini_libc.Vector.Insert.{erase}
use mini_libc.Vector.Closing.{
  CanClose, Closed, close_assign-Closed, close_replace-Closed, copy_cells-Closed,
}

-- The sequence without `count` objects from the index on.
abbrev pub erased : {A : Type 0} → ℕ → ℕ → (ℕ → A) → ℕ → A
erased index count f j = if ltb j index then f j else f (j + count)

module _ {A : Type 0} (t : Traits) (type : IsType t) (index count n : ℕ) (f : ℕ → A) (v : Vector A)
    (h : IsVector t n f v) where
  Closed-IsVector :
      (b b1 b2 : Buffer A)
      → index + count ≤ n
      → Stores t n f v.alloc_len b
      → Closed t (n - count - index) index count f b b1
      → Cleared t (n - count) count b1 b2
      → IsVector t
          (n - count)
          (erased index count f)
          (record v { len = v.len - count; ptr = some b2 })
  Closed-IsVector b b1 b2 fits s c d = record {
    len = omega (arith, h.len);
    fits = omega (arith, h.fits);
    bounded = h.bounded;
    storage = inr (
      b2,
      refl,
      record {
        size = d.size ∙ c.size ∙ s.size;
        held = λ j lt. elim (dec_lt j index) [
          | yes low ↦
              let q : ltb j index ≡ true = ground arith in
              rw q (d.outside j (inl lt) ∙ c.outside j (inl low) ∙ s.held j (omega arith))
          | no high ↦
              let q : ltb j index ≡ false = ground arith in
              rw q (d.outside j (inl lt) ∙ c.inside j (omega arith))
        ];
        rest = λ j le. elim (dec_lt j n) [
          | yes low ↦ d.inside j (omega arith)
          | no high ↦
              rw (d.outside j (inr (omega arith)), c.outside j (inr (omega arith)))
                (s.rest j (omega arith))
        ];
      },
    );
  }

  stored-CanClose :
      (b : Buffer A)
      → 0 < count
      → index + count ≤ n
      → Stores t n f v.alloc_len b
      → CanClose t (n - count - index) index count f b
  stored-CanClose b pos fits s = record {
    positive = pos;
    held = λ j w. s.held j (omega (arith, w));
    used = λ j w. rw (s.held j (omega (arith, w))) refl;
    room = omega (arith, s.size, h.fits);
  }

  -- `erase` ends the program where the objects to remove are not all there, and else removes them
  -- and keeps the order of the others.
  pub erase-removes :
      if leb (index + count) n
      then Returns (erase t index count v) (IsVector t (n - count) (erased index count f))
      else erase t index count v ≡ terminated
  unfolding erase
  erase-removes = elim (dec_le (index + count) n) [
    | no gt ↦
        let q : leb (index + count) n ≡ false = ground arith in
        let c : (ltb n index || ltb (n - index) count) ≡ true = ground arith in
        rw q (simp (h.len, c))
    | yes le ↦
        let q : leb (index + count) n ≡ true = ground arith in
        let c : (ltb n index || ltb (n - index) count) ≡ false = ground arith in
        rw q (elim (ℕ_discrete count 0) [
          | yes z ↦
              let z' : (count == 0) ≡ true = ground (arith, z) in
              (
                v,
                simp (h.len, c, z'),
                record {
                  len = omega (arith, h.len, z);
                  fits = omega (arith, h.fits, z);
                  bounded = h.bounded;
                  storage = elim h.storage [
                    | inl e ↦ inl e
                    | inr (b, p, s) ↦ inr (
                      b,
                      p,
                      record {
                        size = s.size;
                        held = λ j lt.
                            let e : (if ltb j index then f j else f (j + count)) ≡ f j =
                              (let e' : j + count ≡ j = omega (arith, z) in rw e' (ground arith)) in
                            rw e (s.held j (omega (arith, z)));
                        rest = λ j ge. s.rest j (omega (arith, z));
                      },
                    )
                  ];
                },
              )
          | no pos ↦
              let z' : (count == 0) ≡ false = ground (arith, pos) in
              let (b, p, s) = block_of t type n f v h (omega (arith, h.fits, pos)) in
              let can = stored-CanClose b (omega (arith, pos)) le s in
              let k = n - count - index in
              let destroyed = λ (b1 : Buffer A) (c1 : Closed t k index count f b b1).
                destroy_down-Cleared t count (n - count) b1 (λ j w. c1.left j (omega (arith, w)))
                  (omega (arith, c1.size, s.size, h.fits)) in
              elim (Bool-cases t.trivially_move_assignable) [
                | inl y ↦
                    let (b1, e1, c1) = copy_cells-Closed t k index count f b can in
                    let e0 : n - (index + count) ≡ k = omega arith in
                    (
                      record v { len = v.len - count; ptr = some b1 },
                      simp (h.len, c, z', p, y, e0, e1),
                      Closed-IsVector b b1 b1 le s c1 (record {
                        size = refl;
                        inside = λ j w. Free_of_trivial t (type.trivial_assign y) (b1.cell j);
                        outside = λ j w. refl;
                      }),
                    )
                | inr y ↦ elim (Bool-cases t.move_assignable) [
                  | inl y' ↦
                      let (b1, e1, c1) = close_assign-Closed t k index count f b can in
                      let (b2, e2, c2) = destroyed b1 c1 in
                      (
                        record v { len = v.len - count; ptr = some b2 },
                        simp (h.len, c, z', p, y, y', e1, e2),
                        Closed-IsVector b b1 b2 le s c1 c2,
                      )
                  | inr y' ↦
                      let (b1, e1, c1) = close_replace-Closed t k index count f b can in
                      let (b2, e2, c2) = destroyed b1 c1 in
                      (
                        record v { len = v.len - count; ptr = some b2 },
                        simp (h.len, c, z', p, y, y', e1, e2),
                        Closed-IsVector b b1 b2 le s c1 c2,
                      )
                ]
              ]
        ])
  ]
