-- ===== src/Vector/Many.antt =====
-- Insertion of several objects, on the sequence that the vector holds.
use native.Mathlib.Decide.{ℕ_discrete, dec_lt, dec_le}
use mini_libc.Base.{
  ℕ, ◌+◌, ◌-◌, ◌≤◌, ◌<◌, ◌≡◌, inl, inr, refl, sym, ap, ◌∙◌, Bool, true, false, ltb, leb, ◌==◌,
  if◌then◌else◌, some, arith,
}
use mini_libc.Vector.{ok, Traits, live, Buffer, Vector}
use mini_libc.Vector.Append.{spare}
use mini_libc.Vector.Cells.{Returns, Built}
use mini_libc.Vector.Append.{Argument, fetch}
use mini_libc.Vector.Cells.{construct_many-Built}
use mini_libc.Vector.Sequence.{IsType, IsVector, joined, spare-eq}
use mini_libc.Vector.Gap.{Opened}
use mini_libc.Vector.Appends.{HasRoom}
use mini_libc.Vector.Opens.{HasGap}
use mini_libc.Vector.Opening.{shift_by-HasGap, shift_by-opens}
use mini_libc.Vector.Appends.{push_back_many-appends}
use mini_libc.Vector.Bulk.{
  construct_many_in, generate_at_may_invalidate, fill_gap, insert_many_no_invalidate,
}
use mini_libc.Vector.Overwrite.{adjacent-Built, overwrite-Built}

-- The sequence with `count` objects from the index on.
abbrev pub inserted_many : {A : Type 0} → ℕ → ℕ → (ℕ → A) → (ℕ → A) → ℕ → A
inserted_many index count g f j =
    if ltb j index then f j else if ltb j (index + count) then g (j - index) else f (j - count)

module _ {A : Type 0} (t : Traits) (type : IsType t) (destructible : t.destructible ≡ true)
    (index count n : ℕ) (g f : ℕ → A) (inside : index ≤ n) where
  -- The gap is filled, however it is.
  many-IsVector :
      (used : Bool) (v : Vector A) (b b' : Buffer A)
      → HasGap t index count n f used v
      → Opened t index count n f v.alloc_len used b
      → Built index count g b b'
      → IsVector t (n + count) (inserted_many index count g f) (record v { ptr = some b' })
  many-IsVector used v b b' gap o r = record {
    len = gap.len;
    fits = gap.fits;
    bounded = gap.bounded;
    storage = inr (
      b',
      refl,
      record {
        size = r.size ∙ o.size;
        held = λ j lt. elim (dec_lt j index) [
          | yes low ↦
              let q : ltb j index ≡ true = ground arith in
              rw q (r.outside j (inl low) ∙ o.below j low)
          | no high ↦
              let q : ltb j index ≡ false = ground arith in
              elim (dec_lt j (index + count)) [
                | yes mid ↦
                    let q' : ltb j (index + count) ≡ true = ground arith in
                    rw (q, q') (r.inside j (omega arith))
                | no top ↦
                    let q' : ltb j (index + count) ≡ false = ground arith in
                    rw (q, q') (r.outside j (inr (omega arith)) ∙ o.above j (omega arith) lt)
              ]
        ];
        rest = λ j le. elim (dec_lt j (index + count)) [
          | yes low ↦ absurd (omega arith)
          | no high ↦ rw (r.outside j (inr (omega arith))) (o.rest j le)
        ];
      },
    );
  }

  at_end_many :
      (a : A) (w : Vector A)
      → index ≡ n
      → ((j : ℕ) → g j ≡ a)
      → IsVector t (n + count) (joined n f (λ _. a)) w
      → IsVector t (n + count) (inserted_many index count g f) w
  at_end_many a w e same p = record {
    len = p.len;
    fits = p.fits;
    bounded = p.bounded;
    storage = elim p.storage [
      | inl x ↦ inl x
      | inr (b, q, s) ↦ inr (
        b,
        q,
        record {
          size = s.size;
          held = λ j lt. s.held j lt ∙ (elim (dec_lt j n) [
            | yes low ↦
                let q1 : ltb j n ≡ true = ground arith in
                let q2 : ltb j index ≡ true = ground (arith, e) in rw (q1, q2) refl
            | no high ↦
                let q1 : ltb j n ≡ false = ground arith in
                let q2 : ltb j index ≡ false = ground (arith, e) in
                let q3 : ltb j (index + count) ≡ true = ground (arith, e) in
                rw (q1, q2, q3, same (j - index)) refl
          ]);
          rest = s.rest;
        },
      )
    ];
  }

  module _ (positive : 0 < count) where
    construct_many_in-IsVector :
        (v : Vector A)
        → HasGap t index count n f false v
        → Returns
            (construct_many_in t count index g v)
            (IsVector t (n + count) (inserted_many index count g f))
    construct_many_in-IsVector v gap =
        let (b, p, o) = gap.block in
        let (b', e, r) =
          construct_many-Built t count index g b
            (λ j w. elim (dec_lt j n) [
              | yes old ↦ o.gap j (omega (arith, w)) (omega (arith, w)) old
              | no new ↦ o.new_gap j (omega (arith, w)) (omega (arith, w)) (omega arith)
            ])
            (omega (arith, o.size, gap.fits)) in
        (record v { ptr = some b' }, simp (p, e), many-IsVector false v b b' gap o r)

    -- The cells of the gap that hold objects are assigned to, and the others are constructed in.
    fill_gap-IsVector :
        (a : A) (v : Vector A)
        → ((j : ℕ) → g j ≡ a)
        → HasGap t index count n f true v
        → Returns
            (fill_gap t n index count a v)
            (IsVector t (n + count) (inserted_many index count g f))
    unfolding fill_gap
    fill_gap-IsVector a v same gap =
        let (b, p, o) = gap.block in
        let as_g = λ (b' : Buffer A) (r : Built index count (λ _. a) b b').
          let r' : Built index count g b b' = record {
            size = r.size;
            inside = λ j w. r.inside j w ∙ ap live (sym (same (j - index)));
            outside = r.outside;
          } in
          r' in
        elim (dec_le (index + count) n) [
          | yes le ↦
              let c : leb (index + count) n ≡ true = ground arith in
              let (b', e, r) =
                overwrite-Built t a count index b
                  (λ j w. o.gap j (omega (arith, w)) (omega (arith, w)) (omega (arith, w)))
                  (omega (arith, o.size, gap.fits)) in
              (
                record v { ptr = some b' },
                simp (p, c, e),
                many-IsVector true v b b' gap o (as_g b' r),
              )
          | no gt ↦
              let c : leb (index + count) n ≡ false = ground arith in
              let (b1, e1, r1) =
                overwrite-Built t a (n - index) index b
                  (λ j w. o.gap j (omega (arith, w)) (omega (arith, w)) (omega (arith, w)))
                  (omega (arith, o.size, gap.fits)) in
              let (b2, e2, r2) =
                construct_many-Built t (index + count - n) n (λ _. a) b1
                  (λ j w.
                    rw (r1.outside j (inr (omega (arith, w))))
                      (o.new_gap j (omega (arith, w)) (omega (arith, w)) (omega (arith, w))))
                  (omega (arith, r1.size, o.size, gap.fits)) in
              let r =
                adjacent-Built t a index (n - index) n (index + count - n) count b b1 b2
                  (omega arith) (omega arith) r1 r2 in
              (
                record v { ptr = some b2 },
                simp (p, c, e1, e2),
                many-IsVector true v b b2 gap o (as_g b2 r),
              )
        ]

    -- For a type with a destructor and an index inside the vector or at its end, with room for the
    -- objects g 0, ..., g (count - 1) or a larger block granted, `generate_at_may_invalidate` inserts
    -- them at the index.
    pub generate_at_may_invalidate-inserts :
        (grants : ℕ → Bool) (v : Vector A)
        → IsVector t n f v
        → HasRoom t grants count v
        → Returns
            (generate_at_may_invalidate t grants index count g v)
            (IsVector t (n + count) (inserted_many index count g f))
    unfolding generate_at_may_invalidate
    generate_at_may_invalidate-inserts grants v h room =
        let c1 : ltb v.len index ≡ false = ground (arith, h.len) in
        let c2 : (count == 0) ≡ false = ground arith in
        let (w, e, gap) =
          shift_by-opens t type destructible index count n f v h inside positive grants room in
        let (r, e', p) = construct_many_in-IsVector w gap in (r, simp (c1, c2, e) e', p)

module _ {A : Type 0} (t : Traits) (type : IsType t) (destructible : t.destructible ≡ true)
    (index count n : ℕ) (f : ℕ → A) (inside : index ≤ n) (positive : 0 < count) where
  -- For a type with a destructor, an index inside the vector or at its end, and an argument that
  -- denotes the object a, be it an element of the vector itself, with room for `count` objects or a
  -- larger block granted, `insert_many_no_invalidate` inserts `count` copies of a at the index.
  pub insert_many_no_invalidate-inserts :
      (grants : ℕ → Bool) (v : Vector A) (x : Argument A) (a : A)
      → IsVector t n f v
      → HasRoom t grants count v
      → fetch x v ≡ ok a
      → Returns
          (insert_many_no_invalidate t grants index count x v)
          (IsVector t (n + count) (inserted_many index count (λ _. a) f))
  unfolding insert_many_no_invalidate
  insert_many_no_invalidate-inserts grants v x a h room e =
      let c1 : ltb v.len index ≡ false = ground (arith, h.len) in
      let c2 : (count == 0) ≡ false = ground arith in
      elim (ℕ_discrete index n) [
        | yes q ↦
            let c3 : (index == v.len) ≡ true = ground (arith, q, h.len) in
            let (w, e1, p) = push_back_many-appends t type n f v h grants count x a e room in
            (
              w,
              simp (c1, c2, c3) e1,
              at_end_many t type destructible index count n (λ _. a) f inside a w q (λ j. refl) p,
            )
        | no ne ↦
            let c3 : (index == v.len) ≡ false = ground (arith, ne, h.len) in
            elim (dec_le (n + count) v.alloc_len) [
              | yes le ↦
                  let c4 : leb count (spare v) ≡ true = ground (arith, spare-eq t type n f v h) in
                  let (w, e1, gap) =
                    shift_by-HasGap t type destructible index count n f v h inside positive grants
                      true le in
                  let (r, e2, p) =
                    fill_gap-IsVector t type destructible index count n (λ _. a) f inside positive a
                      w (λ j. refl) gap in
                  (r, rw (c1, c2, c3, e, c4, e1, h.len) e2, p)
              | no gt ↦
                  let c4 : leb count (spare v) ≡ false =
                    ground (arith, spare-eq t type n f v h, h.fits) in
                  let (w, e1, gap) =
                    shift_by-opens t type destructible index count n f v h inside positive grants
                      room in
                  let (r, e2, p) =
                    construct_many_in-IsVector t type destructible index count n (λ _. a) f inside
                      positive w gap in
                  (r, rw (c1, c2, c3, e, c4, e1) e2, p)
            ]
      ]
