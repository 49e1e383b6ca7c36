-- ===== src/Vector/Opens.antt =====
-- `shift_by`: the gap that it opens, in the same block or in a larger one.
use mini_libc.Base.{
  ℕ, ◌+◌, ◌-◌, ◌^◌, ◌≤◌, ◌<◌, ◌≡◌, inl, inr, refl, ap, ◌∙◌, Bool, true, false, not, ◌&&◌, ltb, leb,
  min, ◌==◌, if◌then◌else◌, Bool-cases, some, arith,
}
use mini_libc.Vector.{ok, Traits, raw, live, Buffer, Vector, copy_cells}
use mini_libc.Vector.Grow.{compute_expanded_size, allocate_raw_array}
use mini_libc.Vector.Cells.{Returns, Free, Without, Free_of_trivial, Free_of_raw}
use mini_libc.Vector.Moves.{Relocated, move_and_destroy-Relocated}
use mini_libc.Vector.Gap.{Stores}
use mini_libc.Vector.Sequence.{
  IsType, expanded, CanGrow, IsVector, raw_block, block_of, compute_expanded_size-ok,
  allocate_raw_array-ok,
}
use mini_libc.Vector.Grow.{move_vector_to_array_with_shift_and_destroy}
use mini_libc.Vector.Insert.{destroy_up, shift_in_place, shift_and_grow}
use mini_libc.Vector.Gap.{Opened, move_up-Opened, destroy_up-Cleared}

module _ {A : Type 0} where
  -- A vector between `shift_by` and the operation that fills the gap.
  pub record HasGap (t : Traits) (index shift n : ℕ) (f : ℕ → A) (used : Bool) (v : Vector A)
      : Type 0 where
    pub len : v.len ≡ n + shift
    pub fits : n + shift ≤ v.alloc_len
    pub bounded : v.alloc_len < 2 ^ 63
    pub block : (b : Buffer A) × (v.ptr ≡ some b) × Opened t index shift n f v.alloc_len used b

  module _ (t : Traits) (type : IsType t) (destructible : t.destructible ≡ true) (index shift n : ℕ)
      (f : ℕ → A) (v : Vector A) (h : IsVector t n f v) (inside : index ≤ n) (some_object : 0 < n)
      (positive : 0 < shift) where
    -- Without a test of T for triviality: the objects in the gap are destroyed or kept, as asked.
    moved_up-Opened :
        (no_destruct : Bool) (b b1 : Buffer A)
        → n + shift ≤ v.alloc_len
        → Opened t index shift n f v.alloc_len true b1
        → Returns
            (if t.destructible && not no_destruct
              then destroy_up t (min (index + shift) n - index) index b1
              else ok b1)
            (Opened t index shift n f v.alloc_len no_destruct)
    moved_up-Opened true b b1 room o = (b1, simp (destructible), o)
    moved_up-Opened false b b1 room o =
        let (b2, e, c) =
          destroy_up-Cleared t (min (index + shift) n - index) index b1
            (λ j w. o.gap j (omega (arith, w)) (omega (arith, w)) (omega (arith, w)))
            (omega (arith, o.size)) in
        (
          b2,
          simp (destructible, e),
          record {
            size = c.size ∙ o.size;
            below = λ j lo. c.outside j (inl (omega arith)) ∙ o.below j lo;
            gap = λ j lo hi lt. c.inside j (omega arith);
            new_gap = λ j lo hi le. rw (c.outside j (inr (omega arith))) (o.new_gap j lo hi le);
            above = λ j lo hi. c.outside j (inr (omega arith)) ∙ o.above j lo hi;
            rest = λ j le. rw (c.outside j (inr (omega arith))) (o.rest j le);
          },
        )

    -- `memmove` in place. The objects of a trivial type need not be destroyed.
    copied-Opened :
        (no_destruct : Bool) (b : Buffer A)
        → Stores t n f v.alloc_len b
        → t.trivially_destructible ≡ true
        → n + shift ≤ v.alloc_len
        → Returns
            (copy_cells (index + shift) index (n - index) b b)
            (Opened t index shift n f v.alloc_len no_destruct)
    unfolding copy_cells
    copied-Opened no_destruct b s y room =
        let l1 : leb (index + shift + (n - index)) b.size ≡ true = ground (arith, s.size) in
        let l2 : leb (index + (n - index)) b.size ≡ true = ground (arith, s.size) in
        let test = λ (j : ℕ). leb (index + shift) j && ltb j (index + shift + (n - index)) in
        let b' = record b {
          cell = λ j. if test j then b.cell (j - (index + shift) + index) else b.cell j;
        } in
        (
          b',
          rw (l1, l2) refl,
          record {
            size = s.size;
            below = λ j lo. let q : test j ≡ false = ground arith in rw q (s.held j (omega arith));
            gap = λ j lo hi lt.
                let q : test j ≡ false = ground arith in
                elim (Bool-cases no_destruct) [
                  | inl d ↦ rw (d, q, s.held j lt) refl
                  | inr d ↦ rw d (Free_of_trivial t y (b'.cell j))
                ];
            new_gap = λ j lo hi le. Free_of_trivial t y (b'.cell j);
            above = λ j lo hi.
                let q : test j ≡ true = ground arith in
                let z : j - (index + shift) + index ≡ j - shift = omega arith in
                rw (q, z) (s.held (j - shift) (omega arith));
            rest = λ j le. Free_of_trivial t y (b'.cell j);
          },
        )

    pub shift_in_place-HasGap :
        (no_destruct : Bool)
        → index < n
        → n + shift ≤ v.alloc_len
        → Returns
            (shift_in_place t index shift no_destruct v)
            (HasGap t index shift n f no_destruct)
    unfolding shift_in_place
    shift_in_place-HasGap no_destruct lt room =
        let (b, p, s) = block_of t type n f v h (omega (arith, h.fits)) in
        let z : (n == 0) ≡ false = ground arith in
        let z' : (index == n) ≡ false = ground arith in
        let result = λ (b' : Buffer A) (o : Opened t index shift n f v.alloc_len no_destruct b').
          let w : HasGap t index shift n f no_destruct
              (record v { len = v.len + shift; ptr = some b' }) =
            record {
              len = omega (arith, h.len);
              fits = room;
              bounded = h.bounded;
              block = (b', refl, o);
            } in
          w in
        elim (Bool-cases t.trivially_move_constructible) [
          | inl y ↦
              let (b', e, o) = copied-Opened no_destruct b s (type.trivial_move y) room in
              (
                record v { len = v.len + shift; ptr = some b' },
                simp (h.len, z, z', y, p, e),
                result b' o,
              )
          | inr y ↦
              let (b1, e1, o1) =
                move_up-Opened t index shift n f v.alloc_len b s positive lt room
                  (ground (arith, destructible)) in
              let (b', e, o) = moved_up-Opened no_destruct b b1 room o1 in
              (
                record v { len = v.len + shift; ptr = some b' },
                simp (h.len, z, z', y, p, e1, e),
                result b' o,
              )
        ]

    Relocated-Opened :
        (m : ℕ) (b : Buffer A) (r1 r2 : Buffer A × Buffer A)
        → Relocated t 0 index 0 f b (raw_block m) r1
        → Relocated t index (n - index) shift f r1.0 r1.1 r2
        → Opened t index shift n f m false r2.1
    Relocated-Opened m b r1 r2 q1 q2 =
        let untouched = λ (j : ℕ) (o : Without (index + shift) (n - index) j) (o' : index ≤ j).
          let e : r2.1.cell j ≡ raw =
            q2.right.outside j o ∙ q1.right.outside j (inr (omega arith)) in
          let done : Free t (r2.1.cell j) = rw e (Free_of_raw {A = A} t raw refl) in done in
        record {
          size = q2.right.size ∙ q1.right.size;
          below = λ j lo.
              let e : 0 + (j - (0 + 0)) ≡ j = omega arith in
              q2.right.outside j (inl (omega arith))
              ∙ q1.right.inside j (omega arith)
              ∙ ap (λ x. live (f x)) e;
          gap = λ j lo hi lt. untouched j (inl hi) lo;
          new_gap = λ j lo hi le. untouched j (inl hi) lo;
          above = λ j lo hi.
              let e : index + (j - (index + shift)) ≡ j - shift = omega arith in
              q2.right.inside j (omega arith) ∙ ap (λ x. live (f x)) e;
          rest = λ j le. untouched j (inr (omega arith)) (omega arith);
        }

    -- The move to a larger block. The gap is raw.
    pub move_with_shift-Opened :
        (m : ℕ)
        → n + shift ≤ m
        → Returns
            (move_vector_to_array_with_shift_and_destroy t index shift v (raw_block m))
            (Opened t index shift n f m false)
    unfolding move_vector_to_array_with_shift_and_destroy copy_cells
    move_with_shift-Opened m room =
        let (b, p, s) = block_of t type n f v h (omega (arith, h.fits)) in
        let z : (n == 0) ≡ false = ground arith in
        let fresh : Buffer A = raw_block m in
        elim (Bool-cases t.trivially_move_constructible) [
          | inl y ↦
              let l1 : leb (0 + index) m ≡ true = ground arith in
              let l2 : leb (0 + index) b.size ≡ true = ground (arith, s.size, h.fits) in
              let l3 : leb (index + shift + (n - index)) m ≡ true = ground arith in
              let l4 : leb (index + (n - index)) b.size ≡ true = ground (arith, s.size, h.fits) in
              let low = λ (j : ℕ). leb 0 j && ltb j (0 + index) in
              let high = λ (j : ℕ). leb (index + shift) j && ltb j (index + shift + (n - index)) in
              let b' = record fresh {
                cell = λ j.
                    if high j
                    then b.cell (j - (index + shift) + index)
                    else if low j
                    then b.cell (j - 0 + 0)
                    else raw;
              } in
              let u = type.trivial_move y in
              (
                b',
                simp (h.len, z, p, y, l1, l2, l3, l4),
                record {
                  size = refl;
                  below = λ j lo.
                      let q : high j ≡ false = ground arith in
                      let q' : low j ≡ true = ground arith in
                      let e : j - 0 + 0 ≡ j = omega arith in rw (q, q', e) (s.held j (omega arith));
                  gap = λ j lo hi lt. Free_of_trivial t u (b'.cell j);
                  new_gap = λ j lo hi le. Free_of_trivial t u (b'.cell j);
                  above = λ j lo hi.
                      let q : high j ≡ true = ground arith in
                      let e : j - (index + shift) + index ≡ j - shift = omega arith in
                      rw (q, e) (s.held (j - shift) (omega arith));
                  rest = λ j le. Free_of_trivial t u (b'.cell j);
                },
              )
          | inr y ↦
              let (r1, e1, q1) =
                move_and_destroy-Relocated t index 0 0 f b fresh
                  (λ j w. s.held j (omega (arith, w))) (λ j w. Free_of_raw {A = A} t raw refl)
                  (omega (arith, s.size, h.fits)) (omega arith) in
              let (r2, e2, q2) =
                move_and_destroy-Relocated t (n - index) index shift f r1.0 r1.1
                  (λ j w. q1.left.outside j (inr (omega (arith, w))) ∙ s.held j (omega (arith, w)))
                  (λ j w.
                    rw (q1.right.outside j (inr (omega (arith, w))))
                      (Free_of_raw {A = A} t raw refl))
                  (omega (arith, s.size, h.fits, q1.left.size)) (omega (arith, q1.right.size)) in
              (r2.1, simp (h.len, z, p, y, e1, e2), Relocated-Opened m b r1 r2 q1 q2)
        ]

    shift_and_grow-eq :
        (grants : ℕ → Bool) (m : ℕ) (b b' : Buffer A)
        → compute_expanded_size t shift v ≡ ok m
        → allocate_raw_array t grants m ≡ ok (some b)
        → move_vector_to_array_with_shift_and_destroy t index shift v b ≡ ok b'
        → shift_and_grow t grants index shift v
          ≡ ok (record { alloc_len = m; len = v.len + shift; ptr = some b' })
    unfolding shift_and_grow
    shift_and_grow-eq grants m b b' e0 e1 e2 =
        let z : (n == 0) ≡ false = ground arith in simp (e0, e1, h.len, z, destructible, e2)

    pub shift_and_grow-HasGap :
        (grants : ℕ → Bool)
        → CanGrow t grants shift v
        → Returns (shift_and_grow t grants index shift v) (HasGap t index shift n f false)
    shift_and_grow-HasGap grants room =
        let m = expanded shift v in
        let (b, e, o) = move_with_shift-Opened m (omega (arith, h.len)) in
        (
          record { alloc_len = m; len = v.len + shift; ptr = some b },
          shift_and_grow-eq grants m (raw_block m) b
              (compute_expanded_size-ok t type grants shift v room)
              (allocate_raw_array-ok t type grants shift v room) e,
          record {
            len = omega (arith, h.len);
            fits = omega (arith, h.len);
            bounded = room.bounded;
            block = (b, refl, o);
          },
        )
