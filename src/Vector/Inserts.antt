-- ===== src/Vector/Inserts.antt =====
-- Insertion and removal inside a vector, on the sequence that it holds.
use native.Mathlib.Decide.{ℕ_discrete, dec_lt}
use mini_libc.Base.{
  ℕ, ◌+◌, ◌-◌, ◌<◌, ◌≡◌, ◌≢◌, inl, inr, refl, ap, ◌∙◌, Bool, true, false, ltb, leb, ◌==◌,
  if◌then◌else◌, update_self, update_ne, some, arith,
}
use mini_libc.Vector.{write, ok, terminated, Traits, live, Buffer, Vector}
use mini_libc.Vector.Cells.{Returns}
use mini_libc.Vector.Append.{Argument, fetch}
use mini_libc.Vector.Cells.{destroy_at-Cleared}
use mini_libc.Vector.Sequence.{IsType, IsVector, joined}
use mini_libc.Vector.Appends.{HasRoom}
use mini_libc.Vector.Cells.{construct_at-ok, assign_at-ok}
use mini_libc.Vector.Insert.{put, construct_in, insert_no_invalidate}
use mini_libc.Vector.Appends.{push_back-appends}
use mini_libc.Vector.Opens.{HasGap}
use mini_libc.Vector.Opening.{shift_by-HasGap, shift_by-opens}

-- The sequence with a at the index.
abbrev pub inserted : {A : Type 0} → ℕ → A → (ℕ → A) → ℕ → A
inserted index a f j = if ltb j index then f j else if j == index then a else f (j - 1)

module _ {A : Type 0} (t : Traits) (type : IsType t) (destructible : t.destructible ≡ true) where
  -- The gap of one object is filled, however it is.
  filled-IsVector :
      (index n : ℕ) (f : ℕ → A) (used : Bool) (a : A) (v : Vector A)
      (g : HasGap t index 1 n f used v) (b : Buffer A)
      → index < n
      → b.size ≡ v.alloc_len
      → b.cell index ≡ live a
      → ((j : ℕ) → j ≢ index → b.cell j ≡ g.block.0.cell j)
      → IsVector t (n + 1) (inserted index a f) (record v { ptr = some b })
  filled-IsVector index n f used a v g b lt size at same =
      let o = g.block.2 in
      record {
        len = g.len;
        fits = g.fits;
        bounded = g.bounded;
        storage = inr (
          b,
          refl,
          record {
            size = size;
            held = λ j lt'. elim (dec_lt j index) [
              | yes low ↦
                  let q : ltb j index ≡ true = ground arith in
                  rw q (same j (omega arith) ∙ o.below j low)
              | no high ↦
                  let q : ltb j index ≡ false = ground arith in
                  elim (ℕ_discrete j index) [
                    | yes e ↦
                        let q' : (j == index) ≡ true = ground (arith, e) in
                        rw (q, q') (ap b.cell e ∙ at)
                    | no ne ↦
                        let q' : (j == index) ≡ false = ground (arith, ne) in
                        rw (q, q') (same j ne ∙ o.above j (omega (arith, ne)) (omega arith))
                  ]
            ];
            rest = λ j le. rw (same j (omega arith)) (o.rest j le);
          },
        );
      }

  construct_in-IsVector :
      (index n : ℕ) (f : ℕ → A) (a : A) (v : Vector A)
      → HasGap t index 1 n f false v
      → index < n
      → Returns (construct_in t index a v) (IsVector t (n + 1) (inserted index a f))
  construct_in-IsVector index n f a v g lt =
      let (b, p, o) = g.block in
      let b' = write index (live a) b in
      let e =
        construct_at-ok t index a b (o.gap index (omega arith) (omega arith) lt)
          (omega (arith, o.size, g.fits)) in
      (
        record v { ptr = some b' },
        simp (p, e),
        filled-IsVector index n f false a v g b' lt o.size (update_self b.cell index (live a))
            (λ j ne. update_ne b.cell index j (live a) ne),
      )

  put-IsVector :
      (assignable : Bool) (index n : ℕ) (f : ℕ → A) (a : A) (v : Vector A)
      → HasGap t index 1 n f true v
      → index < n
      → Returns (put t assignable index a v) (IsVector t (n + 1) (inserted index a f))
  put-IsVector true index n f a v g lt =
      let (b, p, o) = g.block in
      let b' = write index (live a) b in
      let e =
        assign_at-ok index a b (o.gap index (omega arith) (omega arith) lt)
          (omega (arith, o.size, g.fits)) in
      (
        record v { ptr = some b' },
        simp (p, e),
        filled-IsVector index n f true a v g b' lt o.size (update_self b.cell index (live a))
            (λ j ne. update_ne b.cell index j (live a) ne),
      )
  put-IsVector false index n f a v g lt =
      let (b, p, o) = g.block in
      let (b1, e1, c) =
        destroy_at-Cleared t index b (o.gap index (omega arith) (omega arith) lt)
          (omega (arith, o.size, g.fits)) in
      let b' = write index (live a) b1 in
      let e =
        construct_at-ok t index a b1 (c.inside index (omega arith))
          (omega (arith, o.size, g.fits, c.size)) in
      (
        record v { ptr = some b' },
        simp (p, e1, e),
        filled-IsVector index n f true a v g b' lt (c.size ∙ o.size)
            (update_self b1.cell index (live a))
            (λ j ne.
              update_ne b1.cell index j (live a) ne
              ∙ c.outside j
                  (elim (dec_lt j index) [ yes l ↦ inl l | no l ↦ inr (omega (arith, ne)) ])),
      )

  module _ (grants : ℕ → Bool) (index n : ℕ) (f : ℕ → A) (v : Vector A) (h : IsVector t n f v)
      (room : HasRoom t grants 1 v) where
    at_end :
        (a : A) (w : Vector A)
        → index ≡ n
        → IsVector t (n + 1) (joined n f (λ _. a)) w
        → IsVector t (n + 1) (inserted index a f) w
    at_end a w e p = record {
      len = p.len;
      fits = p.fits;
      bounded = p.bounded;
      storage = elim p.storage [
        | inl x ↦ inl x
        | inr (b, q, s) ↦ inr (
          b,
          q,
          record {
            size = s.size;
            held = λ j lt. s.held j lt ∙ (elim (dec_lt j n) [
              | yes low ↦
                  let q1 : ltb j n ≡ true = ground arith in
                  let q2 : ltb j index ≡ true = ground (arith, e) in rw (q1, q2) refl
              | no high ↦
                  let q1 : ltb j n ≡ false = ground arith in
                  let q2 : ltb j index ≡ false = ground (arith, e) in
                  let q3 : (j == index) ≡ true = ground (arith, e) in rw (q1, q2, q3) refl
            ]);
            rest = s.rest;
          },
        )
      ];
    }

    -- For a type with a destructor, and with room for one more object or a larger block granted:
    -- `insert_no_invalidate` ends the program at an index above the length, and else inserts at the
    -- index the object that the argument denotes, be it an element of the vector itself.
    pub insert_no_invalidate-inserts :
        (x : Argument A) (a : A)
        → fetch x v ≡ ok a
        → if leb index n
          then Returns
              (insert_no_invalidate t grants index x v)
              (IsVector t (n + 1) (inserted index a f))
          else insert_no_invalidate t grants index x v ≡ terminated
    unfolding insert_no_invalidate
    insert_no_invalidate-inserts x a e = elim (dec_lt n index) [
      | yes gt ↦
          let c : leb index n ≡ false = ground arith in
          let c' : ltb n index ≡ true = ground arith in rw c (simp (h.len, c'))
      | no le ↦
          let c : leb index n ≡ true = ground arith in
          let c' : ltb n index ≡ false = ground arith in
          rw c (elim (ℕ_discrete index n) [
            | yes q ↦
                let d : (index == n) ≡ true = ground (arith, q) in
                let (w, e', p) = push_back-appends t type n f v h grants x a e room in
                (w, simp (h.len, c', d) e', at_end a w q p)
            | no ne ↦
                let d : (index == n) ≡ false = ground (arith, ne) in
                let lt : index < n = omega (arith, ne) in
                elim (dec_lt n v.alloc_len) [
                  | yes space ↦
                      let s : ltb n v.alloc_len ≡ true = ground arith in
                      let (w, e1, g) =
                        shift_by-HasGap t type destructible index 1 n f v h (omega arith)
                          (omega arith) grants true (omega arith) in
                      let (r, e2, p) = put-IsVector t.move_assignable index n f a w g lt in
                      (r, simp (h.len, c', d, e, s, e1) e2, p)
                  | no full ↦
                      let s : ltb n v.alloc_len ≡ false = ground arith in
                      let (w, e1, g) =
                        shift_by-opens t type destructible index 1 n f v h (omega arith)
                          (omega arith) grants room in
                      let (r, e2, p) = construct_in-IsVector index n f a w g lt in
                      (r, simp (h.len, c', d, e, s, e1) e2, p)
                ]
          ])
    ]
