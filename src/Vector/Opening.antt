-- ===== src/Vector/Opening.antt =====
-- `shift_by` as a whole: in the same block or a larger one, inside the vector or at its end.
use native.Mathlib.Decide.{ℕ_discrete, dec_le}
use mini_libc.Base.{
  ℕ, ◌+◌, ◌≤◌, ◌<◌, ◌≡◌, inl, inr, refl, Bool, true, false, ◌||◌, ltb, ◌==◌, some, arith,
}
use mini_libc.Vector.{Traits, raw, Buffer, Vector}
use mini_libc.Vector.Append.{spare}
use mini_libc.Vector.Cells.{Returns, Free_of_raw}
use mini_libc.Vector.Sequence.{
  IsType, expanded, CanGrow, IsVector, raw_block, block_of, spare-eq, compute_expanded_size-ok,
  allocate_raw_array-ok,
}
use mini_libc.Vector.Insert.{shift_in_place, shift_and_grow, shift_by}
use mini_libc.Vector.Appends.{HasRoom}
use mini_libc.Vector.Opens.{HasGap, shift_in_place-HasGap, shift_and_grow-HasGap}

module _ {A : Type 0} where
  module _ (t : Traits) (type : IsType t) (destructible : t.destructible ≡ true) (index shift n : ℕ)
      (f : ℕ → A) (v : Vector A) (h : IsVector t n f v) (inside : index ≤ n) (positive : 0 < shift)
      (grants : ℕ → Bool) where
    -- A gap at the end has no objects to move.
    end-HasGap :
        (used : Bool)
        → index ≡ n
        → n + shift ≤ v.alloc_len
        → HasGap t index shift n f used (record v { len = v.len + shift })
    end-HasGap used e room =
        let (b, p, s) = block_of t type n f v h (omega arith) in
        record {
          len = omega (arith, h.len);
          fits = room;
          bounded = h.bounded;
          block = (
            b,
            p,
            record {
              size = s.size;
              below = λ j lo. s.held j (omega (arith, e));
              gap = λ j lo hi lt. absurd (omega (arith, e));
              new_gap = λ j lo hi le. s.rest j le;
              above = λ j lo hi. absurd (omega (arith, e));
              rest = λ j le. s.rest j (omega arith);
            },
          );
        }

    -- `shift_by` in the same block.
    pub shift_by-HasGap :
        (no_destruct : Bool)
        → n + shift ≤ v.alloc_len
        → Returns
            (shift_by t grants index shift no_destruct v)
            (HasGap t index shift n f no_destruct)
    unfolding shift_by shift_in_place
    shift_by-HasGap no_destruct room =
        let c1 : ltb v.len index ≡ false = ground (arith, h.len) in
        let c2 : (shift == 0) ≡ false = ground arith in
        let c3 : ltb (spare v) shift ≡ false = ground (arith, spare-eq t type n f v h) in
        elim (ℕ_discrete index n) [
          | yes e ↦
              let c4 : ((v.len == 0) || (index == v.len)) ≡ true = ground (arith, e, h.len) in
              (
                record v { len = v.len + shift },
                rw (c1, c2, c3, c4) refl,
                end-HasGap no_destruct e room,
              )
          | no ne ↦
              let (w, e, g) =
                shift_in_place-HasGap t type destructible index shift n f v h inside
                  (omega (arith, ne)) positive no_destruct (omega (arith, ne)) room in
              (w, rw (c1, c2, c3) e, g)
        ]

    -- A larger block for a vector with no object.
    empty-HasGap :
        n ≡ 0
        → CanGrow t grants shift v
        → Returns (shift_and_grow t grants index shift v) (HasGap t index shift n f false)
    unfolding shift_and_grow
    empty-HasGap z room =
        let m = expanded shift v in
        let z' : (v.len == 0) ≡ true = ground (arith, z, h.len) in
        let fresh : Buffer A = raw_block m in
        let w : Vector A = record { alloc_len = m; len = shift; ptr = some fresh } in
        (
          w,
          simp (
            compute_expanded_size-ok t type grants shift v room,
            allocate_raw_array-ok t type grants shift v room,
            z',
          ),
          record {
            len = omega (arith, z);
            fits = omega (arith, h.len);
            bounded = room.bounded;
            block = (
              fresh,
              refl,
              record {
                size = refl;
                below = λ j lo. absurd (omega (arith, z));
                gap = λ j lo hi lt. absurd (omega (arith, z));
                new_gap = λ j lo hi le. Free_of_raw {A = A} t raw refl;
                above = λ j lo hi. absurd (omega (arith, z));
                rest = λ j le. Free_of_raw {A = A} t raw refl;
              },
            );
          },
        )

    -- `shift_by` with room for the gap or a larger block granted, for a type with a destructor,
    -- moves the objects from the index on up by the width of the gap, keeps the others, and leaves
    -- no object in the gap.
    pub shift_by-opens :
        HasRoom t grants shift v
        → Returns (shift_by t grants index shift false v) (HasGap t index shift n f false)
    unfolding shift_by
    shift_by-opens room = elim (dec_le (n + shift) v.alloc_len) [
      | yes le ↦ shift_by-HasGap false le
      | no gt ↦
          let c1 : ltb v.len index ≡ false = ground (arith, h.len) in
          let c2 : (shift == 0) ≡ false = ground arith in
          let c3 : ltb (spare v) shift ≡ true = ground (arith, spare-eq t type n f v h, h.fits) in
          let r : CanGrow t grants shift v = elim room [
            | inl le ↦ absurd (omega (arith, le, h.len))
            | inr r ↦ r
          ] in
          elim (ℕ_discrete n 0) [
            | yes z ↦ let (w, e, g) = empty-HasGap z r in (w, rw (c1, c2, c3) e, g)
            | no ne ↦
                let (w, e, g) =
                  shift_and_grow-HasGap t type destructible index shift n f v h inside
                    (omega (arith, ne)) positive grants r in
                (w, rw (c1, c2, c3) e, g)
          ]
    ]
