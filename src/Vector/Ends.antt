-- ===== src/Vector/Ends.antt =====
-- Removal at the end of a vector, and access to its elements.
use native.Mathlib.Decide.{dec_lt, dec_le}
use mini_libc.Base.{
  ℕ, ◌-◌, ◌≡◌, inl, inr, refl, ◌∙◌, true, false, ltb, leb, ◌==◌, if◌then◌else◌, Bool-cases, some,
  arith,
}
use mini_libc.Vector.{ok, terminated, Traits, Vector}
use mini_libc.Vector.Cells.{Returns}
use mini_libc.Vector.{read_cell}
use mini_libc.Vector.Append.{pop_back_many, get}
use mini_libc.Vector.Cells.{destroy_down-Cleared}
use mini_libc.Vector.Sequence.{IsType, IsVector, block_of}

module _ {A : Type 0} (t : Traits) (type : IsType t) (n : ℕ) (f : ℕ → A) (v : Vector A)
    (h : IsVector t n f v) where
  -- `pop_back_many` takes the last m objects away, and ends the program where there are fewer.
  pub pop_back_many-takes :
      (m : ℕ)
      → if leb m n
        then Returns (pop_back_many t m v) (IsVector t (n - m) f)
        else pop_back_many t m v ≡ terminated
  unfolding pop_back_many
  pop_back_many-takes m = elim (dec_le m n) [
    | no gt ↦
        let c : ltb v.len m ≡ true = ground (arith, h.len) in
        let c' : leb m n ≡ false = ground arith in rw (c, c') refl
    | yes le ↦
        let c : ltb v.len m ≡ false = ground (arith, h.len) in
        let c' : leb m n ≡ true = ground arith in
        rw c' (elim (Bool-cases (m == 0)) [
          | inl z ↦ let z' : n - m ≡ n = ground (arith, z) in (v, rw (c, z) refl, rw z' h)
          | inr z ↦
              let c2 : ltb n m ≡ false = ground arith in
              let (b, p, s) = block_of t type n f v h (ground (arith, z, h.fits)) in
              let (b', e, r) =
                destroy_down-Cleared t m (n - m) b (λ j w. rw (s.held j (omega (arith, w))) refl)
                  (omega (arith, s.size, h.fits)) in
              (
                record v { len = v.len - m; ptr = some b' },
                simp (h.len, c2, z, p, e),
                record {
                  len = omega (arith, h.len);
                  fits = omega (arith, h.fits);
                  bounded = h.bounded;
                  storage = inr (
                    b',
                    refl,
                    record {
                      size = r.size ∙ s.size;
                      held = λ j lt. r.outside j (inl lt) ∙ s.held j (omega arith);
                      rest = λ j ge. elim (dec_lt j n) [
                        | yes lt ↦ r.inside j (omega arith)
                        | no ge' ↦ rw (r.outside j (inr (omega arith))) (s.rest j (omega arith))
                      ];
                    },
                  );
                },
              )
        ])
  ]

  -- `operator[]` gives the object at each index below the length, and ends the program at others.
  pub get-eq : (i : ℕ) → get i v ≡ (if ltb i n then ok (f i) else terminated)
  unfolding get read_cell
  get-eq i = elim (dec_lt i n) [
    | yes lt ↦
        let (b, p, s) = block_of t type n f v h (omega (arith, h.fits)) in
        let c : leb v.len i ≡ false = ground (arith, h.len) in
        let c' : ltb i n ≡ true = ground arith in
        let c'' : ltb i b.size ≡ true = ground (arith, s.size, h.fits) in
        simp (c, c', p, c'', s.held i lt)
    | no ge ↦
        let c : leb v.len i ≡ true = ground (arith, h.len) in
        let c' : ltb i n ≡ false = ground arith in rw (c, c') refl
  ]
