-- ===== src/Vector/Appends.antt =====
-- The operations at the end of a vector, on the sequence that it holds.
use native.Mathlib.Decide.{dec_lt, dec_le}
use mini_libc.Base.{
  ℕ, ◌+◌, ◌-◌, ◌≤◌, ◌≡◌, ◌⊎◌, inl, inr, refl, ap, ◌∙◌, Bool, true, false, ltb, leb, ◌==◌,
  Bool-cases, some, arith,
}
use mini_libc.Vector.{ok, Traits, raw, live, Buffer, Vector}
use mini_libc.Vector.Grow.{
  compute_expanded_size, allocate_raw_array, move_vector_to_array_and_destroy,
}
use mini_libc.Vector.Append.{spare}
use mini_libc.Vector.Cells.{Returns, Free_of_raw}
use mini_libc.Vector.{construct_many}
use mini_libc.Vector.Append.{
  Argument, fetch, append_in_place, append_and_grow, push_back, push_back_many, emplace_back,
  emplace_back_many, generate,
}
use mini_libc.Vector.Cells.{construct_many-Built}
use mini_libc.Vector.Sequence.{
  IsType, expanded, CanGrow, IsVector, joined, raw_block, block_of, spare-eq,
  compute_expanded_size-ok, allocate_raw_array-ok, move_vector_to_array_and_destroy-Built,
}

-- There is room for k more objects, or a larger block is granted.
abbrev pub HasRoom : {A : Type 0} → Traits → (ℕ → Bool) → ℕ → Vector A → Type 0
HasRoom t grants k v = (v.len + k ≤ v.alloc_len) ⊎ CanGrow t grants k v

module _ {A : Type 0} (t : Traits) (type : IsType t) (n : ℕ) (f : ℕ → A) (v : Vector A)
    (h : IsVector t n f v) where
  pub append_in_place-IsVector :
      (k : ℕ) (g : ℕ → A)
      → n + k ≤ v.alloc_len
      → Returns (append_in_place t k g v) (IsVector t (n + k) (joined n f g))
  unfolding append_in_place
  append_in_place-IsVector k g le = elim (Bool-cases (k == 0)) [
    | inl z ↦
        let z' : k ≡ 0 = ground (arith, z) in
        (
          v,
          rw z refl,
          record {
            len = omega (arith, h.len, z');
            fits = le;
            bounded = h.bounded;
            storage = elim h.storage [
              | inl e ↦ inl e
              | inr (b, p, s) ↦ inr (
                b,
                p,
                record {
                  size = s.size;
                  held = λ j lt.
                      let q : ltb j n ≡ true = ground (arith, z', lt) in
                      rw q (s.held j (omega (arith, z')));
                  rest = λ j ge. s.rest j (omega (arith, z'));
                },
              )
            ];
          },
        )
    | inr z ↦
        let (b, p, s) = block_of t type n f v h (ground (arith, z)) in
        let (b', e, r) =
          construct_many-Built t k n g b (λ j w. s.rest j (omega (arith, w)))
            (omega (arith, s.size)) in
        (
          record v { len = v.len + k; ptr = some b' },
          simp (z, p, h.len, e),
          record {
            len = omega (arith, h.len);
            fits = le;
            bounded = h.bounded;
            storage = inr (
              b',
              refl,
              record {
                size = r.size ∙ s.size;
                held = λ j lt. elim (dec_lt j n) [
                  | yes old ↦
                      let q : ltb j n ≡ true = ground arith in
                      rw q (r.outside j (inl old) ∙ s.held j old)
                  | no new ↦
                      let q : ltb j n ≡ false = ground arith in rw q (r.inside j (omega arith))
                ];
                rest = λ j ge. rw (r.outside j (inr ge)) (s.rest j (omega arith));
              },
            );
          },
        )
  ]

  append_and_grow-eq :
      (grants : ℕ → Bool) (k : ℕ) (g : ℕ → A) (m : ℕ) (b b1 b2 : Buffer A)
      → t.destructible ≡ true
      → compute_expanded_size t k v ≡ ok m
      → allocate_raw_array t grants m ≡ ok (some b)
      → construct_many t k n g b ≡ ok b1
      → move_vector_to_array_and_destroy t v b1 ≡ ok b2
      → append_and_grow t grants k (ok g) v
        ≡ ok (record { alloc_len = m; len = v.len + k; ptr = some b2 })
  unfolding append_and_grow
  append_and_grow-eq grants k g m b b1 b2 d e0 e1 e2 e3 = simp (d, e0, e1, h.len, e2, e3)

  module _ (grants : ℕ → Bool) (k : ℕ) where
    pub append_and_grow-IsVector :
        (g : ℕ → A)
        → CanGrow t grants k v
        → Returns (append_and_grow t grants k (ok g) v) (IsVector t (n + k) (joined n f g))
    append_and_grow-IsVector g room =
        let m = expanded k v in
        let fresh : Buffer A = raw_block m in
        let (b1, e1, r1) =
          construct_many-Built t k n g fresh (λ j w. Free_of_raw {A = A} t raw refl)
            (omega (arith, h.len)) in
        let (b2, e2, r2) =
          move_vector_to_array_and_destroy-Built t type n f v b1 h
            (λ j lt. rw (r1.outside j (inl lt)) (Free_of_raw {A = A} t raw refl))
            (omega (arith, r1.size, h.len)) in
        (
          record { alloc_len = m; len = v.len + k; ptr = some b2 },
          append_and_grow-eq grants k g m fresh b1 b2 room.destructible
              (compute_expanded_size-ok t type grants k v room)
              (allocate_raw_array-ok t type grants k v room) e1 e2,
          record {
            len = omega (arith, h.len);
            fits = omega (arith, h.len);
            bounded = room.bounded;
            storage = inr (
              b2,
              refl,
              record {
                size = r2.size ∙ r1.size;
                held = λ j lt. elim (dec_lt j n) [
                  | yes old ↦
                      let q : ltb j n ≡ true = ground arith in
                      let e : j - 0 ≡ j = omega arith in
                      rw q (r2.inside j (omega arith) ∙ ap (λ x. live (f x)) e)
                  | no new ↦
                      let q : ltb j n ≡ false = ground arith in
                      rw q (r2.outside j (inr (omega arith)) ∙ r1.inside j (omega arith))
                ];
                rest = λ j ge.
                    rw (r2.outside j (inr (omega arith)), r1.outside j (inr ge))
                      (Free_of_raw {A = A} t raw refl);
              },
            );
          },
        )

    -- With room for k more objects, or a larger block granted, `generate` appends g 0, ..., g (k - 1)
    -- to the sequence.
    pub generate-appends :
        (g : ℕ → A)
        → HasRoom t grants k v
        → Returns (generate t grants k g v) (IsVector t (n + k) (joined n f g))
    unfolding generate
    generate-appends g room = elim (dec_le (n + k) v.alloc_len) [
      | yes le ↦
          let c : leb k (spare v) ≡ true = ground (arith, spare-eq t type n f v h) in
          let (w, e, p) = append_in_place-IsVector k g le in (w, rw c e, p)
      | no gt ↦
          let c : leb k (spare v) ≡ false = ground (arith, spare-eq t type n f v h, h.fits) in
          let (w, e, p) =
            append_and_grow-IsVector g
              (elim room [ inl le ↦ absurd (omega (arith, le, h.len)) | inr r ↦ r ]) in
          (w, rw c e, p)
    ]

    pub emplace_back_many-appends :
        (a : A)
        → HasRoom t grants k v
        → Returns (emplace_back_many t grants k a v) (IsVector t (n + k) (joined n f (λ _. a)))
    unfolding emplace_back_many generate
    emplace_back_many-appends a room = generate-appends (λ _. a) room

    -- Where the argument denotes the object a, be it an element of the vector itself, and there is
    -- room for k more objects or a larger block is granted, `push_back_many` appends k copies of a.
    pub push_back_many-appends :
        (x : Argument A) (a : A)
        → fetch x v ≡ ok a
        → HasRoom t grants k v
        → Returns (push_back_many t grants x k v) (IsVector t (n + k) (joined n f (λ _. a)))
    unfolding push_back_many generate
    push_back_many-appends x a e room =
        let (w, e', p) = generate-appends (λ _. a) room in (w, simp (e) e', p)

  module _ (grants : ℕ → Bool) where
    pub emplace_back-appends :
        (a : A)
        → HasRoom t grants 1 v
        → Returns (emplace_back t grants a v) (IsVector t (n + 1) (joined n f (λ _. a)))
    unfolding emplace_back
    emplace_back-appends a room = elim (dec_lt n v.alloc_len) [
      | yes lt ↦
          let c : ltb v.len v.alloc_len ≡ true = ground (arith, h.len) in
          let (w, e, p) = append_in_place-IsVector 1 (λ _. a) (omega arith) in (w, rw c e, p)
      | no ge ↦
          let c : ltb v.len v.alloc_len ≡ false = ground (arith, h.len) in
          let (w, e, p) =
            append_and_grow-IsVector grants 1 (λ _. a)
              (elim room [ inl le ↦ absurd (omega (arith, le, h.len)) | inr r ↦ r ]) in
          (w, rw c e, p)
    ]

    -- Where the argument denotes the object a, be it an element of the vector itself, and there is
    -- room for one more object or a larger block is granted, `push_back` appends a to the sequence.
    pub push_back-appends :
        (x : Argument A) (a : A)
        → fetch x v ≡ ok a
        → HasRoom t grants 1 v
        → Returns (push_back t grants x v) (IsVector t (n + 1) (joined n f (λ _. a)))
    unfolding push_back emplace_back
    push_back-appends x a e room =
        let (w, e', p) = emplace_back-appends a room in (w, simp (e) e', p)
