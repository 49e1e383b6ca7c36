-- ===== src/Vector/Sequence.antt =====
-- A vector as a sequence: a length and the object at each index; and re-allocation.
use native.Mathlib.Nat.{mul-div_cancel_left}
use mini_libc.Base.{
  ℕ, ◌+◌, ◌-◌, ◌*◌, ◌/◌, ◌^◌, ◌≤◌, ◌<◌, ◌≡◌, ◌⊎◌, inl, inr, refl, ap, ◌∙◌, Bool, true, false, ◌&&◌,
  ltb, leb, max, ◌==◌, if◌then◌else◌, Bool-cases, none, some, arith,
}
use mini_libc.Bits.Words.{u64}
use mini_libc.Vector.{ok, Traits, raw, live, Buffer, Vector, copy_cells, allocate}
use mini_libc.Vector.Grow.{
  compute_expanded_size, allocate_raw_array, move_vector_to_array_and_destroy,
}
use mini_libc.Vector.Append.{spare}
use mini_libc.Vector.Cells.{Returns, Free, Built}
use mini_libc.Vector.Moves.{move_and_destroy-Relocated}
use mini_libc.Vector.Gap.{Stores}

-- What the code relies on of T: a trivial move constructor, or a trivial move assignment, comes with
-- a trivial destructor, and that with a destructor.
pub record IsType (t : Traits) : Type 0 where
  pub sized : 0 < t.size_of
  pub trivial_move : t.trivially_move_constructible ≡ true → t.trivially_destructible ≡ true
  pub trivial_assign : t.trivially_move_assignable ≡ true → t.trivially_destructible ≡ true
  pub trivial_destroy : t.trivially_destructible ≡ true → t.destructible ≡ true

-- The size of the next block.
abbrev pub expanded : {A : Type 0} → ℕ → Vector A → ℕ
expanded k v = max (max (v.len + k) 8) (2 * v.alloc_len)

-- A re-allocation for k more objects succeeds.
pub record CanGrow {A : Type 0} (t : Traits) (grants : ℕ → Bool) (k : ℕ) (v : Vector A)
    : Type 0 where
  pub destructible : t.destructible ≡ true
  pub bytes : t.size_of * expanded k v < 2 ^ 64
  pub bounded : expanded k v < 2 ^ 63
  pub granted : grants (t.size_of * expanded k v) ≡ true

module _ {A : Type 0} where
  pub record IsVector (t : Traits) (n : ℕ) (f : ℕ → A) (v : Vector A) : Type 0 where
    pub len : v.len ≡ n
    pub fits : n ≤ v.alloc_len
    pub bounded : v.alloc_len < 2 ^ 63
    pub storage :
        ((v.ptr ≡ none) × (v.alloc_len ≡ 0))
        ⊎ ((b : Buffer A) × (v.ptr ≡ some b) × Stores t n f v.alloc_len b)

  -- The first n objects are those of f, and g goes on.
  abbrev pub joined : ℕ → (ℕ → A) → (ℕ → A) → ℕ → A
  joined n f g j = if ltb j n then f j else g (j - n)

  abbrev pub raw_block : ℕ → Buffer A
  raw_block m = record { size = m; cell = λ _. raw }

  module _ (t : Traits) (type : IsType t) where
    -- A vector that holds an object has a block.
    pub block_of :
        (n : ℕ) (f : ℕ → A) (v : Vector A)
        → IsVector t n f v
        → 0 < v.alloc_len
        → (b : Buffer A) × (v.ptr ≡ some b) × Stores t n f v.alloc_len b
    block_of n f v h pos = elim h.storage [ inl e ↦ absurd (omega (arith, e.1)) | inr s ↦ s ]

    pub spare-eq : (n : ℕ) (f : ℕ → A) (v : Vector A) → IsVector t n f v → spare v ≡ v.alloc_len - n
    spare-eq n f v h = omega (arith, h.len, h.fits, h.bounded)

    module _ (grants : ℕ → Bool) (k : ℕ) (v : Vector A) (room : CanGrow t grants k v) where
      pub compute_expanded_size-ok : compute_expanded_size t k v ≡ ok (expanded k v)
      unfolding compute_expanded_size
      compute_expanded_size-ok =
          let a : leb (2 ^ 64) (v.len + k) ≡ false = ground (arith, room.bounded) in
          let b : leb (2 ^ 63) v.alloc_len ≡ false = ground (arith, room.bounded) in
          let c : u64 (v.len + k) ≡ v.len + k = omega (arith, room.bounded) in
          let d : u64 (2 * v.alloc_len) ≡ 2 * v.alloc_len = omega (arith, room.bounded) in
          elim (Bool-cases t.defensive) [
            | inl y ↦ simp (y, a, b, c, d)
            | inr y ↦ simp (y, a, b, c, d)
          ]

      pub allocate_raw_array-ok :
          allocate_raw_array t grants (expanded k v) ≡ ok (some (raw_block (expanded k v)))
      unfolding allocate_raw_array allocate
      allocate_raw_array-ok =
          let m = expanded k v in
          let a : leb (2 ^ 64) (t.size_of * m) ≡ false = ground (arith, room.bytes) in
          let b : u64 (t.size_of * m) ≡ t.size_of * m = omega (arith, room.bytes) in
          let c : t.size_of * m / t.size_of ≡ m = mul-div_cancel_left m type.sized in
          elim (Bool-cases t.defensive) [
            | inl y ↦ simp (y, a, b, c, room.granted)
            | inr y ↦ simp (y, a, b, c, room.granted)
          ]

    pub move_vector_to_array_and_destroy-Built :
        (n : ℕ) (f : ℕ → A) (v : Vector A) (dst : Buffer A)
        → IsVector t n f v
        → ((j : ℕ) → j < n → Free t (dst.cell j))
        → n ≤ dst.size
        → Returns (move_vector_to_array_and_destroy t v dst) (Built 0 n f dst)
    unfolding move_vector_to_array_and_destroy copy_cells
    move_vector_to_array_and_destroy-Built n f v dst h free fits = elim (Bool-cases (v.len == 0)) [
      | inl z ↦ (
        dst,
        rw z refl,
        record {
          size = refl;
          inside = λ j w. absurd (ground (arith, z, h.len, w));
          outside = λ j w. refl;
        },
      )
      | inr z ↦
          let z' : (n == 0) ≡ false = ground (arith, z, h.len) in
          let (b, p, s) = block_of n f v h (ground (arith, z, h.len, h.fits)) in
          elim (Bool-cases t.trivially_move_constructible) [
            | inl y ↦
                let l1 : leb (0 + n) dst.size ≡ true = ground arith in
                let l2 : leb (0 + n) b.size ≡ true = ground (arith, s.size, h.fits) in
                let dst' = record dst {
                  cell = λ j. if leb 0 j && ltb j (0 + n) then b.cell (j - 0 + 0) else dst.cell j;
                } in
                (
                  dst',
                  simp (h.len, z', p, y, l1, l2),
                  record {
                    size = refl;
                    inside = λ j w.
                        let q : (leb 0 j && ltb j (0 + n)) ≡ true = ground (arith, w) in
                        let e : j - 0 + 0 ≡ j = omega arith in
                        let e' : j - 0 ≡ j = omega arith in
                        rw (q, e, e') (s.held j (omega (arith, w)));
                    outside = λ j w.
                        let q : (leb 0 j && ltb j (0 + n)) ≡ false = elim w [
                          | inl a ↦ absurd (omega (arith, a))
                          | inr a ↦ ground (arith, a)
                        ] in
                        rw q refl;
                  },
                )
            | inr y ↦
                let (r, e, q) =
                  move_and_destroy-Relocated t n 0 0 f b dst (λ j w. s.held j (omega (arith, w)))
                    (λ j w. free j (omega (arith, w))) (omega (arith, s.size, h.fits))
                    (omega arith) in
                (
                  r.1,
                  simp (h.len, z', p, y, e),
                  record {
                    size = q.right.size;
                    inside = λ j w.
                        let e' : 0 + (j - (0 + 0)) ≡ j - 0 = omega arith in
                        q.right.inside j w ∙ ap (λ x. live (f x)) e';
                    outside = λ j w. q.right.outside j w;
                  },
                )
          ]
    ]
