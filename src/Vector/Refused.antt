-- ===== src/Vector/Refused.antt =====
-- `push_back` of a full vector whose larger block is refused.
use native.Mathlib.Decide.{dec_lt}
use mini_libc.Base.{
  ℕ, ◌+◌, ◌*◌, ◌^◌, ◌<◌, ◌≡◌, ◌↔◌, inl, inr, Bool, true, false, ltb, leb, ◌==◌, Bool-cases, none,
  arith,
}
use mini_libc.Bits.Words.{u64}
use mini_libc.Vector.{ok, fault, terminated, Traits, Vector, allocate}
use mini_libc.Vector.Grow.{compute_expanded_size, allocate_raw_array, reserve, resize_storage}
use mini_libc.Vector.Append.{Argument, fetch, append_and_grow, push_back}
use mini_libc.Vector.Sequence.{IsType, expanded, IsVector}
use mini_libc.Vector.Appends.{HasRoom, push_back-appends}

module _ {A : Type 0} (t : Traits) (type : IsType t) (n : ℕ) (f : ℕ → A) (v : Vector A)
    (h : IsVector t n f v) where
  module _ (grants : ℕ → Bool) where
    push_back-refused :
        (x : Argument A)
        → v.alloc_len ≡ n
        → t.destructible ≡ true
        → t.size_of * expanded 1 v < 2 ^ 64
        → expanded 1 v < 2 ^ 63
        → grants (t.size_of * expanded 1 v) ≡ false
        → push_back t grants x v ≡ fault
    unfolding push_back append_and_grow compute_expanded_size allocate_raw_array allocate
    push_back-refused x full d bytes bounded refused =
        let c : ltb v.len v.alloc_len ≡ false = ground (arith, h.len, full) in
        let a1 : leb (2 ^ 64) (v.len + 1) ≡ false = ground (arith, bounded) in
        let a2 : leb (2 ^ 63) v.alloc_len ≡ false = ground (arith, bounded) in
        let a3 : u64 (v.len + 1) ≡ v.len + 1 = omega (arith, bounded) in
        let a4 : u64 (2 * v.alloc_len) ≡ 2 * v.alloc_len = omega (arith, bounded) in
        let a5 : leb (2 ^ 64) (t.size_of * expanded 1 v) ≡ false = ground (arith, bytes) in
        let a6 : u64 (t.size_of * expanded 1 v) ≡ t.size_of * expanded 1 v = omega (arith, bytes) in
        elim (Bool-cases t.defensive) [
          | inl y ↦ simp (y, c, d, a1, a2, a3, a4, a5, a6, refused)
          | inr y ↦ simp (y, c, d, a1, a2, a3, a4, a6, refused)
        ]

    appended-fault :
        (x : Argument A) (a : A)
        → fetch x v ≡ ok a
        → HasRoom t grants 1 v
        → ¬ (push_back t grants x v ≡ fault)
    appended-fault x a e room stuck =
        let (w, q, p) = push_back-appends t type n f v h grants x a e room in cc (q, stuck)

    allocate-refused :
        t.size_of * expanded 1 v < 2 ^ 64
        → grants (t.size_of * expanded 1 v) ≡ false
        → allocate {A = A} t grants (expanded 1 v) ≡ none
    unfolding allocate
    allocate-refused bytes refused =
        let w : u64 (t.size_of * expanded 1 v) ≡ t.size_of * expanded 1 v = omega (arith, bytes) in
        simp (w, refused)

    -- `reserve` tests for the refusal.
    reserve-refused :
        v.alloc_len ≡ n
        → t.size_of * expanded 1 v < 2 ^ 64
        → grants (t.size_of * expanded 1 v) ≡ false
        → reserve t grants (expanded 1 v) v ≡ terminated
    unfolding reserve resize_storage
    reserve-refused full bytes refused =
        let c : leb (expanded 1 v) v.alloc_len ≡ false = ground (arith, h.len, full) in
        let a : leb (2 ^ 64) (t.size_of * expanded 1 v) ≡ false = ground (arith, bytes) in
        let z : (expanded 1 v == 0) ≡ false = ground arith in
        let none_left = allocate-refused bytes refused in ground (arith, c, a, z, none_left)

    -- For an argument that denotes an object, a type with a destructor and sizes that do not overflow:
    -- `push_back` writes through a null pointer exactly where the vector is full and the larger block
    -- is refused, and there `reserve`, for the size of that block, ends the program.
    pub push_back-fault :
        (x : Argument A) (a : A)
        → fetch x v ≡ ok a
        → t.destructible ≡ true
        → t.size_of * expanded 1 v < 2 ^ 64
        → expanded 1 v < 2 ^ 63
        → (push_back t grants x v ≡ fault) ↔ (
            (v.alloc_len ≡ n)
            × (grants (t.size_of * expanded 1 v) ≡ false)
            × (reserve t grants (expanded 1 v) v ≡ terminated))
    push_back-fault x a e d bytes bounded = (
      λ stuck. elim (dec_lt n v.alloc_len) [
        | yes lt ↦ absurd (appended-fault x a e (inl (omega (arith, h.len, lt))) stuck)
        | no ge ↦
            let full : v.alloc_len ≡ n = omega (arith, ge, h.fits) in
            elim (Bool-cases (grants (t.size_of * expanded 1 v))) [
              | inl granted ↦ absurd (
                  appended-fault x a e
                    (inr (record {
                      destructible = d;
                      bytes = bytes;
                      bounded = bounded;
                      granted = granted;
                    }))
                    stuck)
              | inr refused ↦ (full, refused, reserve-refused full bytes refused)
            ]
      ],
      λ (full, refused, _). push_back-refused x full d bytes bounded refused,
    )
