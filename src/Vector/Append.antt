-- ===== src/Vector/Append.antt =====
-- vector.hpp: the operations at the end of a vector, and access to an element.
use mini_libc.Base.{ℕ, ◌+◌, ◌-◌, ◌^◌, Bool, some, ltb, leb, ◌==◌, if◌then◌else◌}
use mini_libc.Bits.Words.{u64}
use mini_libc.Vector.{
  Outcome, ok, terminated, ◌>>=◌, Traits, Vector, deref, read_cell, construct_many, destroy_at,
  destroy_down,
}
use mini_libc.Vector.Grow.{
  compute_expanded_size, allocate_raw_array, move_vector_to_array_and_destroy,
}

-- An argument `const T& t` refers to an object outside of the vector, or to an element of it.
pub data Argument (A : Type 0) : Type 0 where
  outside : A → Argument A
  element : ℕ → Argument A

module _ {A : Type 0} where
  abbrev pub fetch : Argument A → Vector A → Outcome A
  fetch (outside a) v = ok a
  fetch (element i) v = deref v.ptr >>= read_cell i

  -- `alloc_len - len`.
  abbrev pub spare : Vector A → ℕ
  spare v = u64 (v.alloc_len + 2 ^ 64 - v.len)

  module _ (t : Traits) where
    -- The loop that constructs k objects at the end, and `len += k`.
    unfoldable pub append_in_place : ℕ → (ℕ → A) → Vector A → Outcome (Vector A)
    append_in_place k g v =
        if k == 0
        then ok v
        else (deref v.ptr >>= construct_many t k v.len g >>= λ b.
            ok (record v { len = v.len + k; ptr = some b }))

    -- The new objects are made in the new block before the old ones are moved.
    unfoldable pub append_and_grow :
        (ℕ → Bool) → ℕ → Outcome (ℕ → A) → Vector A → Outcome (Vector A)
    append_and_grow grants k objects v =
        if t.destructible
        then (do
          new_alloc_len ← compute_expanded_size t k v
          new_ptr ← allocate_raw_array t grants new_alloc_len
          new ← deref new_ptr
          g ← objects
          filled ← construct_many t k v.len g new
          b ← move_vector_to_array_and_destroy t v filled
          ok (record { alloc_len = new_alloc_len; len = v.len + k; ptr = some b }))
        else terminated

    unfoldable pub push_back : (ℕ → Bool) → Argument A → Vector A → Outcome (Vector A)
    push_back grants x v =
        if ltb v.len v.alloc_len
        then (fetch x v >>= λ a. append_in_place 1 (λ _. a) v)
        else append_and_grow grants 1 (fetch x v >>= λ a. ok (λ _. a)) v

    unfoldable pub push_back_many : (ℕ → Bool) → Argument A → ℕ → Vector A → Outcome (Vector A)
    push_back_many grants x count v =
        if leb count (spare v)
        then (fetch x v >>= λ a. append_in_place count (λ _. a) v)
        else append_and_grow grants count (fetch x v >>= λ a. ok (λ _. a)) v

    -- `T (args...)` is the object a.
    unfoldable pub emplace_back : (ℕ → Bool) → A → Vector A → Outcome (Vector A)
    emplace_back grants a v =
        if ltb v.len v.alloc_len
        then append_in_place 1 (λ _. a) v
        else append_and_grow grants 1 (ok (λ _. a)) v

    unfoldable pub emplace_back_many : (ℕ → Bool) → ℕ → A → Vector A → Outcome (Vector A)
    emplace_back_many grants count a v =
        if leb count (spare v)
        then append_in_place count (λ _. a) v
        else append_and_grow grants count (ok (λ _. a)) v

    unfoldable pub generate : (ℕ → Bool) → ℕ → (ℕ → A) → Vector A → Outcome (Vector A)
    generate grants count g v =
        if leb count (spare v)
        then append_in_place count g v
        else append_and_grow grants count (ok g) v

    unfoldable pub pop_back : Vector A → Outcome (Vector A)
    pop_back v =
        if v.len == 0
        then terminated
        else (deref v.ptr >>= destroy_at t (v.len - 1) >>= λ b.
            ok (record v { len = v.len - 1; ptr = some b }))

    unfoldable pub pop_back_many : ℕ → Vector A → Outcome (Vector A)
    pop_back_many n v =
        if ltb v.len n
        then terminated
        else if n == 0
        then ok v
        else (deref v.ptr >>= destroy_down t n (v.len - n) >>= λ b.
            ok (record v { len = v.len - n; ptr = some b }))

  -- `operator[]`, as the source of a copy.
  unfoldable pub get : ℕ → Vector A → Outcome A
  get index v = if leb v.len index then terminated else deref v.ptr >>= read_cell index
