-- ===== src/Vector/Grow.antt =====
-- vector.hpp: storage: `clear`, `resize_storage`, `reserve`, and the private helpers by which other
-- operations re-allocate.
use mini_libc.Base.{
  ℕ, zero, suc, ◌+◌, ◌-◌, ◌*◌, ◌^◌, Bool, ◌&&◌, Option, none, some, ltb, leb, ◌==◌, min, max,
  if◌then◌else◌,
}
use mini_libc.Bits.Words.{u64}
use mini_libc.Vector.{
  Outcome, ok, terminated, ◌>>=◌, Traits, Buffer, Vector, deref, move_from, copy_cells,
  construct_at, destroy_at, destroy_down, allocate,
}

module _ {A : Type 0} (t : Traits) where
  unfoldable pub clear : Vector A → Outcome (Vector A)
  clear v =
      if ltb 0 v.len
      then if t.destructible
        then (deref v.ptr >>= destroy_down t v.len 0 >>= λ b.
            ok (record v { len = 0; ptr = some b }))
        else terminated
      else ok v

  -- `for (size_t i = i0; i < i0 + k; i++) construct_at (dst + i, move (src[i]))`.
  unfoldable pub move_many : ℕ → ℕ → Buffer A → Buffer A → Outcome (Buffer A × Buffer A)
  move_many zero i src dst = ok (src, dst)
  move_many (suc k) i src dst = do
    (a, src') ← move_from i src
    dst' ← construct_at t i a dst
    move_many k (i + 1) src' dst'

  -- The same, with `destroy_at (src + i)` after each, and the destination shifted.
  unfoldable pub move_and_destroy : ℕ → ℕ → ℕ → Buffer A → Buffer A → Outcome (Buffer A × Buffer A)
  move_and_destroy zero i shift src dst = ok (src, dst)
  move_and_destroy (suc k) i shift src dst = do
    (a, src') ← move_from i src
    dst' ← construct_at t (i + shift) a dst
    src'' ← destroy_at t i src'
    move_and_destroy k (i + 1) shift src'' dst'

  -- The block that `resize_storage` moves to.
  unfoldable pub relocate : ℕ → Vector A → Buffer A → Outcome (Vector A)
  relocate final_size v new =
      let copy_range = min v.len final_size in
      deref v.ptr >>= λ b.
      (if t.trivially_move_constructible
        then copy_cells 0 0 copy_range b new
        else move_many copy_range 0 b new >>= λ (src, dst).
            destroy_down t v.len 0 src >>= λ _. ok dst)
      >>= λ dst. ok (record { alloc_len = final_size; len = copy_range; ptr = some dst })

  abbrev new_storage : (ℕ → Bool) → ℕ → Vector A → Outcome (Vector A)
  new_storage grants n v = elim (allocate t grants n) [
    | none ↦ terminated
    | some b ↦ ok (record v { alloc_len = n; ptr = some b })
  ]

  unfoldable pub resize_storage : (ℕ → Bool) → ℕ → Vector A → Outcome (Vector A)
  resize_storage grants final_size v =
      if t.defensive && leb (2 ^ 64) (t.size_of * final_size)
      then terminated
      else if v.alloc_len == 0
      then if final_size == 0 then ok v else new_storage grants final_size v
      else if v.len == 0
      then if final_size == 0
        then ok (record v { alloc_len = 0; ptr = none })
        else new_storage grants final_size v
      else if final_size == 0
      then if t.destructible
        then (deref v.ptr >>= destroy_down t v.len 0 >>= λ _.
            ok (record { alloc_len = 0; len = 0; ptr = none }))
        else terminated
      else if t.move_constructible && t.destructible
      then elim (allocate t grants final_size) [
        | none ↦ terminated
        | some b ↦ relocate final_size v b
      ]
      else terminated

  unfoldable pub reserve : (ℕ → Bool) → ℕ → Vector A → Outcome (Vector A)
  reserve grants size v = if leb size v.alloc_len then ok v else resize_storage grants size v

  unfoldable pub compute_expanded_size : ℕ → Vector A → Outcome ℕ
  compute_expanded_size expand_len v =
      let expected_size = max (u64 (v.len + expand_len)) 8 in
      if t.defensive && leb (2 ^ 64) (v.len + expand_len)
      then terminated
      else if t.defensive && leb (2 ^ 63) v.alloc_len
      then terminated
      else ok (max expected_size (u64 (2 * v.alloc_len)))

  -- Null where the allocation fails: the callers do not test it.
  unfoldable pub allocate_raw_array : (ℕ → Bool) → ℕ → Outcome (Option (Buffer A))
  allocate_raw_array grants size =
      if t.defensive && leb (2 ^ 64) (t.size_of * size)
      then terminated
      else ok (allocate t grants size)

  unfoldable pub move_vector_to_array_and_destroy : Vector A → Buffer A → Outcome (Buffer A)
  move_vector_to_array_and_destroy v dst =
      if v.len == 0
      then ok dst
      else deref v.ptr >>= λ b.
          if t.trivially_move_constructible
          then copy_cells 0 0 v.len b dst
          else move_and_destroy v.len 0 0 b dst >>= λ (_, dst'). ok dst'

  unfoldable pub move_vector_to_array_with_shift_and_destroy :
      ℕ → ℕ → Vector A → Buffer A → Outcome (Buffer A)
  move_vector_to_array_with_shift_and_destroy index shift v dst =
      if v.len == 0
      then ok dst
      else deref v.ptr >>= λ b.
          if t.trivially_move_constructible
          then copy_cells 0 0 index b dst >>= copy_cells (index + shift) index (v.len - index) b
          else move_and_destroy index 0 0 b dst >>= λ (b', dst').
              move_and_destroy (v.len - index) index shift b' dst' >>= λ (_, dst''). ok dst''
