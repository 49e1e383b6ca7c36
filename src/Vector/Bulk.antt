-- ===== src/Vector/Bulk.antt =====
-- vector.hpp: operations that insert several objects, or make the new objects before the old ones
-- move.
use mini_libc.Base.{ℕ, zero, suc, ◌+◌, ◌-◌, Bool, true, false, some, ltb, leb, ◌==◌, if◌then◌else◌}
use mini_libc.Vector.{
  Outcome, ok, terminated, ◌>>=◌, Traits, Buffer, Vector, deref, assign_at, construct_at,
  construct_many, destroy_at,
}
use mini_libc.Vector.Grow.{
  compute_expanded_size, allocate_raw_array, move_vector_to_array_with_shift_and_destroy,
}
use mini_libc.Vector.Append.{Argument, fetch, spare, push_back_many, emplace_back}
use mini_libc.Vector.Insert.{shift_by}

module _ {A : Type 0} (t : Traits) where
  abbrev pub construct_many_in : ℕ → ℕ → (ℕ → A) → Vector A → Outcome (Vector A)
  construct_many_in count index g v =
      deref v.ptr >>= construct_many t count index g >>= λ b. ok (record v { ptr = some b })

  unfoldable pub generate_at_may_invalidate :
      (ℕ → Bool) → ℕ → ℕ → (ℕ → A) → Vector A → Outcome (Vector A)
  generate_at_may_invalidate grants index count g v =
      if ltb v.len index
      then terminated
      else if count == 0
      then ok v
      else (shift_by t grants index count false v >>= construct_many_in count index g)

  -- The new block, with the new objects, and then the old ones around them.
  unfoldable pub rebuild : (ℕ → Bool) → ℕ → ℕ → (ℕ → A) → Vector A → Outcome (Vector A)
  rebuild grants index count g v = do
    new_alloc_len ← compute_expanded_size t count v
    new_ptr ← allocate_raw_array t grants new_alloc_len
    new ← deref new_ptr
    filled ← construct_many t count index g new
    b ← move_vector_to_array_with_shift_and_destroy t index count v filled
    ok (record { alloc_len = new_alloc_len; len = v.len + count; ptr = some b })

  unfoldable pub generate_at_no_invalidate :
      (ℕ → Bool) → ℕ → ℕ → (ℕ → A) → Vector A → Outcome (Vector A)
  generate_at_no_invalidate grants index count g v =
      if ltb v.len index
      then terminated
      else if count == 0
      then ok v
      else rebuild grants index count g v

  unfoldable pub emplace_many_may_invalidate :
      (ℕ → Bool) → ℕ → ℕ → A → Vector A → Outcome (Vector A)
  emplace_many_may_invalidate grants index count a v =
      if ltb v.len index
      then terminated
      else if count == 0
      then ok v
      else (shift_by t grants index count false v >>= construct_many_in count index (λ _. a))

  unfoldable pub emplace_many_no_invalidate : (ℕ → Bool) → ℕ → ℕ → A → Vector A → Outcome (Vector A)
  emplace_many_no_invalidate grants index count a v =
      if ltb v.len index
      then terminated
      else if count == 0
      then ok v
      else rebuild grants index count (λ _. a) v

  unfoldable pub emplace_no_invalidate : (ℕ → Bool) → ℕ → A → Vector A → Outcome (Vector A)
  emplace_no_invalidate grants index a v =
      if ltb v.len index
      then terminated
      else if index == v.len
      then emplace_back t grants a v
      else rebuild grants index 1 (λ _. a) v

  -- `for (size_t i = low; i < low + k; i++) b[i] = a`, or by destruction and construction.
  unfoldable pub overwrite : ℕ → ℕ → A → Buffer A → Outcome (Buffer A)
  overwrite zero low a b = ok b
  overwrite (suc k) low a b =
      (if t.copy_assignable then assign_at low a b else destroy_at t low b >>= construct_at t low a)
      >>= overwrite k (low + 1) a

  -- The gap of shift_by, whose first cells still hold objects that were moved from.
  unfoldable pub fill_gap : ℕ → ℕ → ℕ → A → Vector A → Outcome (Vector A)
  fill_gap old_len index count a v = deref v.ptr >>= λ b.
      (if leb (index + count) old_len
        then overwrite count index a b
        else (overwrite (old_len - index) index a b
            >>= construct_many t (index + count - old_len) old_len (λ _. a)))
      >>= λ b'. ok (record v { ptr = some b' })

  unfoldable pub insert_many_no_invalidate :
      (ℕ → Bool) → ℕ → ℕ → Argument A → Vector A → Outcome (Vector A)
  insert_many_no_invalidate grants index count x v =
      if ltb v.len index
      then terminated
      else if count == 0
      then ok v
      else if index == v.len
      then push_back_many t grants x count v
      else (fetch x v >>= λ a.
          if leb count (spare v)
          then (shift_by t grants index count true v >>= fill_gap v.len index count a)
          else (shift_by t grants index count false v >>= construct_many_in count index (λ _. a)))
