-- ===== src/Vector/Insert.antt =====
-- vector.hpp: `shift_by`, which makes a gap, and the operations that fill or close one.
use mini_libc.Base.{
  ℕ, zero, suc, ◌+◌, ◌-◌, Bool, true, false, not, ◌&&◌, ◌||◌, some, min, ltb, ◌==◌, if◌then◌else◌,
}
use mini_libc.Vector.{
  Outcome, ok, terminated, ◌>>=◌, Traits, Buffer, Vector, deref, move_from, assign_at, copy_cells,
  construct_at, destroy_at, destroy_down,
}
use mini_libc.Vector.Grow.{
  compute_expanded_size, allocate_raw_array, move_vector_to_array_with_shift_and_destroy,
}
use mini_libc.Vector.Append.{Argument, fetch, spare, push_back, emplace_back}

module _ {A : Type 0} (t : Traits) where
  -- `for (size_t i = low + k; i-- > low;) construct_at (b + i, move (b[i - shift]))`.
  unfoldable pub shift_construct : ℕ → ℕ → ℕ → Buffer A → Outcome (Buffer A)
  shift_construct zero low shift b = ok b
  shift_construct (suc k) low shift b = do
    (a, b') ← move_from (low + k - shift) b
    b'' ← construct_at t (low + k) a b'
    shift_construct k low shift b''

  unfoldable pub shift_assign : ℕ → ℕ → ℕ → Buffer A → Outcome (Buffer A)
  shift_assign zero low shift b = ok b
  shift_assign (suc k) low shift b = do
    (a, b') ← move_from (low + k - shift) b
    b'' ← assign_at (low + k) a b'
    shift_assign k low shift b''

  unfoldable pub shift_replace : ℕ → ℕ → ℕ → Buffer A → Outcome (Buffer A)
  shift_replace zero low shift b = ok b
  shift_replace (suc k) low shift b = do
    b1 ← destroy_at t (low + k) b
    (a, b2) ← move_from (low + k - shift) b1
    b3 ← construct_at t (low + k) a b2
    shift_replace k low shift b3

  -- `for (size_t i = low; i < low + k; i++) destroy_at (b + i)`.
  unfoldable pub destroy_up : ℕ → ℕ → Buffer A → Outcome (Buffer A)
  destroy_up zero low b = ok b
  destroy_up (suc k) low b = destroy_at t low b >>= destroy_up k (low + 1)

  -- The moves inside the block, where T is not trivially move constructible.
  unfoldable pub move_up : ℕ → ℕ → ℕ → Buffer A → Outcome (Buffer A)
  move_up len index shift b =
      if ltb (index + shift) len
      then (shift_construct shift len shift b >>= λ b'.
          if t.move_assignable
          then if t.trivially_move_assignable
            then copy_cells (index + shift) index (len - (index + shift)) b' b'
            else shift_assign (len - (index + shift)) (index + shift) shift b'
          else if t.destructible
          then shift_replace (len - (index + shift)) (index + shift) shift b'
          else terminated)
      else shift_construct (len - index) (index + shift) shift b

  unfoldable pub shift_in_place : ℕ → ℕ → Bool → Vector A → Outcome (Vector A)
  shift_in_place index shift no_destruct v =
      if (v.len == 0) || (index == v.len)
      then ok (record v { len = v.len + shift })
      else if t.trivially_move_constructible
      then (deref v.ptr >>= λ b. copy_cells (index + shift) index (v.len - index) b b >>= λ b'.
          ok (record v { len = v.len + shift; ptr = some b' }))
      else (do
        b ← deref v.ptr
        b' ← move_up v.len index shift b
        b'' ←
            if t.destructible && not no_destruct
            then destroy_up (min (index + shift) v.len - index) index b'
            else ok b'
        ok (record v { len = v.len + shift; ptr = some b'' }))

  unfoldable pub shift_and_grow : (ℕ → Bool) → ℕ → ℕ → Vector A → Outcome (Vector A)
  shift_and_grow grants index shift v = compute_expanded_size t shift v >>= λ new_alloc_len.
      allocate_raw_array t grants new_alloc_len >>= λ new_ptr.
      if v.len == 0
      then ok (record { alloc_len = new_alloc_len; len = shift; ptr = new_ptr })
      else if t.destructible
      then (deref new_ptr >>= move_vector_to_array_with_shift_and_destroy t index shift v >>= λ b.
          ok (record { alloc_len = new_alloc_len; len = v.len + shift; ptr = some b }))
      else terminated

  unfoldable pub shift_by : (ℕ → Bool) → ℕ → ℕ → Bool → Vector A → Outcome (Vector A)
  shift_by grants index shift no_destruct v =
      if ltb v.len index
      then terminated
      else if shift == 0
      then ok v
      else if ltb (spare v) shift
      then shift_and_grow grants index shift v
      else shift_in_place index shift no_destruct v

  -- `ptr[index] = a`, or by destruction and construction where T is not assignable.
  abbrev pub put : Bool → ℕ → A → Vector A → Outcome (Vector A)
  put assignable index a v = deref v.ptr >>= λ b.
      (if assignable then assign_at index a b else destroy_at t index b >>= construct_at t index a)
      >>= λ b'. ok (record v { ptr = some b' })

  abbrev pub construct_in : ℕ → A → Vector A → Outcome (Vector A)
  construct_in index a v =
      deref v.ptr >>= construct_at t index a >>= λ b. ok (record v { ptr = some b })

  -- The copy t_ is made before anything moves.
  unfoldable pub insert_no_invalidate : (ℕ → Bool) → ℕ → Argument A → Vector A → Outcome (Vector A)
  insert_no_invalidate grants index x v =
      if ltb v.len index
      then terminated
      else if index == v.len
      then push_back t grants x v
      else (fetch x v >>= λ a.
          if ltb v.len v.alloc_len
          then (shift_by grants index 1 true v >>= put t.move_assignable index a)
          else (shift_by grants index 1 false v >>= construct_in index a))

  -- The argument is read after the elements have moved.
  unfoldable pub insert_may_invalidate : (ℕ → Bool) → ℕ → Argument A → Vector A → Outcome (Vector A)
  insert_may_invalidate grants index x v =
      if ltb v.len index
      then terminated
      else if index == v.len
      then push_back t grants x v
      else if ltb v.len v.alloc_len
      then (shift_by grants index 1 true v >>= λ w.
          fetch x w >>= λ a. put t.copy_assignable index a w)
      else (shift_by grants index 1 false v >>= λ w. fetch x w >>= λ a. construct_in index a w)

  unfoldable pub emplace_may_invalidate : (ℕ → Bool) → ℕ → A → Vector A → Outcome (Vector A)
  emplace_may_invalidate grants index a v =
      if ltb v.len index
      then terminated
      else if index == v.len
      then emplace_back t grants a v
      else (shift_by grants index 1 false v >>= construct_in index a)

  -- The loops that close the gap.
  unfoldable pub close_assign : ℕ → ℕ → ℕ → Buffer A → Outcome (Buffer A)
  close_assign zero i count b = ok b
  close_assign (suc k) i count b = do
    (a, b') ← move_from (i + count) b
    b'' ← assign_at i a b'
    close_assign k (i + 1) count b''

  unfoldable pub close_replace : ℕ → ℕ → ℕ → Buffer A → Outcome (Buffer A)
  close_replace zero i count b = ok b
  close_replace (suc k) i count b = do
    b1 ← destroy_at t i b
    (a, b2) ← move_from (i + count) b1
    b3 ← construct_at t i a b2
    close_replace k (i + 1) count b3

  unfoldable pub erase : ℕ → ℕ → Vector A → Outcome (Vector A)
  erase index count v =
      if ltb v.len index || ltb (v.len - index) count
      then terminated
      else if count == 0
      then ok v
      else (do
        b ← deref v.ptr
        b' ←
            if t.trivially_move_assignable
            then copy_cells index (index + count) (v.len - (index + count)) b b
            else (if t.move_assignable
                then close_assign (v.len - count - index) index count b
                else close_replace (v.len - count - index) index count b)
              >>= destroy_down t count (v.len - count)
        ok (record v { len = v.len - count; ptr = some b' }))
