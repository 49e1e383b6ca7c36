-- ===== src/Vector/Examples.antt =====
-- Runs and tests: vectors of numbers, for a type whose objects have to be moved and destroyed one by
-- one, and for a trivial type.
use mini_libc.Base.{
  ℕ, ◌+◌, ◌*◌, ◌≡◌, ◌↔◌, refl, Bool, true, false, some, inl, inr, ltb, if◌then◌else◌, arith,
}
use mini_libc.Vector.{ok, fault, terminated, Traits, raw, live, Buffer, Vector, read_cell}
use mini_libc.Vector.Append.{
  outside, element, push_back, push_back_many, generate, pop_back_many, get,
}
use mini_libc.Vector.Insert.{insert_no_invalidate, shift_by, erase}
use mini_libc.Vector.Bulk.{generate_at_may_invalidate, insert_many_no_invalidate}
use mini_libc.Vector.Cells.{Returns}
use mini_libc.Vector.Sequence.{IsType, expanded, CanGrow, IsVector, joined}
use mini_libc.Vector.Appends.{generate-appends, push_back-appends, push_back_many-appends}
use mini_libc.Vector.Refused.{push_back-fault}
use mini_libc.Vector.Grow.{reserve}
use mini_libc.Vector.Ends.{pop_back_many-takes, get-eq}
use mini_libc.Vector.Opens.{HasGap}
use mini_libc.Vector.Opening.{shift_by-opens}
use mini_libc.Vector.Inserts.{inserted, insert_no_invalidate-inserts}
use mini_libc.Vector.Erasure.{erased, erase-removes}
use mini_libc.Vector.Many.{
  inserted_many, generate_at_may_invalidate-inserts, insert_many_no_invalidate-inserts,
}

-- 8 bytes, with a move constructor, assignments and a destructor that are not trivial.
abbrev owner : Traits
owner = record {
  size_of = 8;
  defensive = true;
  destructible = true;
  trivially_destructible = false;
  move_constructible = true;
  trivially_move_constructible = false;
  copy_assignable = true;
  move_assignable = true;
  trivially_move_assignable = false;
}

owner-IsType : IsType owner
owner-IsType = record {
  sized = omega arith;
  trivial_move = λ e. cc;
  trivial_assign = λ e. cc;
  trivial_destroy = λ e. cc;
}

abbrev numbers : ℕ → ℕ
numbers i = i + 5

-- The objects 5, 6, 7 in a block of four cells.
abbrev three_block : Buffer ℕ
three_block = record { size = 4; cell = λ j. if ltb j 3 then live (j + 5) else raw }

abbrev three : Vector ℕ
three = record { alloc_len = 4; len = 3; ptr = some three_block }

three-IsVector : IsVector owner 3 numbers three
three-IsVector = record {
  len = refl;
  fits = omega arith;
  bounded = omega arith;
  storage = inr (
    three_block,
    refl,
    record {
      size = refl;
      held = λ j lt. let q : ltb j 3 ≡ true = ground arith in rw q refl;
      rest = λ j le. let q : ltb j 3 ≡ false = ground arith in rw q refl;
    },
  );
}

-- The same objects in a block of three cells.
abbrev full_block : Buffer ℕ
full_block = record three_block { size = 3 }

abbrev full : Vector ℕ
full = record { alloc_len = 3; len = 3; ptr = some full_block }

full-IsVector : IsVector owner 3 numbers full
full-IsVector = record {
  len = refl;
  fits = omega arith;
  bounded = omega arith;
  storage = inr (
    full_block,
    refl,
    record {
      size = refl;
      held = λ j lt. let q : ltb j 3 ≡ true = ground arith in rw q refl;
      rest = λ j le. let q : ltb j 3 ≡ false = ground arith in rw q refl;
    },
  );
}

abbrev granted : ℕ → Bool
granted bytes = true

abbrev refused : ℕ → Bool
refused bytes = false

full-CanGrow : CanGrow owner granted 2 full
full-CanGrow = record {
  destructible = refl;
  bytes = omega arith;
  bounded = omega arith;
  granted = refl;
}

full-CanGrow_by_one : CanGrow owner granted 1 full
full-CanGrow_by_one = record {
  destructible = refl;
  bytes = omega arith;
  bounded = omega arith;
  granted = refl;
}

generate-appends_example :
    Returns (generate owner granted 2 (λ i. i) full) (IsVector owner 5 (joined 3 numbers (λ i. i)))
generate-appends_example =
    generate-appends owner owner-IsType 3 numbers full full-IsVector granted 2 (λ i. i)
      (inr full-CanGrow)

-- The argument is the first element of the vector, whose block is replaced.
push_back-appends_example :
    Returns
      (push_back owner granted (element 0) full)
      (IsVector owner 4 (joined 3 numbers (λ _. 5)))
unfolding read_cell
push_back-appends_example =
    push_back-appends owner owner-IsType 3 numbers full full-IsVector granted (element 0) 5 refl
      (inr full-CanGrow_by_one)

push_back_many-appends_example :
    Returns
      (push_back_many owner granted (element 1) 2 full)
      (IsVector owner 5 (joined 3 numbers (λ _. 6)))
unfolding read_cell
push_back_many-appends_example =
    push_back_many-appends owner owner-IsType 3 numbers full full-IsVector granted 2 (element 1) 6
      refl (inr full-CanGrow)

push_back-fault_example : (push_back owner refused (outside 1) full ≡ fault) ↔ (
    (full.alloc_len ≡ 3)
    × (refused (owner.size_of * expanded 1 full) ≡ false)
    × (reserve owner refused (expanded 1 full) full ≡ terminated))
push_back-fault_example =
    push_back-fault owner owner-IsType 3 numbers full full-IsVector refused (outside 1) 1 refl refl
      (omega arith) (omega arith)

pop_back_many-takes_example : Returns (pop_back_many owner 2 three) (IsVector owner 1 numbers)
pop_back_many-takes_example =
    pop_back_many-takes owner owner-IsType 3 numbers three three-IsVector 2

get-eq_example : get 1 three ≡ ok 6
get-eq_example = get-eq owner owner-IsType 3 numbers three three-IsVector 1

shift_by-opens_example :
    Returns (shift_by owner granted 1 2 false full) (HasGap owner 1 2 3 numbers false)
shift_by-opens_example =
    shift_by-opens owner owner-IsType refl 1 2 3 numbers full full-IsVector (omega arith)
      (omega arith) granted (inr full-CanGrow)

insert_no_invalidate-inserts_example :
    Returns
      (insert_no_invalidate owner refused 1 (element 2) three)
      (IsVector owner 4 (inserted 1 7 numbers))
unfolding read_cell
insert_no_invalidate-inserts_example =
    insert_no_invalidate-inserts owner owner-IsType refl refused 1 3 numbers three three-IsVector
      (inl (omega arith)) (element 2) 7 refl

erase-removes_example : Returns (erase owner 0 2 three) (IsVector owner 1 (erased 0 2 numbers))
erase-removes_example = erase-removes owner owner-IsType 0 2 3 numbers three three-IsVector

generate_at_may_invalidate-inserts_example :
    Returns
      (generate_at_may_invalidate owner granted 1 2 (λ i. i) full)
      (IsVector owner 5 (inserted_many 1 2 (λ i. i) numbers))
generate_at_may_invalidate-inserts_example =
    generate_at_may_invalidate-inserts owner owner-IsType refl 1 2 3 (λ i. i) numbers (omega arith)
      (omega arith) granted full full-IsVector (inr full-CanGrow)

insert_many_no_invalidate-inserts_example :
    Returns
      (insert_many_no_invalidate owner granted 1 2 (outside 9) full)
      (IsVector owner 5 (inserted_many 1 2 (λ _. 9) numbers))
insert_many_no_invalidate-inserts_example =
    insert_many_no_invalidate-inserts owner owner-IsType refl 1 2 3 numbers (omega arith)
      (omega arith) granted full (outside 9) 9 full-IsVector (inr full-CanGrow) refl
