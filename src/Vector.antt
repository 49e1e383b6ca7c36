-- ===== src/Vector.antt =====
-- mini_libcxx/include/vector.hpp: `vector < T >`, as compiled for run time. A block of storage has
-- cells that hold no object, an object, or an object that was moved from. Where the C++ code has
-- undefined behaviour or loses an object, the model has `fault`.
pub mod Grow
pub mod Append
pub mod Insert
pub mod Cells
pub mod Moves
pub mod Shifts
pub mod Gap
pub mod Sequence
pub mod Appends
pub mod Refused
pub mod Ends
pub mod Opens
pub mod Opening
pub mod Inserts
pub mod Closing
pub mod Erasure
pub mod Bulk
pub mod Overwrite
pub mod Many
pub mod Examples
use mini_libc.Base.{
  ℕ, zero, suc, ◌+◌, ◌-◌, ◌*◌, ◌/◌, ◌^◌, Bool, true, false, not, ◌&&◌, ◌||◌, Option, none, some,
  ltb, leb, if◌then◌else◌, update,
}
use mini_libc.Bits.Words.{u64}

-- `terminated` is `std::terminate ()`.
pub data Outcome {ℓ} (A : Type ℓ) : Type ℓ where
  ok : A → Outcome A
  terminated : Outcome A
  fault : Outcome A

infixl 5 ◌>>=◌
abbrev pub ◌>>=◌ {ℓ κ} : {A : Type ℓ} {B : Type κ} → Outcome A → (A → Outcome B) → Outcome B
ok a >>= f = f a
terminated >>= f = terminated
fault >>= f = fault

-- What `if constexpr` asks of T, with sizeof (T) and CONFIG_DEFENSIVE.
pub record Traits : Type 0 where
  pub size_of : ℕ
  pub defensive : Bool
  pub destructible : Bool
  pub trivially_destructible : Bool
  pub move_constructible : Bool
  pub trivially_move_constructible : Bool
  pub copy_assignable : Bool
  pub move_assignable : Bool
  pub trivially_move_assignable : Bool

pub data Cell (A : Type 0) : Type 0 where
  raw : Cell A
  moved : Cell A
  live : A → Cell A

abbrev pub is_raw : {A : Type 0} → Cell A → Bool
is_raw raw = true
is_raw moved = false
is_raw (live a) = false

pub record Buffer (A : Type 0) : Type 0 where
  pub size : ℕ
  pub cell : ℕ → Cell A

pub record Vector (A : Type 0) : Type 0 where
  pub alloc_len : ℕ
  pub len : ℕ
  pub ptr : Option (Buffer A)

module _ {A : Type 0} where
  -- `vector ()`.
  abbrev pub empty : Vector A
  empty = record { alloc_len = 0; len = 0; ptr = none }

  abbrev pub write : ℕ → Cell A → Buffer A → Buffer A
  write i c b = record b { cell = update b.cell i c }

  abbrev pub deref : Option (Buffer A) → Outcome (Buffer A)
  deref none = fault
  deref (some b) = ok b

  abbrev pub value : Cell A → Outcome A
  value raw = fault
  value moved = fault
  value (live a) = ok a

  -- `b[i]` as a source of a copy.
  unfoldable pub read_cell : ℕ → Buffer A → Outcome A
  read_cell i b = if ltb i b.size then value (b.cell i) else fault

  -- `minilib::move (b[i])` as a source.
  unfoldable pub move_from : ℕ → Buffer A → Outcome (A × Buffer A)
  move_from i b = read_cell i b >>= λ a. ok (a, write i moved b)

  -- `b[i] = a`.
  unfoldable pub assign_at : ℕ → A → Buffer A → Outcome (Buffer A)
  assign_at i a b =
      if ltb i b.size && not (is_raw (b.cell i)) then ok (write i (live a) b) else fault

  -- `__builtin_memmove (b + dst, b + src, sizeof (T) * count)`, also between two blocks.
  unfoldable pub copy_cells : ℕ → ℕ → ℕ → Buffer A → Buffer A → Outcome (Buffer A)
  copy_cells dst src count from b =
      if leb (dst + count) b.size && leb (src + count) from.size
      then ok (record b {
        cell =
            λ j. if leb dst j && ltb j (dst + count) then from.cell (j - dst + src) else b.cell j;
      })
      else fault

  module _ (t : Traits) where
    -- `construct_at`. An object that has to be destroyed is not overwritten.
    unfoldable pub construct_at : ℕ → A → Buffer A → Outcome (Buffer A)
    construct_at i a b =
        if ltb i b.size && (t.trivially_destructible || is_raw (b.cell i))
        then ok (write i (live a) b)
        else fault

    unfoldable pub destroy_at : ℕ → Buffer A → Outcome (Buffer A)
    destroy_at i b =
        if t.trivially_destructible
        then ok b
        else if ltb i b.size && not (is_raw (b.cell i))
        then ok (write i raw b)
        else fault

    -- `for (size_t j = 0; j < k; j++) construct_at (b + i + j, g (j))`.
    unfoldable pub construct_many : ℕ → ℕ → (ℕ → A) → Buffer A → Outcome (Buffer A)
    construct_many zero i g b = ok b
    construct_many (suc k) i g b =
        construct_at i (g 0) b >>= construct_many k (i + 1) (λ j. g (suc j))

    -- `for (size_t j = low + k; j > low; j--) destroy_at (b + (j - 1))`.
    unfoldable pub destroy_down : ℕ → ℕ → Buffer A → Outcome (Buffer A)
    destroy_down zero low b = ok b
    destroy_down (suc k) low b = destroy_at (low + k) b >>= destroy_down k low

    -- `allocate (n)`: the storage is the part of another component; `grants` says which requests,
    -- in bytes, it meets.
    unfoldable pub allocate : (ℕ → Bool) → ℕ → Option (Buffer A)
    allocate grants n =
        let bytes = u64 (t.size_of * n) in
        if grants bytes then some (record { size = bytes / t.size_of; cell = λ _. raw }) else none
