-- ===== src/Bits/Words.antt =====
-- Words of 64 and 32 bits, with the wrap-around of C written out, and the masks that the sources
-- use: `1ull << i`, `x | (1ull << i)`, `x & ~(1ull << i)`, `x & (1ull << i)`, `x & 7`, `i ^ 1`.
use native.Mathlib.Nat.{pow-suc, one-le-pow, mod-eq_of_lt, mod-lt, mod-one}
use native.Mathlib.Nat.{pow-le-pow_right, div-add-mod, mul-add-mod_self_left}
use mini_libc.Base.{
  ℕ, zero, suc, ◌+◌, ◌-◌, ◌*◌, ◌/◌, ◌%◌, ◌^◌, ◌≤◌, ◌<◌, bit_and, bit_or, bit_xor, ◌≡◌, refl, sym,
  ap, ◌∙◌, arith, ◌==◌, ltb, if◌then◌else◌, Bool, not,
}
use mini_libc.Bits.{bit, bit_le_one, bit-bit_or, bit-bit_and, bit-zero}
use mini_libc.Bits.Step.{bit_and_step, bit_xor_step}

abbrev pub u64 : ℕ → ℕ
u64 x = x % 2 ^ 64

abbrev pub u32 : ℕ → ℕ
u32 x = x % 2 ^ 32

abbrev pub u8 : ℕ → ℕ
u8 x = x % 2 ^ 8

-- `~ x` on w bits.
abbrev pub bit_not : ℕ → ℕ → ℕ
bit_not w x = 2 ^ w - 1 - x

-- `1ull << i`, for i below 64.
unfoldable pub one_shl : ℕ → ℕ
one_shl i = u64 (2 ^ i)

-- `x |= 1ull << i`.
pub set_bit : ℕ → ℕ → ℕ
set_bit x i = bit_or x (one_shl i)

-- `x &= ~(1ull << i)`.
unfoldable pub clear_bit : ℕ → ℕ → ℕ
clear_bit x i = bit_and x (bit_not 64 (one_shl i))

-- `(x & (1ull << i)) != 0`.
pub has_bit : ℕ → ℕ → Bool
has_bit x i = not (bit_and x (one_shl i) == 0)

pub bit-pow : (k i : ℕ) → bit (2 ^ k) i ≡ (if i == k then 1 else 0)
unfolding bit
bit-pow zero zero = refl
bit-pow zero (suc i) = ground (arith, bit-zero i)
bit-pow (suc k) zero = ground (arith, pow-suc 2 k)
bit-pow (suc k) (suc i) =
    let e : 2 ^ suc k / 2 ≡ 2 ^ k = omega (arith, pow-suc 2 k) in rw e (ground (arith, bit-pow k i))

pub mod-mod-two : (x m : ℕ) → x % (2 * m) % 2 ≡ x % 2
mod-mod-two x m = omega (arith, div-add-mod x (2 * m))

pub half-mod : (x m : ℕ) → 0 < m → x % (2 * m) / 2 ≡ x / 2 % m
half-mod x m h =
    let q = x / (2 * m) in
    let r = x % (2 * m) in
    let e : x / 2 ≡ m * q + r / 2 = omega (arith, div-add-mod x (2 * m)) in
    let small : r / 2 < m = omega (arith, mod-lt x {m = 2 * m} (omega arith)) in
    rw e (sym (mul-add-mod_self_left m q (r / 2) ∙ mod-eq_of_lt small))

-- Storing into a field of w bits keeps the w lowest digits.
pub bit-mod_pow : (w x i : ℕ) → bit (x % 2 ^ w) i ≡ (if ltb i w then bit x i else 0)
unfolding bit
bit-mod_pow zero x i = ground (arith, bit-zero i, mod-one x)
bit-mod_pow (suc w) x zero =
    let e : 2 ^ suc w ≡ 2 * 2 ^ w = omega (arith, pow-suc 2 w) in
    rw e (ground (arith, mod-mod-two x (2 ^ w)))
bit-mod_pow (suc w) x (suc i) =
    let e : 2 ^ suc w ≡ 2 * 2 ^ w = omega (arith, pow-suc 2 w) in
    rw (e, half-mod x (2 ^ w) (one-le-pow w 2 (omega arith)))
      (ground (arith, bit-mod_pow w (x / 2) i))

pub bit-bit_not :
    (w x i : ℕ) → x < 2 ^ w → bit (bit_not w x) i ≡ (if ltb i w then 1 - bit x i else 0)
unfolding bit
bit-bit_not zero x i h = ground (arith, bit-zero i)
bit-bit_not (suc w) x zero h = ground (arith, pow-suc 2 w)
bit-bit_not (suc w) x (suc i) h =
    let e : bit_not (suc w) x / 2 ≡ bit_not w (x / 2) = omega (arith, pow-suc 2 w) in
    rw e (ground (arith, pow-suc 2 w, bit-bit_not w (x / 2) i))

pow_below : (i : ℕ) → i < 64 → 2 ^ i < 2 ^ 64
pow_below i h =
    let le : 2 ^ i ≤ 2 ^ 63 = pow-le-pow_right (omega arith) {j = 63} (omega arith) in omega arith

one_shl-eq : (i : ℕ) → i < 64 → one_shl i ≡ 2 ^ i
unfolding one_shl
one_shl-eq i h = mod-eq_of_lt (pow_below i h)

pub bit-set_bit : (x i j : ℕ) → i < 64 → bit (set_bit x i) j ≡ (if j == i then 1 else bit x j)
unfolding set_bit
bit-set_bit x i j h =
    ground (arith, bit-bit_or j x (one_shl i), one_shl-eq i h, bit-pow i j, bit_le_one j x)

pub bit-clear_bit :
    (x i j : ℕ) → i < 64 → j < 64 → bit (clear_bit x i) j ≡ (if j == i then 0 else bit x j)
unfolding clear_bit
bit-clear_bit x i j h k = ground (
  arith,
  bit-bit_and j x (bit_not 64 (one_shl i)),
  one_shl-eq i h,
  pow_below i h,
  bit-bit_not 64 (one_shl i) j,
  bit-pow i j,
  bit_le_one j x,
)

and_zero : (n a : ℕ) → a ≤ n → bit_and a 0 ≡ 0
and_zero n zero h = refl
and_zero zero (suc a) h = absurd (omega arith)
and_zero (suc n) (suc a) h =
    omega (arith, bit_and_step (suc a) 0, and_zero n (suc a / 2) (omega arith))

xor_zero : (n a : ℕ) → a ≤ n → bit_xor a 0 ≡ a
xor_zero n zero h = refl
xor_zero zero (suc a) h = absurd (omega arith)
xor_zero (suc n) (suc a) h =
    ground (arith, bit_xor_step (suc a) 0, xor_zero n (suc a / 2) (omega arith))

bit_and-pow : (i x : ℕ) → bit_and x (2 ^ i) ≡ bit x i * 2 ^ i
unfolding bit
bit_and-pow zero x = omega (arith, bit_and_step x 1, and_zero (x / 2) (x / 2) (omega arith))
bit_and-pow (suc i) x =
    let e : 2 ^ suc i / 2 ≡ 2 ^ i = omega (arith, pow-suc 2 i) in
    let f : bit_and (x / 2) (2 ^ suc i / 2) ≡ bit (x / 2) i * 2 ^ i =
      rw e (bit_and-pow i (x / 2)) in
    omega (
      arith,
      pow-suc 2 i,
      bit_and_step x (2 ^ suc i),
      ap (λ (t : ℕ). bit (x / 2) i * t) (pow-suc 2 i),
    )

-- The test of a bit is a test of the digit.
pub has_bit-eq : (x i : ℕ) → i < 64 → has_bit x i ≡ (bit x i == 1)
unfolding has_bit
has_bit-eq x i h =
    ground (arith, one_shl-eq i h, bit_and-pow i x, bit_le_one i x, one-le-pow i 2 (omega arith))

-- `i ^ 1`: the other of the two halves of a block.
pub buddy_index : (i : ℕ) → bit_xor i 1 ≡ (if i % 2 == 0 then i + 1 else i - 1)
buddy_index i = ground (arith, bit_xor_step i 1, xor_zero (i / 2) (i / 2) (omega arith))

-- A word is 0 exactly if all its digits are.
pub word-zero : (w x : ℕ) → ((i : ℕ) → i < w → bit x i ≡ 0) → x % 2 ^ w ≡ 0
unfolding bit
word-zero zero x h = mod-one x
word-zero (suc w) x h =
    let e : 2 ^ suc w ≡ 2 * 2 ^ w = omega (arith, pow-suc 2 w) in
    let top = half-mod x (2 ^ w) (one-le-pow w 2 (omega arith)) in
    let rest = word-zero w (x / 2) (λ i lt. h (suc i) (omega arith)) in
    rw e (omega (arith, top, rest, mod-mod-two x (2 ^ w), h 0 (omega arith)))

pub bit_of_zero : (w x i : ℕ) → x % 2 ^ w ≡ 0 → i < w → bit x i ≡ 0
bit_of_zero w x i e lt =
    let same : bit (x % 2 ^ w) i ≡ 0 = rw e (bit-zero i) in ground (arith, bit-mod_pow w x i)
