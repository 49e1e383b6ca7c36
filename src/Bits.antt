-- ===== src/Bits.antt =====
-- The binary digits of a machine word: what `|`, `&`, `^` and `~` do to each of them, the number of
-- ones, and the index of the lowest one (`__builtin_ctz`).
pub mod Step
pub mod Words
pub mod Count
pub mod Masks
use native.Mathlib.Nat.{pow-suc, one-le-pow}
use Step.{bit_or_step, bit_and_step, bit_xor_step}
use mini_libc.Base.{
  ℕ, zero, suc, ◌+◌, ◌-◌, ◌*◌, ◌/◌, ◌%◌, ◌^◌, ◌≤◌, ◌<◌, min, max, bit_and, bit_or, bit_xor, ◌≡◌,
  refl, ap, arith, ◌==◌, ltb, if◌then◌else◌,
}

-- The digit of weight 2 ^ i.
unfoldable pub bit : ℕ → ℕ → ℕ
bit x zero = x % 2
bit x (suc i) = bit (x / 2) i

pub bit_le_one : (i x : ℕ) → bit x i ≤ 1
unfolding bit
bit_le_one zero x = omega arith
bit_le_one (suc i) x = bit_le_one i (x / 2)

pub bit-bit_or : (i a b : ℕ) → bit (bit_or a b) i ≡ max (bit a i) (bit b i)
unfolding bit
bit-bit_or zero a b = omega (arith, bit_or_step a b)
bit-bit_or (suc i) a b =
    let e : bit_or a b / 2 ≡ bit_or (a / 2) (b / 2) = omega (arith, bit_or_step a b) in
    rw e (bit-bit_or i (a / 2) (b / 2))

pub bit-bit_and : (i a b : ℕ) → bit (bit_and a b) i ≡ min (bit a i) (bit b i)
unfolding bit
bit-bit_and zero a b = omega (arith, bit_and_step a b)
bit-bit_and (suc i) a b =
    let e : bit_and a b / 2 ≡ bit_and (a / 2) (b / 2) = omega (arith, bit_and_step a b) in
    rw e (bit-bit_and i (a / 2) (b / 2))

pub bit-zero : (i : ℕ) → bit 0 i ≡ 0
unfolding bit
bit-zero zero = refl
bit-zero (suc i) = bit-zero i
