-- ===== src/Bits/Masks.antt =====
-- Masks of low digits.
use native.Mathlib.Nat.{pow-suc, one-le-pow}
use mini_libc.Base.{
  ℕ, zero, suc, ◌+◌, ◌-◌, ◌*◌, ◌/◌, ◌%◌, ◌^◌, ◌≤◌, ◌<◌, bit_and, bit_or, ◌≡◌, refl, ◌∙◌, arith,
}
use mini_libc.Bits.Step.{bit_and_step, bit_or_step}
use mini_libc.Bits.Words.{half-mod, mod-mod-two, bit_not}

pub bit_and_zero : (x : ℕ) → bit_and x 0 ≡ 0
bit_and_zero x = go x x (omega arith)
  where
    go : (n x : ℕ) → x ≤ n → bit_and x 0 ≡ 0
    go zero x h = let e : x ≡ 0 = omega arith in rw e refl
    go (suc n) x h = omega (arith, bit_and_step x 0, go n (x / 2) (omega arith))

pub bit_or_zero : (x : ℕ) → bit_or x 0 ≡ x
bit_or_zero x = go x x (omega arith)
  where
    go : (n x : ℕ) → x ≤ n → bit_or x 0 ≡ x
    go zero x h = let e : x ≡ 0 = omega arith in rw e refl
    go (suc n) x h = omega (arith, bit_or_step x 0, go n (x / 2) (omega arith))

-- `x & (2 ^ n - 1)` keeps the n lowest digits.
pub bit_and_mask : (n x : ℕ) → bit_and x (2 ^ n - 1) ≡ x % 2 ^ n
bit_and_mask zero x = bit_and_zero x ∙ omega arith
bit_and_mask (suc n) x =
    let p = one-le-pow n 2 (omega arith) in
    let e : (2 ^ suc n - 1) / 2 ≡ 2 ^ n - 1 = omega (arith, pow-suc 2 n, p) in
    let s : bit_and x (2 ^ suc n - 1) ≡ bit_and (x / 2) (2 ^ n - 1) * 2 + x % 2 =
      rw e at (bit_and_step x (2 ^ suc n - 1)) ∙ ground (arith, pow-suc 2 n, p) in
    rw (s, bit_and_mask n (x / 2))
      (let f : 2 ^ suc n ≡ 2 * 2 ^ n = omega (arith, pow-suc 2 n) in
        rw f (omega (arith, half-mod x (2 ^ n) p, mod-mod-two x (2 ^ n))))

-- `x & ~ 7` drops the three lowest digits.
pub bit_and_not_7 : (x : ℕ) → x < 2 ^ 64 → bit_and x (bit_not 64 7) ≡ x - x % 8
bit_and_not_7 x h =
    let m = bit_and_mask 61 (x / 2 / 2 / 2) in
    omega (
      arith,
      bit_and_step x (2 ^ 64 - 8),
      bit_and_step (x / 2) ((2 ^ 64 - 8) / 2),
      bit_and_step (x / 2 / 2) ((2 ^ 64 - 8) / 2 / 2),
      m,
    )

-- `x | s` where the digits do not meet.
pub bit_or_low : (x s : ℕ) → x % 8 ≡ 0 → s < 8 → bit_or x s ≡ x + s
bit_or_low x s h lt =
    let e : s / 2 / 2 / 2 ≡ 0 = omega arith in
    let z : bit_or (x / 2 / 2 / 2) (s / 2 / 2 / 2) ≡ x / 2 / 2 / 2 =
      rw e (bit_or_zero (x / 2 / 2 / 2)) in
    ground
      (arith, bit_or_step x s, bit_or_step (x / 2) (s / 2), bit_or_step (x / 2 / 2) (s / 2 / 2), z)

pub zero_bit_or : (x : ℕ) → bit_or 0 x ≡ x
zero_bit_or x = go x x (omega arith)
  where
    go : (n x : ℕ) → x ≤ n → bit_or 0 x ≡ x
    go zero x h = let e : x ≡ 0 = omega arith in rw e refl
    go (suc n) x h = omega (arith, bit_or_step 0 x, go n (x / 2) (omega arith))

pub bit_or_high : (s x : ℕ) → s < 8 → x % 8 ≡ 0 → bit_or s x ≡ s + x
bit_or_high s x lt h =
    let e : s / 2 / 2 / 2 ≡ 0 = omega arith in
    let z : bit_or (s / 2 / 2 / 2) (x / 2 / 2 / 2) ≡ x / 2 / 2 / 2 =
      rw e (zero_bit_or (x / 2 / 2 / 2)) in
    ground
      (arith, bit_or_step s x, bit_or_step (s / 2) (x / 2), bit_or_step (s / 2 / 2) (x / 2 / 2), z)

-- `x | 4` where that digit is 0.
pub bit_or_four : (x : ℕ) → x % 8 < 4 → bit_or x 4 ≡ x + 4
bit_or_four x h = ground (
  arith,
  bit_or_step x 4,
  bit_or_step (x / 2) 2,
  bit_or_step (x / 2 / 2) 1,
  bit_or_zero (x / 2 / 2 / 2),
)
