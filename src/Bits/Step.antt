-- ===== src/Bits/Step.antt =====
-- One equation for the lowest digit of each native bit operation; the operations themselves are
-- defined by a recursion on digits with fuel, which these lemmas hide.
use Prim.Native.Nat.{differ, digits, bitwise, bit_and-bitwise, bit_or-bitwise, bit_xor-bitwise}
use mini_libc.Base.{
  ℕ, zero, suc, ◌+◌, ◌*◌, ◌/◌, ◌%◌, ◌≤◌, min, max, bit_and, bit_or, bit_xor, ◌≡◌, refl, ◌∙◌, arith,
}

module _ (unit : ℕ → ℕ) (op : ℕ → ℕ → ℕ) where
  -- Fuel beyond the number itself makes no difference.
  settle :
      (bound fuel x y : ℕ)
      → x ≤ fuel
      → fuel ≤ bound
      → digits unit op fuel x y ≡ digits unit op x x y
  settle bound zero zero y le small = refl
  settle bound (suc fuel) zero y le small = refl
  settle zero (suc fuel) (suc x) y le small = absurd (omega arith)
  settle bound zero (suc x) y le small = absurd (omega arith)
  settle (suc bound) (suc fuel) (suc x) y le small =
      let long = settle bound fuel (suc x / 2) (y / 2) (omega arith) (omega arith) in
      let short = settle bound x (suc x / 2) (y / 2) (omega arith) (omega arith) in
      omega (arith, long, short)

  lowest :
      (x y : ℕ)
      → bitwise unit op (suc x) y ≡ 2 * bitwise unit op (suc x / 2) (y / 2) + op (suc x % 2) (y % 2)
  lowest x y =
      let enough = settle x x (suc x / 2) (y / 2) (omega arith) (omega arith) in
      omega (arith, enough)

differ-digits : (d e : ℕ) → d ≤ 1 → e ≤ 1 → differ d e ≡ (d + e) % 2
differ-digits zero e p q = omega arith
differ-digits (suc zero) zero p q = refl
differ-digits (suc zero) (suc zero) p q = refl
differ-digits (suc zero) (suc (suc e)) p q = absurd (omega arith)
differ-digits (suc (suc d)) e p q = absurd (omega arith)

pub bit_xor_step : (a b : ℕ) → bit_xor a b ≡ 2 * bit_xor (a / 2) (b / 2) + (a + b) % 2
bit_xor_step zero b = simp bit_xor-bitwise (omega arith)
bit_xor_step (suc a) b =
    let sum = differ-digits (suc a % 2) (b % 2) (omega arith) (omega arith) in
    simp bit_xor-bitwise (lowest (λ y. y) differ a b ∙ omega (arith, sum))

pub bit_and_step : (x y : ℕ) → bit_and x y ≡ min (x % 2) (y % 2) + 2 * bit_and (x / 2) (y / 2)
bit_and_step zero y = simp bit_and-bitwise (omega arith)
bit_and_step (suc x) y =
    let low = lowest (λ n. 0) min x y in simp bit_and-bitwise (omega (arith, low))

pub bit_or_step : (x y : ℕ) → bit_or x y ≡ max (x % 2) (y % 2) + 2 * bit_or (x / 2) (y / 2)
bit_or_step zero y = simp bit_or-bitwise (omega arith)
bit_or_step (suc x) y =
    let low = lowest (λ n. n) max x y in simp bit_or-bitwise (omega (arith, low))
