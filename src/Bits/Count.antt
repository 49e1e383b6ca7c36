-- ===== src/Bits/Count.antt =====
-- Sums of a function over 0 .. n - 1, the number of ones of a bitmap, and `__builtin_ctz`.
use mini_libc.Base.{
  ℕ, zero, suc, ◌+◌, ◌/◌, ◌%◌, ◌≤◌, ◌<◌, ◌≡◌, ◌≢◌, ◌⊎◌, inl, inr, refl, arith, ◌==◌, if◌then◌else◌,
  sym, Bool-cases, false,
}
use native.Mathlib.Decide.{ℕ_discrete}
use mini_libc.Bits.{bit}

unfoldable pub total : ℕ → (ℕ → ℕ) → ℕ
total zero f = 0
total (suc n) f = f n + total n f

pub total-same : (n : ℕ) (f g : ℕ → ℕ) → ((i : ℕ) → i < n → g i ≡ f i) → total n g ≡ total n f
unfolding total
total-same zero f g h = refl
total-same (suc n) f g h =
    omega (arith, h n (omega arith), total-same n f g (λ i lt. h i (omega arith)))

-- One summand that grows by one makes the sum grow by one.
pub total-bump :
    (n i : ℕ) (f g : ℕ → ℕ)
    → i < n
    → g i ≡ f i + 1
    → ((j : ℕ) → j < n → j ≢ i → g j ≡ f j)
    → total n g ≡ total n f + 1
unfolding total
total-bump zero i f g lt e same = absurd (omega arith)
total-bump (suc n) i f g lt e same = elim (ℕ_discrete i n) [
  | yes p ↦
      let others = total-same n f g (λ j l. same j (omega arith) (omega arith)) in
      let last : g n ≡ f n + 1 = rw p at e in omega arith
  | no p ↦
      let rest = total-bump n i f g (omega arith) e (λ j l. same j (omega arith)) in
      omega (arith, same n (omega arith) (λ q. p (sym q)))
]

pub total-zero : (n : ℕ) (f : ℕ → ℕ) → ((i : ℕ) → i < n → f i ≡ 0) → total n f ≡ 0
unfolding total
total-zero zero f h = refl
total-zero (suc n) f h =
    omega (arith, h n (omega arith), total-zero n f (λ i lt. h i (omega arith)))

pub total-full : (n : ℕ) (f : ℕ → ℕ) → ((i : ℕ) → i < n → f i ≡ 1) → total n f ≡ n
unfolding total
total-full zero f h = refl
total-full (suc n) f h =
    omega (arith, h n (omega arith), total-full n f (λ i lt. h i (omega arith)))

pub total-le : (n i : ℕ) (f : ℕ → ℕ) → i < n → f i ≤ total n f
unfolding total
total-le zero i f lt = absurd (omega arith)
total-le (suc n) i f lt = elim (ℕ_discrete i n) [
  | yes p ↦ rw p (omega arith)
  | no p ↦ omega (arith, total-le n i f (omega arith))
]

pub total-le_length : (n : ℕ) (f : ℕ → ℕ) → ((i : ℕ) → f i ≤ 1) → total n f ≤ n
unfolding total
total-le_length zero f h = omega arith
total-le_length (suc n) f h = omega (arith, h n, total-le_length n f h)

-- A sum that is as large as it can be has no 0.
pub total-all : (n j : ℕ) (f : ℕ → ℕ) → ((i : ℕ) → f i ≤ 1) → total n f ≡ n → j < n → f j ≡ 1
unfolding total
total-all zero j f h e lt = absurd (omega arith)
total-all (suc n) j f h e lt =
    let rest = total-le_length n f h in
    elim (ℕ_discrete j n) [
      | yes q ↦ rw q (omega (arith, h n, e, rest))
      | no ne ↦ total-all n j f h (omega (arith, h n, e, rest)) (omega arith)
    ]

-- Count trailing zeros, on w bits; the C function is not defined at 0.
unfoldable pub ctz : ℕ → ℕ → ℕ
ctz zero x = 0
ctz (suc w) x = if x % 2 == 1 then 0 else suc (ctz w (x / 2))

-- Either the lowest one is at `ctz w x`, or there is none.
abbrev pub CtzCases : ℕ → ℕ → Type 0
CtzCases w x =
    ((bit x (ctz w x) ≡ 1) × (ctz w x < w) × ((i : ℕ) → i < ctz w x → bit x i ≡ 0))
    ⊎ ((i : ℕ) → i < w → bit x i ≡ 0)

pub ctz_lem : (w x : ℕ) → CtzCases w x
unfolding ctz bit
ctz_lem zero x = inr (λ i h. absurd (omega arith))
ctz_lem (suc w) x = elim (Bool-cases (x % 2 == 1)) [
  | inl odd ↦ rw odd (inl (ground arith, omega arith, λ i h. absurd (omega arith)))
  | inr even ↦ rw even (skip even (ctz_lem w (x / 2)))
]
  where
    skip :
        (x % 2 == 1) ≡ false
        → ((bit (x / 2) (ctz w (x / 2)) ≡ 1)
            × (ctz w (x / 2) < w)
            × ((i : ℕ) → i < ctz w (x / 2) → bit (x / 2) i ≡ 0))
          ⊎ ((i : ℕ) → i < w → bit (x / 2) i ≡ 0)
        → ((bit (x / 2) (ctz w (x / 2)) ≡ 1)
            × (suc (ctz w (x / 2)) < suc w)
            × ((i : ℕ) → i < suc (ctz w (x / 2)) → bit x i ≡ 0))
          ⊎ ((i : ℕ) → i < suc w → bit x i ≡ 0)
    skip even (inl (one, lt, low)) = inl (one, omega arith, below)
      where
        below : (i : ℕ) → i < suc (ctz w (x / 2)) → bit x i ≡ 0
        below zero h = ground arith
        below (suc i) h = low i (omega arith)
    skip even (inr none) = inr below
      where
        below : (i : ℕ) → i < suc w → bit x i ≡ 0
        below zero h = ground arith
        below (suc i) h = none i (omega arith)
