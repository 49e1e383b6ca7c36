-- ===== src/Malloc/Classes.antt =====
-- `get_class` of src/memory/malloc.c finds the least size class that holds a size.
use native.Mathlib.Nat.{pow-suc, one-le-pow, pow-le-pow_right}
use native.Mathlib.Decide.{dec_le}
use mini_libc.Base.{ℕ, zero, suc, ◌+◌, ◌-◌, ◌*◌, ◌/◌, ◌^◌, ◌≤◌, ◌<◌, ◌≡◌, refl, ap, arith}
use mini_libc.Bits.Words.{u64}
use mini_libc.Bits.Masks.{bit_and_mask}
use mini_libc.Malloc.{digits, get_class}

-- The sizes that the allocators hand out: multiples of 32 up to 512, powers of two up to 262144,
-- and above that any number of pages.
pub data IsClass (c : ℕ) : Type 0 where
  fine : (m : ℕ) → 1 ≤ m → m ≤ 16 → c ≡ 32 * m → IsClass c
  power : (k : ℕ) → 10 ≤ k → k ≤ 18 → c ≡ 2 ^ k → IsClass c
  pages : (m : ℕ) → 64 < m → c ≡ 4096 * m → IsClass c

digits_zero : (w : ℕ) → digits w 0 ≡ 0
unfolding digits
digits_zero zero = refl
digits_zero (suc w) = refl

digits-eq : (w k x : ℕ) → 2 ^ k ≤ x → x < 2 ^ suc k → k < w → digits w x ≡ suc k
unfolding digits
digits-eq zero k x lo hi lt = absurd (omega arith)
digits-eq (suc w) zero x lo hi lt =
    let e : x ≡ 1 = omega (arith, pow-suc 2 0) in rw e (ap suc (digits_zero w))
digits-eq (suc w) (suc k) x lo hi lt =
    let rest =
      digits-eq w k (x / 2) (omega (arith, pow-suc 2 k)) (omega (arith, pow-suc 2 (suc k)))
        (omega arith) in
    ground (arith, rest, one-le-pow (suc k) 2 (omega arith))

between :
    (n size : ℕ)
    → 512 < size
    → size ≤ 2 ^ (9 + n)
    → (k : ℕ) × (9 ≤ k) × (k < 9 + n) × (2 ^ k < size) × (size ≤ 2 ^ suc k)
between zero size lo hi = absurd (omega arith)
between (suc n) size lo hi = elim (dec_le size (2 ^ (9 + n))) [
  | yes le ↦ let (k, a, b, c, d) = between n size lo le in (k, a, omega (arith, b), c, d)
  | no gt ↦
      let e : suc (9 + n) ≡ 9 + suc n = omega arith in
      (9 + n, omega arith, omega arith, omega arith, rw e hi)
]

pub class-fine : (size : ℕ) → 1 ≤ size → size ≤ 512 → get_class size ≡ 32 * ((size + 31) / 32)
unfolding get_class
class-fine size lo hi = ground (arith, bit_and_mask 5 (u64 (2 ^ 64 - size)))

pub class-pages :
    (size : ℕ) → 262144 < size → size ≤ 2 ^ 48 → get_class size ≡ 4096 * ((size + 4095) / 4096)
unfolding get_class
class-pages size lo hi = ground (arith, bit_and_mask 12 (u64 (2 ^ 64 - size)))

pub class-power :
    (k size : ℕ) → 9 ≤ k → k < 18 → 2 ^ k < size → size ≤ 2 ^ suc k → get_class size ≡ 2 ^ suc k
unfolding get_class
class-power k size lo hi gt le =
    let low = pow-le-pow_right {n = 2} (omega arith) {i = 9} {j = k} lo in
    let high = pow-le-pow_right {n = 2} (omega arith) {i = suc k} {j = 18} (omega arith) in
    let d = digits-eq 64 k (size - 1) (omega arith) (omega arith) (omega arith) in
    let e : 64 - (64 - digits 64 (size - 1)) ≡ suc k = omega (arith, d) in
    ground (arith, low, high, e)

-- For sizes from 1 to 2 ^ 48, the class is one of the sizes of the allocators, and not below the size.
pub get_class-IsClass :
    (size : ℕ) → 1 ≤ size → size ≤ 2 ^ 48 → IsClass (get_class size) × (size ≤ get_class size)
get_class-IsClass size lo hi = elim (dec_le size 512) [
  | yes s ↦
      rw (class-fine size lo s)
        (fine ((size + 31) / 32) (omega arith) (omega arith) refl, omega arith)
  | no l ↦ elim (dec_le size 262144) [
    | yes s ↦
        let (k, a, b, c, d) = between 9 size (omega arith) s in
        rw (class-power k size a b c d) (power (suc k) (omega arith) (omega arith) refl, d)
    | no g ↦
        rw (class-pages size (omega arith) hi)
          (pages ((size + 4095) / 4096) (omega arith) refl, omega arith)
  ]
]

power-least : (k c size : ℕ) → 9 ≤ k → k < 18 → 2 ^ k < size → size ≤ c → IsClass c → 2 ^ suc k ≤ c
power-least k c size lo hi gt le (fine m a b e) =
    absurd (omega (arith, e, pow-le-pow_right {n = 2} (omega arith) {i = 9} {j = k} lo))
power-least k c size lo hi gt le (pages m a e) =
    omega (arith, e, pow-le-pow_right {n = 2} (omega arith) {i = suc k} {j = 18} (omega arith))
power-least k c size lo hi gt le (power j a b e) = elim (dec_le j k) [
  | yes below ↦
      absurd (omega (arith, e, pow-le-pow_right {n = 2} (omega arith) {i = j} {j = k} below))
  | no above ↦
      omega (arith, e, pow-le-pow_right {n = 2} (omega arith) {i = suc k} {j = j} (omega arith))
]

fine-least : (size c : ℕ) → size ≤ 512 → IsClass c → size ≤ c → 32 * ((size + 31) / 32) ≤ c
fine-least size c s (fine m a b e) le = omega arith
fine-least size c s (power k a b e) le =
    omega (arith, e, pow-le-pow_right {n = 2} (omega arith) {i = 10} {j = k} a)
fine-least size c s (pages m a e) le = omega arith

pages-least :
    (size c : ℕ) → 262144 < size → IsClass c → size ≤ c → 4096 * ((size + 4095) / 4096) ≤ c
pages-least size c s (fine m a b e) le = absurd (omega arith)
pages-least size c s (power k a b e) le =
    absurd (omega (arith, e, pow-le-pow_right {n = 2} (omega arith) {i = k} {j = 18} b))
pages-least size c s (pages m a e) le = omega arith

-- For sizes from 1 to 2 ^ 48, no class that is not below the size is below `get_class` of it.
pub get_class-least :
    (size c : ℕ) → 1 ≤ size → size ≤ 2 ^ 48 → IsClass c → size ≤ c → get_class size ≤ c
get_class-least size c lo hi h le = elim (dec_le size 512) [
  | yes s ↦ rw (class-fine size lo s) (fine-least size c s h le)
  | no l ↦ elim (dec_le size 262144) [
    | yes s ↦
        let (k, a, b, g, d) = between 9 size (omega arith) s in
        rw (class-power k size a b g d) (power-least k c size a b g le h)
    | no g ↦ rw (class-pages size (omega arith) hi) (pages-least size c (omega arith) h le)
  ]
]
