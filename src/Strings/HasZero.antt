-- ===== src/Strings/HasZero.antt =====
-- HASZERO is not 0 exactly if one of the 8 bytes is 0.
use Prim.Native.Nat.{bit_and-bitwise}
use native.Mathlib.Nat.{pow-suc, mod-eq_of_lt, mul-add-mod_self_left, div-add-mod, mul_assoc}
use native.Mathlib.Decide.{ℕ_discrete, dec_le, dec_lt}
use mini_libc.Base.{
  ℕ, zero, suc, ◌+◌, ◌-◌, ◌*◌, ◌/◌, ◌%◌, ◌^◌, ◌≤◌, ◌<◌, ◌≡◌, ◌≢◌, refl, sym, ap, ◌∙◌, bit_and,
  arith,
}
use mini_libc.Bits.Step.{bit_and_step}
use mini_libc.Bits.Masks.{bit_and_zero}
use mini_libc.Strings.{has_zero, Bytes, read, read_u64}

double : (n x : ℕ) → 2 ^ suc n * x ≡ 2 * (2 ^ n * x)
double n x = let e = pow-suc 2 n in rw e (grind arith)

-- `&` on numbers of which the n lowest digits are written apart.
bit_and_split :
    (n a b x y : ℕ)
    → a < 2 ^ n
    → b < 2 ^ n
    → bit_and (a + 2 ^ n * x) (b + 2 ^ n * y) ≡ bit_and a b + 2 ^ n * bit_and x y
bit_and_split zero a b x y p q =
    let e : a ≡ 0 = omega arith in
    let f : b ≡ 0 = omega arith in
    let g : 0 + 2 ^ 0 * x ≡ x = omega arith in
    let h : 0 + 2 ^ 0 * y ≡ y = omega arith in rw (e, f, g, h) (omega arith)
bit_and_split (suc n) a b x y p q =
    let lt : a / 2 < 2 ^ n = omega (arith, pow-suc 2 n) in
    let lt' : b / 2 < 2 ^ n = omega (arith, pow-suc 2 n) in
    let e : (a + 2 ^ suc n * x) / 2 ≡ a / 2 + 2 ^ n * x = omega (arith, double n x) in
    let f : (b + 2 ^ suc n * y) / 2 ≡ b / 2 + 2 ^ n * y = omega (arith, double n y) in
    let g = bit_and_step (a + 2 ^ suc n * x) (b + 2 ^ suc n * y) in
    let g' = rw (e, f) at g in
    omega (
      arith,
      g',
      bit_and_split n (a / 2) (b / 2) x y lt lt',
      bit_and_step a b,
      double n (bit_and x y),
      double n x,
      double n y,
    )

pub bit_and_byte :
    (a b x y : ℕ)
    → a < 256
    → b < 256
    → bit_and (a + 256 * x) (b + 256 * y) ≡ bit_and a b + 256 * bit_and x y
bit_and_byte a b x y p q = bit_and_split 8 a b x y p q

-- The number 0x..0101 of n bytes.
abbrev units : ℕ → ℕ
units zero = 0
units (suc n) = 1 + 256 * units n

-- HASZERO on n bytes.
abbrev marks : ℕ → ℕ → ℕ
marks n x = bit_and (bit_and ((x + 256 ^ n - units n) % 256 ^ n) (256 ^ n - 1 - x)) (128 * units n)

zero_bit_and : (b : ℕ) → bit_and 0 b ≡ 0
zero_bit_and b = simp bit_and-bitwise refl

bit_and_le : (n a b : ℕ) → a ≤ n → bit_and a b ≤ a
bit_and_le zero a b h = let e : a ≡ 0 = omega arith in rw e (omega (arith, zero_bit_and b))
bit_and_le (suc n) a b h = elim (ℕ_discrete a 0) [
  | yes e ↦ rw e (omega (arith, zero_bit_and b))
  | no ne ↦ omega (arith, bit_and_step a b, bit_and_le n (a / 2) (b / 2) (omega arith))
]

-- One byte b that is not 0: b - 1 and ~ b do not both have the highest digit.
high-zero : (b : ℕ) → 1 ≤ b → b < 256 → bit_and (bit_and (b - 1) (255 - b)) 128 ≡ 0
high-zero b lo hi =
    let x = bit_and (b - 1) (255 - b) in
    let e : (b - 1) % 128 + 2 ^ 7 * ((b - 1) / 128) ≡ b - 1 = omega arith in
    let f : (255 - b) % 128 + 2 ^ 7 * ((255 - b) / 128) ≡ 255 - b = omega arith in
    let s =
      bit_and_split 7 ((b - 1) % 128) ((255 - b) % 128) ((b - 1) / 128) ((255 - b) / 128)
        (omega arith) (omega arith) in
    let s' = rw (e, f) at s in
    let small = bit_and_le ((b - 1) % 128) ((b - 1) % 128) ((255 - b) % 128) (omega arith) in
    let apart : bit_and ((b - 1) / 128) ((255 - b) / 128) ≡ 0 = elim (dec_le b 128) [
      | yes low ↦ let z : (b - 1) / 128 ≡ 0 = omega arith in rw z (zero_bit_and ((255 - b) / 128))
      | no high ↦ let z : (255 - b) / 128 ≡ 0 = omega arith in rw z (bit_and_zero ((b - 1) / 128))
    ] in
    let below : x < 128 = omega (arith, s', small, apart) in
    let t = bit_and_split 7 x 0 0 1 (omega (arith, below)) (omega arith) in
    let u : x + 2 ^ 7 * 0 ≡ x = omega arith in
    let t' = rw u at t in omega (arith, t', bit_and_zero x, zero_bit_and 1)

units-le : (n : ℕ) → 255 * units n + 1 ≡ 256 ^ n
units-le zero = refl
units-le (suc n) = omega (arith, units-le n, pow-suc 256 n)

module _ (n : ℕ) (b y : ℕ) (lt : b < 256) (small : y < 256 ^ n) where
  minus-ones :
      1 ≤ b
      → (b + 256 * y + 256 ^ suc n - (1 + 256 * units n)) % 256 ^ suc n
        ≡ b - 1 + 256 * ((y + 256 ^ n - units n) % 256 ^ n)
  minus-ones pos =
      let q = 256 ^ n in
      let u = units-le n in
      let t = y + q - units n in
      let e : 256 ^ suc n ≡ 256 * q = omega (arith, pow-suc 256 n) in
      let v : b + 256 * y + 256 * q - (1 + 256 * units n) ≡ b - 1 + 256 * t = omega (arith, u) in
      rw (e, v)
        (elim (dec_lt t q) [
          | yes below ↦
              let r : t % q ≡ t = mod-eq_of_lt below in rw r (mod-eq_of_lt (omega (arith, below)))
          | no above ↦
              let r' : t ≡ q * 1 + (t - q) = omega (arith, above) in
              let l' : b - 1 + 256 * t ≡ 256 * q * 1 + (b - 1 + 256 * (t - q)) =
                omega (arith, above) in
              let r : t % q ≡ t - q =
                ap (λ (z : ℕ). z % q) r'
                ∙ mul-add-mod_self_left q 1 (t - q)
                ∙ mod-eq_of_lt (omega (arith, u)) in
              let l : (b - 1 + 256 * t) % (256 * q) ≡ b - 1 + 256 * (t - q) =
                ap (λ (z : ℕ). z % (256 * q)) l'
                ∙ mul-add-mod_self_left (256 * q) 1 (b - 1 + 256 * (t - q))
                ∙ mod-eq_of_lt (omega (arith, u)) in
              l ∙ ap (λ (z : ℕ). b - 1 + 256 * z) (sym r)
        ])

  complement : 256 ^ suc n - 1 - (b + 256 * y) ≡ 255 - b + 256 * (256 ^ n - 1 - y)
  complement = omega (arith, pow-suc 256 n)

  mask : 128 * (1 + 256 * units n) ≡ 128 + 256 * (128 * units n)
  mask = omega arith

  marks-suc : 1 ≤ b → marks (suc n) (b + 256 * y) ≡ 256 * marks n y
  marks-suc pos =
      let d = (y + 256 ^ n - units n) % 256 ^ n in
      let c = 256 ^ n - 1 - y in
      let low = bit_and (b - 1) (255 - b) in
      let le = bit_and_le (b - 1) (b - 1) (255 - b) (omega arith) in
      rw
        (
          minus-ones pos,
          complement,
          mask,
          bit_and_byte (b - 1) (255 - b) d c (omega arith) (omega arith),
          bit_and_byte low 128 (bit_and d c) (128 * units n) (omega (arith, le)) (omega arith),
          high-zero b pos lt,
        )
        (omega arith)

  marks-zero_byte : b ≡ 0 → marks (suc n) (b + 256 * y) ≢ 0
  marks-zero_byte z =
      let q = 256 ^ n in
      let v = b + 256 * y + 256 ^ suc n - (1 + 256 * units n) in
      let r = v % 256 ^ suc n in
      let c = 256 ^ n - 1 - y in
      let e : 256 ^ suc n ≡ 256 * q = omega (arith, pow-suc 256 n) in
      let d = div-add-mod v (256 ^ suc n) in
      let f : 256 ^ suc n * (v / 256 ^ suc n) ≡ 256 * (q * (v / 256 ^ suc n)) =
        ap (λ (x : ℕ). x * (v / 256 ^ suc n)) e ∙ mul_assoc 256 q (v / 256 ^ suc n) in
      let w : v ≡ 255 + 256 * (y + q - units n - 1) = omega (arith, units-le n, e, z) in
      let low : r ≡ 255 + 256 * (r / 256) = omega (arith, d, f, w) in
      let high : 256 ^ suc n - 1 - (b + 256 * y) ≡ 255 + 256 * c = omega (arith, complement, z) in
      let both = bit_and_byte 255 255 (r / 256) c (omega arith) (omega arith) in
      let top =
        bit_and_byte 255 128 (bit_and (r / 256) c) (128 * units n) (omega arith) (omega arith) in
      let all : marks (suc n) (b + 256 * y)
          ≡ 128 + 256 * bit_and (bit_and (r / 256) c) (128 * units n) =
        ap
          (λ (x : ℕ).
            bit_and (bit_and x (256 ^ suc n - 1 - (b + 256 * y))) (128 * (1 + 256 * units n)))
          low
        ∙ rw (high, mask, both) top in
      λ none_set. absurd (omega (arith, all, none_set))

module _ (mem : Bytes) (bytes : (a : ℕ) → mem a < 256) where
  pub read-lt : (n s : ℕ) → read n mem s < 256 ^ n
  unfolding read
  read-lt zero s = omega arith
  read-lt (suc n) s = omega (arith, bytes s, read-lt n (s + 1), pow-suc 256 n)

  marks-none : (n s : ℕ) → ((a : ℕ) → s ≤ a → a < s + n → mem a ≢ 0) → marks n (read n mem s) ≡ 0
  unfolding read
  marks-none zero s h =
      bit_and_zero
        (bit_and ((read 0 mem s + 256 ^ 0 - units 0) % 256 ^ 0) (256 ^ 0 - 1 - read 0 mem s))
  marks-none (suc n) s h =
      let rest = marks-none n (s + 1) (λ a lo hi. h a (omega arith) (omega arith)) in
      marks-suc n (mem s) (read n mem (s + 1)) (bytes s) (read-lt n (s + 1)) (ground (arith, h s))
      ∙ omega (arith, rest)

  marks-some : (n s a : ℕ) → s ≤ a → a < s + n → mem a ≡ 0 → marks n (read n mem s) ≢ 0
  unfolding read
  marks-some zero s a lo hi z = absurd (omega arith)
  marks-some (suc n) s a lo hi z = elim (ℕ_discrete (mem s) 0) [
    | yes e ↦ marks-zero_byte n (mem s) (read n mem (s + 1)) (bytes s) (read-lt n (s + 1)) e
    | no ne ↦
        let pos : 1 ≤ mem s = omega arith in
        let m = marks-suc n (mem s) (read n mem (s + 1)) (bytes s) (read-lt n (s + 1)) pos in
        let later : s + 1 ≤ a = ground arith in
        let rest = marks-some n (s + 1) a later (omega arith) z in
        λ all. rest (omega (arith, m, all))
  ]

  -- HASZERO of the 8 bytes from s on is 0 where none of them is.
  pub has_zero-none :
      (s : ℕ) → ((a : ℕ) → s ≤ a → a < s + 8 → mem a ≢ 0) → has_zero (read_u64 mem s) ≡ 0
  unfolding has_zero
  has_zero-none s h = marks-none 8 s h

  -- HASZERO of the 8 bytes from s on is not 0 where one of them is.
  pub has_zero-some : (s a : ℕ) → s ≤ a → a < s + 8 → mem a ≡ 0 → has_zero (read_u64 mem s) ≢ 0
  unfolding has_zero
  has_zero-some s a lo hi z = marks-some 8 s a lo hi z
