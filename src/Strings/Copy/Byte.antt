-- ===== src/Strings/Copy/Byte.antt =====
-- The bytes of words that are read, shifted and put together.
use native.Mathlib.Decide.{dec_lt}
use native.Mathlib.Nat.{
  pow-suc, one-le-pow, div-div-eq-div-mul, mul_assoc, mod-lt, div-add-mod, mul-add-mod_self_left,
  mod-eq_of_lt, mul_comm,
}
use mini_libc.Base.{
  ℕ, zero, suc, ◌+◌, ◌-◌, ◌*◌, ◌/◌, ◌%◌, ◌^◌, ◌≤◌, ◌<◌, ◌≡◌, refl, sym, ap, ◌∙◌, bit_or, arith, ltb,
  true, false, if◌then◌else◌,
}
use mini_libc.Bits.Step.{bit_or_step}
use mini_libc.Bits.Masks.{bit_or_zero, zero_bit_or}
use mini_libc.Bits.Words.{u64}
use mini_libc.Strings.{Bytes, read}
use mini_libc.Strings.Copy.{byte, merge}

pub byte-zero : (i : ℕ) → byte i 0 ≡ 0
unfolding byte
byte-zero zero = refl
byte-zero (suc i) = byte-zero i

module _ (mem : Bytes) (bytes : (a : ℕ) → mem a < 256) where
  pub byte-read : (k s i : ℕ) → i < k → byte i (read k mem s) ≡ mem (s + i)
  unfolding byte read
  byte-read zero s i lt = absurd (omega arith)
  byte-read (suc k) s zero lt = let e : s + 0 ≡ s = omega arith in rw e (omega (arith, bytes s))
  byte-read (suc k) s (suc i) lt =
      let q : (mem s + 256 * read k mem (s + 1)) / 256 ≡ read k mem (s + 1) =
        omega (arith, bytes s) in
      let e : s + suc i ≡ s + 1 + i = omega arith in rw (q, e) (byte-read k (s + 1) i (omega arith))

  pub byte-read_above : (k s i : ℕ) → k ≤ i → byte i (read k mem s) ≡ 0
  unfolding byte read
  byte-read_above zero s i le = byte-zero i
  byte-read_above (suc k) s zero le = absurd (omega arith)
  byte-read_above (suc k) s (suc i) le =
      let q : (mem s + 256 * read k mem (s + 1)) / 256 ≡ read k mem (s + 1) =
        omega (arith, bytes s) in
      rw q (byte-read_above k (s + 1) i (omega arith))

-- `>>` by j bytes.
pub byte-shift_right : (j i v : ℕ) → byte i (v / 256 ^ j) ≡ byte (i + j) v
unfolding byte
byte-shift_right zero i v =
    let e : v / 256 ^ 0 ≡ v = omega arith in let f : i + 0 ≡ i = omega arith in rw (e, f) refl
byte-shift_right (suc j) i v =
    let e : 256 ^ suc j ≡ 256 * 256 ^ j = omega (arith, pow-suc 256 j) in
    let f : i + suc j ≡ suc (i + j) = omega arith in
    rw (e, sym (div-div-eq-div-mul v 256 (256 ^ j)), f) (byte-shift_right j i (v / 256))

-- `<<` by j bytes, before the wrap-around.
byte-shift_left : (j i y : ℕ) → byte i (256 ^ j * y) ≡ (if ltb i j then 0 else byte (i - j) y)
unfolding byte
byte-shift_left zero i y =
    let e : 256 ^ 0 * y ≡ y = omega arith in
    let f : i - 0 ≡ i = omega arith in rw (e, f) (ground arith)
byte-shift_left (suc j) zero y =
    let e : 256 ^ suc j * y ≡ 256 * (256 ^ j * y) =
      ap (λ (z : ℕ). z * y) (omega (arith, pow-suc 256 j)) ∙ mul_assoc 256 (256 ^ j) y in
    rw e (ground arith)
byte-shift_left (suc j) (suc i) y =
    let e : 256 ^ suc j * y ≡ 256 * (256 ^ j * y) =
      ap (λ (z : ℕ). z * y) (omega (arith, pow-suc 256 j)) ∙ mul_assoc 256 (256 ^ j) y in
    let f : 256 * (256 ^ j * y) / 256 ≡ 256 ^ j * y = omega arith in
    rw (e, f) (ground (arith, byte-shift_left j i y))

half-mod_256 :
    (q v : ℕ) → 1 ≤ q → (v % (256 * q) % 256 ≡ v % 256) × (v % (256 * q) / 256 ≡ v / 256 % q)
half-mod_256 q v p =
    let t = v / (256 * q) in
    let r = v % (256 * q) in
    let d = div-add-mod v (256 * q) in
    let f = mul_assoc 256 q t in
    let l = mod-lt v {m = 256 * q} (omega (arith, p)) in
    let e : v / 256 ≡ q * t + r / 256 = omega (arith, d, f) in
    let small : r / 256 < q = omega (arith, l) in
    (omega (arith, d, f), rw e (sym (mul-add-mod_self_left q t (r / 256) ∙ mod-eq_of_lt small)))

-- The wrap-around leaves the bytes below it.
byte-mod : (k i v : ℕ) → i < k → byte i (v % 256 ^ k) ≡ byte i v
unfolding byte
byte-mod zero i v lt = absurd (omega arith)
byte-mod (suc k) zero v lt =
    let e : 256 ^ suc k ≡ 256 * 256 ^ k = omega (arith, pow-suc 256 k) in
    rw e (half-mod_256 (256 ^ k) v (one-le-pow k 256 (omega arith))).0
byte-mod (suc k) (suc i) v lt =
    let e : 256 ^ suc k ≡ 256 * 256 ^ k = omega (arith, pow-suc 256 k) in
    let h = (half-mod_256 (256 ^ k) v (one-le-pow k 256 (omega arith))).1 in
    rw (e, h) (byte-mod k i (v / 256) (omega arith))

double : (n x : ℕ) → 2 ^ suc n * x ≡ 2 * (2 ^ n * x)
double n x = ap (λ (z : ℕ). z * x) (omega (arith, pow-suc 2 n)) ∙ mul_assoc 2 (2 ^ n) x

bit_or_split :
    (n a b x y : ℕ)
    → a < 2 ^ n
    → b < 2 ^ n
    → (bit_or (a + 2 ^ n * x) (b + 2 ^ n * y) ≡ bit_or a b + 2 ^ n * bit_or x y)
      × (bit_or a b < 2 ^ n)
bit_or_split zero a b x y p q =
    let e : a ≡ 0 = omega arith in
    let f : b ≡ 0 = omega arith in
    let g : 0 + 2 ^ 0 * x ≡ x = omega arith in
    let h : 0 + 2 ^ 0 * y ≡ y = omega arith in rw (e, f, g, h) (omega arith, omega arith)
bit_or_split (suc n) a b x y p q =
    let rest =
      bit_or_split n (a / 2) (b / 2) x y (omega (arith, pow-suc 2 n))
        (omega (arith, pow-suc 2 n)) in
    let e : (a + 2 ^ suc n * x) / 2 ≡ a / 2 + 2 ^ n * x = omega (arith, double n x) in
    let f : (b + 2 ^ suc n * y) / 2 ≡ b / 2 + 2 ^ n * y = omega (arith, double n y) in
    let g = rw (e, f) at (bit_or_step (a + 2 ^ suc n * x) (b + 2 ^ suc n * y)) in
    let low = bit_or_step a b in
    (
      omega (arith, g, rest, low, double n (bit_or x y), double n x, double n y),
      omega (arith, rest, low, pow-suc 2 n),
    )

bit_or_256 :
    (a b : ℕ)
    → (bit_or a b % 256 ≡ bit_or (a % 256) (b % 256))
      × (bit_or a b / 256 ≡ bit_or (a / 256) (b / 256))
bit_or_256 a b =
    let (s, lt) =
      bit_or_split 8 (a % 256) (b % 256) (a / 256) (b / 256) (omega arith) (omega arith) in
    let e : a % 256 + 2 ^ 8 * (a / 256) ≡ a = omega arith in
    let f : b % 256 + 2 ^ 8 * (b / 256) ≡ b = omega arith in
    let s' = rw (e, f) at s in (omega (arith, s', lt), omega (arith, s', lt))

byte-or : (i a b : ℕ) → byte i (bit_or a b) ≡ bit_or (byte i a) (byte i b)
unfolding byte
byte-or zero a b = (bit_or_256 a b).0
byte-or (suc i) a b = rw ((bit_or_256 a b).1) (byte-or i (a / 256) (b / 256))

pub pow_256 : (j : ℕ) → 2 ^ (8 * j) ≡ 256 ^ j
pow_256 zero = refl
pow_256 (suc j) =
    let e : 8 * suc j ≡ suc (suc (suc (suc (suc (suc (suc (suc (8 * j)))))))) = omega arith in
    let m = 8 * j in
    rw e (
      omega (
        arith,
        pow_256 j,
        pow-suc 256 j,
        pow-suc 2 m,
        pow-suc 2 (suc m),
        pow-suc 2 (suc (suc m)),
        pow-suc 2 (suc (suc (suc m))),
        pow-suc 2 (suc (suc (suc (suc m)))),
        pow-suc 2 (suc (suc (suc (suc (suc m))))),
        pow-suc 2 (suc (suc (suc (suc (suc (suc m)))))),
        pow-suc 2 (suc (suc (suc (suc (suc (suc (suc m))))))),
      ))

-- A word put together from a buffer of `off` bytes and the next word.
pub byte-merge :
    (off buf buf2 i : ℕ)
    → i < 8
    → ((j : ℕ) → off ≤ j → byte j buf ≡ 0)
    → byte i (merge off buf buf2) ≡ (if ltb i off then byte i buf else byte (i - off) buf2)
byte-merge off buf buf2 i lt none =
    let e : buf2 * 2 ^ (8 * off) ≡ 256 ^ off * buf2 =
      rw (pow_256 off) (mul_comm buf2 (256 ^ off)) in
    let w : byte i (u64 (256 ^ off * buf2)) ≡ byte i (256 ^ off * buf2) =
      byte-mod 8 i (256 ^ off * buf2) lt in
    byte-or i buf (u64 (buf2 * 2 ^ (8 * off)))
    ∙ rw (e, w, byte-shift_left off i buf2)
        (elim (dec_lt i off) [
          | yes below ↦ let t : ltb i off ≡ true = ground arith in rw t (bit_or_zero (byte i buf))
          | no above ↦
              let t : ltb i off ≡ false = ground arith in
              let z = none i (omega arith) in rw (t, z) (zero_bit_or (byte (i - off) buf2))
        ])
