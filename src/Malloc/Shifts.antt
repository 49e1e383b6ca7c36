-- ===== src/Malloc/Shifts.antt =====
-- Where `aligned_alloc_with_arena` and `aligned_tagged_alloc_with_arena` put the metadata.
use native.Mathlib.Nat.{
  pow-suc, one-le-pow, pow-le-pow_right, mod-lt, div-add-mod, mul-add-mod_self_left, mod-eq_of_lt,
  mul_assoc,
}
use native.Mathlib.Decide.{dec_le}
use mini_libc.Base.{ℕ, zero, suc, ◌+◌, ◌-◌, ◌*◌, ◌/◌, ◌%◌, ◌^◌, ◌≤◌, ◌<◌, ◌≡◌, sym, ap, ◌∙◌, arith}
use mini_libc.Bits.Words.{u64}
use mini_libc.Bits.Masks.{bit_and_mask}
use mini_libc.Malloc.{aligned_shift, tagged_shift, get_class}
use mini_libc.Malloc.Classes.{get_class-IsClass}

-- Multiples of 16 below one another are 16 apart.
sixteen : (k : ℕ) → 4 ≤ k → 2 ^ k ≡ 16 * 2 ^ (k - 4)
sixteen k h =
    let j = k - 4 in
    let e : k ≡ suc (suc (suc (suc j))) = omega arith in
    ap (λ (z : ℕ). 2 ^ z) e
    ∙ omega (
      arith,
      pow-suc 2 (suc (suc (suc j))),
      pow-suc 2 (suc (suc j)),
      pow-suc 2 (suc j),
      pow-suc 2 j,
    )

less_one : (a q : ℕ) → 1 ≤ q → a * q ≡ a * (q - 1) + a
less_one a zero h = absurd (omega arith)
less_one a (suc q) h = let e : suc q - 1 ≡ q = omega arith in rw e (grind arith)

pow_split : (k d : ℕ) → 2 ^ (k + d) ≡ 2 ^ k * 2 ^ d
pow_split k zero = let e : k + 0 ≡ k = omega arith in rw e (omega arith)
pow_split k (suc d) =
    let e : k + suc d ≡ suc (k + d) = omega arith in
    rw (e, pow-suc 2 (k + d), pow_split k d, pow-suc 2 d) (mul_assoc (2 ^ k) (2 ^ d) 2)

module _ (k ptr : ℕ) (lo : 5 ≤ k) (hi : k < 47) (low : ptr % 16 ≡ 0) where
  abbrev rest : ℕ
  rest = ptr % 2 ^ k

  rest-bound : (rest % 16 ≡ 0) × (rest + 16 ≤ 2 ^ k)
  rest-bound =
      let e = sixteen k (omega arith) in
      let d = div-add-mod ptr (2 ^ k) in
      let f : 2 ^ k * (ptr / 2 ^ k) ≡ 16 * (2 ^ (k - 4) * (ptr / 2 ^ k)) =
        ap (λ z. z * (ptr / 2 ^ k)) e ∙ mul_assoc 16 (2 ^ (k - 4)) (ptr / 2 ^ k) in
      let l = mod-lt ptr {m = 2 ^ k} (one-le-pow k 2 (omega arith)) in
      (omega (arith, d, f), omega (arith, d, f, e, l))

  whole : (s : ℕ) → ptr + s ≡ 2 ^ k * (ptr / 2 ^ k) + (rest + s)
  whole s = omega (arith, div-add-mod ptr (2 ^ k))

  aligned_shift-eq : aligned_shift (2 ^ k) ptr ≡ 2 ^ k - 16 - rest
  unfolding aligned_shift
  aligned_shift-eq =
      let top = pow-le-pow_right {n = 2} (omega arith) {i = k} {j = 47} (omega arith) in
      rw (bit_and_mask k ptr) (omega (arith, top, rest-bound))

  -- The C expression wraps around when the rest is in the last 16 bytes.
  tagged_shift-eq : tagged_shift (2 ^ k) ptr ≡ (2 * 2 ^ k - 32 - rest) % 2 ^ k
  unfolding tagged_shift
  tagged_shift-eq =
      let top = pow-le-pow_right {n = 2} (omega arith) {i = k} {j = 47} (omega arith) in
      let big = pow-le-pow_right {n = 2} (omega arith) {i = 5} {j = k} lo in
      rw (bit_and_mask k ptr, bit_and_mask k (u64 (2 ^ k + 2 ^ 64 - 32 - ptr % 2 ^ k)))
        (elim (dec_le (rest + 32) (2 ^ k)) [
          | yes fits ↦
              let t = 2 ^ k - 32 - rest in
              let e : u64 (2 ^ k + 2 ^ 64 - 32 - rest) ≡ t = omega (arith, top) in
              let f : 2 * 2 ^ k - 32 - rest ≡ 2 ^ k * 1 + t = omega arith in
              rw (e, f) (sym (mul-add-mod_self_left (2 ^ k) 1 t))
          | no over ↦
              let c : k + (64 - k) ≡ 64 = omega arith in
              let p = one-le-pow (64 - k) 2 (omega arith) in
              let all : 2 ^ 64 ≡ 2 ^ k * 2 ^ (64 - k) =
                ap (λ z. 2 ^ z) (sym c) ∙ pow_split k (64 - k) in
              let r : rest ≡ 2 ^ k - 16 = omega (arith, rest-bound, sixteen k (omega arith)) in
              let m : 2 ^ k * 2 ^ (64 - k) ≡ 2 ^ k * (2 ^ (64 - k) - 1) + 2 ^ k =
                less_one (2 ^ k) (2 ^ (64 - k)) p in
              let e : u64 (2 ^ k + 2 ^ 64 - 32 - rest) ≡ 2 ^ k * (2 ^ (64 - k) - 1) + (2 ^ k - 16) =
                omega (arith, top, big, r, all, m) in
              let f : 2 * 2 ^ k - 32 - rest ≡ 2 ^ k - 16 = omega (arith, r, big) in
              rw (e, f) (mul-add-mod_self_left (2 ^ k) (2 ^ (64 - k) - 1) (2 ^ k - 16))
        ])

  tagged_shift-fits : rest + 32 ≤ 2 ^ k → tagged_shift (2 ^ k) ptr ≡ 2 ^ k - 32 - rest
  tagged_shift-fits fits =
      let t = 2 ^ k - 32 - rest in
      let f : 2 * 2 ^ k - 32 - rest ≡ 2 ^ k * 1 + t = omega arith in
      rw (tagged_shift-eq, f) (mul-add-mod_self_left (2 ^ k) 1 t ∙ mod-eq_of_lt (omega arith))

  tagged_shift-over : rest + 16 ≡ 2 ^ k → tagged_shift (2 ^ k) ptr ≡ 2 ^ k - 16
  tagged_shift-over over =
      let big = pow-le-pow_right {n = 2} (omega arith) {i = 5} {j = k} lo in
      let f : 2 * 2 ^ k - 32 - rest ≡ 2 ^ k - 16 = omega (arith, big) in
      rw (tagged_shift-eq, f) (mod-eq_of_lt (omega (arith, big)))

lands : (k ptr s n : ℕ) → ptr % 2 ^ k + s ≡ 2 ^ k * n → (ptr + s) % 2 ^ k ≡ 0
lands k ptr s n h =
    let p = one-le-pow k 2 (omega arith) in
    let e : ptr + s ≡ 2 ^ k * (ptr / 2 ^ k) + 2 ^ k * n =
      omega (arith, div-add-mod ptr (2 ^ k), h) in
    let z : 2 ^ k * n ≡ 2 ^ k * n + 0 = omega arith in
    rw e (
      mul-add-mod_self_left (2 ^ k) (ptr / 2 ^ k) (2 ^ k * n)
      ∙ ap (λ (x : ℕ). x % 2 ^ k) z
      ∙ mul-add-mod_self_left (2 ^ k) n 0
      ∙ mod-eq_of_lt (omega (arith, p)))

-- The user's pointer, 16 bytes behind the metadata, is a multiple of the alignment, and the bytes
-- asked for end before the block of the class does. The alignment is a power of two above 16.
pub aligned_shift-lands :
    (k ptr size : ℕ)
    → 5 ≤ k
    → k < 47
    → ptr % 16 ≡ 0
    → 1 ≤ size
    → size < 2 ^ 47
    → let s = aligned_shift (2 ^ k) ptr in
      ((ptr + (s + 16)) % 2 ^ k ≡ 0) × (s + 16 + size ≤ get_class (size + 2 ^ k))
aligned_shift-lands k ptr size lo hi low pos small =
    let b = rest-bound k ptr lo hi low in
    let top = pow-le-pow_right {n = 2} (omega arith) {i = k} {j = 47} (omega arith) in
    let c = get_class-IsClass (size + 2 ^ k) (omega arith) (omega (arith, top)) in
    rw (aligned_shift-eq k ptr lo hi low)
      (lands k ptr (2 ^ k - 16 - ptr % 2 ^ k + 16) 1 (omega (arith, b)), omega (arith, b, c))

-- The same for a tagged allocation, which keeps 16 more bytes between the user's pointer and the
-- aligned address.
pub tagged_shift-lands :
    (k ptr size : ℕ)
    → 5 ≤ k
    → k < 47
    → ptr % 16 ≡ 0
    → 1 ≤ size
    → size < 2 ^ 47
    → let s = tagged_shift (2 ^ k) ptr in
      ((ptr + (s + 32)) % 2 ^ k ≡ 0) × (s + 32 + size ≤ get_class (size + (2 ^ k + 16)))
tagged_shift-lands k ptr size lo hi low pos small =
    let b = rest-bound k ptr lo hi low in
    let big = pow-le-pow_right {n = 2} (omega arith) {i = 5} {j = k} lo in
    let top = pow-le-pow_right {n = 2} (omega arith) {i = k} {j = 46} (omega arith) in
    let c = get_class-IsClass (size + (2 ^ k + 16)) (omega arith) (omega (arith, top)) in
    elim (dec_le (ptr % 2 ^ k + 32) (2 ^ k)) [
      | yes fits ↦
          rw (tagged_shift-fits k ptr lo hi low fits)
            (lands k ptr (2 ^ k - 32 - ptr % 2 ^ k + 32) 1 (omega (arith, b)), omega (arith, b, c))
      | no over ↦
          let r : ptr % 2 ^ k + 16 ≡ 2 ^ k = omega (arith, b, sixteen k (omega arith)) in
          rw (tagged_shift-over k ptr lo hi low r)
            (lands k ptr (2 ^ k - 16 + 32) 2 (omega (arith, r, big)), omega (arith, big, c))
    ]
