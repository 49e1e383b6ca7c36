-- ===== src/Strings/Length.antt =====
-- `strlen` finds the first NUL.
use native.Mathlib.Decide.{ℕ_discrete, dec_lt}
use mini_libc.Base.{
  ℕ, zero, suc, ◌+◌, ◌-◌, ◌*◌, ◌/◌, ◌^◌, ◌≤◌, ◌<◌, ◌≡◌, ◌≢◌, ◌⊎◌, inl, inr, refl, ap, ◌∙◌, bit_and,
  arith, some, ==_true, ==_false,
}
use mini_libc.Bits.Words.{u64}
use mini_libc.Bits.Masks.{bit_and_mask}
use mini_libc.Strings.{Bytes, read, read_u64, has_zero, skip_bytes, find_word, last_bytes, strlen}
use mini_libc.Strings.HasZero.{has_zero-none, has_zero-some}

-- The first NUL from s on is at e.
pub record IsFirstNul (mem : Bytes) (s e : ℕ) : Type 0 where
  pub after : s ≤ e
  pub before_end : e + 8 < 2 ^ 64
  pub set : (a : ℕ) → s ≤ a → a < e → mem a ≢ 0
  pub nul : mem e ≡ 0

module _ (mem : Bytes) (bytes : (a : ℕ) → mem a < 256) (e : ℕ) where
  later : (s t : ℕ) → s ≤ t → t ≤ e → IsFirstNul mem s e → IsFirstNul mem t e
  later s t st te h = record {
    after = te;
    before_end = h.before_end;
    set = λ a lo hi. h.set a (omega arith) hi;
    nul = h.nul;
  }

  skip_bytes-finds :
      (n s : ℕ)
      → IsFirstNul mem s e
      → (skip_bytes n mem s ≡ inl e)
        ⊎ ((t : ℕ) × (skip_bytes n mem s ≡ inr t) × IsFirstNul mem t e × (s ≤ t))
  unfolding skip_bytes
  skip_bytes-finds zero s h = inr (s, refl, h, omega arith)
  skip_bytes-finds (suc n) s h = elim (ℕ_discrete (bit_and s 7) 0) [
    | yes a ↦ rw (==_true (bit_and s 7) 0 a) (inr (s, refl, h, omega arith))
    | no a ↦ elim (ℕ_discrete s e) [
      | yes q ↦
          rw (==_false (bit_and s 7) 0 a, ==_true (mem s) 0 (ap mem q ∙ h.nul)) (inl (ap inl q))
      | no q ↦
          let ne = h.set s (omega arith) (omega (arith, h.after)) in
          let w : u64 (s + 1) ≡ s + 1 = omega (arith, h.after, h.before_end) in
          rw (==_false (bit_and s 7) 0 a, ==_false (mem s) 0 ne, w)
            (further (
              skip_bytes-finds n (s + 1)
                (later s (s + 1) (omega arith) (omega (arith, h.after)) h)))
    ]
  ]
    where
      further :
          (skip_bytes n mem (s + 1) ≡ inl e)
            ⊎ ((t : ℕ) × (skip_bytes n mem (s + 1) ≡ inr t) × IsFirstNul mem t e × (s + 1 ≤ t))
          → (skip_bytes n mem (s + 1) ≡ inl e)
            ⊎ ((t : ℕ) × (skip_bytes n mem (s + 1) ≡ inr t) × IsFirstNul mem t e × (s ≤ t))
      further (inl q) = inl q
      further (inr (t, q, f, le)) = inr (t, q, f, omega (arith, le))

  find_word-finds :
      (n s : ℕ)
      → e < s + 8 * n
      → IsFirstNul mem s e
      → (t : ℕ) × (find_word n mem s ≡ some t) × IsFirstNul mem t e × (e < t + 8)
  unfolding find_word
  find_word-finds zero s near h = absurd (omega (arith, h.after))
  find_word-finds (suc n) s near h = elim (dec_lt e (s + 8)) [
    | yes here ↦
        let f = has_zero-some mem bytes s e h.after here h.nul in
        rw (==_false (has_zero (read_u64 mem s)) 0 f) (s, refl, h, here)
    | no far ↦
        let f = has_zero-none mem bytes s (λ a lo hi. h.set a lo (omega arith)) in
        let w : u64 (s + 8) ≡ s + 8 = omega (arith, h.before_end) in
        rw (==_true (has_zero (read_u64 mem s)) 0 f, w)
          (find_word-finds n (s + 8) (omega arith) (later s (s + 8) (omega arith) (omega arith) h))
  ]

  pub last_bytes-finds :
      (n s : ℕ) → e < s + n → IsFirstNul mem s e → last_bytes n (read n mem s) s ≡ e
  unfolding last_bytes read
  last_bytes-finds zero s near h = absurd (omega (arith, h.after))
  last_bytes-finds (suc n) s near h =
      let m = bit_and_mask 8 (mem s + 256 * read n mem (s + 1)) in
      let b : bit_and (mem s + 256 * read n mem (s + 1)) 255 ≡ mem s = omega (arith, m, bytes s) in
      let q : (mem s + 256 * read n mem (s + 1)) / 256 ≡ read n mem (s + 1) =
        omega (arith, bytes s) in
      elim (ℕ_discrete s e) [
        | yes z ↦ rw (b, ==_true (mem s) 0 (ap mem z ∙ h.nul)) z
        | no z ↦
            let ne = h.set s (omega arith) (omega (arith, h.after)) in
            let w : u64 (s + 1) ≡ s + 1 = omega (arith, h.after, h.before_end) in
            rw (b, ==_false (mem s) 0 ne, q, w)
              (last_bytes-finds n (s + 1) (omega arith)
                (later s (s + 1) (omega arith) (omega (arith, h.after)) h))
      ]

-- Where the first NUL of a string is at e, and the string ends 8 bytes before the end of the address
-- space: with fuel for one word in 8 bytes and one more, `strlen` returns the number of bytes before
-- the NUL.
pub strlen-length :
    (mem : Bytes) (s e fuel : ℕ)
    → ((a : ℕ) → mem a < 256)
    → IsFirstNul mem s e
    → e < s + 8 * fuel
    → strlen fuel mem s ≡ some (e - s)
unfolding strlen
strlen-length mem s e fuel bytes h enough =
    let w : u64 (e + 2 ^ 64 - s) ≡ e - s = omega (arith, h.after, h.before_end) in
    elim (skip_bytes-finds mem bytes e 8 s h) [
      | inl q ↦ rw (q, w) refl
      | inr (t, q, f, le) ↦
          let (v, r, g, near) = find_word-finds mem bytes e fuel t (omega (arith, le, enough)) f in
          rw (q, r, last_bytes-finds mem bytes e 8 v near g, w) refl
    ]
