-- ===== src/Strings/Bounded/Bound.antt =====
-- `strnlen` finds the first NUL of the n bytes, or their end.
use native.Mathlib.Decide.{ℕ_discrete, dec_lt}
use mini_libc.Base.{
  ℕ, zero, suc, ◌+◌, ◌-◌, ◌*◌, ◌/◌, ◌^◌, ◌≤◌, ◌<◌, ◌≡◌, ◌≢◌, ◌⊎◌, inl, inr, refl, ap, bit_and,
  arith, some, ◌||◌, ltb, ◌==◌, ==_true, ==_false, true, false, Bool-cases,
}
use mini_libc.Bits.Words.{u64}
use mini_libc.Bits.Masks.{bit_and_mask}
use mini_libc.Strings.{Bytes, read, read_u64, has_zero}
use mini_libc.Strings.HasZero.{has_zero-none, has_zero-some}
use mini_libc.Strings.Length.{IsFirstNul, last_bytes-finds}
use mini_libc.Strings.Bounded.{
  Rest, skip_bytes_n, find_word_n, last_bytes_n, end_of_words, end_of_scan, strnlen,
}

-- The scan of n bytes from s on stops at e: there is the first NUL, or the end.
pub record IsStop (mem : Bytes) (s n e : ℕ) : Type 0 where
  pub after : s ≤ e
  pub inside : e ≤ s + n
  pub before_end : e + 8 < 2 ^ 64
  pub set : (a : ℕ) → s ≤ a → a < e → mem a ≢ 0
  pub stop : (e ≡ s + n) ⊎ (mem e ≡ 0)

module _ (mem : Bytes) (bytes : (a : ℕ) → mem a < 256) (e : ℕ) where
  later : (s n d : ℕ) → d ≤ n → s + d ≤ e → IsStop mem s n e → IsStop mem (s + d) (n - d) e
  later s n d dn te h = record {
    after = te;
    inside = omega (arith, h.inside);
    before_end = h.before_end;
    set = λ a lo hi. h.set a (omega arith) hi;
    stop = ground (arith, h.stop);
  }

  abbrev Skipped : ℕ → ℕ ⊎ Rest → Type 0
  Skipped s (inl x) = x ≡ e
  Skipped s (inr (t, m)) = IsStop mem t m e × (s ≤ t)

  skip_bytes_n-stops : (k s n : ℕ) → IsStop mem s n e → Skipped s (skip_bytes_n k mem s n)
  unfolding skip_bytes_n
  skip_bytes_n-stops zero s n h = (h, omega arith)
  skip_bytes_n-stops (suc k) s n h = elim (Bool-cases ((n == 0) || (bit_and s 7 == 0))) [
    | inl a ↦ rw a (h, omega arith)
    | inr a ↦ elim (ℕ_discrete (mem s) 0) [
      | yes q ↦ rw (a, ==_true (mem s) 0 q) (ground (arith, h.set s, h.after))
      | no q ↦
          let pos : n ≢ 0 = ground arith in
          let more : s + 1 ≤ e = ground (arith, h.stop, h.after) in
          let w : u64 (s + 1) ≡ s + 1 = omega (arith, more, h.before_end) in
          rw (a, ==_false (mem s) 0 q, w)
            (further (skip_bytes_n k mem (s + 1) (n - 1))
              (skip_bytes_n-stops k (s + 1) (n - 1) (later s n 1 (omega arith) more h)))
    ]
  ]
    where
      further : (r : ℕ ⊎ Rest) → Skipped (s + 1) r → Skipped s r
      further (inl x) z = z
      further (inr (t, m)) (f, le) = (f, omega arith)

  last_bytes_n-stops :
      (k s n : ℕ) → e < s + k → IsStop mem s n e → last_bytes_n k (read k mem s) s n ≡ e
  unfolding last_bytes_n read
  last_bytes_n-stops zero s n near h = absurd (omega (arith, h.after))
  last_bytes_n-stops (suc k) s n near h =
      let m = bit_and_mask 8 (mem s + 256 * read k mem (s + 1)) in
      let b : bit_and (mem s + 256 * read k mem (s + 1)) 255 ≡ mem s = omega (arith, m, bytes s) in
      let q : (mem s + 256 * read k mem (s + 1)) / 256 ≡ read k mem (s + 1) =
        omega (arith, bytes s) in
      elim (ℕ_discrete s e) [
        | yes z ↦ rw b (ground (arith, h.stop, z))
        | no z ↦
            let pos : n ≢ 0 = omega (arith, h.inside, h.after) in
            let more : s + 1 ≤ e = omega (arith, h.after) in
            let ne = h.set s (omega arith) (omega (arith, more)) in
            let w : u64 (s + 1) ≡ s + 1 = omega (arith, more, h.before_end) in
            rw (b, ==_false n 0 pos, ==_false (mem s) 0 ne, q, w)
              (last_bytes_n-stops k (s + 1) (n - 1) (omega arith)
                (later s n 1 (omega arith) more h))
      ]

  -- A stop inside the n bytes is the first NUL.
  stop-IsFirstNul : (s n : ℕ) → e < s + n → IsStop mem s n e → IsFirstNul mem s e
  stop-IsFirstNul s n lt h = record {
    after = h.after;
    before_end = h.before_end;
    set = h.set;
    nul = ground (arith, h.stop);
  }

  find_word_n-stops :
      (k s n : ℕ)
      → e < s + 8 * k
      → IsStop mem s n e
      → end_of_words mem (find_word_n k mem s n) ≡ some e
  unfolding find_word_n end_of_words
  find_word_n-stops zero s n near h = absurd (omega (arith, h.after))
  find_word_n-stops (suc k) s n near h = elim (dec_lt n 8) [
    | yes short ↦
        let t : ltb n 8 ≡ true = ground arith in
        let l = last_bytes_n-stops 8 s n (omega (arith, h.inside)) h in
        rw t (elim (ℕ_discrete n 0) [
          | yes z ↦ rw (==_true n 0 z) (ap some (omega (arith, h.inside, h.after)))
          | no z ↦ rw (==_false n 0 z, l) refl
        ])
    | no long ↦
        let t : ltb n 8 ≡ false = ground arith in
        elim (dec_lt e (s + 8)) [
          | yes here ↦
              let f = stop-IsFirstNul s n (omega arith) h in
              let m = has_zero-some mem bytes s e h.after here f.nul in
              rw
                (
                  t,
                  ==_false (has_zero (read_u64 mem s)) 0 m,
                  last_bytes-finds mem bytes e 8 s here f,
                )
                refl
          | no far ↦
              let m = has_zero-none mem bytes s (λ a lo hi. h.set a lo (omega arith)) in
              let w : u64 (s + 8) ≡ s + 8 = omega (arith, h.before_end) in
              rw (t, ==_true (has_zero (read_u64 mem s)) 0 m, w)
                (find_word_n-stops k (s + 8) (n - 8) (omega arith)
                  (later s n 8 (omega arith) (omega arith) h))
        ]
  ]

  end_of_scan-stops :
      (fuel s : ℕ) (r : ℕ ⊎ Rest) → e < s + 8 * fuel → Skipped s r → end_of_scan fuel mem r ≡ some e
  unfolding end_of_scan
  end_of_scan-stops fuel s (inl x) near z = ap some z
  end_of_scan-stops fuel s (inr (t, n)) near (h, le) = elim (ℕ_discrete n 0) [
    | yes z ↦ rw (==_true n 0 z) (ap some (omega (arith, h.inside, h.after)))
    | no z ↦ rw (==_false n 0 z) (find_word_n-stops fuel t n (omega (arith, near, le)) h)
  ]

-- Where the scan of n bytes from s on stops at e, 8 bytes before the end of the address space: with
-- fuel for one word in 8 bytes and one more, `strnlen` returns the number of bytes before e.
pub strnlen-length :
    (mem : Bytes) (s n e fuel : ℕ)
    → ((a : ℕ) → mem a < 256)
    → IsStop mem s n e
    → e < s + 8 * fuel
    → strnlen fuel mem s n ≡ some (e - s)
unfolding strnlen
strnlen-length mem s n e fuel bytes h enough =
    let w : u64 (e + 2 ^ 64 - s) ≡ e - s = omega (arith, h.after, h.before_end) in
    let r =
      end_of_scan-stops mem bytes e fuel s (skip_bytes_n 8 mem s n) enough
        (skip_bytes_n-stops mem bytes e 8 s n h) in
    rw (r, w) refl
