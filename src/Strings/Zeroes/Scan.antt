-- ===== src/Strings/Zeroes/Scan.antt =====
-- `memcmp_zero` is 0 exactly if all bytes of the region are.
use native.Mathlib.Decide.{ℕ_discrete, dec_lt}
use mini_libc.Base.{
  ℕ, zero, suc, ◌+◌, ◌/◌, ◌^◌, ◌≤◌, ◌<◌, ◌≡◌, ◌≢◌, inl, inr, refl, sym, ap, ◌∙◌, bit_and, bit_or,
  arith, ◌||◌, ltb, ◌==◌, ==_true, ==_false, true, false, Bool-cases,
}
use mini_libc.Bits.Step.{bit_or_step}
use mini_libc.Bits.Words.{u64}
use mini_libc.Strings.{Bytes, read, read_u64}
use mini_libc.Strings.Zeroes.{ZeroScan, advance, zero_head, zero_words, zero_tail, memcmp_zero}

bit_or-ge : (n a b : ℕ) → a + b ≤ n → (a ≤ bit_or a b) × (b ≤ bit_or a b)
bit_or-ge zero a b h = (omega arith, omega arith)
bit_or-ge (suc n) a b h = elim (ℕ_discrete (a + b) 0) [
  | yes z ↦ (omega arith, omega arith)
  | no z ↦ omega (arith, bit_or_step a b, bit_or-ge n (a / 2) (b / 2) (omega arith))
]

bit_or-zero : (a b : ℕ) → bit_or a b ≡ 0 → (a ≡ 0) × (b ≡ 0)
bit_or-zero a b z = omega (arith, bit_or-ge (a + b) a b (omega arith))

read-zero : (mem : Bytes) (k s : ℕ) → ((a : ℕ) → s ≤ a → a < s + k → mem a ≡ 0) → read k mem s ≡ 0
unfolding read
read-zero mem zero s h = refl
read-zero mem (suc k) s h = omega (
  arith,
  h s (omega arith) (omega arith),
  read-zero mem k (s + 1) (λ a lo hi. h a (omega arith) (omega arith)),
)

zero-read : (mem : Bytes) (k s a : ℕ) → read k mem s ≡ 0 → s ≤ a → a < s + k → mem a ≡ 0
unfolding read
zero-read mem zero s a z lo hi = absurd (omega arith)
zero-read mem (suc k) s a z lo hi = elim (ℕ_discrete s a) [
  | yes e ↦ ap mem (sym e) ∙ omega arith
  | no ne ↦ zero-read mem k (s + 1) a (omega arith) (omega arith) (omega arith)
]

-- From z to w the scan took the bytes between the two addresses into the result, and no others.
record Scanned (mem : Bytes) (z w : ZeroScan) : Type 0 where
  pub forward : z.vp ≤ w.vp
  pub same_end : w.vp + w.n ≡ z.vp + z.n
  pub clear : z.result ≡ 0 → ((a : ℕ) → z.vp ≤ a → a < w.vp → mem a ≡ 0) → w.result ≡ 0
  pub kept : w.result ≡ 0 → z.result ≡ 0
  pub seen : w.result ≡ 0 → (a : ℕ) → z.vp ≤ a → a < w.vp → mem a ≡ 0

module _ (mem : Bytes) where
  stay : (z : ZeroScan) → Scanned mem z z
  stay z = record {
    forward = omega arith;
    same_end = refl;
    clear = λ e h. e;
    kept = λ e. e;
    seen = λ e a lo hi. absurd (omega arith);
  }

  andthen : (x y z : ZeroScan) → Scanned mem x y → Scanned mem y z → Scanned mem x z
  andthen x y z f g = record {
    forward = omega (arith, f.forward, g.forward);
    same_end = g.same_end ∙ f.same_end;
    clear = λ e h.
        g.clear (f.clear e (λ a lo hi. h a lo (omega (arith, g.forward))))
          (λ a lo hi. h a (omega (arith, f.forward)) hi);
    kept = λ e. f.kept (g.kept e);
    seen = λ e a lo hi. elim (dec_lt a y.vp) [
      | yes l ↦ f.seen (g.kept e) a lo l
      | no l ↦ g.seen e a (omega arith) hi
    ];
  }

  step :
      (z : ZeroScan) (k b : ℕ)
      → z.vp + z.n < 2 ^ 64
      → k ≤ z.n
      → (((a : ℕ) → z.vp ≤ a → a < z.vp + k → mem a ≡ 0) → b ≡ 0)
      → (b ≡ 0 → (a : ℕ) → z.vp ≤ a → a < z.vp + k → mem a ≡ 0)
      → Scanned mem z (advance k b z)
  step z k b fits le clear seen =
      let w : u64 (z.vp + k) ≡ z.vp + k = omega (arith, fits, le) in
      record {
        forward = omega (arith, w);
        same_end = omega (arith, w, le);
        clear = λ e h.
            let q = clear (λ a lo hi. h a lo (omega (arith, w))) in
            let e' : z.result ≡ 0 = e in rw (e', q) refl;
        kept = λ e. (bit_or-zero z.result b e).0;
        seen = λ e a lo hi. seen (bit_or-zero z.result b e).1 a lo (omega (arith, w));
      }

  one_byte : (z : ZeroScan) → z.vp + z.n < 2 ^ 64 → z.n ≢ 0 → Scanned mem z (advance 1 (mem z.vp) z)
  one_byte z fits ne =
      step z 1 (mem z.vp) fits (omega arith) (λ h. h z.vp (omega arith) (omega arith))
        (λ e a lo hi. let q : a ≡ z.vp = omega arith in ap mem q ∙ e)

  one_word :
      (z : ZeroScan)
      → z.vp + z.n < 2 ^ 64
      → 8 ≤ z.n
      → Scanned mem z (advance 8 (read_u64 mem z.vp) z)
  one_word z fits le =
      step z 8 (read_u64 mem z.vp) fits le (read-zero mem 8 z.vp)
        (λ e a lo hi. zero-read mem 8 z.vp a e lo hi)

  head-Scanned : (k : ℕ) (z : ZeroScan) → z.vp + z.n < 2 ^ 64 → Scanned mem z (zero_head k mem z)
  unfolding zero_head
  head-Scanned zero z fits = stay z
  head-Scanned (suc k) z fits = elim (Bool-cases ((z.n == 0) || (bit_and z.vp 7 == 0))) [
    | inl e ↦ rw e (stay z)
    | inr e ↦
        let f = one_byte z fits (ground arith) in
        let y = advance 1 (mem z.vp) z in
        rw e
          (andthen z y (zero_head k mem y) f (head-Scanned k y (omega (arith, f.same_end, fits))))
  ]

  words-Scanned :
      (k : ℕ) (z : ZeroScan)
      → z.vp + z.n < 2 ^ 64
      → z.n / 8 ≤ k
      → Scanned mem z (zero_words k mem z) × ((zero_words k mem z).n < 8)
  unfolding zero_words
  words-Scanned zero z fits few = (stay z, omega arith)
  words-Scanned (suc k) z fits few = elim (dec_lt z.n 8) [
    | yes l ↦ let e : ltb z.n 8 ≡ true = ground arith in rw e (stay z, l)
    | no l ↦
        let e : ltb z.n 8 ≡ false = ground arith in
        let f = one_word z fits (omega arith) in
        let y = advance 8 (read_u64 mem z.vp) z in
        let (g, small) = words-Scanned k y (omega (arith, f.same_end, fits)) (omega arith) in
        rw e (andthen z y (zero_words k mem y) f g, small)
  ]

  tail-Scanned :
      (k : ℕ) (z : ZeroScan)
      → z.vp + z.n < 2 ^ 64
      → z.n ≤ k
      → Scanned mem z (zero_tail k mem z) × ((zero_tail k mem z).n ≡ 0)
  unfolding zero_tail
  tail-Scanned zero z fits few = (stay z, omega arith)
  tail-Scanned (suc k) z fits few = elim (ℕ_discrete z.n 0) [
    | yes e ↦ rw (==_true z.n 0 e) (stay z, e)
    | no ne ↦
        let f = one_byte z fits ne in
        let y = advance 1 (mem z.vp) z in
        let (g, done) = tail-Scanned k y (omega (arith, f.same_end, fits)) (omega arith) in
        rw (==_false z.n 0 ne) (andthen z y (zero_tail k mem y) f g, done)
  ]

  -- Where a whole region was scanned, the result tells whether all its bytes are 0.
  module _ (v n : ℕ) where
    abbrev at_start : ZeroScan
    at_start = record { result = 0; vp = v; n = n }

    IsVerdict : ℕ → Type 0
    IsVerdict r =
        (((a : ℕ) → v ≤ a → a < v + n → mem a ≡ 0) → r ≡ 0)
        × (r ≡ 0 → (a : ℕ) → v ≤ a → a < v + n → mem a ≡ 0)

    whole-IsVerdict : (w : ZeroScan) → Scanned mem at_start w → w.n ≡ 0 → IsVerdict w.result
    unfolding IsVerdict
    whole-IsVerdict w f e =
        let q : w.vp ≡ v + n = omega (arith, f.same_end, e) in
        (
          λ h. f.clear refl (λ a lo hi. h a lo (omega (arith, q))),
          λ z a lo hi. f.seen z a lo (omega (arith, q)),
        )

    memcmp_zero-IsVerdict : v + n < 2 ^ 64 → IsVerdict (memcmp_zero mem v n)
    unfolding memcmp_zero
    memcmp_zero-IsVerdict fits =
        let head = zero_head 8 mem at_start in
        let f = head-Scanned 8 at_start fits in
        let (g, small) =
          words-Scanned (head.n / 8) head (omega (arith, f.same_end, fits)) (omega arith) in
        let words = zero_words (head.n / 8) mem head in
        let fg = andthen at_start head words f g in
        let (t, done) =
          tail-Scanned 8 words (omega (arith, fg.same_end, fits)) (omega (arith, small)) in
        elim (ℕ_discrete head.n 0) [
          | yes e ↦ rw (==_true head.n 0 e) (whole-IsVerdict head f e)
          | no ne ↦ elim (ℕ_discrete words.n 0) [
            | yes e ↦ rw (==_false head.n 0 ne, ==_true words.n 0 e) (whole-IsVerdict words fg e)
            | no m ↦
                rw (==_false head.n 0 ne, ==_false words.n 0 m)
                  (whole-IsVerdict (zero_tail 8 mem words)
                    (andthen at_start words (zero_tail 8 mem words) fg t) done)
          ]
        ]

-- Where the region ends below 2 ^ 64 and all its bytes are 0, `memcmp_zero` is 0.
pub memcmp_zero-clear :
    (mem : Bytes) (v n : ℕ)
    → v + n < 2 ^ 64
    → ((a : ℕ) → v ≤ a → a < v + n → mem a ≡ 0)
    → memcmp_zero mem v n ≡ 0
unfolding IsVerdict
memcmp_zero-clear mem v n fits h = (memcmp_zero-IsVerdict mem v n fits).0 h

-- Where the region ends below 2 ^ 64 and `memcmp_zero` is 0, every byte of the region is 0.
pub memcmp_zero-seen :
    (mem : Bytes) (v n a : ℕ)
    → v + n < 2 ^ 64
    → memcmp_zero mem v n ≡ 0
    → v ≤ a
    → a < v + n
    → mem a ≡ 0
unfolding IsVerdict
memcmp_zero-seen mem v n a fits z lo hi = (memcmp_zero-IsVerdict mem v n fits).1 z a lo hi
