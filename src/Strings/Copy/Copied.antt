-- ===== src/Strings/Copy/Copied.antt =====
-- The invariant of the loops of `memcpy`: c bytes are copied, and nothing else is written.
use native.Mathlib.Decide.{ℕ_discrete, dec_lt}
use mini_libc.Base.{
  ℕ, ◌+◌, ◌-◌, ◌^◌, ◌≤◌, ◌<◌, ◌≡◌, ◌≢◌, ◌⊎◌, ◌∙◌, arith, ◌&&◌, leb, ltb, ==_true, true, false,
  update, update_ne,
}
use mini_libc.Bits.Words.{u64}
use mini_libc.Strings.{Bytes, read_u64}
use mini_libc.Strings.Copy.{byte, write_u64}
use mini_libc.Strings.Copy.Byte.{byte-read}

-- A call of `memcpy` as the standard allows it, away from the end of the address space.
pub record IsCall (m0 : Bytes) (d0 s0 size : ℕ) : Type 0 where
  pub bytes : (a : ℕ) → m0 a < 256
  pub source_fits : s0 + size + 16 < 2 ^ 64
  pub dest_fits : d0 + size + 16 < 2 ^ 64
  pub apart : (s0 + size ≤ d0) ⊎ (d0 + size ≤ s0)

pub record Copied (m0 : Bytes) (d0 s0 size c : ℕ) (mem : Bytes) (d n : ℕ) : Type 0 where
  pub dest : d ≡ d0 + c
  pub left : n + c ≡ size
  pub done : (a : ℕ) → d0 ≤ a → a < d0 + c → mem a ≡ m0 (a - d0 + s0)
  pub below : (a : ℕ) → a < d0 → mem a ≡ m0 a
  pub above : (a : ℕ) → d0 + c ≤ a → mem a ≡ m0 a

module _ (m0 : Bytes) (d0 s0 size : ℕ) (call : IsCall m0 d0 s0 size) where
  module _ (c : ℕ) (mem : Bytes) (d n : ℕ) (h : Copied m0 d0 s0 size c mem d n) where
    -- The source is not written.
    pub source : (x : ℕ) → s0 ≤ x → x < s0 + size → mem x ≡ m0 x
    source x lo hi = elim (dec_lt x d0) [
      | yes l ↦ h.below x l
      | no l ↦ h.above x (omega (arith, call.apart, h.left))
    ]

    pub bytes-now : (a : ℕ) → mem a < 256
    bytes-now a = elim (dec_lt a d0) [
      | yes l ↦ let e = h.below a l in omega (arith, e, call.bytes a)
      | no l ↦ elim (dec_lt a (d0 + c)) [
        | yes m ↦ let e = h.done a (omega arith) m in omega (arith, e, call.bytes (a - d0 + s0))
        | no m ↦ let e = h.above a (omega arith) in omega (arith, e, call.bytes a)
      ]
    ]

    pub put_byte-Copied :
        (b : ℕ)
        → n ≢ 0
        → b ≡ m0 (s0 + c)
        → Copied m0 d0 s0 size (c + 1) (update mem d b) (u64 (d + 1)) (n - 1)
    put_byte-Copied b ne e = record {
      dest = omega (arith, h.dest, h.left, call.dest_fits);
      left = omega (arith, h.left);
      done = λ a lo hi. elim (ℕ_discrete a d) [
        | yes q ↦ let f : a - d0 + s0 ≡ s0 + c = omega (arith, h.dest, q) in rw (f, ==_true a d q) e
        | no q ↦ update_ne mem d a b q ∙ h.done a lo (omega (arith, h.dest, q))
      ];
      below = λ a lt. update_ne mem d a b (omega (arith, h.dest)) ∙ h.below a lt;
      above = λ a le. update_ne mem d a b (omega (arith, h.dest)) ∙ h.above a (omega arith);
    }

    pub put_word-Copied :
        (v : ℕ)
        → 8 ≤ n
        → ((i : ℕ) → i < 8 → byte i v ≡ m0 (s0 + c + i))
        → Copied m0 d0 s0 size (c + 8) (write_u64 d v mem) (u64 (d + 8)) (n - 8)
    unfolding write_u64
    put_word-Copied v le e = record {
      dest = omega (arith, h.dest, h.left, call.dest_fits);
      left = omega (arith, h.left);
      done = λ a lo hi. elim (dec_lt a d) [
        | yes q ↦
            let t : (leb d a && ltb a (d + 8)) ≡ false = ground arith in
            rw t (h.done a lo (omega (arith, h.dest)))
        | no q ↦
            let t : (leb d a && ltb a (d + 8)) ≡ true = ground (arith, h.dest) in
            let f : a - d0 + s0 ≡ s0 + c + (a - d) = omega (arith, h.dest) in
            rw (t, f) (e (a - d) (omega (arith, h.dest)))
      ];
      below = λ a lt.
          let t : (leb d a && ltb a (d + 8)) ≡ false = ground (arith, h.dest) in
          rw t (h.below a lt);
      above = λ a lt.
          let t : (leb d a && ltb a (d + 8)) ≡ false = ground (arith, h.dest) in
          rw t (h.above a (omega arith));
    }

    -- The bytes of the word at x, where they are still to be copied.
    pub read-source :
        (x i : ℕ) → s0 ≤ x → i < 8 → x + i < s0 + size → byte i (read_u64 mem x) ≡ m0 (x + i)
    read-source x i lo lt hi = byte-read mem bytes-now 8 x i lt ∙ source (x + i) (omega arith) hi
