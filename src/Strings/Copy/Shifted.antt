-- ===== src/Strings/Copy/Shifted.antt =====
-- The loop of `memcpy` that puts a word together from two words of the source.
use mini_libc.Base.{
  ℕ, zero, suc, ◌+◌, ◌-◌, ◌*◌, ◌/◌, ◌^◌, ◌≤◌, ◌<◌, ◌≡◌, inl, inr, ap, ◌∙◌, arith, leb, ltb,
  if◌then◌else◌, true, false, Bool-cases,
}
use native.Mathlib.Decide.{dec_lt, dec_le}
use mini_libc.Strings.{Bytes, read_u64}
use mini_libc.Strings.Copy.{byte, CopyState, put_word, merge, copy_shifted}
use mini_libc.Strings.Copy.Byte.{byte-read_above, byte-shift_right, byte-merge, pow_256}
use mini_libc.Strings.Copy.Copied.{IsCall, Copied, bytes-now, put_word-Copied, read-source}

-- The buffer holds the next off bytes, and the source pointer is past them.
pub record Buffered (m0 : Bytes) (d0 s0 size off buf : ℕ) (z : CopyState) : Type 0 where
  pub count : ℕ
  pub copied : Copied m0 d0 s0 size count z.mem z.d z.n
  pub next : z.s ≡ s0 + count + off
  pub held : (i : ℕ) → i < off → count + i < size → byte i buf ≡ m0 (s0 + count + i)
  pub rest : (i : ℕ) → off ≤ i → byte i buf ≡ 0

module _ (m0 : Bytes) (d0 s0 size : ℕ) (call : IsCall m0 d0 s0 size) (off : ℕ)
    (off_lt : off < 8) where
  module _ (buf : ℕ) (z : CopyState) (h : Buffered m0 d0 s0 size off buf z) where
    read_next :
        (i : ℕ)
        → i < 8
        → h.count + off + i < size
        → byte i (read_u64 z.mem z.s) ≡ m0 (s0 + h.count + off + i)
    read_next i lt hi =
        read-source m0 d0 s0 size call h.count z.mem z.d z.n h.copied z.s i (omega (arith, h.next))
          lt (omega (arith, h.next))
        ∙ ap (λ x. m0 (x + i)) h.next

    merged_word :
        (i : ℕ)
        → i < 8
        → h.count + i < size
        → byte i (merge off buf (read_u64 z.mem z.s)) ≡ m0 (s0 + h.count + i)
    merged_word i lt hi =
        byte-merge off buf (read_u64 z.mem z.s) i lt h.rest ∙ elim (dec_lt i off) [
          | yes below ↦ let t : ltb i off ≡ true = ground arith in rw t (h.held i below hi)
          | no above ↦
              let t : ltb i off ≡ false = ground arith in
              let q : s0 + h.count + off + (i - off) ≡ s0 + h.count + i = omega arith in
              rw t (read_next (i - off) (omega arith) (omega arith) ∙ ap m0 q)
        ]

    shifted_buffer :
        (i : ℕ)
        → byte i (read_u64 z.mem z.s / 2 ^ (8 * (8 - off)))
          ≡ byte (i + (8 - off)) (read_u64 z.mem z.s)
    shifted_buffer i = rw (pow_256 (8 - off)) (byte-shift_right (8 - off) i (read_u64 z.mem z.s))

    shifted_step :
        8 ≤ z.n
        → Buffered m0 d0 s0 size off
            (read_u64 z.mem z.s / 2 ^ (8 * (8 - off)))
            (put_word (merge off buf (read_u64 z.mem z.s)) z)
    shifted_step le = record {
      count = h.count + 8;
      copied =
          put_word-Copied m0 d0 s0 size call h.count z.mem z.d z.n h.copied
            (merge off buf (read_u64 z.mem z.s)) le
            (λ i lt. merged_word i lt (omega (arith, h.copied.left)));
      next = omega (arith, h.next, h.copied.left, call.source_fits);
      held = λ i lt hi.
          let q : s0 + h.count + off + (i + (8 - off)) ≡ s0 + (h.count + 8) + i = omega arith in
          shifted_buffer i ∙ read_next (i + (8 - off)) (omega arith) (omega arith) ∙ ap m0 q;
      rest = λ i le'.
          shifted_buffer i
          ∙ byte-read_above z.mem (bytes-now m0 d0 s0 size call h.count z.mem z.d z.n h.copied) 8
              z.s (i + (8 - off)) (omega arith);
    }

  pub copy_shifted-Buffered :
      (k buf : ℕ) (z : CopyState)
      → Buffered m0 d0 s0 size off buf z
      → Buffered m0 d0 s0 size off (copy_shifted k off buf z).0 (copy_shifted k off buf z).1
  unfolding copy_shifted
  copy_shifted-Buffered zero buf z h = h
  copy_shifted-Buffered (suc k) buf z h = elim (Bool-cases (ltb z.n 8)) [
    | inl t ↦ rw t h
    | inr t ↦ rw t (copy_shifted-Buffered k _ _ (shifted_step buf z h (ground (arith, t))))
  ]

  pub copy_shifted-left :
      (k buf : ℕ) (z : CopyState) → z.n < 8 * k + 8 → (copy_shifted k off buf z).1.n < 8
  unfolding copy_shifted
  copy_shifted-left zero buf z lt = omega arith
  copy_shifted-left (suc k) buf z lt = elim (Bool-cases (ltb z.n 8)) [
    | inl t ↦ rw t (ground (arith, t))
    | inr t ↦ rw t (copy_shifted-left k _ _ (ground (arith, t)))
  ]

  pub last_word :
      (buf : ℕ) (z : CopyState) (h : Buffered m0 d0 s0 size off buf z) (i : ℕ)
      → i < 8
      → h.count + i < size
      → byte i (merge off buf (if leb z.n off then 0 else read_u64 z.mem z.s))
        ≡ m0 (s0 + h.count + i)
  last_word buf z h i lt hi = elim (dec_le z.n off) [
    | yes le ↦
        let t : leb z.n off ≡ true = ground arith in
        let below : ltb i off ≡ true = ground (arith, h.copied.left) in
        rw t
          (byte-merge off buf 0 i lt h.rest ∙ rw below (h.held i (omega (arith, h.copied.left)) hi))
    | no gt ↦ let t : leb z.n off ≡ false = ground arith in rw t (merged_word buf z h i lt hi)
  ]
