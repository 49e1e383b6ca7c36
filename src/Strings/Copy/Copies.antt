-- ===== src/Strings/Copy/Copies.antt =====
-- `memcpy` as a whole: the loops in the order of the code.
use mini_libc.Base.{
  ℕ, zero, suc, ◌+◌, ◌-◌, ◌*◌, ◌/◌, ◌%◌, ◌^◌, ◌≤◌, ◌<◌, ◌≡◌, ◌≢◌, ◌⊎◌, inl, inr, refl, ap, ◌∙◌,
  bit_and, arith, ◌||◌, ◌&&◌, leb, ltb, ◌==◌, if◌then◌else◌, true, false, Bool-cases,
}
use native.Mathlib.Decide.{dec_lt}
use mini_libc.Bits.Words.{u64, u32}
use mini_libc.Bits.Masks.{bit_and_mask}
use mini_libc.Strings.{Bytes, read_u64}
use mini_libc.Strings.Copy.{
  byte, CopyState, copy_head, copy_words, store_bytes, merge, copy_last, copy_aligned,
  copy_unaligned, memcpy,
}
use mini_libc.Strings.Copy.Byte.{byte-read_above}
use mini_libc.Strings.Copy.Copied.{IsCall, Copied, bytes-now, read-source}
use mini_libc.Strings.Copy.Loops.{
  Reached, copy_head-Reached, copy_words-Reached, Stored, store_bytes-Stored,
}
use mini_libc.Strings.Copy.Shifted.{Buffered, copy_shifted-Buffered, copy_shifted-left, last_word}

-- What a call of `memcpy` leaves in the memory.
unfoldable pub copy_of : Bytes → ℕ → ℕ → ℕ → Bytes
copy_of m0 d0 s0 size a = if leb d0 a && ltb a (d0 + size) then m0 (a - d0 + s0) else m0 a

-- The first loop of `memcpy`, from an address z.s that takes k steps at most to become a multiple of
-- 8, where no address passes 2 ^ 64, ends with nothing left to copy or at a multiple of 8.
pub copy_head-aligned :
    (k : ℕ) (z : CopyState)
    → z.s + k < 2 ^ 64
    → (z.s % 8 ≡ 0) ⊎ (8 ≤ z.s % 8 + k)
    → ((copy_head k z).n ≡ 0) ⊎ ((copy_head k z).s % 8 ≡ 0)
unfolding copy_head
copy_head-aligned zero z fits (inl e) = inr e
copy_head-aligned zero z fits (inr le) = absurd (omega (arith, le))
copy_head-aligned (suc k) z fits h =
    let m : bit_and z.s 7 ≡ z.s % 8 = bit_and_mask 3 z.s in
    elim (Bool-cases ((z.n == 0) || (bit_and z.s 7 == 0))) [
      | inl t ↦ rw t (ground (arith, t, m))
      | inr t ↦ rw t (copy_head-aligned k _ (omega arith) (ground (arith, t, m, h)))
    ]

copy_words-left : (k : ℕ) (z : CopyState) → z.n < 8 * k + 8 → (copy_words k z).n < 8
unfolding copy_words
copy_words-left zero z lt = omega arith
copy_words-left (suc k) z lt = elim (Bool-cases (ltb z.n 8)) [
  | inl t ↦ rw t (ground (arith, t))
  | inr t ↦ rw t (copy_words-left k _ (ground (arith, t)))
]

module _ (m0 : Bytes) (d0 s0 size : ℕ) (call : IsCall m0 d0 s0 size) where
  finished :
      (c : ℕ) (mem : Bytes) (d n : ℕ)
      → Copied m0 d0 s0 size c mem d n
      → n ≡ 0
      → (a : ℕ) → mem a ≡ copy_of m0 d0 s0 size a
  unfolding copy_of
  finished c mem d n h e a = elim (dec_lt a d0) [
    | yes l ↦ let t : (leb d0 a && ltb a (d0 + size)) ≡ false = ground arith in rw t (h.below a l)
    | no l ↦ elim (dec_lt a (d0 + size)) [
      | yes m ↦
          let t : (leb d0 a && ltb a (d0 + size)) ≡ true = ground arith in
          rw t (h.done a (omega arith) (omega (arith, h.left)))
      | no m ↦
          let t : (leb d0 a && ltb a (d0 + size)) ≡ false = ground arith in
          rw t (h.above a (omega (arith, h.left)))
    ]
  ]

  -- The 8 bytes at the source pointer, as a buffer.
  buffer_at :
      (z : CopyState) (r : Reached m0 d0 s0 size z) (i : ℕ)
      → i < 8
      → r.count + i < size
      → byte i (read_u64 z.mem z.s) ≡ m0 (s0 + r.count + i)
  buffer_at z r i lt hi =
      read-source m0 d0 s0 size call r.count z.mem z.d z.n r.copied z.s i (omega (arith, r.next)) lt
        (omega (arith, r.next))
      ∙ ap (λ x. m0 (x + i)) r.next

  copy_aligned-copies :
      (z : CopyState)
      → Reached m0 d0 s0 size z
      → (a : ℕ) → (copy_aligned z).mem a ≡ copy_of m0 d0 s0 size a
  unfolding copy_aligned
  copy_aligned-copies z r a =
      let w = copy_words (z.n / 8) z in
      let q = copy_words-Reached m0 d0 s0 size call (z.n / 8) z r in
      let few = copy_words-left (z.n / 8) z (omega arith) in
      let st =
        store_bytes-Stored m0 d0 s0 size call 8 (read_u64 w.mem w.s) q.count w q.copied
          (buffer_at w q) in
      elim (Bool-cases (w.n == 0)) [
        | inl t ↦ rw t (finished q.count w.mem w.d w.n q.copied (ground (arith, t)) a)
        | inr t ↦ rw t (finished st.count _ _ _ st.copied (omega (arith, st.left, few)) a)
      ]

  module _ (off : ℕ) (off_lt : off < 8) where
    copy_last-copies :
        (buf : ℕ) (z : CopyState)
        → Buffered m0 d0 s0 size off buf z
        → z.n < 8
        → (a : ℕ) → (copy_last off buf z).mem a ≡ copy_of m0 d0 s0 size a
    unfolding copy_last
    copy_last-copies buf z h few a =
        let v = merge off buf (if leb z.n off then 0 else read_u64 z.mem z.s) in
        let st =
          store_bytes-Stored m0 d0 s0 size call 8 v h.count z h.copied
            (last_word m0 d0 s0 size call off off_lt buf z h) in
        elim (Bool-cases (z.n == 0)) [
          | inl t ↦ rw t (finished h.count z.mem z.d z.n h.copied (ground (arith, t)) a)
          | inr t ↦ rw t (finished st.count _ _ _ st.copied (omega (arith, st.left, few)) a)
        ]

    -- After the destination is aligned, the buffer holds the rest of its word.
    aligned-Buffered :
        (z : CopyState) (r : Reached m0 d0 s0 size z) (t : ℕ × CopyState)
        → Stored m0 d0 s0 size (8 - off) (read_u64 z.mem z.s) z t
        → t.1.n ≢ 0
        → Buffered m0 d0 s0 size off t.0 (record t.1 { s = u64 (t.1.s + 8) })
    aligned-Buffered z r t st ne = record {
      count = st.count;
      copied = st.copied;
      next =
          omega (arith, st.next, st.left, st.copied.left, r.next, r.copied.left, call.source_fits);
      held = λ i lt hi.
          let q : s0 + r.count + (i + (8 - off)) ≡ s0 + st.count + i =
            omega (arith, st.left, st.copied.left, r.copied.left) in
          st.kept (omega (arith, st.left)) i
          ∙ buffer_at z r (i + (8 - off)) (omega arith)
              (omega (arith, st.left, st.copied.left, r.copied.left))
          ∙ ap m0 q;
      rest = λ i le.
          st.kept (omega (arith, st.left)) i
          ∙ byte-read_above z.mem (bytes-now m0 d0 s0 size call r.count z.mem z.d z.n r.copied) 8
              z.s (i + (8 - off)) (omega arith);
    }

  copy_unaligned-copies :
      (z : CopyState)
      → Reached m0 d0 s0 size z
      → (a : ℕ) → (copy_unaligned z).mem a ≡ copy_of m0 d0 s0 size a
  unfolding copy_unaligned
  copy_unaligned-copies z r a =
      let off = u32 (bit_and z.d 7) in
      let off_lt : u32 (bit_and z.d 7) < 8 = omega (arith, bit_and_mask 3 z.d) in
      let t = store_bytes (8 - off) (read_u64 z.mem z.s) z in
      let st =
        store_bytes-Stored m0 d0 s0 size call (8 - off) (read_u64 z.mem z.s) r.count z r.copied
          λ i lt. buffer_at z r i (omega (arith, lt)) in
      elim (Bool-cases (t.1.n == 0)) [
        | inl e ↦ rw e (finished st.count _ _ _ st.copied (ground (arith, e)) a)
        | inr e ↦
            let y = record t.1 { s = u64 (t.1.s + 8) } in
            let b = aligned-Buffered off off_lt z r t st (ground (arith, e)) in
            rw e (
              copy_last-copies off off_lt _ _
                (copy_shifted-Buffered m0 d0 s0 size call off off_lt (t.1.n / 8) t.0 y b)
                (copy_shifted-left m0 d0 s0 size call off off_lt (t.1.n / 8) t.0 y (omega arith)) a)
      ]

  -- Where the source and the destination do not overlap, hold bytes and stay 16 below 2 ^ 64, memcpy
  -- leaves the bytes of the source in the destination and every other address as it was.
  pub memcpy-copies : (a : ℕ) → memcpy m0 d0 s0 size a ≡ copy_of m0 d0 s0 size a
  unfolding memcpy
  memcpy-copies a =
      let start : Reached m0 d0 s0 size (record { mem = m0; s = s0; d = d0; n = size }) = record {
        count = 0;
        copied = record {
          dest = omega arith;
          left = omega arith;
          done = λ b lo hi. absurd (omega arith);
          below = λ b lt. refl;
          above = λ b le. refl;
        };
        next = omega arith;
      } in
      let z = copy_head 8 (record { mem = m0; s = s0; d = d0; n = size }) in
      let r = copy_head-Reached m0 d0 s0 size call 8 _ start in
      elim (Bool-cases (z.n == 0)) [
        | inl t ↦ rw t (finished r.count z.mem z.d z.n r.copied (ground (arith, t)) a)
        | inr t ↦ rw t (elim (Bool-cases (bit_and z.d 7 == 0)) [
          | inl e ↦ rw e (copy_aligned-copies z r a)
          | inr e ↦ rw e (copy_unaligned-copies z r a)
        ])
      ]
