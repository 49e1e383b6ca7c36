-- ===== src/Strings/Copy/Loops.antt =====
-- The loops of `memcpy`, each from a state in which c bytes are copied.
use mini_libc.Base.{
  ℕ, zero, suc, ◌+◌, ◌-◌, ◌/◌, ◌≤◌, ◌<◌, ◌≡◌, ◌≢◌, inl, inr, refl, ap, ◌∙◌, bit_and, arith, ◌||◌,
  ltb, ◌==◌, Bool-cases,
}
use mini_libc.Bits.Words.{u64}
use mini_libc.Bits.Masks.{bit_and_mask}
use mini_libc.Strings.{Bytes, read_u64}
use mini_libc.Strings.Copy.{byte, CopyState, put_byte, put_word, copy_head, copy_words, store_bytes}
use mini_libc.Strings.Copy.Copied.{
  IsCall, Copied, source, put_byte-Copied, put_word-Copied, read-source,
}

pub record Reached (m0 : Bytes) (d0 s0 size : ℕ) (z : CopyState) : Type 0 where
  pub count : ℕ
  pub copied : Copied m0 d0 s0 size count z.mem z.d z.n
  pub next : z.s ≡ s0 + count

module _ (m0 : Bytes) (d0 s0 size : ℕ) (call : IsCall m0 d0 s0 size) where
  pub head_step :
      (z : CopyState)
      → Reached m0 d0 s0 size z
      → z.n ≢ 0
      → Reached m0 d0 s0 size (record (put_byte (z.mem z.s) z) { s = u64 (z.s + 1) })
  head_step z r ne = record {
    count = r.count + 1;
    copied = put_byte-Copied m0 d0 s0 size call r.count z.mem z.d z.n r.copied (z.mem z.s) ne (
        source m0 d0 s0 size call r.count z.mem z.d z.n r.copied z.s (omega (arith, r.next))
          (omega (arith, r.next, r.copied.left))
        ∙ ap m0 r.next);
    next = omega (arith, r.next, r.copied.left, call.source_fits);
  }

  pub copy_head-Reached :
      (k : ℕ) (z : CopyState) → Reached m0 d0 s0 size z → Reached m0 d0 s0 size (copy_head k z)
  unfolding copy_head
  copy_head-Reached zero z r = r
  copy_head-Reached (suc k) z r = elim (Bool-cases ((z.n == 0) || (bit_and z.s 7 == 0))) [
    | inl t ↦ rw t r
    | inr t ↦ rw t (copy_head-Reached k _ (head_step z r (ground (arith, t))))
  ]

  pub word_step :
      (z : CopyState)
      → Reached m0 d0 s0 size z
      → 8 ≤ z.n
      → Reached m0 d0 s0 size (put_word (read_u64 z.mem z.s) z)
  word_step z r le = record {
    count = r.count + 8;
    copied =
        put_word-Copied m0 d0 s0 size call r.count z.mem z.d z.n r.copied (read_u64 z.mem z.s) le
          λ i lt.
            read-source m0 d0 s0 size call r.count z.mem z.d z.n r.copied z.s i
              (omega (arith, r.next)) lt (omega (arith, r.next, r.copied.left))
            ∙ ap (λ x. m0 (x + i)) r.next;
    next = omega (arith, r.next, r.copied.left, call.source_fits);
  }

  pub copy_words-Reached :
      (k : ℕ) (z : CopyState) → Reached m0 d0 s0 size z → Reached m0 d0 s0 size (copy_words k z)
  unfolding copy_words
  copy_words-Reached zero z r = r
  copy_words-Reached (suc k) z r = elim (Bool-cases (ltb z.n 8)) [
    | inl t ↦ rw t r
    | inr t ↦ rw t (copy_words-Reached k _ (word_step z r (ground (arith, t))))
  ]

pub record Stored (m0 : Bytes) (d0 s0 size k buf : ℕ) (z : CopyState) (r : ℕ × CopyState)
    : Type 0 where
  pub count : ℕ
  pub copied : Copied m0 d0 s0 size count r.1.mem r.1.d r.1.n
  pub left : r.1.n ≡ z.n - k
  pub kept : k ≤ z.n → (i : ℕ) → byte i r.0 ≡ byte (i + k) buf
  pub next : r.1.s ≡ z.s

module _ (m0 : Bytes) (d0 s0 size : ℕ) (call : IsCall m0 d0 s0 size) where
  pub store_bytes-Stored :
      (k buf c : ℕ) (z : CopyState)
      → Copied m0 d0 s0 size c z.mem z.d z.n
      → ((i : ℕ) → i < k → c + i < size → byte i buf ≡ m0 (s0 + c + i))
      → Stored m0 d0 s0 size k buf z (store_bytes k buf z)
  unfolding store_bytes byte
  store_bytes-Stored zero buf c z h e = record {
    count = c;
    copied = h;
    left = omega arith;
    kept = λ le i. let q : i ≡ i + 0 = omega arith in ap (λ x. byte x buf) q;
    next = refl;
  }
  store_bytes-Stored (suc k) buf c z h e = elim (Bool-cases (z.n == 0)) [
    | inl t ↦ rw t (record {
      count = c;
      copied = h;
      left = ground (arith, t);
      kept = λ le. absurd (ground (arith, t, le));
      next = refl;
    })
    | inr t ↦
        let q : s0 + c + 0 ≡ s0 + c = omega arith in
        let first : bit_and buf 255 ≡ m0 (s0 + c) =
          bit_and_mask 8 buf ∙ e 0 (omega arith) (ground (arith, t, h.left)) ∙ ap m0 q in
        let rest =
          store_bytes-Stored k (buf / 256) (c + 1) (put_byte (bit_and buf 255) z)
            (put_byte-Copied m0 d0 s0 size call c z.mem z.d z.n h (bit_and buf 255)
              (ground (arith, t)) first)
            (λ i lt hi.
              let q : s0 + c + suc i ≡ s0 + (c + 1) + i = omega arith in
              e (suc i) (omega arith) (omega arith) ∙ ap m0 q) in
        rw t (record {
          count = rest.count;
          copied = rest.copied;
          left = omega (arith, rest.left);
          kept = λ le i.
              rest.kept (omega arith) i
              ∙ (let q : suc (i + k) ≡ i + suc k = omega arith in ap (λ x. byte x buf) q);
          next = rest.next;
        })
  ]
