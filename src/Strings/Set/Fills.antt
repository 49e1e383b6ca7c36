-- ===== src/Strings/Set/Fills.antt =====
-- `memset` fills its region and writes nothing else.
use mini_libc.Base.{
  ℕ, zero, suc, ◌+◌, ◌-◌, ◌*◌, ◌/◌, ◌^◌, ◌≤◌, ◌<◌, ◌≡◌, ◌≢◌, inl, inr, refl, ap, ◌∙◌, bit_and,
  arith, ◌||◌, ◌&&◌, leb, ltb, ◌==◌, ==_true, if◌then◌else◌, true, false, Bool-cases, update_ne,
}
use native.Mathlib.Decide.{ℕ_discrete, dec_lt}
use mini_libc.Bits.Words.{u64}
use mini_libc.Strings.{Bytes}
use mini_libc.Strings.Copy.{byte, write_u64}
use mini_libc.Strings.Set.{
  FillState, set_byte, set_word, set_head, set_words, set_tail, c_long, memset,
}

-- k bytes c, the lowest first.
unfoldable repeated : ℕ → ℕ → ℕ
repeated zero c = 0
repeated (suc k) c = c + 256 * repeated k c

byte-repeated : (k c i : ℕ) → c < 256 → i < k → byte i (repeated k c) ≡ c
unfolding byte repeated
byte-repeated zero c i small lt = absurd (omega arith)
byte-repeated (suc k) c zero small lt = omega arith
byte-repeated (suc k) c (suc i) small lt =
    let q : (c + 256 * repeated k c) / 256 ≡ repeated k c = omega arith in
    rw q (byte-repeated k c i small (omega arith))

c_long-repeated : (c : ℕ) → c < 256 → c_long c ≡ repeated 8 c
unfolding c_long repeated
c_long-repeated c small = omega arith

-- c bytes from d0 are set to v.
record IsFilled (m0 : Bytes) (d0 size v : ℕ) (z : FillState) : Type 0 where
  count : ℕ
  dest : z.d ≡ d0 + count
  left : z.n + count ≡ size
  done : (a : ℕ) → d0 ≤ a → a < z.d → z.mem a ≡ v
  below : (a : ℕ) → a < d0 → z.mem a ≡ m0 a
  above : (a : ℕ) → z.d ≤ a → z.mem a ≡ m0 a

set_words-left : (k v : ℕ) (z : FillState) → z.n < 8 * k + 8 → (set_words k v z).n < 8
unfolding set_words
set_words-left zero v z lt = omega arith
set_words-left (suc k) v z lt = elim (Bool-cases (ltb z.n 8)) [
  | inl t ↦ rw t (ground (arith, t))
  | inr t ↦ rw t (set_words-left k v _ (ground (arith, t)))
]

set_tail-left : (k v : ℕ) (z : FillState) → z.n ≤ k → (set_tail k v z).n ≡ 0
unfolding set_tail
set_tail-left zero v z lt = omega arith
set_tail-left (suc k) v z lt = elim (Bool-cases (z.n == 0)) [
  | inl t ↦ rw t (ground (arith, t))
  | inr t ↦ rw t (set_tail-left k v _ (ground (arith, t)))
]

module _ (m0 : Bytes) (d0 size v : ℕ) (fits : d0 + size < 2 ^ 64) where
  set_byte-IsFilled :
      (z : FillState) → IsFilled m0 d0 size v z → z.n ≢ 0 → IsFilled m0 d0 size v (set_byte v z)
  set_byte-IsFilled z h ne =
      let next : u64 (z.d + 1) ≡ z.d + 1 = omega (arith, h.dest, h.left) in
      record {
        count = h.count + 1;
        dest = omega (arith, next, h.dest);
        left = omega (arith, h.left);
        done = λ a lo hi. elim (ℕ_discrete a z.d) [
          | yes q ↦ rw (==_true a z.d q) refl
          | no q ↦ update_ne z.mem z.d a v q ∙ h.done a lo (omega (arith, next))
        ];
        below = λ a lt. update_ne z.mem z.d a v (omega (arith, h.dest)) ∙ h.below a lt;
        above =
            λ a le. update_ne z.mem z.d a v (omega (arith, next)) ∙ h.above a (omega (arith, next));
      }

  set_word-IsFilled :
      (w : ℕ) (z : FillState)
      → ((i : ℕ) → i < 8 → byte i w ≡ v)
      → IsFilled m0 d0 size v z
      → 8 ≤ z.n
      → IsFilled m0 d0 size v (set_word w z)
  unfolding write_u64
  set_word-IsFilled w z e h ge =
      let next : u64 (z.d + 8) ≡ z.d + 8 = omega (arith, h.dest, h.left) in
      record {
        count = h.count + 8;
        dest = omega (arith, next, h.dest);
        left = omega (arith, h.left);
        done = λ a lo hi. elim (dec_lt a z.d) [
          | yes q ↦
              let t : (leb z.d a && ltb a (z.d + 8)) ≡ false = ground arith in rw t (h.done a lo q)
          | no q ↦
              let t : (leb z.d a && ltb a (z.d + 8)) ≡ true = ground (arith, next) in
              rw t (e (a - z.d) (omega (arith, next)))
        ];
        below = λ a lt.
            let t : (leb z.d a && ltb a (z.d + 8)) ≡ false = ground (arith, h.dest) in
            rw t (h.below a lt);
        above = λ a le.
            let t : (leb z.d a && ltb a (z.d + 8)) ≡ false = ground (arith, next) in
            rw t (h.above a (omega (arith, next)));
      }

  set_head-IsFilled :
      (k : ℕ) (z : FillState) → IsFilled m0 d0 size v z → IsFilled m0 d0 size v (set_head k v z)
  unfolding set_head
  set_head-IsFilled zero z h = h
  set_head-IsFilled (suc k) z h = elim (Bool-cases ((z.n == 0) || (bit_and z.d 7 == 0))) [
    | inl t ↦ rw t h
    | inr t ↦ rw t (set_head-IsFilled k _ (set_byte-IsFilled z h (ground (arith, t))))
  ]

  set_words-IsFilled :
      (w k : ℕ) (z : FillState)
      → ((i : ℕ) → i < 8 → byte i w ≡ v)
      → IsFilled m0 d0 size v z
      → IsFilled m0 d0 size v (set_words k w z)
  unfolding set_words
  set_words-IsFilled w zero z e h = h
  set_words-IsFilled w (suc k) z e h = elim (Bool-cases (ltb z.n 8)) [
    | inl t ↦ rw t h
    | inr t ↦ rw t (set_words-IsFilled w k _ e (set_word-IsFilled w z e h (ground (arith, t))))
  ]

  set_tail-IsFilled :
      (k : ℕ) (z : FillState) → IsFilled m0 d0 size v z → IsFilled m0 d0 size v (set_tail k v z)
  unfolding set_tail
  set_tail-IsFilled zero z h = h
  set_tail-IsFilled (suc k) z h = elim (Bool-cases (z.n == 0)) [
    | inl t ↦ rw t h
    | inr t ↦ rw t (set_tail-IsFilled k _ (set_byte-IsFilled z h (ground (arith, t))))
  ]

-- A region of `size` bytes below 2 ^ 64 that memset sets to the byte v holds v at each of its
-- addresses, and every other address holds what it did.
pub memset-fills :
    (m0 : Bytes) (d0 size v : ℕ)
    → d0 + size < 2 ^ 64
    → v < 256
    → (a : ℕ) → memset m0 d0 v size a ≡ (if leb d0 a && ltb a (d0 + size) then v else m0 a)
unfolding memset
memset-fills m0 d0 size v fits small a =
    let start : IsFilled m0 d0 size v (record { mem = m0; d = d0; n = size }) = record {
      count = 0;
      dest = omega arith;
      left = omega arith;
      done = λ b lo hi. absurd (omega arith);
      below = λ b lt. refl;
      above = λ b le. refl;
    } in
    let y = set_head 8 v (record { mem = m0; d = d0; n = size }) in
    let x = set_words (y.n / 8) (c_long v) y in
    let e = λ (i : ℕ) (lt : i < 8).
      ap (byte i) (c_long-repeated v small) ∙ byte-repeated 8 v i small lt in
    let r = set_tail-IsFilled m0 d0 size v fits 8 x (
      set_words-IsFilled m0 d0 size v fits (c_long v) (y.n / 8) y e
        (set_head-IsFilled m0 d0 size v fits 8 _ start)) in
    let few = set_words-left (y.n / 8) (c_long v) y (omega arith) in
    let empty = set_tail-left 8 v x (omega (arith, few)) in
    elim (dec_lt a d0) [
      | yes l ↦ let t : (leb d0 a && ltb a (d0 + size)) ≡ false = ground arith in rw t (r.below a l)
      | no l ↦ elim (dec_lt a (d0 + size)) [
        | yes m ↦
            let t : (leb d0 a && ltb a (d0 + size)) ≡ true = ground arith in
            rw t (r.done a (omega arith) (omega (arith, r.dest, r.left, empty)))
        | no m ↦
            let t : (leb d0 a && ltb a (d0 + size)) ≡ false = ground arith in
            rw t (r.above a (omega (arith, r.dest, r.left, empty)))
      ]
    ]
