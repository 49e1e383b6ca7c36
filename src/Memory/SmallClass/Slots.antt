-- ===== src/Memory/SmallClass/Slots.antt =====
-- The free slots of a block of small_class.c, and the bitmap of a new block.
use native.Mathlib.Nat.{one-le-pow}
use native.Mathlib.Decide.{dec_le}
use mini_libc.Base.{
  ℕ, zero, suc, ◌+◌, ◌-◌, ◌*◌, ◌/◌, ◌%◌, ◌^◌, ◌≤◌, ◌<◌, ◌≡◌, ◌≢◌, sym, ◌∙◌, not, inl, inr, ◌&&◌,
  ltb, leb, arith, ◌==◌, if◌then◌else◌, Bool-cases,
}
use mini_libc.Bits.{bit, bit_le_one, bit-zero}
use mini_libc.Bits.Words.{bit-bit_not}
use mini_libc.Bits.Count.{total, total-full, total-same}
use mini_libc.Links.{Ptr}
use mini_libc.Memory.SmallClass.{set_word, fill_words, fill_bitmap}

-- Slot j of the block p is free in a bitmap: 1, else 0.
unfoldable pub slot_free : (ℕ → Ptr → ℕ) → Ptr → ℕ → ℕ
slot_free bitmap p j = bit (bitmap (j / 64) p) (j % 64)

pub slot_free_le_one : (b : ℕ → Ptr → ℕ) (p : Ptr) (j : ℕ) → slot_free b p j ≤ 1
unfolding slot_free
slot_free_le_one b p j = bit_le_one (j % 64) (b (j / 64) p)

-- The counter of a block of n slots is the number of its free ones, and the rest of the last word
-- of its bitmap is 0.
pub record IsCounted (bitmap : ℕ → Ptr → ℕ) (avail_num : Ptr → ℕ) (p : Ptr) (n : ℕ) : Type 0 where
  pub counted : avail_num p ≡ total n (slot_free bitmap p)
  pub spare : (j : ℕ) → n ≤ j → j < 64 * ((n - 1) / 64 + 1) → slot_free bitmap p j ≡ 0

-- The count of a block hangs on nothing else than its slots and its counter.
pub IsCounted-same :
    (b b' : ℕ → Ptr → ℕ) (a a' : Ptr → ℕ) (p : Ptr) (n : ℕ)
    → ((j : ℕ) → slot_free b' p j ≡ slot_free b p j)
    → a' p ≡ a p
    → IsCounted b a p n
    → IsCounted b' a' p n
IsCounted-same b b' a a' p n slots e c = record {
  counted = e ∙ c.counted ∙ sym (total-same n (slot_free b p) (slot_free b' p) (λ j lt. slots j));
  spare = λ j lo hi. slots j ∙ c.spare j lo hi;
}

fill_words-eq :
    (n i : ℕ) (p : Ptr) (b : ℕ → Ptr → ℕ) (j : ℕ) (q : Ptr)
    → fill_words n i p b j q ≡ (if (q == p) && leb i j && ltb j (i + n) then 2 ^ 64 - 1 else b j q)
unfolding fill_words
fill_words-eq zero i p b j q = ground arith
fill_words-eq (suc n) i p b j q =
    rw (fill_words-eq n (i + 1) p (set_word i p (2 ^ 64 - 1) b) j q) (ground arith)

-- `~ 0ull` has all digits 1, and `(1ull << r) - 1` the first r.
bit-ones : (r i : ℕ) → bit (2 ^ r - 1) i ≡ (if ltb i r then 1 else 0)
bit-ones r i = ground (arith, bit-bit_not r 0 i (one-le-pow r 2 (omega arith)), bit-zero i)

fill_bitmap-eq :
    (n : ℕ) (p : Ptr) (b : ℕ → Ptr → ℕ) (w : ℕ) (q : Ptr)
    → fill_bitmap n p b w q ≡ (
        if (q == p) && leb (64 * w + 64) n
        then 2 ^ 64 - 1
        else (if (q == p) && ((w == n / 64) && not (n % 64 == 0)) then 2 ^ (n % 64) - 1 else b w q))
unfolding fill_bitmap
fill_bitmap-eq n p b w q = elim (Bool-cases (n % 64 == 0)) [
  | inl e ↦ rw (e, fill_words-eq (n / 64) 0 p b w q) (ground arith)
  | inr e ↦
      rw e
        (ground (arith, fill_words-eq (n / 64) 0 p b w q, fill_words-eq (n / 64) 0 p b (n / 64) q))
]

-- Of a new block the first n slots are free, and the rest of the last word is 0.
fill_bitmap-slots :
    (n : ℕ) (p : Ptr) (b : ℕ → Ptr → ℕ) (j : ℕ)
    → n ≢ 0
    → j < 64 * ((n - 1) / 64 + 1)
    → slot_free (fill_bitmap n p b) p j ≡ (if ltb j n then 1 else 0)
unfolding fill_bitmap slot_free
fill_bitmap-slots n p b j pos lt = elim (dec_le (64 * (j / 64) + 64) n) [
  | yes full ↦ rw (fill_bitmap-eq n p b (j / 64) p) (ground (arith, bit-ones 64 (j % 64)))
  | no rest ↦ rw (fill_bitmap-eq n p b (j / 64) p) (ground (arith, bit-ones (n % 64) (j % 64)))
]

pub fill_bitmap-IsCounted :
    (n : ℕ) (p : Ptr) (b : ℕ → Ptr → ℕ) (avail_num : Ptr → ℕ)
    → n ≢ 0
    → avail_num p ≡ n
    → IsCounted (fill_bitmap n p b) avail_num p n
fill_bitmap-IsCounted n p b avail_num pos e = record {
  counted =
      e
      ∙ sym (
          total-full n (slot_free (fill_bitmap n p b) p)
            (λ j lt. ground (arith, fill_bitmap-slots n p b j pos (omega arith))));
  spare = λ j le lt. ground (arith, fill_bitmap-slots n p b j pos lt);
}

-- The other blocks keep their slots.
pub fill_bitmap-other :
    (n : ℕ) (p : Ptr) (b : ℕ → Ptr → ℕ) (q : Ptr) (j : ℕ)
    → q ≢ p
    → slot_free (fill_bitmap n p b) q j ≡ slot_free b q j
unfolding fill_bitmap slot_free
fill_bitmap-other n p b q j ne = rw (fill_bitmap-eq n p b (j / 64) q) (ground arith)
