-- ===== src/Memory/SmallClass/Take.antt =====
-- The loop of `small_alloc` over the words of the bitmap, and the slot that it takes.
use mini_libc.Base.{
  ℕ, zero, suc, ◌+◌, ◌-◌, ◌*◌, ◌/◌, ◌%◌, ◌≤◌, ◌<◌, ◌≡◌, ◌≢◌, ◌⊎◌, refl, ◌∙◌, true, false, inl, inr,
  ◌&&◌, ltb, arith, ◌==◌, if◌then◌else◌, Bool-cases, update_ne, update_self,
}
use native.Mathlib.Decide.{ℕ_discrete, dec_le, dec_lt}
use mini_libc.Bits.{bit, bit-zero}
use mini_libc.Bits.Words.{u64, bit-mod_pow, word-zero, bit-clear_bit}
use mini_libc.Bits.Count.{total, total-bump, total-le_length, ctz, ctz_lem}
use mini_libc.Links.{Ptr}
use mini_libc.Memory.Pages.{Pages}
use mini_libc.Memory.SmallClass.{SmallArena, take_bit, take_slot, scan_words}
use mini_libc.Memory.SmallClass.Slots.{slot_free, slot_free_le_one, IsCounted}

-- A word that is not 0 has a digit 1, of which `__builtin_ctzll` gives the index.
word_some : (x : ℕ) → (u64 x == 0) ≡ false → (bit x (ctz 64 x) ≡ 1) × (ctz 64 x < 64)
word_some x ne = elim (ctz_lem 64 x) [
  | inl (one, lt, low) ↦ (one, lt)
  | inr zeros ↦ absurd (ground (arith, ne, word-zero 64 x zeros))
]

word_none : (x i : ℕ) → (u64 x == 0) ≡ true → i < 64 → bit x i ≡ 0
word_none x i e lt =
    let z : u64 x ≡ 0 = ground arith in
    let e' : bit 0 i ≡ (if ltb i 64 then bit x i else 0) = rw z at (bit-mod_pow 64 x i) in
    ground (arith, e', bit-zero i)

-- From the slots and counters of one state to those of the next, slot `idx` of the block was taken: it
-- was free, and is not any more, and nothing else changed.
pub record IsTaken (b : ℕ → Ptr → ℕ) (a : Ptr → ℕ) (block : Ptr) (n idx : ℕ) (b' : ℕ → Ptr → ℕ)
    (a' : Ptr → ℕ) : Type 0 where
  pub index_lt : idx < n
  pub was_free : slot_free b block idx ≡ 1
  pub slots :
      (q : Ptr) (j : ℕ)
      → slot_free b' q j ≡ (if (q == block) && (j == idx) then 0 else slot_free b q j)
  pub one_less : a' block + 1 ≡ a block
  pub others : (q : Ptr) → q ≢ block → a' q ≡ a q
  pub counts : IsCounted b' a' block n

module _ (P : Pages) (size : ℕ) (block : Ptr) (s : SmallArena P) where
  -- The loop takes the lowest free slot of the first word that has one, or finds all of its words
  -- without a free slot.
  pub scan_words-cases :
      (n i : ℕ)
      → ((w : ℕ) × (i ≤ w)
          × (w < i + n)
          × (scan_words P size n i block s ≡ take_slot P size w block s)
          × ((u64 (s.bitmap w block) == 0) ≡ false))
        ⊎ ((j : ℕ) → 64 * i ≤ j → j < 64 * (i + n) → slot_free s.bitmap block j ≡ 0)
  unfolding scan_words slot_free
  scan_words-cases zero i = inr (λ j lo hi. absurd (omega arith))
  scan_words-cases (suc n) i = elim (Bool-cases (u64 (s.bitmap i block) == 0)) [
    | inl z ↦ elim (scan_words-cases n (i + 1)) [
      | inl (w, lo, hi, e, ne) ↦ inl (w, omega (arith, lo), omega (arith, hi), rw z e, ne)
      | inr zeros ↦ inr (λ j lo hi. elim (dec_le (64 * (i + 1)) j) [
        | yes le ↦ zeros j le (omega arith)
        | no nle ↦
            let q : j / 64 ≡ i = omega arith in
            rw q (word_none (s.bitmap i block) (j % 64) z (omega arith))
      ])
    ]
    | inr ne ↦ inl (i, omega arith, omega arith, rw ne refl, ne)
  ]

  module _ (w : ℕ) (ne : (u64 (s.bitmap w block) == 0) ≡ false) where
    abbrev index : ℕ
    index = 64 * w + ctz 64 (s.bitmap w block)

    index-word : (index / 64 ≡ w) × (index % 64 ≡ ctz 64 (s.bitmap w block))
    index-word = omega (arith, (word_some (s.bitmap w block) ne).1)

    -- The slot was free, and is not any more; no other slot changes.
    pub take_bit-slots :
        (slot_free s.bitmap block index ≡ 1)
        × ((q : Ptr) (j : ℕ)
            → slot_free (take_bit P w block s).bitmap q j
              ≡ (if (q == block) && (j == index) then 0 else slot_free s.bitmap q j))
    unfolding take_bit slot_free
    take_bit-slots =
        let (one, lt) = word_some (s.bitmap w block) ne in
        let (q, r) = index-word in
        (
          rw (q, r) one,
          λ p j. elim (ℕ_discrete p block) [
            | no np ↦ ground arith
            | yes yp ↦ elim (ℕ_discrete (j / 64) w) [
              | no nw ↦ ground (arith, q)
              | yes yw ↦
                  rw (yp, yw)
                    (ground (
                      arith,
                      q,
                      r,
                      bit-clear_bit (s.bitmap w block) (ctz 64 (s.bitmap w block)) (j % 64) lt
                          (omega arith),
                    ))
            ]
          ],
        )

    module _ (n : ℕ) (small : n ≤ 65536) (c : IsCounted s.bitmap s.avail_num block n)
        (le : w ≤ (n - 1) / 64) where
      index_lt : index < n
      index_lt = elim (dec_lt index n) [
        | yes lt ↦ lt
        | no nlt ↦ absurd (
            omega (
              arith,
              take_bit-slots.0,
              c.spare index (omega arith) (omega (arith, (word_some (s.bitmap w block) ne).1)),
            ))
      ]

      total-taken :
          total n (slot_free s.bitmap block)
          ≡ total n (slot_free (take_bit P w block s).bitmap block) + 1
      total-taken =
          let new = take_bit-slots.1 block in
          total-bump n index _ (slot_free s.bitmap block) index_lt
            (ground (arith, take_bit-slots.0, new index)) (λ j lt d. ground (arith, new j))

      pub take_bit-IsTaken :
          IsTaken s.bitmap s.avail_num block n index
            (take_bit P w block s).bitmap
            (take_bit P w block s).avail_num
      unfolding take_bit
      take_bit-IsTaken =
          let most =
            total-le_length n (slot_free s.bitmap block) (slot_free_le_one s.bitmap block) in
          let less : (take_bit P w block s).avail_num block
              ≡ total n (slot_free (take_bit P w block s).bitmap block) =
            update_self s.avail_num block _ ∙ omega (arith, total-taken, c.counted, most) in
          record {
            index_lt = index_lt;
            was_free = take_bit-slots.0;
            slots = take_bit-slots.1;
            one_less = omega (arith, less, total-taken, c.counted);
            others = λ q d. update_ne s.avail_num block q _ d;
            counts = record {
              counted = less;
              spare = λ j lo hi. ground (arith, take_bit-slots.1 block j, c.spare j lo hi);
            };
          }
