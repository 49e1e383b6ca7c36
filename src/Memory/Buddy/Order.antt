-- ===== src/Memory/Buddy/Order.antt =====
-- One order of the buddy allocator: which blocks its bitmap says are available, and what marking a
-- block does to that and to their number.
use native.Mathlib.Decide.{dec_lt}
use mini_libc.Base.{ℕ, ◌+◌, ◌-◌, ◌/◌, ◌%◌, ◌≤◌, ◌<◌, ◌≡◌, ◌≢◌, ◌&&◌, arith, ◌==◌, if◌then◌else◌}
use mini_libc.Bits.{bit, bit_le_one}
use mini_libc.Bits.Words.{set_bit, clear_bit, bit-set_bit, bit-clear_bit, bit-mod_pow}
use mini_libc.Bits.Count.{total, total-same, total-bump}
use mini_libc.Links.{Ptr}
use mini_libc.Memory.Buddy.{OrderState, blocks, mark_free, mark_used, mark_free_0, mark_used_0}

-- 1 if block i of the chunk of st is available, else 0.
unfoldable pub is_free : OrderState → Ptr → ℕ → ℕ
is_free o st i = bit (o.bitmap (i / 64) st) (i % 64)

pub is_free_le_one : (o : OrderState) (st : Ptr) (i : ℕ) → is_free o st i ≤ 1
unfolding is_free
is_free_le_one o st i = bit_le_one (i % 64) (o.bitmap (i / 64) st)

-- Of the first n blocks of every chunk, block i of st becomes v and no other changes.
abbrev pub Marks : ℕ → ℕ → Ptr → ℕ → OrderState → OrderState → Type 0
Marks n v st i o o' =
    (t j : ℕ) → j < n → is_free o' t j ≡ (if (t == st) && (j == i) then v else is_free o t j)

pub mark_free-Marks :
    (k : ℕ) (st : Ptr) (i : ℕ) (o : OrderState)
    → blocks k ≤ 64
    → i < blocks k
    → Marks (blocks k) 1 st i o (mark_free k st i o)
unfolding mark_free is_free
mark_free-Marks k st i o small h t j lt =
    let e : j / 64 ≡ 0 = omega arith in
    let f : j % 64 ≡ j = omega arith in
    rw (e, f)
      (ground (
        arith,
        bit-mod_pow (blocks k) (set_bit (o.bitmap 0 st) i) j,
        bit-set_bit (o.bitmap 0 st) i j (omega arith),
      ))

pub mark_used-Marks :
    (k : ℕ) (st : Ptr) (i : ℕ) (o : OrderState)
    → blocks k ≤ 64
    → i < blocks k
    → Marks (blocks k) 0 st i o (mark_used k st i o)
unfolding mark_used is_free
mark_used-Marks k st i o small h t j lt =
    let e : j / 64 ≡ 0 = omega arith in
    let f : j % 64 ≡ j = omega arith in
    rw (e, f)
      (ground (
        arith,
        bit-mod_pow (blocks k) (clear_bit (o.bitmap 0 st) i) j,
        bit-clear_bit (o.bitmap 0 st) i j (omega arith) (omega arith),
      ))

pub mark_free_0-Marks :
    (st : Ptr) (i : ℕ) (o : OrderState) → i < 128 → Marks 128 1 st i o (mark_free_0 st i o)
unfolding mark_free_0 is_free
mark_free_0-Marks st i o h t j lt = elim (dec_lt j 64) [
  | yes low ↦
      let e : j / 64 ≡ 0 = omega arith in
      let f : j % 64 ≡ j = omega arith in
      rw (e, f) (ground (arith, bit-set_bit (o.bitmap 0 st) i j))
  | no high ↦
      let e : j / 64 ≡ 1 = omega arith in
      let f : j % 64 ≡ j - 64 = omega arith in
      rw (e, f) (ground (arith, bit-set_bit (o.bitmap 1 st) (i - 64) (j - 64)))
]

pub mark_used_0-Marks :
    (st : Ptr) (i : ℕ) (o : OrderState) → i < 128 → Marks 128 0 st i o (mark_used_0 st i o)
unfolding mark_used_0 is_free
mark_used_0-Marks st i o h t j lt = elim (dec_lt j 64) [
  | yes low ↦
      let e : j / 64 ≡ 0 = omega arith in
      let f : j % 64 ≡ j = omega arith in
      rw (e, f) (ground (arith, bit-clear_bit (o.bitmap 0 st) i j))
  | no high ↦
      let e : j / 64 ≡ 1 = omega arith in
      let f : j % 64 ≡ j - 64 = omega arith in
      rw (e, f) (ground (arith, bit-clear_bit (o.bitmap 1 st) (i - 64) (j - 64)))
]

-- The number of available blocks among the first n.
abbrev pub free_count : ℕ → OrderState → Ptr → ℕ
free_count n o st = total n (is_free o st)

module _ (n : ℕ) (st : Ptr) (i : ℕ) (o o' : OrderState) (h : i < n) where
  pub free_count_add :
      Marks n 1 st i o o' → is_free o st i ≡ 0 → free_count n o' st ≡ free_count n o st + 1
  free_count_add m e =
      total-bump n i (is_free o st) (is_free o' st) h (ground (arith, m st i h))
        (λ j lt ne. ground (arith, m st j lt))

  pub free_count_remove :
      Marks n 0 st i o o' → is_free o st i ≡ 1 → free_count n o st ≡ free_count n o' st + 1
  free_count_remove m e =
      total-bump n i (is_free o' st) (is_free o st) h (ground (arith, m st i h))
        (λ j lt ne. ground (arith, m st j lt))

  pub free_count_other :
      (v : ℕ) (t : Ptr) → Marks n v st i o o' → t ≢ st → free_count n o' t ≡ free_count n o t
  free_count_other v t m ne =
      total-same n (is_free o t) (is_free o' t) (λ j lt. ground (arith, m t j lt))
