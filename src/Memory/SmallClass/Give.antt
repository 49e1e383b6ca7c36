-- ===== src/Memory/SmallClass/Give.antt =====
-- The slot that `small_free` gives back: its index, its bit and the counter of its block.
use native.Mathlib.Nat.{mul-le-mul_right, div-mul-le_self, div-eq_of_lt-le}
use native.Mathlib.Decide.{ℕ_discrete}
use mini_libc.Base.{
  ℕ, ◌+◌, ◌-◌, ◌*◌, ◌/◌, ◌%◌, ◌^◌, ◌≤◌, ◌<◌, ◌≡◌, ◌≢◌, ◌∙◌, ◌&&◌, arith, ◌==◌, if◌then◌else◌,
  update_ne, update_self,
}
use mini_libc.Bits.Words.{u64, bit-set_bit}
use mini_libc.Bits.Count.{total, total-bump, total-le_length}
use mini_libc.Links.{Ptr}
use mini_libc.Memory.Pages.{Pages}
use mini_libc.Memory.SmallClass.{SmallArena, slot_num, idx_slot, slot_idx, give_bit}
use mini_libc.Memory.SmallClass.Slots.{slot_free, slot_free_le_one, IsCounted}
use mini_libc.Memory.SmallClass.Sound.{IsSlotSize, slot_num-bounds}

-- The slots of a block lie in its 65536 bytes.
pub slot-inside : (len idx : ℕ) → idx < slot_num len → idx * len + len ≤ 65232
slot-inside len idx lt =
    let a = mul-le-mul_right {m = idx + 1} {n = slot_num len} len (omega (arith, lt)) in
    let b = div-mul-le_self 65232 len in
    let next : (idx + 1) * len ≡ idx * len + len = grind arith in omega (arith, a, b, next)

pub idx_slot-eq :
    (block len idx : ℕ)
    → idx < slot_num len
    → block + 65536 ≤ 2 ^ 47
    → idx_slot block idx len ≡ block + 304 + idx * len
idx_slot-eq block len idx lt fits = omega (arith, slot-inside len idx lt, fits)

-- An address inside a slot: `free` passes one behind the metadata.
abbrev pub InSlot : (block idx len ptr : ℕ) → Type 0
InSlot block idx len ptr = (idx_slot block idx len ≤ ptr) × (ptr < idx_slot block idx len + len)

-- SMALL_CLASS_SLOT_IDX gives the index of the slot from any of its addresses.
pub slot_idx-InSlot :
    (block len idx ptr : ℕ)
    → IsSlotSize len
    → idx < slot_num len
    → block + 65536 ≤ 2 ^ 47
    → InSlot block idx len ptr
    → slot_idx block ptr len ≡ idx
slot_idx-InSlot block len idx ptr ok lt fits (lo, hi) =
    let here = idx_slot-eq block len idx lt fits in
    let inside = slot-inside len idx lt in
    let p = ptr - (block + 304) in
    let back : u64 (ptr + 2 ^ 64 - (block + 304)) ≡ p = omega (arith, here, inside, lo, hi, fits) in
    let next : (idx + 1) * len ≡ idx * len + len = grind arith in
    let q : p / len ≡ idx =
      div-eq_of_lt-le len (omega (arith, here, lo)) (omega (arith, here, lo, hi, next)) in
    rw (back, q) (omega (arith, lt, (slot_num-bounds len ok).1))

-- From the slots and counters of one state to those of the next, slot `idx` of the block was given back.
pub record IsGiven (b : ℕ → Ptr → ℕ) (a : Ptr → ℕ) (block : Ptr) (n idx : ℕ) (b' : ℕ → Ptr → ℕ)
    (a' : Ptr → ℕ) : Type 0 where
  pub slots :
      (q : Ptr) (j : ℕ)
      → slot_free b' q j ≡ (if (q == block) && (j == idx) then 1 else slot_free b q j)
  pub one_more : a' block ≡ a block + 1
  pub others : (q : Ptr) → q ≢ block → a' q ≡ a q
  pub counts : IsCounted b' a' block n

module _ (P : Pages) (s : SmallArena P) (block n idx : ℕ) (small : n ≤ 65536)
    (c : IsCounted s.bitmap s.avail_num block n) (lt : idx < n)
    (was_taken : slot_free s.bitmap block idx ≡ 0) where
  give_bit-slots :
      (q : Ptr) (j : ℕ)
      → slot_free (give_bit P idx block s).bitmap q j
        ≡ (if (q == block) && (j == idx) then 1 else slot_free s.bitmap q j)
  unfolding give_bit slot_free
  give_bit-slots p j = elim (ℕ_discrete p block) [
    | no np ↦ ground arith
    | yes yp ↦ elim (ℕ_discrete (j / 64) (idx / 64)) [
      | no nw ↦ ground arith
      | yes yw ↦
          rw (yp, yw)
            (ground
              (arith, bit-set_bit (s.bitmap (idx / 64) block) (idx % 64) (j % 64) (omega arith)))
    ]
  ]

  total-given :
      total n (slot_free (give_bit P idx block s).bitmap block)
      ≡ total n (slot_free s.bitmap block) + 1
  total-given =
      total-bump n idx (slot_free s.bitmap block) _ lt (ground (arith, give_bit-slots block idx))
        (λ j l d. ground (arith, give_bit-slots block j))

  pub give_bit-IsGiven :
      IsGiven s.bitmap s.avail_num block n idx
        (give_bit P idx block s).bitmap
        (give_bit P idx block s).avail_num
  unfolding give_bit
  give_bit-IsGiven =
      let most = total-le_length n (slot_free s.bitmap block) (slot_free_le_one s.bitmap block) in
      let more : (give_bit P idx block s).avail_num block ≡ s.avail_num block + 1 =
        update_self s.avail_num block _ ∙ omega (arith, c.counted, most, small) in
      record {
        slots = give_bit-slots;
        one_more = more;
        others = λ q d. update_ne s.avail_num block q _ d;
        counts = record {
          counted = omega (arith, more, total-given, c.counted);
          spare = λ j lo hi. ground (arith, give_bit-slots block j, c.spare j lo hi, lt);
        };
      }
