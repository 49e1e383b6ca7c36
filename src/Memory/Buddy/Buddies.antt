-- ===== src/Memory/Buddy/Buddies.antt =====
-- The buddy of a block: the other half of the block of the next order.
use mini_libc.Base.{
  ℕ, zero, suc, ◌+◌, ◌-◌, ◌%◌, bit_xor, ◌<◌, ◌≡◌, refl, ap, sym, ◌∙◌, arith, ==_false, ==_true,
  ◌==◌,
}
use native.Mathlib.Decide.{ℕ_discrete, dec_lt}
use mini_libc.Bits.Words.{has_bit-eq, buddy_index}
use mini_libc.Links.{Ptr}
use mini_libc.Memory.Pages.{Pages}
use mini_libc.Memory.Buddy.{Arena, blocks}
use mini_libc.Memory.Buddy.Free.{buddy_available_0, mergeable}
use mini_libc.Memory.Buddy.Order.{is_free}
use mini_libc.Memory.Buddy.Blocks.{blocks-Bounds, in_word_0, in_word_1}

even-lt : (n i : ℕ) → n % 2 ≡ 0 → i < n → bit_xor i 1 < n
even-lt n i e lt = ground (arith, buddy_index i)

pub buddy-lt : (k i : ℕ) → k < 7 → i < blocks k → bit_xor i 1 < blocks k
buddy-lt zero i h lt = even-lt 128 i refl lt
buddy-lt (suc zero) i h lt = even-lt 64 i refl lt
buddy-lt (suc (suc zero)) i h lt = even-lt 32 i refl lt
buddy-lt (suc (suc (suc zero))) i h lt = even-lt 16 i refl lt
buddy-lt (suc (suc (suc (suc zero)))) i h lt = even-lt 8 i refl lt
buddy-lt (suc (suc (suc (suc (suc zero))))) i h lt = even-lt 4 i refl lt
buddy-lt (suc (suc (suc (suc (suc (suc zero)))))) i h lt = even-lt 2 i refl lt
buddy-lt (suc (suc (suc (suc (suc (suc (suc k))))))) i h lt = absurd (omega arith)

-- The test reads the buddy's bit, in the word where it is.
module _ (P : Pages) (k : ℕ) (st : Ptr) (i : ℕ) (a : Arena P.State) (lt : k < 7)
    (range : i < blocks k) where
  mergeable_0 : k ≡ 0 → buddy_available_0 P a st i ≡ (is_free (a.order 0) st (bit_xor i 1) == 1)
  unfolding buddy_available_0
  mergeable_0 z =
      let small : i < 128 = rw z at range in
      let o = a.order 0 in
      elim (dec_lt i 64) [
        | yes low ↦
            let l = even-lt 64 i refl low in
            ground
              (arith, has_bit-eq (o.bitmap 0 st) (bit_xor i 1) l, in_word_0 o st (bit_xor i 1) l)
        | no high ↦
            let l : bit_xor i 1 - 64 < 64 = ground (arith, buddy_index i) in
            let e : bit_xor i 1 - 64 + 64 ≡ bit_xor i 1 = ground (arith, buddy_index i) in
            let f : is_free o st (bit_xor i 1) ≡ is_free o st (bit_xor i 1 - 64 + 64) = rw e refl in
            ground (
              arith,
              has_bit-eq (o.bitmap 1 st) (bit_xor i 1 - 64) l,
              in_word_1 o st (bit_xor i 1 - 64) l,
              f,
            )
      ]

  pub mergeable-eq : mergeable P k st i a ≡ (is_free (a.order k) st (bit_xor i 1) == 1)
  unfolding mergeable
  mergeable-eq = elim (ℕ_discrete k 0) [
    | yes z ↦
        rw (==_true k 0 z)
          (mergeable_0 z ∙ ap (λ z. is_free (a.order z) st (bit_xor i 1) == 1) (sym z))
    | no ne ↦
        let l : bit_xor i 1 < 64 =
          omega (arith, buddy-lt k i lt range, (blocks-Bounds k lt).one_word ne) in
        rw (==_false k 0 ne) (
          ground (
            arith,
            has_bit-eq ((a.order k).bitmap 0 st) (bit_xor i 1) l,
            in_word_0 (a.order k) st (bit_xor i 1) l,
          ))
  ]
