-- ===== src/Memory/Buddy/Lowest.antt =====
-- `__builtin_ctz` finds an available block in every chunk of a list, and what taking it does.
use mini_libc.Base.{
  ℕ, ◌+◌, ◌-◌, ◌≤◌, ◌<◌, ◌≡◌, ◌≢◌, inl, inr, ◌∙◌, true, false, arith, leb, ◌==◌, if◌then◌else◌,
  ==_iff, ==_true, ==_false, Bool-cases,
}
use native.Mathlib.Decide.{ℕ_discrete, dec_lt}
use mini_libc.Bits.Count.{ctz, CtzCases, ctz_lem, total-zero}
use mini_libc.Bits.Words.{u64, word-zero, bit_of_zero}
use mini_libc.Links.{Ptr, null, pop_front, has, erase, IsChain}
use mini_libc.Links.Chain.{start-has}
use mini_libc.Memory.Buddy.{OrderState, blocks, lowest, lowest_0, take_block, take_block_0}
use mini_libc.Memory.Buddy.Order.{is_free}
use mini_libc.Memory.Buddy.Listed.{IsListed}
use mini_libc.Links.Push.{pop_front-erase}
use mini_libc.Memory.Buddy.Blocks.{
  Bounds, Changed, in_word_0, in_word_1, lowest_any, take_any, less_avail-Changed,
  less_avail_0-Changed,
}

module _ (k : ℕ) (b : Bounds k) (st : Ptr) (o : OrderState) (h : IsListed (blocks k) o) where
  -- A chunk in the list has an available block.
  some-free : has st h.members ≡ true → ((i : ℕ) → i < blocks k → is_free o st i ≡ 0) → ⊥
  some-free m none =
      ground (arith, h.listed st, h.counted st, total-zero (blocks k) (is_free o st) none)

  lowest_lem :
      k ≢ 0
      → has st h.members ≡ true
      → (lowest k st o < blocks k) × (is_free o st (lowest k st o) ≡ 1)
  unfolding lowest is_free
  lowest_lem pos m = cases (ctz_lem w word)
    where
      w : ℕ
      w = if leb 2 k then 32 else 64

      word : ℕ
      word = o.bitmap 0 st

      wide : blocks k ≤ w
      wide = ground (arith, b.half_word, b.one_word)

      cases : CtzCases w word → (ctz w word < blocks k) × (is_free o st (ctz w word) ≡ 1)
      cases (inl (one, lt, low)) = elim (dec_lt (ctz w word) (blocks k)) [
        | yes p ↦ (p, in_word_0 o st _ (ground (arith, b.one_word)) ∙ one)
        | no q ↦ absurd (
            some-free m λ i li. in_word_0 o st i (ground (arith, b.one_word)) ∙ low i (omega arith))
      ]
      cases (inr none) = absurd (
          some-free m
            λ i li. in_word_0 o st i (ground (arith, b.one_word)) ∙ none i (omega (arith, wide)))

  lowest_0_lem :
      k ≡ 0
      → has st h.members ≡ true
      → (lowest_0 st o < blocks k) × (is_free o st (lowest_0 st o) ≡ 1)
  unfolding lowest_0 is_free
  lowest_0_lem z m = elim (Bool-cases (u64 (o.bitmap 0 st) == 0)) [
    | inl e ↦ rw e (second ((==_iff _ 0).0 e) (ctz_lem 64 (o.bitmap 1 st)))
    | inr ne ↦ rw ne (first ne (ctz_lem 64 (o.bitmap 0 st)))
  ]
    where
      all : blocks k ≡ 128
      all = rw z

      first :
          (u64 (o.bitmap 0 st) == 0) ≡ false
          → CtzCases 64 (o.bitmap 0 st)
          → (ctz 64 (o.bitmap 0 st) < blocks k) × (is_free o st (ctz 64 (o.bitmap 0 st)) ≡ 1)
      first ne (inl (one, lt, low)) = (omega (arith, all), in_word_0 o st _ lt ∙ one)
      first ne (inr none) = absurd (ground (arith, word-zero 64 (o.bitmap 0 st) none))

      second :
          u64 (o.bitmap 0 st) ≡ 0
          → CtzCases 64 (o.bitmap 1 st)
          → (ctz 64 (o.bitmap 1 st) + 64 < blocks k)
            × (is_free o st (ctz 64 (o.bitmap 1 st) + 64) ≡ 1)
      second e (inl (one, lt, low)) = (omega (arith, all), in_word_1 o st _ lt ∙ one)
      second e (inr none) = absurd (
          some-free m λ i lt. elim (dec_lt i 64) [
            | yes p ↦ in_word_0 o st i p ∙ bit_of_zero 64 (o.bitmap 0 st) i e p
            | no q ↦
                let at : i ≡ (i - 64) + 64 = omega arith in
                rw at (
                  in_word_1 o st (i - 64) (omega (arith, all)) ∙ none (i - 64) (omega (arith, all)))
          ])

  pub take_any-Changed :
      st ≢ null → o.links.head ≡ st → Changed k 0 st (lowest_any k st o) o (take_any k st o)
  unfolding take_block take_block_0
  take_any-Changed ne e = elim (ℕ_discrete k 0) [
    | yes z ↦
        let l = lowest_0_lem z member in
        rw (==_true k 0 z) (less_avail_0-Changed k b st o h (lowest_0 st o) l.0 l.1 pop_front out z)
    | no p ↦
        let l = lowest_lem p member in
        rw (==_false k 0 p) (less_avail-Changed k b st o h (lowest k st o) l.0 l.1 pop_front out p)
  ]
    where
      member : has st h.members ≡ true
      member =
          ground
            (arith, start-has o.links.next o.links.prev null o.links.head h.members h.chain.chain)

      out : has st h.members ≡ true → IsChain (pop_front st o.links) (erase st h.members)
      out m = pop_front-erase st o.links h.members h.chain e ne
