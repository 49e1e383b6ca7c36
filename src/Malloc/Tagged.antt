-- ===== src/Malloc/Tagged.antt =====
-- The metadata of a tagged allocation.
use native.Mathlib.Decide.{dec_lt}
use mini_libc.Base.{ℕ, ◌+◌, ◌*◌, ◌/◌, ◌%◌, ◌^◌, ◌≤◌, ◌<◌, ◌≡◌, sym, ◌∙◌, arith}
use mini_libc.Bits.Masks.{bit_and_mask, bit_and_not_7, bit_or_low, bit_or_high, bit_or_four}
use mini_libc.Malloc.{
  get_class, alloc_target, metadata_x, metadata_y, tagged_y, class_code, ctx_of, free_target,
}
use mini_libc.Malloc.Classes.{get_class-IsClass}
use mini_libc.Malloc.Metadata.{Coded, class-Coded}

module _ (arena ctx : ℕ) (a : arena % 8 ≡ 0) (b : ctx % 8 ≡ 0) where
  tagged_y-eq : (c : ℕ) → (d : Coded c arena ctx) → tagged_y c ctx ≡ ctx + d.code / 8 + 4
  unfolding tagged_y metadata_y
  tagged_y-eq c d = elim (dec_lt 262144 c) [
    | yes l ↦
        ground (arith, d.in_y, bit_or_low ctx 3 b (omega arith), bit_or_low ctx 7 b (omega arith))
    | no l ↦
        ground (arith, d.in_y, d.small, bit_or_four (ctx + d.code / 8) (omega (arith, d.small)))
  ]

  code-tagged : (s : ℕ) → s < 32 → class_code (arena + s % 8) (ctx + s / 8 + 4) ≡ s
  unfolding class_code
  code-tagged s lt =
      let e : (arena + s % 8) % 8 ≡ s % 8 = omega arith in
      let f : (ctx + s / 8 + 4) % 4 ≡ s / 8 = omega arith in
      rw (bit_and_mask 3 (arena + s % 8), bit_and_mask 2 (ctx + s / 8 + 4), e, f)
        (ground (arith, bit_or_high (s % 8) (s / 8 * 8) (omega arith) (omega arith)))

  ctx-tagged : (s : ℕ) → s < 32 → ctx < 2 ^ 47 → ctx_of (ctx + s / 8 + 4) ≡ ctx
  unfolding ctx_of
  ctx-tagged s lt h = omega (arith, bit_and_not_7 (ctx + s / 8 + 4) (omega arith))

-- For sizes from 1 to 2 ^ 48: a release of a tagged allocation calls the allocator that made the
-- allocation, with the same class and the same context. The arena and the context are multiples of 8,
-- and the context is below 2 ^ 47.
pub tagged_metadata-round_trip :
    (size arena ctx : ℕ)
    → 1 ≤ size
    → size ≤ 2 ^ 48
    → arena % 8 ≡ 0
    → ctx % 8 ≡ 0
    → ctx < 2 ^ 47
    → let c = get_class size in
      let y = tagged_y c ctx in
      (free_target (class_code (metadata_x c arena) y) ≡ alloc_target c) × (ctx_of y ≡ ctx)
tagged_metadata-round_trip size arena ctx lo hi a b bl =
    let d = class-Coded arena ctx a b (get_class size) (get_class-IsClass size lo hi).0 in
    rw
      (
        d.in_x,
        tagged_y-eq arena ctx a b (get_class size) d,
        code-tagged arena ctx a b d.code d.small,
      )
      (d.freed ∙ sym d.allocated, ctx-tagged arena ctx a b d.code d.small bl)
