-- ===== src/Malloc/Metadata.antt =====
-- A release finds in the metadata what the allocation put there.
use mathlib.Core.Option.{some-ne-none}
use mini_libc.Base.{
  ℕ, zero, suc, ◌+◌, ◌-◌, ◌*◌, ◌/◌, ◌%◌, ◌^◌, ◌≤◌, ◌<◌, ◌≡◌, ◌≢◌, refl, sym, ap, ◌∙◌, arith, none,
  some,
}
use mini_libc.Bits.Count.{ctz}
use mini_libc.Bits.Masks.{bit_and_mask, bit_and_not_7, bit_or_low, bit_or_high}
use mini_libc.Malloc.{
  Target, small, buddy, mapped, get_class, alloc_target, metadata_x, metadata_y, class_code, ctx_of,
  arena_of, free_target,
}
use mini_libc.Malloc.Classes.{IsClass, fine, power, pages, get_class-IsClass}

-- What is stored for a class: the code s, its digits split between x and y.
pub record Coded (c arena ctx : ℕ) : Type 0 where
  pub code : ℕ
  pub small : code < 32
  pub in_x : metadata_x c arena ≡ arena + code % 8
  pub in_y : metadata_y c ctx ≡ ctx + code / 8
  pub target : Target
  pub allocated : alloc_target c ≡ some target
  pub freed : free_target code ≡ some target

times : (m : ℕ) → 32 * m ≡ m * 32
times m = omega arith

module _ (arena ctx : ℕ) (a : arena % 8 ≡ 0) (b : ctx % 8 ≡ 0) where
  fine-Coded : (m : ℕ) → 1 ≤ m → m ≤ 16 → Coded (32 * m) arena ctx
  unfolding metadata_x metadata_y free_target alloc_target
  fine-Coded m lo hi = record {
    code = m;
    small = omega arith;
    in_x = ground (arith, bit_and_mask 3 m, bit_or_low arena (m % 8) a (omega arith));
    in_y = ground (arith, bit_and_mask 2 (m / 8), bit_or_low ctx (m / 8) b (omega arith));
    target = small (m * 32);
    allocated = ground (arith, ap (λ z. some (small z)) (times m));
    freed = ground arith;
  }

  pages-Coded : (m : ℕ) → 64 < m → Coded (4096 * m) arena ctx
  unfolding metadata_x metadata_y free_target alloc_target
  pages-Coded m lo = record {
    code = 31;
    small = omega arith;
    in_x = ground (arith, bit_or_low arena 7 a (omega arith));
    in_y = ground (arith, bit_or_low ctx 3 b (omega arith));
    target = mapped;
    allocated = ground arith;
    freed = refl;
  }

  power-Coded : (d : ℕ) → d < 9 → Coded (2 ^ (10 + d)) arena ctx
  unfolding metadata_x metadata_y free_target alloc_target ctz
  power-Coded zero h = record {
    code = 17;
    small = omega arith;
    in_x = bit_or_low arena 1 a (omega arith);
    in_y = bit_or_low ctx 2 b (omega arith);
    target = small 1024;
    allocated = refl;
    freed = refl;
  }
  power-Coded (suc zero) h = record {
    code = 18;
    small = omega arith;
    in_x = bit_or_low arena 2 a (omega arith);
    in_y = bit_or_low ctx 2 b (omega arith);
    target = small 2048;
    allocated = refl;
    freed = refl;
  }
  power-Coded (suc (suc zero)) h = record {
    code = 19;
    small = omega arith;
    in_x = bit_or_low arena 3 a (omega arith);
    in_y = bit_or_low ctx 2 b (omega arith);
    target = buddy 0;
    allocated = refl;
    freed = refl;
  }
  power-Coded (suc (suc (suc zero))) h = record {
    code = 20;
    small = omega arith;
    in_x = bit_or_low arena 4 a (omega arith);
    in_y = bit_or_low ctx 2 b (omega arith);
    target = buddy 1;
    allocated = refl;
    freed = refl;
  }
  power-Coded (suc (suc (suc (suc zero)))) h = record {
    code = 21;
    small = omega arith;
    in_x = bit_or_low arena 5 a (omega arith);
    in_y = bit_or_low ctx 2 b (omega arith);
    target = buddy 2;
    allocated = refl;
    freed = refl;
  }
  power-Coded (suc (suc (suc (suc (suc zero))))) h = record {
    code = 22;
    small = omega arith;
    in_x = bit_or_low arena 6 a (omega arith);
    in_y = bit_or_low ctx 2 b (omega arith);
    target = buddy 3;
    allocated = refl;
    freed = refl;
  }
  power-Coded (suc (suc (suc (suc (suc (suc zero)))))) h = record {
    code = 23;
    small = omega arith;
    in_x = bit_or_low arena 7 a (omega arith);
    in_y = bit_or_low ctx 2 b (omega arith);
    target = buddy 4;
    allocated = refl;
    freed = refl;
  }
  power-Coded (suc (suc (suc (suc (suc (suc (suc zero))))))) h = record {
    code = 24;
    small = omega arith;
    in_x = bit_or_low arena 0 a (omega arith);
    in_y = bit_or_low ctx 3 b (omega arith);
    target = buddy 5;
    allocated = refl;
    freed = refl;
  }
  power-Coded (suc (suc (suc (suc (suc (suc (suc (suc zero)))))))) h = record {
    code = 25;
    small = omega arith;
    in_x = bit_or_low arena 1 a (omega arith);
    in_y = bit_or_low ctx 3 b (omega arith);
    target = buddy 6;
    allocated = refl;
    freed = refl;
  }
  power-Coded (suc (suc (suc (suc (suc (suc (suc (suc (suc d))))))))) h = absurd (omega arith)

  pub class-Coded : (c : ℕ) → IsClass c → Coded c arena ctx
  class-Coded c (fine m lo hi e) = rw e (fine-Coded m lo hi)
  class-Coded c (pages m lo e) = rw e (pages-Coded m lo)
  class-Coded c (power k lo hi e) =
      let q : k ≡ 10 + (k - 10) = omega arith in rw (e, q) (power-Coded (k - 10) (omega arith))

  module _ (s : ℕ) (lt : s < 32) where
    code-eq : class_code (arena + s % 8) (ctx + s / 8) ≡ s
    unfolding class_code
    code-eq =
        let e : (arena + s % 8) % 8 ≡ s % 8 = omega arith in
        let f : (ctx + s / 8) % 4 ≡ s / 8 = omega arith in
        rw (bit_and_mask 3 (arena + s % 8), bit_and_mask 2 (ctx + s / 8), e, f)
          (ground (arith, bit_or_high (s % 8) (s / 8 * 8) (omega arith) (omega arith)))

    arena-eq : arena < 2 ^ 47 → arena_of (arena + s % 8) ≡ arena
    unfolding arena_of
    arena-eq h = omega (arith, bit_and_not_7 (arena + s % 8) (omega arith))

    ctx-eq : ctx < 2 ^ 47 → ctx_of (ctx + s / 8) ≡ ctx
    unfolding ctx_of
    ctx-eq h = omega (arith, bit_and_not_7 (ctx + s / 8) (omega arith))

-- For sizes from 1 to 2 ^ 48: some allocator serves the class, and a release of what was allocated
-- calls that allocator, with the same class, on the same arena and with the same context. The arena
-- and the context are below 2 ^ 47 and multiples of 8.
pub metadata-round_trip :
    (size arena ctx : ℕ)
    → 1 ≤ size
    → size ≤ 2 ^ 48
    → arena % 8 ≡ 0
    → ctx % 8 ≡ 0
    → arena < 2 ^ 47
    → ctx < 2 ^ 47
    → let c = get_class size in
      let x = metadata_x c arena in
      let y = metadata_y c ctx in
      (free_target (class_code x y) ≡ alloc_target c)
      × (alloc_target c ≢ none)
      × (arena_of x ≡ arena)
      × (ctx_of y ≡ ctx)
metadata-round_trip size arena ctx lo hi a b al bl =
    let d = class-Coded arena ctx a b (get_class size) (get_class-IsClass size lo hi).0 in
    rw (d.in_x, d.in_y, code-eq arena ctx a b d.code d.small)
      (
        d.freed ∙ sym d.allocated,
        λ z. some-ne-none d.target (sym d.allocated ∙ z),
        arena-eq arena ctx a b d.code d.small al,
        ctx-eq arena ctx a b d.code d.small bl,
      )
