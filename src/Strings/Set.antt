-- ===== src/Strings/Set.antt =====
-- src/string/memset.c: `memset` sets bytes until the destination is aligned, then words, then the
-- bytes that are left. The three loops have one state.
pub mod Fills
use mini_libc.Base.{
  ℕ, zero, suc, ◌+◌, ◌-◌, ◌*◌, ◌/◌, bit_and, ◌||◌, ltb, ◌==◌, if◌then◌else◌, update,
}
use mini_libc.Bits.Words.{u64}
use mini_libc.Strings.{Bytes}
use mini_libc.Strings.Copy.{write_u64}

pub record FillState : Type 0 where
  pub mem : Bytes
  pub d : ℕ
  pub n : ℕ

-- `*dp = c; d++; n--;`
abbrev pub set_byte : ℕ → FillState → FillState
set_byte c z = record { mem = update z.mem z.d c; d = u64 (z.d + 1); n = z.n - 1 }

-- `write_u64 (d, v); d += 8; n -= 8;`
abbrev pub set_word : ℕ → FillState → FillState
set_word v z = record { mem = write_u64 z.d v z.mem; d = u64 (z.d + 8); n = z.n - 8 }

unfoldable pub set_head : ℕ → ℕ → FillState → FillState
set_head zero c z = z
set_head (suc k) c z =
    let rest = set_head k c (set_byte c z) in if (z.n == 0) || (bit_and z.d 7 == 0) then z else rest

unfoldable pub set_words : ℕ → ℕ → FillState → FillState
set_words zero v z = z
set_words (suc k) v z = let rest = set_words k v (set_word v z) in if ltb z.n 8 then z else rest

unfoldable pub set_tail : ℕ → ℕ → FillState → FillState
set_tail zero c z = z
set_tail (suc k) c z = let rest = set_tail k c (set_byte c z) in if z.n == 0 then z else rest

-- `((uint64_t) c) * 0x0101010101010101ull`.
unfoldable pub c_long : ℕ → ℕ
c_long c = u64 (c * 72340172838076673)

unfoldable pub memset : Bytes → ℕ → ℕ → ℕ → Bytes
memset mem dest c n =
    let y = set_head 8 c (record { mem = mem; d = dest; n = n }) in
    let x = set_words (y.n / 8) (c_long c) y in (set_tail 8 c x).mem
