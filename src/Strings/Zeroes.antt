-- ===== src/Strings/Zeroes.antt =====
-- src/string/memcmp_zero.c: `memcmp_zero` collects the bytes of a region with `|`. A loop's state is
-- the result so far, the address, and the number of bytes that are left.
pub mod Scan
use mini_libc.Base.{
  ℕ, zero, suc, ◌+◌, ◌-◌, ◌/◌, ◌%◌, ◌^◌, bit_and, bit_or, ◌||◌, ltb, ◌==◌, if◌then◌else◌,
}
use mini_libc.Bits.Words.{u64}
use mini_libc.Strings.{Bytes, read_u64}

pub record ZeroScan : Type 0 where
  pub result : ℕ
  pub vp : ℕ
  pub n : ℕ

-- `result |= b` for the step bytes at vp.
abbrev pub advance : ℕ → ℕ → ZeroScan → ZeroScan
advance step b z = record { result = bit_or z.result b; vp = u64 (z.vp + step); n = z.n - step }

-- Until vp is aligned, which takes seven steps at most.
unfoldable pub zero_head : ℕ → Bytes → ZeroScan → ZeroScan
zero_head zero mem z = z
zero_head (suc k) mem z =
    let rest = zero_head k mem (advance 1 (mem z.vp) z) in
    if (z.n == 0) || (bit_and z.vp 7 == 0) then z else rest

-- Words, as long as 8 bytes are left.
unfoldable pub zero_words : ℕ → Bytes → ZeroScan → ZeroScan
zero_words zero mem z = z
zero_words (suc k) mem z =
    let rest = zero_words k mem (advance 8 (read_u64 mem z.vp) z) in if ltb z.n 8 then z else rest

-- The bytes behind the last word, seven at most.
unfoldable pub zero_tail : ℕ → Bytes → ZeroScan → ZeroScan
zero_tail zero mem z = z
zero_tail (suc k) mem z =
    let rest = zero_tail k mem (advance 1 (mem z.vp) z) in if z.n == 0 then z else rest

-- `if (!n) return result;` between the loops changes nothing, since no loop takes a step then.
unfoldable pub memcmp_zero : Bytes → ℕ → ℕ → ℕ
memcmp_zero mem v n =
    let head = zero_head 8 mem (record { result = 0; vp = v; n = n }) in
    if head.n == 0
    then head.result
    else let words = zero_words (head.n / 8) mem head in
      if words.n == 0 then words.result else (zero_tail 8 mem words).result
