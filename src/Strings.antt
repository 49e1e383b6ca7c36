-- ===== src/Strings.antt =====
-- src/string: routines that read 8 bytes at a time. Memory is a function from addresses to bytes;
-- `read_u64` is a load of 8 bytes, the lowest first.
pub mod HasZero
pub mod Length
pub mod Bounded
pub mod Zeroes
pub mod Copy
pub mod Set
pub mod Examples
use mini_libc.Base.{
  ℕ, zero, suc, ◌+◌, ◌-◌, ◌*◌, ◌/◌, ◌%◌, ◌^◌, bit_and, Bool, not, Option, none, some, ◌⊎◌, inl, inr,
  ◌==◌, if◌then◌else◌,
}
use mini_libc.Bits.Words.{u64, bit_not}

abbrev pub Bytes : Type 0
Bytes = ℕ → ℕ

-- The n bytes from s on.
unfoldable pub read : ℕ → Bytes → ℕ → ℕ
read zero mem s = 0
read (suc n) mem s = mem s + 256 * read n mem (s + 1)

abbrev pub read_u64 : Bytes → ℕ → ℕ
read_u64 mem s = read 8 mem s

-- ONES, 0x0101010101010101, and HIGHS, 0x8080808080808080.
abbrev pub ones : ℕ
ones = (2 ^ 64 - 1) / 255

abbrev pub highs : ℕ
highs = u64 (ones * 128)

-- HASZERO(x): ((x) - ONES) & ~ (x) & HIGHS.
unfoldable pub has_zero : ℕ → ℕ
has_zero x = bit_and (bit_and (u64 (x + 2 ^ 64 - ones)) (bit_not 64 x)) highs

-- The first loop of `strlen`: `inl` where it finds NUL, `inr` where s is aligned. Seven steps reach
-- an aligned address.
unfoldable pub skip_bytes : ℕ → Bytes → ℕ → ℕ ⊎ ℕ
skip_bytes zero mem s = inr s
skip_bytes (suc n) mem s =
    let rest = skip_bytes n mem (u64 (s + 1)) in
    if bit_and s 7 == 0 then inr s else if mem s == 0 then inl s else rest

-- The second loop: the first word that has a zero byte; `none` if the fuel does not reach it.
unfoldable pub find_word : ℕ → Bytes → ℕ → Option ℕ
find_word zero mem s = none
find_word (suc n) mem s =
    let rest = find_word n mem (u64 (s + 8)) in
    if not (has_zero (read_u64 mem s) == 0) then some s else rest

-- The third loop, over the bytes of the word.
unfoldable pub last_bytes : ℕ → ℕ → ℕ → ℕ
last_bytes zero buf s = s
last_bytes (suc n) buf s =
    let rest = last_bytes n (buf / 256) (u64 (s + 1)) in if bit_and buf 255 == 0 then s else rest

abbrev from_word : Bytes → ℕ → Option ℕ → Option ℕ
from_word mem s none = none
from_word mem s (some w) = some (u64 (last_bytes 8 (read_u64 mem w) w + 2 ^ 64 - s))

abbrev from_aligned : ℕ → Bytes → ℕ → ℕ ⊎ ℕ → Option ℕ
from_aligned fuel mem s (inl e) = some (u64 (e + 2 ^ 64 - s))
from_aligned fuel mem s (inr a) = from_word mem s (find_word fuel mem a)

unfoldable pub strlen : ℕ → Bytes → ℕ → Option ℕ
strlen fuel mem s = from_aligned fuel mem s (skip_bytes 8 mem s)
