-- ===== src/Strings/Bounded.antt =====
-- src/string/strnlen.c: like `strlen`, but it stops after n bytes.
pub mod Bound
use mini_libc.Base.{
  ℕ, zero, suc, ◌+◌, ◌-◌, ◌*◌, ◌/◌, ◌%◌, ◌^◌, bit_and, Bool, not, ◌||◌, Option, none, some, ◌⊎◌,
  inl, inr, ltb, ◌==◌, if◌then◌else◌,
}
use mini_libc.Bits.Words.{u64}
use mini_libc.Strings.{Bytes, read_u64, has_zero, last_bytes}

-- Where a loop leaves off: with the address and the number of bytes that are left.
abbrev pub Rest : Type 0
Rest = ℕ × ℕ

-- The first loop: `inl` where it finds NUL.
unfoldable pub skip_bytes_n : ℕ → Bytes → ℕ → ℕ → ℕ ⊎ Rest
skip_bytes_n zero mem s n = inr (s, n)
skip_bytes_n (suc k) mem s n =
    let rest = skip_bytes_n k mem (u64 (s + 1)) (n - 1) in
    if (n == 0) || (bit_and s 7 == 0) then inr (s, n) else if mem s == 0 then inl s else rest

-- The second loop: `inl` where it goes to s_end_flag; `none` if the fuel does not reach.
unfoldable pub find_word_n : ℕ → Bytes → ℕ → ℕ → Option (ℕ ⊎ Rest)
find_word_n zero mem s n = none
find_word_n (suc k) mem s n =
    let rest = find_word_n k mem (u64 (s + 8)) (n - 8) in
    if ltb n 8
    then some (inr (s, n))
    else if not (has_zero (read_u64 mem s) == 0)
    then some (inl s)
    else rest

-- The third loop.
unfoldable pub last_bytes_n : ℕ → ℕ → ℕ → ℕ → ℕ
last_bytes_n zero buf s n = s
last_bytes_n (suc k) buf s n =
    let rest = last_bytes_n k (buf / 256) (u64 (s + 1)) (n - 1) in
    if (n == 0) || (bit_and buf 255 == 0) then s else rest

-- The end of the scan, from the result of the second loop.
unfoldable pub end_of_words : Bytes → Option (ℕ ⊎ Rest) → Option ℕ
end_of_words mem none = none
end_of_words mem (some (inl w)) = some (last_bytes 8 (read_u64 mem w) w)
end_of_words mem (some (inr (s, n))) =
    some (if n == 0 then s else last_bytes_n 8 (read_u64 mem s) s n)

unfoldable pub end_of_scan : ℕ → Bytes → ℕ ⊎ Rest → Option ℕ
end_of_scan fuel mem (inl e) = some e
end_of_scan fuel mem (inr (s, n)) =
    if n == 0 then some s else end_of_words mem (find_word_n fuel mem s n)

abbrev offset : ℕ → Option ℕ → Option ℕ
offset s none = none
offset s (some e) = some (u64 (e + 2 ^ 64 - s))

unfoldable pub strnlen : ℕ → Bytes → ℕ → ℕ → Option ℕ
strnlen fuel mem s n = offset s (end_of_scan fuel mem (skip_bytes_n 8 mem s n))
