-- ===== src/Strings/Examples.antt =====
-- The string `abcdefghij` at address 3.
use mini_libc.Base.{
  inl, inr, ◌⊎◌, ◌%◌, ℕ, ◌+◌, ◌<◌, ◌≡◌, refl, arith, some, ◌&&◌, leb, ltb, if◌then◌else◌,
}
use mini_libc.Strings.{Bytes, has_zero, strlen, skip_bytes, find_word, last_bytes, read}
use mini_libc.Strings.Bounded.{
  strnlen, end_of_scan, end_of_words, skip_bytes_n, find_word_n, last_bytes_n,
}
use mini_libc.Strings.Bounded.Bound.{IsStop, strnlen-length}
use mini_libc.Strings.Zeroes.{memcmp_zero, zero_head, zero_words, zero_tail}
use mini_libc.Strings.Zeroes.Scan.{memcmp_zero-clear, memcmp_zero-seen}
use mini_libc.Strings.Length.{IsFirstNul, strlen-length}
use mini_libc.Strings.Copy.{
  CopyState, memcpy, copy_head, copy_unaligned, copy_shifted, copy_last, store_bytes, write_u64,
  byte,
}
use mini_libc.Strings.Copy.Copied.{IsCall}
use mini_libc.Strings.Copy.Copies.{copy_of, memcpy-copies, copy_head-aligned}
use mini_libc.Strings.Set.{memset, set_head, set_words, set_tail, c_long}
use mini_libc.Strings.Set.Fills.{memset-fills}

abbrev text : Bytes
text a = if leb 3 a && ltb a 13 then a + 94 else 0

text-bytes : (a : ℕ) → text a < 256
text-bytes a = ground arith

text-IsFirstNul : IsFirstNul text 3 13
text-IsFirstNul = record {
  after = omega arith;
  before_end = omega arith;
  set = λ a lo hi. ground arith;
  nul = refl;
}

strlen-text : strlen 2 text 3 ≡ some 10
unfolding strlen skip_bytes find_word last_bytes read has_zero
strlen-text = refl

strlen-length_example : strlen 2 text 3 ≡ some 10
strlen-length_example = strlen-length text 3 13 2 text-bytes text-IsFirstNul (omega arith)

text-IsStop : IsStop text 3 7 10
text-IsStop = record {
  after = omega arith;
  inside = omega arith;
  before_end = omega arith;
  set = λ a lo hi. ground arith;
  stop = inl refl;
}

strnlen-text : strnlen 2 text 3 20 ≡ some 10
unfolding strnlen end_of_scan end_of_words skip_bytes_n find_word_n last_bytes_n last_bytes read
    has_zero
strnlen-text = refl

strnlen-length_example : strnlen 1 text 3 7 ≡ some 7
strnlen-length_example = strnlen-length text 3 7 10 1 text-bytes text-IsStop (omega arith)

-- A region of 30 zeros behind the text.
memcmp_zero-clear_example : memcmp_zero text 13 30 ≡ 0
memcmp_zero-clear_example = memcmp_zero-clear text 13 30 (omega arith) (λ a lo hi. ground arith)

zeros : memcmp_zero text 13 30 ≡ 0
unfolding memcmp_zero zero_head zero_words zero_tail read
zeros = refl

memcmp_zero-seen_example : text 20 ≡ 0
memcmp_zero-seen_example =
    memcmp_zero-seen text 13 30 20 (omega arith) zeros (omega arith) (omega arith)

text-IsCall : IsCall text 30 3 20
text-IsCall = record {
  bytes = text-bytes;
  source_fits = omega arith;
  dest_fits = omega arith;
  apart = inl (omega arith);
}

memcpy-text : memcpy text 30 3 20 39 ≡ 106
unfolding memcpy copy_head copy_unaligned copy_shifted copy_last store_bytes write_u64 byte read
memcpy-text = refl

-- The destination is not aligned with the source, and all five parts run.
memcpy-copies_example : memcpy text 30 3 20 39 ≡ copy_of text 30 3 20 39
memcpy-copies_example = memcpy-copies text 30 3 20 text-IsCall 39

abbrev text_call : CopyState
text_call = record { mem = text; s = 3; d = 30; n = 20 }

copy_head-aligned_example : ((copy_head 8 text_call).n ≡ 0) ⊎ ((copy_head 8 text_call).s % 8 ≡ 0)
copy_head-aligned_example = copy_head-aligned 8 text_call (omega arith) (inr (omega arith))

memset-text : memset text 5 7 30 20 ≡ 7
unfolding memset set_head set_words set_tail c_long write_u64 byte
memset-text = refl

memset-fills_example : memset text 5 7 30 20 ≡ 7
memset-fills_example = memset-fills text 5 30 7 (omega arith) (omega arith) 20
