-- ===== src/Strings/Copy.antt =====
-- src/string/memcpy.c: `memcpy` copies bytes until the source is aligned, and then words. Where the
-- destination is not aligned at that point, each word that it writes is put together from two words
-- of the source.
pub mod Byte
pub mod Copied
pub mod Loops
pub mod Shifted
pub mod Copies
use mini_libc.Base.{
  ℕ, zero, suc, ◌+◌, ◌-◌, ◌*◌, ◌/◌, ◌%◌, ◌^◌, bit_and, bit_or, ◌||◌, ◌&&◌, leb, ltb, ◌==◌,
  if◌then◌else◌, update,
}
use mini_libc.Bits.Words.{u64, u32}
use mini_libc.Strings.{Bytes, read_u64}

-- Byte i of a word.
unfoldable pub byte : ℕ → ℕ → ℕ
byte zero v = v % 256
byte (suc i) v = byte i (v / 256)

-- A store of 8 bytes, the lowest first.
unfoldable pub write_u64 : ℕ → ℕ → Bytes → Bytes
write_u64 d v mem a = if leb d a && ltb a (d + 8) then byte (a - d) v else mem a

pub record CopyState : Type 0 where
  pub mem : Bytes
  pub s : ℕ
  pub d : ℕ
  pub n : ℕ

-- `*d = b; d++; n--;`
abbrev pub put_byte : ℕ → CopyState → CopyState
put_byte b z = record z { mem = update z.mem z.d b; d = u64 (z.d + 1); n = z.n - 1 }

-- `write_u64 (d, v); s += 8; d += 8; n -= 8;`
abbrev pub put_word : ℕ → CopyState → CopyState
put_word v z = record {
  mem = write_u64 z.d v z.mem;
  s = u64 (z.s + 8);
  d = u64 (z.d + 8);
  n = z.n - 8;
}

unfoldable pub copy_head : ℕ → CopyState → CopyState
copy_head zero z = z
copy_head (suc k) z =
    let rest = copy_head k (record (put_byte (z.mem z.s) z) { s = u64 (z.s + 1) }) in
    if (z.n == 0) || (bit_and z.s 7 == 0) then z else rest

unfoldable pub copy_words : ℕ → CopyState → CopyState
copy_words zero z = z
copy_words (suc k) z =
    let rest = copy_words k (put_word (read_u64 z.mem z.s) z) in if ltb z.n 8 then z else rest

-- The loops that store the bytes of a buffer, k of them at most; with what is left of the buffer.
unfoldable pub store_bytes : ℕ → ℕ → CopyState → ℕ × CopyState
store_bytes zero buf z = (buf, z)
store_bytes (suc k) buf z =
    let rest = store_bytes k (buf / 256) (put_byte (bit_and buf 255) z) in
    if z.n == 0 then (buf, z) else rest

-- `s_buf | (s_buf2 << (8 * d_off))`.
abbrev pub merge : ℕ → ℕ → ℕ → ℕ
merge off buf buf2 = bit_or buf (u64 (buf2 * 2 ^ (8 * off)))

unfoldable pub copy_shifted : ℕ → ℕ → ℕ → CopyState → ℕ × CopyState
copy_shifted zero off buf z = (buf, z)
copy_shifted (suc k) off buf z =
    let buf2 = read_u64 z.mem z.s in
    let rest = copy_shifted k off (buf2 / 2 ^ (8 * (8 - off))) (put_word (merge off buf buf2) z) in
    if ltb z.n 8 then (buf, z) else rest

-- The second part, for an aligned destination.
unfoldable pub copy_aligned : CopyState → CopyState
copy_aligned z =
    let w = copy_words (z.n / 8) z in
    if w.n == 0 then w else (store_bytes 8 (read_u64 w.mem w.s) w).1

-- The last part, the final bytes.
unfoldable pub copy_last : ℕ → ℕ → CopyState → CopyState
copy_last off buf z =
    let buf2 = if leb z.n off then 0 else read_u64 z.mem z.s in
    if z.n == 0 then z else (store_bytes 8 (merge off buf buf2) z).1

unfoldable pub copy_unaligned : CopyState → CopyState
copy_unaligned z =
    let off = u32 (bit_and z.d 7) in
    let (buf, y) = store_bytes (8 - off) (read_u64 z.mem z.s) z in
    let (buf', x) = copy_shifted (y.n / 8) off buf (record y { s = u64 (y.s + 8) }) in
    if y.n == 0 then y else copy_last off buf' x

unfoldable pub memcpy : Bytes → ℕ → ℕ → ℕ → Bytes
memcpy mem dest src n =
    let z = copy_head 8 (record { mem = mem; s = src; d = dest; n = n }) in
    if z.n == 0
    then z.mem
    else if bit_and z.d 7 == 0
    then (copy_aligned z).mem
    else (copy_unaligned z).mem
