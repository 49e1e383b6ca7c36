-- ===== src/Memory/Buddy/Addresses.antt =====
-- BUDDY_IDX_BLOCK and BUDDY_BLOCK_IDX on the blocks of a chunk: no step of the arithmetic wraps.
use mini_libc.Base.{ℕ, zero, suc, ◌+◌, ◌*◌, ◌^◌, ◌≤◌, ◌<◌, ◌≡◌, ap, arith}
use native.Mathlib.Nat.{pow-suc}
use mini_libc.Memory.Buddy.{blocks, block_index, index_block}

-- `ptr` is an address of block idx of order k.
pub record InBlock (chunk idx k ptr : ℕ) : Type 0 where
  pub index_lt : idx < blocks k
  pub from_start : chunk + idx * 2 ^ (12 + k) ≤ ptr
  pub below_end : ptr < chunk + (idx + 1) * 2 ^ (12 + k)

pub index_block-eq :
    (chunk idx k : ℕ)
    → k < 7
    → chunk + 524288 ≤ 2 ^ 47
    → idx < blocks k
    → index_block chunk idx k ≡ chunk + idx * 2 ^ (12 + k)
unfolding index_block
index_block-eq c i zero h fits lt = omega arith
index_block-eq c i (suc zero) h fits lt = omega arith
index_block-eq c i (suc (suc zero)) h fits lt = omega arith
index_block-eq c i (suc (suc (suc zero))) h fits lt = omega arith
index_block-eq c i (suc (suc (suc (suc zero)))) h fits lt = omega arith
index_block-eq c i (suc (suc (suc (suc (suc zero))))) h fits lt = omega arith
index_block-eq c i (suc (suc (suc (suc (suc (suc zero)))))) h fits lt = omega arith
index_block-eq c i (suc (suc (suc (suc (suc (suc (suc k))))))) h fits lt = absurd (omega arith)

-- Any address of block idx of order k gives idx, where the chunk ends below 2 ^ 47.
pub block_index-eq :
    (chunk idx k ptr : ℕ)
    → k < 7
    → chunk + 524288 ≤ 2 ^ 47
    → InBlock chunk idx k ptr
    → block_index chunk ptr k ≡ idx
unfolding block_index
block_index-eq c i zero p h fits b = omega arith
block_index-eq c i (suc zero) p h fits b = omega arith
block_index-eq c i (suc (suc zero)) p h fits b = omega arith
block_index-eq c i (suc (suc (suc zero))) p h fits b = omega arith
block_index-eq c i (suc (suc (suc (suc zero)))) p h fits b = omega arith
block_index-eq c i (suc (suc (suc (suc (suc zero))))) p h fits b = omega arith
block_index-eq c i (suc (suc (suc (suc (suc (suc zero)))))) p h fits b = omega arith
block_index-eq c i (suc (suc (suc (suc (suc (suc (suc k))))))) p h fits b = absurd (omega arith)

-- A block of the next order begins where its lower half does.
pub lower_half : (i k : ℕ) → i * 2 ^ (12 + suc k) ≡ 2 * i * 2 ^ (12 + k)
lower_half i k =
    let e : 12 + suc k ≡ suc (12 + k) = omega arith in
    rw e (omega (arith, ap (λ (t : ℕ). i * t) (pow-suc 2 (12 + k))))
