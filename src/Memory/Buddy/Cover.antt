-- ===== src/Memory/Buddy/Cover.antt =====
-- Pages of a chunk: by how many available blocks, of all orders, each is covered.
use native.Mathlib.Nat.{pow-suc, div-div-eq-div-mul, one-le-pow, mul-div_cancel, add-zero}
use mini_libc.Base.{
  ℕ, zero, suc, ◌+◌, ◌-◌, ◌*◌, ◌/◌, ◌^◌, ◌≤◌, ◌<◌, ◌≡◌, ◌≢◌, inl, inr, sym, true, false, ◌&&◌,
  arith, ◌==◌, if◌then◌else◌, Bool-cases, update, update_self, update_ne,
}
use native.Mathlib.Decide.{ℕ_discrete}
use mini_libc.Bits.Count.{total, total-same, total-bump, total-le}
use mini_libc.Links.{Ptr}
use mini_libc.Memory.Buddy.{OrderState, blocks}
use mini_libc.Memory.Buddy.Order.{is_free}
use mini_libc.Memory.Buddy.Blocks.{Changed}

abbrev pub Orders : Type 0
Orders = ℕ → OrderState

-- The order k block of page p is p / 2 ^ k.
unfoldable pub cover : Orders → Ptr → ℕ → ℕ
cover orders st p = total 7 (λ k. is_free (orders k) st (p / 2 ^ k))

-- 1 for the pages of block i of order k of st, else 0.
abbrev pub in_block : ℕ → Ptr → ℕ → Ptr → ℕ → ℕ
in_block k st i t p = if (t == st) && (p / 2 ^ k == i) then 1 else 0

pub page_in_range : (k p : ℕ) → k < 7 → p < 128 → p / 2 ^ k < blocks k
page_in_range zero p h lt = omega arith
page_in_range (suc zero) p h lt = omega arith
page_in_range (suc (suc zero)) p h lt = omega arith
page_in_range (suc (suc (suc zero))) p h lt = omega arith
page_in_range (suc (suc (suc (suc zero)))) p h lt = omega arith
page_in_range (suc (suc (suc (suc (suc zero))))) p h lt = omega arith
page_in_range (suc (suc (suc (suc (suc (suc zero)))))) p h lt = omega arith
page_in_range (suc (suc (suc (suc (suc (suc (suc k))))))) p h lt = absurd (omega arith)

pub half_page : (k p : ℕ) → p / 2 ^ suc k ≡ p / 2 ^ k / 2
half_page k p = rw pow-suc (sym (div-div-eq-div-mul p (2 ^ k) 2))

pub blocks-suc : (k : ℕ) → blocks (suc k) ≡ blocks k / 2
blocks-suc k = half_page k 128

-- The two halves of a block of the next order.
pub in_block-halves :
    (k : ℕ) (st : Ptr) (i : ℕ) (t : Ptr) (p : ℕ)
    → in_block (suc k) st i t p ≡ in_block k st (2 * i) t p + in_block k st (2 * i + 1) t p
in_block-halves k st i t p = ground (arith, half_page k p)

-- The first page of block i.
pub first_page : (k i : ℕ) → i * 2 ^ k / 2 ^ k ≡ i
first_page k i = mul-div_cancel i (one-le-pow k 2 (omega arith))

pub first_page-lt : (k i : ℕ) → k < 7 → i < blocks k → i * 2 ^ k < 128
first_page-lt zero i h lt = omega arith
first_page-lt (suc zero) i h lt = omega arith
first_page-lt (suc (suc zero)) i h lt = omega arith
first_page-lt (suc (suc (suc zero))) i h lt = omega arith
first_page-lt (suc (suc (suc (suc zero)))) i h lt = omega arith
first_page-lt (suc (suc (suc (suc (suc zero))))) i h lt = omega arith
first_page-lt (suc (suc (suc (suc (suc (suc zero)))))) i h lt = omega arith
first_page-lt (suc (suc (suc (suc (suc (suc (suc k))))))) i h lt = absurd (omega arith)

-- One block changes, so the pages of that block are covered once more, or once less.
module _ (k : ℕ) (lt : k < 7) (st : Ptr) (i : ℕ) (orders : Orders) (o' : OrderState) where
  module _ (v : ℕ) (c : Changed k v st i (orders k) o') (t : Ptr) (p : ℕ) (small : p < 128) where
    -- The summand of order k.
    here :
        is_free (update orders k o' k) t (p / 2 ^ k)
        ≡ (if (t == st) && (p / 2 ^ k == i) then v else is_free (orders k) t (p / 2 ^ k))
    here = rw (update_self orders k o') (c.marks t (p / 2 ^ k) (page_in_range k p lt small))

    there :
        (j : ℕ)
        → j ≢ k
        → is_free (update orders k o' j) t (p / 2 ^ j) ≡ is_free (orders j) t (p / 2 ^ j)
    there j ne = rw (update_ne orders k j o' ne)

    was : ((t == st) && (p / 2 ^ k == i)) ≡ true → is_free (orders k) t (p / 2 ^ k) ≡ 1 - v
    was hit =
        let e : t ≡ st = ground arith in let f : p / 2 ^ k ≡ i = ground arith in rw (e, f) c.before

    missed :
        ((t == st) && (p / 2 ^ k == i)) ≡ false → cover (update orders k o') t p ≡ cover orders t p
    unfolding cover
    missed miss =
        total-same 7 _ _
          λ j l. elim (ℕ_discrete j k) [ yes e ↦ rw e (rw miss at here) | no ne ↦ there j ne ]

  pub cover-add :
      Changed k 1 st i (orders k) o'
      → (t : Ptr) (p : ℕ) → p < 128
      → cover (update orders k o') t p ≡ cover orders t p + in_block k st i t p
  cover-add c t p small = elim (Bool-cases ((t == st) && (p / 2 ^ k == i))) [
    | inl hit ↦ rw hit (
        unfold cover in
        total-bump 7 k _ _ lt (ground (arith, here 1 c t p small, was 1 c t p small hit))
          (λ j l ne. there 1 c t p small j ne))
    | inr miss ↦ rw (miss, add-zero) (missed 1 c t p small miss)
  ]

  pub cover-remove :
      Changed k 0 st i (orders k) o'
      → (t : Ptr) (p : ℕ) → p < 128
      → cover orders t p ≡ cover (update orders k o') t p + in_block k st i t p
  cover-remove c t p small = elim (Bool-cases ((t == st) && (p / 2 ^ k == i))) [
    | inl hit ↦ rw hit (
        unfold cover in
        total-bump 7 k _ _ lt (ground (arith, here 0 c t p small, was 0 c t p small hit))
          (λ j l ne. sym (there 0 c t p small j ne)))
    | inr miss ↦ rw (miss, add-zero) (sym (missed 0 c t p small miss))
  ]

-- A block that covers a page counts for it.
pub is_free-le-cover :
    (orders : Orders) (k : ℕ) (st : Ptr) (p : ℕ)
    → k < 7
    → is_free (orders k) st (p / 2 ^ k) ≤ cover orders st p
unfolding cover
is_free-le-cover orders k st p lt = total-le 7 k (λ j. is_free (orders j) st (p / 2 ^ j)) lt

pub cover-same :
    (orders orders' : Orders) (t : Ptr) (p : ℕ)
    → ((k i : ℕ) → k < 7 → is_free (orders' k) t i ≡ is_free (orders k) t i)
    → cover orders' t p ≡ cover orders t p
unfolding cover
cover-same orders orders' t p h = total-same 7 _ _ (λ k lt. h k (p / 2 ^ k) lt)
