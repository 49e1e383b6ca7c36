-- ===== src/Memory/Pages.antt =====
-- What the buddy allocator takes from the layer below it (`mmap_alloc` and `mmap_free` of
-- include/memory.h): the operations, and the laws that its proofs rest on.
use mini_libc.Base.{ℕ, ◌+◌, ◌^◌, ◌≤◌, ◌≡◌, ◌≢◌, ◌⊎◌, Option, some}

-- Two regions have no address in common.
abbrev pub Disjoint : (p len p' len' : ℕ) → Type 0
Disjoint p len p' len' = (p + len ≤ p') ⊎ (p' + len' ≤ p)

-- A length gives the address and the context pointer of a region of that many bytes, or `none`
-- where the C function returns `NULL`. A context is enough to give the region back.
pub record Pages : Type 1 where
  pub State : Type 0
  pub mmap_alloc : State → ℕ → Option (ℕ × ℕ) × State
  pub mmap_free : State → ℕ → State

-- `owns s c p len`: the context c stands for the region of len bytes from p on, which was handed
-- out and not given back.
pub record PagesLaws (P : Pages) : Type 1 where
  pub owns : P.State → (c p len : ℕ) → Type 0
  pub owns_bounds : (s : P.State) (c p len : ℕ) → owns s c p len → (p ≢ 0) × (p + len ≤ 2 ^ 47)
  pub owns_one :
      (s : P.State) (c p len p' len' : ℕ)
      → owns s c p len
      → owns s c p' len'
      → (p ≡ p') × (len ≡ len')
  pub owns_apart :
      (s : P.State) (c p len c' p' len' : ℕ)
      → owns s c p len
      → owns s c' p' len'
      → c ≢ c'
      → Disjoint p len p' len'
  pub alloc_owns :
      (s : P.State) (len p c : ℕ)
      → (P.mmap_alloc s len).0 ≡ some (p, c)
      → owns (P.mmap_alloc s len).1 c p len
  pub alloc_new :
      (s : P.State) (len p c p' len' : ℕ)
      → (P.mmap_alloc s len).0 ≡ some (p, c)
      → ¬ owns s c p' len'
  pub alloc_keeps :
      (s : P.State) (l c p len : ℕ) → owns s c p len → owns (P.mmap_alloc s l).1 c p len
  pub free_keeps :
      (s : P.State) (c' c p len : ℕ) → owns s c p len → c ≢ c' → owns (P.mmap_free s c') c p len
