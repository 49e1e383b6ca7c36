-- ===== src/Memory/Bump.antt =====
-- The simplest layer below the buddy allocator: regions one after another, none used twice. It
-- shows that the laws of `PagesLaws` can hold, and examples run on it.
use mini_libc.Base.{
  ℕ, suc, ◌+◌, ◌^◌, ◌≤◌, ◌<◌, ◌≡◌, ◌≢◌, ◌⊎◌, inl, inr, refl, sym, ap, ◌∙◌, Bool, true, false, arith,
  leb, ◌==◌, if◌then◌else◌, List, [], ◌∷◌, Option, none, some, Bool-cases,
}
use mathlib.Core.Option.{some-injective, none-ne-some}
use mini_libc.Memory.Pages.{Pages, PagesLaws}

-- The lengths that were handed out, the latest first, and whether each is still out.
abbrev pub Log : Type 0
Log = List (ℕ × Bool)

abbrev pub count : Log → ℕ
count [] = 0
count (x ∷ xs) = suc (count xs)

abbrev pub first_unused : Log → ℕ
first_unused [] = 4096
first_unused (x ∷ xs) = x.0 + first_unused xs

abbrev pub bump_alloc : Log → ℕ → Option (ℕ × ℕ) × Log
bump_alloc s len =
    if leb (first_unused s + len) (2 ^ 47)
    then (some (first_unused s, count s), (len, true) ∷ s)
    else (none, s)

abbrev pub bump_free : Log → ℕ → Log
bump_free [] c = []
bump_free (x ∷ xs) c = if c == count xs then (x.0, false) ∷ xs else x ∷ bump_free xs c

abbrev pub bump : Pages
bump = record { State = Log; mmap_alloc = bump_alloc; mmap_free = bump_free }

record IsLatest (x : ℕ × Bool) (xs : Log) (c p len : ℕ) : Type 0 where
  pub ctx : c ≡ count xs
  pub live : x.1 ≡ true
  pub start : p ≡ first_unused xs
  pub length : len ≡ x.0
  pub fits : p + len ≤ 2 ^ 47

abbrev Owns : Log → (c p len : ℕ) → Type 0
Owns [] c p len = true ≡ false
Owns (x ∷ xs) c p len = IsLatest x xs c p len ⊎ Owns xs c p len

least : (s : Log) → 4096 ≤ first_unused s
least [] = omega arith
least (x ∷ xs) = omega (arith, least xs)

owned-bounds :
    (s : Log) (c p len : ℕ)
    → Owns s c p len
    → (c < count s) × (4096 ≤ p) × (p + len ≤ first_unused s) × (p + len ≤ 2 ^ 47)
owned-bounds [] c p len o = absurd (ground arith)
owned-bounds (x ∷ xs) c p len (inl l) = ground (arith, least xs, l.ctx, l.start, l.length, l.fits)
owned-bounds (x ∷ xs) c p len (inr o) = ground (arith, owned-bounds xs c p len o)

owned-one :
    (s : Log) (c p len p' len' : ℕ) → Owns s c p len → Owns s c p' len' → (p ≡ p') × (len ≡ len')
owned-one [] c p len p' len' o o' = absurd (ground arith)
owned-one (x ∷ xs) c p len p' len' (inl l) (inl l') =
    (l.start ∙ sym l'.start, l.length ∙ sym l'.length)
owned-one (x ∷ xs) c p len p' len' (inl l) (inr o') =
    absurd (omega (arith, l.ctx, owned-bounds xs c p' len' o'))
owned-one (x ∷ xs) c p len p' len' (inr o) (inl l') =
    absurd (omega (arith, l'.ctx, owned-bounds xs c p len o))
owned-one (x ∷ xs) c p len p' len' (inr o) (inr o') = owned-one xs c p len p' len' o o'

owned-apart :
    (s : Log) (c p len c' p' len' : ℕ)
    → Owns s c p len
    → Owns s c' p' len'
    → c ≢ c'
    → (p + len ≤ p') ⊎ (p' + len' ≤ p)
owned-apart [] c p len c' p' len' o o' ne = absurd (ground arith)
owned-apart (x ∷ xs) c p len c' p' len' (inl l) (inl l') ne = absurd (ne (l.ctx ∙ sym l'.ctx))
owned-apart (x ∷ xs) c p len c' p' len' (inl l) (inr o') ne =
    inr (omega (arith, l.start, owned-bounds xs c' p' len' o'))
owned-apart (x ∷ xs) c p len c' p' len' (inr o) (inl l') ne =
    inl (omega (arith, l'.start, owned-bounds xs c p len o))
owned-apart (x ∷ xs) c p len c' p' len' (inr o) (inr o') ne =
    owned-apart xs c p len c' p' len' o o' ne

bump_alloc-some :
    (s : Log) (len p c : ℕ)
    → (bump_alloc s len).0 ≡ some (p, c)
    → (first_unused s + len ≤ 2 ^ 47)
      × (p ≡ first_unused s)
      × (c ≡ count s)
      × ((bump_alloc s len).1 ≡ (len, true) ∷ s)
bump_alloc-some s len p c e = elim (Bool-cases (leb (first_unused s + len) (2 ^ 47))) [
  | inl t ↦
      let q : (first_unused s, count s) ≡ (p, c) =
        some-injective (first_unused s, count s) (p, c) (rw t at e) in
      (ground arith, sym (ap (λ z. z.0) q), sym (ap (λ z. z.1) q), rw t refl)
  | inr f ↦ absurd (none-ne-some (p, c) (rw f at e))
]

bump_alloc-keeps : (s : Log) (l c p len : ℕ) → Owns s c p len → Owns (bump_alloc s l).1 c p len
bump_alloc-keeps s l c p len o = elim (Bool-cases (leb (first_unused s + l) (2 ^ 47))) [
  | inl e ↦ rw e (inr o)
  | inr e ↦ rw e o
]

free-count :
    (s : Log) (c : ℕ)
    → (count (bump_free s c) ≡ count s) × (first_unused (bump_free s c) ≡ first_unused s)
free-count [] c = (refl, refl)
free-count (x ∷ xs) c = ground (arith, free-count xs c)

bump_free-keeps :
    (s : Log) (c' c p len : ℕ) → Owns s c p len → c ≢ c' → Owns (bump_free s c') c p len
bump_free-keeps [] c' c p len o ne = o
bump_free-keeps (x ∷ xs) c' c p len o ne = elim (Bool-cases (c' == count xs)) [
  | inl e ↦ rw e (elim o [ inl l ↦ absurd (ground (arith, l.ctx)) | inr o' ↦ inr o' ])
  | inr e ↦ rw e (elim o [
    | inl l ↦ inl (record {
      ctx = l.ctx ∙ sym (free-count xs c').0;
      live = l.live;
      start = l.start ∙ sym (free-count xs c').1;
      length = l.length;
      fits = l.fits;
    })
    | inr o' ↦ inr (bump_free-keeps xs c' c p len o' ne)
  ])
]

pub bump-laws : PagesLaws bump
bump-laws = record {
  owns = Owns;
  owns_bounds = λ s c p len o. ground (arith, owned-bounds s c p len o);
  owns_one = owned-one;
  owns_apart = owned-apart;
  alloc_owns = λ s len p c e.
      let (fits, at, ctx, after) = bump_alloc-some s len p c e in
      rw after (
        inl (record {
          ctx = ctx;
          live = refl;
          start = at;
          length = refl;
          fits = omega (arith, fits, at);
        }));
  alloc_new = λ s len p c p' len' e o.
      let (fits, at, ctx, after) = bump_alloc-some s len p c e in
      omega (arith, ctx, owned-bounds s c p' len' o);
  alloc_keeps = bump_alloc-keeps;
  free_keeps = bump_free-keeps;
}
