-- ===== src/Memory/Buddy/Groups.antt =====
-- The records of a new group, as `allocate_buddy_chunk_state_group` links them.
use mini_libc.Base.{
  ℕ, zero, suc, ◌+◌, ◌-◌, ◌≤◌, ◌<◌, ◌≡◌, ◌≢◌, inl, inr, refl, sym, ◌∙◌, true, false, ◌&&◌, arith,
  ltb, leb, ◌==◌, if◌then◌else◌, List, [], ◌∷◌,
}
use mathlib.Core.Bool.{false≢true}
use native.Mathlib.Decide.{ℕ_discrete}
use mini_libc.Links.{Ptr, null, Links, has, Chain, IsChain}
use mini_libc.Links.Chain.{has-cases}
use mini_libc.Memory.Buddy.Records.{record_at, link_middle, link_group}

-- The records from index i on.
abbrev pub records : Ptr → ℕ → ℕ → List Ptr
records group i zero = []
records group i (suc n) = record_at group i ∷ records group (i + 1) n

pub has-records :
    (group : Ptr) (i n : ℕ) (p : Ptr)
    → has p (records group i n) ≡ true
    → (j : ℕ) × (i ≤ j) × (j < i + n) × (p ≡ record_at group j)
has-records group i zero p h = absurd (false≢true h)
has-records group i (suc n) p h =
    elim (has-cases p (record_at group i) (records group (i + 1) n) h) [
      | inl e ↦ (i, omega arith, omega arith, e)
      | inr (ne, m) ↦
          let (j, lo, hi, e) = has-records group (i + 1) n p m in
          (j, omega (arith, lo), omega (arith, hi), e)
    ]

pub not-has-records :
    (group : Ptr) (i n : ℕ) (p : Ptr) → p < record_at group i → has p (records group i n) ≡ false
not-has-records group i zero p lt = refl
not-has-records group i (suc n) p lt = ground (arith, not-has-records group (i + 1) n p)

not-has-at :
    (group : Ptr) (i n : ℕ) (p : Ptr) (j : ℕ)
    → has p (records group i n) ≡ false
    → i ≤ j
    → j < i + n
    → p ≢ record_at group j
not-has-at group i zero p j out lo hi = absurd (omega arith)
not-has-at group i (suc n) p j out lo hi = elim (ℕ_discrete i j) [
  | yes e ↦ ground arith
  | no ne ↦ not-has-at group (i + 1) n p j (ground arith) (omega arith) (omega arith)
]

not-has-part :
    (group : Ptr) (i n j m : ℕ) (p : Ptr)
    → (i ≤ j) × (j + m ≤ i + n)
    → has p (records group i n) ≡ false
    → has p (records group j m) ≡ false
not-has-part group i n j zero p b out = refl
not-has-part group i n j (suc m) p b out =
    ground (arith, not-has-at group i n p j out, not-has-part group i n (j + 1) m p)

middle-next :
    (group : Ptr) (n i j : ℕ) (l : Links)
    → (link_middle group n i l).next (record_at group j)
      ≡ (if leb i j && ltb j (i + n) then record_at group (j + 1) else l.next (record_at group j))
unfolding link_middle
middle-next group zero i j l = ground arith
middle-next group (suc n) i j l = rw (middle-next group n (i + 1) j) (ground arith)

middle-prev :
    (group : Ptr) (n i j : ℕ) (l : Links)
    → (link_middle group n i l).prev (record_at group j)
      ≡ (if leb i j && ltb j (i + n) then record_at group (j - 1) else l.prev (record_at group j))
unfolding link_middle
middle-prev group zero i j l = ground arith
middle-prev group (suc n) i j l = rw (middle-prev group n (i + 1) j) (ground arith)

middle-outside :
    (group : Ptr) (n i : ℕ) (p : Ptr) (l : Links)
    → has p (records group i n) ≡ false
    → (link_middle group n i l).prev p ≡ l.prev p
unfolding link_middle
middle-outside group zero i p l h = refl
middle-outside group (suc n) i p l h =
    middle-outside group n (i + 1) p _ (ground arith) ∙ ground arith

middle-head : (group : Ptr) (n i : ℕ) (l : Links) → (link_middle group n i l).head ≡ l.head
unfolding link_middle
middle-head group zero i l = refl
middle-head group (suc n) i l = middle-head group n (i + 1) _

module _ (group : Ptr) (l : Links) (h : IsChain l []) where
  group-next :
      (j : ℕ)
      → j < 20
      → (link_group group l).next (record_at group j)
        ≡ (if j == 19 then null else record_at group (j + 1))
  unfolding link_group
  group-next j lt = ground (arith, middle-next group 18 1 j l, middle-head group 18 1 l, h.chain)

  group-prev :
      (j : ℕ)
      → j < 20
      → (link_group group l).prev (record_at group j)
        ≡ (if j == 0 then null else record_at group (j - 1))
  unfolding link_group
  group-prev j lt = ground (
    arith,
    middle-prev group 18 1 j l,
    middle-head group 18 1 l,
    h.chain,
    h.outside (record_at group j),
  )

  group-Chain :
      (n i b c : ℕ)
      → i + n ≡ 20
      → b ≡ (if i == 0 then null else record_at group (i - 1))
      → c ≡ (if i == 20 then null else record_at group i)
      → Chain (link_group group l).next (link_group group l).prev b c (records group i n)
  group-Chain zero i b c e before at = ground arith
  group-Chain (suc n) i b c e before at = (
    ground arith,
    omega arith,
    group-prev i (omega arith) ∙ sym before,
    not-has-records group (i + 1) n (record_at group i) (omega arith),
    group-Chain n (i + 1) (record_at group i) _ (omega arith) (ground arith)
        (ground (arith, group-next i (omega arith))),
  )

  group-outside :
      (n : ℕ) (p : Ptr)
      → n ≡ 20
      → has p (records group 0 n) ≡ false
      → (link_group group l).prev p ≡ null
  unfolding link_group
  group-outside n p e out =
      let middle : has p (records group 1 18) ≡ false =
        not-has-part group 0 n 1 18 p (omega arith) out in
      ground (
        arith,
        middle-outside group 18 1 p l middle,
        not-has-at group 0 n p 19 out,
        middle-head group 18 1 l,
        h.chain,
        h.outside p,
      )

  -- Where the list of empty records is empty, it is the 20 records of the new group, in order, after
  -- these are linked.
  pub link_group-IsChain : IsChain (link_group group l) (records group 0 20)
  unfolding link_group
  link_group-IsChain = record {
    chain = group-Chain 20 0 null (record_at group 0) refl refl refl;
    outside = λ p out. group-outside 20 p refl out;
  }
