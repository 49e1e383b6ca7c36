-- ===== src/Memory/Mmap/Groups.antt =====
-- The records of a new group, as `allocate_mmap_record_group` links them.
use mathlib.Core.Bool.{false≢true}
use native.Mathlib.Decide.{ℕ_discrete}
use mini_libc.Base.{
  ℕ, zero, suc, ◌+◌, ◌-◌, ◌≤◌, ◌<◌, ◌≡◌, ◌≢◌, inl, inr, refl, sym, ap, ◌∙◌, true, false, ◌&&◌, ltb,
  leb, List, [], ◌∷◌, arith, ◌==◌, if◌then◌else◌, Bool-cases,
}
use mini_libc.Links.{Ptr, null, has, Chain}
use mini_libc.Links.Chain.{frame, has-cases}
use mini_libc.Memory.Mmap.{Kernel, MmapArena, record_at, link_records, add_group}
use mini_libc.Memory.Mmap.Lists.{HasLists}

module _ (group : Ptr) where
  -- The n records from index i on.
  abbrev pub records : ℕ → ℕ → List Ptr
  records i zero = []
  records i (suc n) = record_at group i ∷ records (i + 1) n

  pub has-records :
      (i n : ℕ) (p : Ptr)
      → has p (records i n) ≡ true
      → (j : ℕ) × (i ≤ j) × (j < i + n) × (p ≡ record_at group j)
  has-records i zero p h = absurd (false≢true h)
  has-records i (suc n) p h = elim (has-cases p (record_at group i) (records (i + 1) n) h) [
    | inl e ↦ (i, omega arith, omega arith, e)
    | inr (ne, m) ↦
        let (j, lo, hi, e) = has-records (i + 1) n p m in
        (j, omega (arith, lo), omega (arith, hi), e)
  ]

  not-has-records : (i n : ℕ) (p : Ptr) → p < record_at group i → has p (records i n) ≡ false
  not-has-records i zero p lt = refl
  not-has-records i (suc n) p lt = ground (arith, not-has-records (i + 1) n p)

  not-has-at :
      (i n : ℕ) (p : Ptr) (j : ℕ)
      → has p (records i n) ≡ false
      → i ≤ j
      → j < i + n
      → p ≢ record_at group j
  not-has-at i zero p j out lo hi = absurd (omega arith)
  not-has-at i (suc n) p j out lo hi = elim (ℕ_discrete i j) [
    | yes e ↦ ground arith
    | no ne ↦ not-has-at (i + 1) n p j (ground arith) (omega arith) (omega arith)
  ]

  link-next :
      (n i j : ℕ) (l : (Ptr → Ptr) × (Ptr → Ptr))
      → (link_records group n i l).0 (record_at group j)
        ≡ (if leb i j && ltb j (i + n) then record_at group (j + 1) else l.0 (record_at group j))
  unfolding link_records
  link-next zero i j l = ground arith
  link-next (suc n) i j l = rw (link-next n (i + 1) j) (ground arith)

  link-prev :
      (n i j : ℕ) (l : (Ptr → Ptr) × (Ptr → Ptr))
      → (link_records group n i l).1 (record_at group j)
        ≡ (if ltb i j && leb j (i + n) then record_at group (j - 1) else l.1 (record_at group j))
  unfolding link_records
  link-prev zero i j l = ground arith
  link-prev (suc n) i j l = rw (link-prev n (i + 1) j) (ground arith)

  link-outside :
      (n i : ℕ) (p : Ptr) (l : (Ptr → Ptr) × (Ptr → Ptr))
      → ((j : ℕ) → i ≤ j → j ≤ i + n → p ≢ record_at group j)
      → ((link_records group n i l).0 p ≡ l.0 p) × ((link_records group n i l).1 p ≡ l.1 p)
  unfolding link_records
  link-outside zero i p l out = (refl, refl)
  link-outside (suc n) i p l out =
      let rest = link-outside n (i + 1) p _ (λ j lo hi. out j (omega arith) (omega arith)) in
      (
        rest.0 ∙ ground (arith, out i (omega arith) (omega arith)),
        rest.1 ∙ ground (arith, out (i + 1) (omega arith) (omega arith)),
      )

  module _ (K : Kernel) (s : MmapArena K) (xs : List Ptr) (h : HasLists K s xs [])
      (positive : group ≢ null) (new : (j : ℕ) → j < 127 → has (record_at group j) xs ≡ false) where
    apart_from : (a : Ptr) → has a xs ≡ true → (j : ℕ) → j < 127 → a ≢ record_at group j
    apart_from a m j lt e = false≢true (sym (new j lt) ∙ ap (λ z. has z xs) (sym e) ∙ m)

    group-next :
        (j : ℕ)
        → j < 127
        → (add_group K group s).next (record_at group j)
          ≡ (if j == 126 then null else record_at group (j + 1))
    unfolding add_group
    group-next j lt = ground (arith, link-next 126 0 j (s.next, s.prev), h.inactive_chain)

    group-prev :
        (j : ℕ)
        → j < 127
        → (add_group K group s).prev (record_at group j)
          ≡ (if j == 0 then null else record_at group (j - 1))
    unfolding add_group
    group-prev j lt = ground (
      arith,
      link-prev 126 0 j (s.next, s.prev),
      h.inactive_chain,
      h.outside (record_at group j) (new j lt) refl,
    )

    group-Chain :
        (n i b c : ℕ)
        → i + n ≡ 127
        → b ≡ (if i == 0 then null else record_at group (i - 1))
        → c ≡ (if i == 127 then null else record_at group i)
        → Chain (add_group K group s).next (add_group K group s).prev b c (records i n)
    group-Chain zero i b c e before at = ground arith
    group-Chain (suc n) i b c e before at = (
      ground arith,
      omega arith,
      group-prev i (omega arith) ∙ sym before,
      not-has-records (i + 1) n (record_at group i) (omega arith),
      group-Chain n (i + 1) (record_at group i) _ (omega arith) (ground arith)
          (ground (arith, group-next i (omega arith))),
    )

    away :
        (a : Ptr)
        → ((j : ℕ) → j < 127 → a ≢ record_at group j)
        → ((add_group K group s).next a ≡ s.next a) × ((add_group K group s).prev a ≡ s.prev a)
    unfolding add_group
    away a ne =
        let o = link-outside 126 0 a (s.next, s.prev) (λ j lo hi. ne j (omega arith)) in
        (ground (arith, o.0, ne 126 (omega arith)), ground (arith, o.1, h.inactive_chain))

    -- A new group, apart from the active records and not at 0, in an arena where no record is inactive:
    -- the inactive list is the 127 records of the group, in order, and the active list is what it was.
    pub add_group-AreLists : (n : ℕ) → n ≡ 127 → HasLists K (add_group K group s) xs (records 0 n)
    unfolding add_group
    add_group-AreLists n e = record {
      active_chain =
          frame s.next s.prev (add_group K group s).next (add_group K group s).prev null s.active xs
            (λ a m. (away a (apart_from a m)).0) (λ a m. (away a (apart_from a m)).1)
            h.active_chain;
      inactive_chain = group-Chain n 0 null (record_at group 0) (omega arith) refl refl;
      apart = λ a m. elim (Bool-cases (has a (records 0 n))) [
        | inl i ↦
            let (j, lo, hi, q) = has-records 0 n a i in
            absurd (apart_from a m j (omega (arith, hi)) q)
        | inr o ↦ o
      ];
      outside = λ a m o.
          (away a (λ j lt. not-has-at 0 n a j o (omega arith) (omega arith))).1
          ∙ h.outside a m refl;
    }
