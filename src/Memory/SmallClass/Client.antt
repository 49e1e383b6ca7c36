-- ===== src/Memory/SmallClass/Client.antt =====
-- What a client of small_class.c relies on: slots that it holds have no address in common with a slot
-- that is handed out, and are not touched.
use native.Mathlib.Nat.{mul-le-mul_right}
use native.Mathlib.Decide.{ℕ_discrete, dec_lt}
use mathlib.Core.Option.{some-injective, none-ne-some}
use mini_libc.Base.{
  ℕ, ◌+◌, ◌*◌, ◌≤◌, ◌<◌, ◌≡◌, ◌≢◌, ◌⊎◌, sym, ap, ◌∙◌, inl, inr, arith, List, Option, none, some,
}
use mini_libc.Links.{Ptr}
use mini_libc.Memory.Pages.{Pages, PagesLaws, Disjoint}
use mini_libc.Memory.Buddy.Sound.{chunks_apart}
use mini_libc.Memory.SmallClass.{SmallArena, slot_num, idx_slot, small_alloc, small_free}
use mini_libc.Memory.SmallClass.Slots.{slot_free}
use mini_libc.Memory.SmallClass.Give.{slot-inside, InSlot, idx_slot-eq}
use mini_libc.Memory.SmallClass.Sound.{IsSound, IsSlotSize, slot_size-bounds, block-bounds}
use mini_libc.Memory.SmallClass.Free.{small_free-IsReturned}
use mini_libc.Memory.SmallClass.Serve.{IsServed, Outcome, small_alloc-Outcome}

below : (i j len : ℕ) → i < j → i * len + len ≤ j * len
below i j len lt =
    let a = mul-le-mul_right {m = i + 1} {n = j} len (omega (arith, lt)) in
    let next : (i + 1) * len ≡ i * len + len = grind arith in omega (arith, a, next)

module _ (P : Pages) (L : PagesLaws P) where
  -- A slot is held: it is one of a block, and not free.
  pub record IsHeld (s : SmallArena P) (size : Ptr → ℕ) (block idx : ℕ) : Type 0 where
    pub used : size block ≢ 0
    pub idx_lt : idx < slot_num (size block)
    pub taken : slot_free s.bitmap block idx ≡ 0

  module _ (s : SmallArena P) (size : Ptr → ℕ) (lists : ℕ → List Ptr) (all : List Ptr)
      (h : IsSound P L s size lists all) where
    blocks-Disjoint : (p q : Ptr) → size p ≢ 0 → size q ≢ 0 → p ≢ q → Disjoint p 65536 q 65536
    blocks-Disjoint p q u v d =
        let (i, (held, start)) = h.held p u in
        let (j, (held', start')) = h.held q v in
        elim (ℕ_discrete (s.buddy_ctx p) (s.buddy_ctx q)) [
          | yes e ↦
              let same = ap s.buddy_arena.chunk e in
              let ne : i ≢ j = λ z. d (
                start
                ∙ ap (λ y. y + i * 65536) same
                ∙ ap (λ y. s.buddy_arena.chunk (s.buddy_ctx q) + y * 65536) z
                ∙ sym start') in
              ground (arith, start, start', same, ne)
          | no ne ↦
              elim (chunks_apart P L s.buddy_arena (s.buddy_ctx p) (s.buddy_ctx q) h.buddy_ok
                held.used held'.used ne) [
                  | inl c ↦ inl (omega (arith, c, start, start', held.here.index_lt))
                  | inr c ↦ inr (omega (arith, c, start, start', held'.here.index_lt))
                ]
        ]

    -- Two slots of a sound arena have no address in common.
    pub slots-Disjoint :
        (p i q j : ℕ)
        → size p ≢ 0
        → size q ≢ 0
        → i < slot_num (size p)
        → j < slot_num (size q)
        → ((p ≢ q) ⊎ (i ≢ j))
        → Disjoint (idx_slot p i (size p)) (size p) (idx_slot q j (size q)) (size q)
    slots-Disjoint p i q j u v lt lt' d =
        let a = idx_slot-eq p (size p) i lt (block-bounds P L s size lists all h p u).1 in
        let b = idx_slot-eq q (size q) j lt' (block-bounds P L s size lists all h q v).1 in
        let a' = slot-inside (size p) i lt in
        let b' = slot-inside (size q) j lt' in
        rw (a, b)
          (elim (ℕ_discrete p q) [
            | no ne ↦ elim (blocks-Disjoint p q u v ne) [
              | inl c ↦ inl (omega (arith, c, a'))
              | inr c ↦ inr (omega (arith, c, b'))
            ]
            | yes e ↦ elim (dec_lt i j) [
              | yes less ↦ inl (rw e (omega (arith, below i j (size q) less)))
              | no nless ↦
                  let less : j < i = ground (arith, d, e, nless) in
                  inr (rw e (omega (arith, below j i (size q) less)))
            ]
          ])

  -- In a sound arena the slot is held, in a block of the same size as before.
  pub record StillHeld (size : Ptr → ℕ) (block idx : ℕ) (r : SmallArena P) : Type 0 where
    pub size' : Ptr → ℕ
    pub lists : ℕ → List Ptr
    pub all : List Ptr
    pub sound : IsSound P L r size' lists all
    pub same_size : size' block ≡ size block
    pub held : IsHeld r size' block idx

  served-apart :
      (s : SmallArena P) (size : Ptr → ℕ) (len block ptr : ℕ) (r : SmallArena P) (q j : ℕ)
      → IsSlotSize len
      → IsServed P L s size len block ptr r
      → IsHeld s size q j
      → Disjoint ptr len (idx_slot q j (size q)) (size q) × StillHeld size q j r
  served-apart s size len block ptr r q j ok o held =
      let same = o.sizes_kept q held.used in
      let used : o.size' q ≢ 0 = λ z. held.used (sym same ∙ z) in
      let lt : j < slot_num (o.size' q) = rw same held.idx_lt in
      let other : (q ≢ block) ⊎ (j ≢ o.idx) = elim (ℕ_discrete q block) [
        | no d ↦ inl d
        | yes e ↦ inr (λ z. absurd (
            omega (
              arith,
              o.was_free (λ y. held.used (ap size e ∙ y)),
              held.taken,
              ap (λ y. slot_free s.bitmap y j) e,
              ap (slot_free s.bitmap block) z,
            )))
      ] in
      let new_used : o.size' block ≢ 0 =
        λ z. absurd (omega (arith, z, o.block_size, (slot_size-bounds len ok).0)) in
      let other' : (block ≢ q) ⊎ (o.idx ≢ j) = elim other [
        | inl d ↦ inl (λ z. d (sym z))
        | inr d ↦ inr (λ z. d (sym z))
      ] in
      let apart =
        slots-Disjoint r o.size' o.lists o.all o.sound block o.idx q j new_used used
          (rw o.block_size o.idx_lt) lt other' in
      (
        rw o.here (rw (o.block_size, same) at apart),
        record {
          size' = o.size';
          lists = o.lists;
          all = o.all;
          sound = o.sound;
          same_size = same;
          held = record {
            used = used;
            idx_lt = lt;
            taken = o.slots_kept q j held.used other ∙ held.taken;
          };
        },
      )

  -- From a sound arena: a slot that `small_alloc` returns has no address in common with a slot that is
  -- held, and what was held still is, in blocks of the same sizes.
  pub small_alloc-apart :
      (s : SmallArena P) (size : Ptr → ℕ) (lists : ℕ → List Ptr) (all : List Ptr)
      → IsSound P L s size lists all
      → (len block ptr : ℕ) → IsSlotSize len
      → (small_alloc P s len).0 ≡ some (block, ptr)
      → (q j : ℕ) → IsHeld s size q j
      → Disjoint ptr len (idx_slot q j (size q)) (size q)
        × StillHeld size q j (small_alloc P s len).1
  small_alloc-apart s size lists all h len block ptr ok e q j held =
      go (small_alloc P s len) e (small_alloc-Outcome P L s size lists all h len ok)
    where
      go :
          (r : Option (Ptr × ℕ) × SmallArena P)
          → r.0 ≡ some (block, ptr)
          → Outcome P L s size len r
          → Disjoint ptr len (idx_slot q j (size q)) (size q) × StillHeld size q j r.1
      go (none, r) e o = absurd (none-ne-some (block, ptr) e)
      go (some (b, p), r) e o =
          rw (← ap (λ z. z.1) (some-injective (b, p) (block, ptr) e))
            (served-apart s size len b p r q j ok o held)

  -- From a sound arena: when one of two different slots that are held is given back, the other one is
  -- still held, also where the block of the first one goes back to the buddy allocator.
  pub small_free-keeps :
      (s : SmallArena P) (size : Ptr → ℕ) (lists : ℕ → List Ptr) (all : List Ptr)
      → IsSound P L s size lists all
      → (block idx q j : ℕ) → IsHeld s size block idx
      → IsHeld s size q j
      → ((q ≢ block) ⊎ (j ≢ idx))
      → (ptr : ℕ) → InSlot block idx (size block) ptr
      → StillHeld size q j (small_free P s ptr block (size block))
  small_free-keeps s size lists all h block idx q j given held other ptr inside =
      let o =
        small_free-IsReturned P L s size lists all h block idx given.used given.idx_lt given.taken
          ptr inside in
      let r = small_free P s ptr block (size block) in
      let taken : slot_free r.bitmap q j ≡ 0 = o.slots q j ∙ ground (arith, other, held.taken) in
      let same : o.size' q ≡ size q = elim (ℕ_discrete q block) [
        | no d ↦ o.others_stay q d
        | yes e ↦ elim o.stays_or_free [
          | inl z ↦ ap o.size' e ∙ z ∙ ap size (sym e)
          | inr (z, every) ↦ absurd (
              omega
                (arith, taken, ap (λ y. slot_free r.bitmap y j) e, every j (rw (← e) held.idx_lt)))
        ]
      ] in
      record {
        size' = o.size';
        lists = o.lists;
        all = o.all;
        sound = o.sound;
        same_size = same;
        held = record {
          used = λ z. held.used (sym same ∙ z);
          idx_lt = rw same held.idx_lt;
          taken = taken;
        };
      }
