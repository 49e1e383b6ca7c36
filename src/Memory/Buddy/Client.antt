-- ===== src/Memory/Buddy/Client.antt =====
-- What a client of the buddy allocator relies on: a block that it holds is not handed out again and
-- stays held until it is given back, and giving a block back undoes its allocation.
use native.Mathlib.Nat.{one-le-pow}
use mini_libc.Base.{
  ℕ, zero, suc, ◌+◌, ◌-◌, ◌*◌, ◌/◌, ◌^◌, ◌≤◌, ◌<◌, ◌≡◌, ◌≢◌, sym, ap, ◌∙◌, arith, some,
}
use native.Mathlib.Decide.{ℕ_discrete}
use mini_libc.Links.{Ptr}
use mini_libc.Memory.Pages.{Pages, PagesLaws}
use mini_libc.Memory.Buddy.{Arena}
use mini_libc.Memory.Buddy.Cover.{first_page, first_page-lt}
use mini_libc.Memory.Buddy.Sound.{IsSound, available, chunks_apart}
use mini_libc.Memory.Buddy.Addresses.{InBlock}
use mini_libc.Memory.Buddy.AllocSound.{Taken}
use mini_libc.Memory.Buddy.Split.{available-le_one}
use mini_libc.Memory.Buddy.FreeSound.{Held}
use mini_libc.Memory.Buddy.Levels.{buddy_alloc, buddy_alloc-IsSound}
use mini_libc.Memory.Buddy.FreeLevels.{buddy_free, buddy_free-IsSound}

-- The page of an address of a block.
page-InBlock :
    (chunk idx k x : ℕ)
    → k < 7
    → InBlock chunk idx k x
    → ((x - chunk) / 4096 / 2 ^ k ≡ idx) × ((x - chunk) / 4096 < 128)
page-InBlock c i zero x lt b = omega arith
page-InBlock c i (suc zero) x lt b = omega arith
page-InBlock c i (suc (suc zero)) x lt b = omega arith
page-InBlock c i (suc (suc (suc zero))) x lt b = omega arith
page-InBlock c i (suc (suc (suc (suc zero)))) x lt b = omega arith
page-InBlock c i (suc (suc (suc (suc (suc zero))))) x lt b = omega arith
page-InBlock c i (suc (suc (suc (suc (suc (suc zero)))))) x lt b = omega arith
page-InBlock c i (suc (suc (suc (suc (suc (suc (suc k))))))) x lt b = absurd (omega arith)

within : (chunk idx k x : ℕ) → k < 7 → InBlock chunk idx k x → (chunk ≤ x) × (x < chunk + 524288)
within c i zero x lt b = omega arith
within c i (suc zero) x lt b = omega arith
within c i (suc (suc zero)) x lt b = omega arith
within c i (suc (suc (suc zero))) x lt b = omega arith
within c i (suc (suc (suc (suc zero)))) x lt b = omega arith
within c i (suc (suc (suc (suc (suc zero))))) x lt b = omega arith
within c i (suc (suc (suc (suc (suc (suc zero)))))) x lt b = omega arith
within c i (suc (suc (suc (suc (suc (suc (suc k))))))) x lt b = absurd (omega arith)

next_start : (idx n : ℕ) → (idx + 1) * n ≡ idx * n + n
next_start idx n = grind arith

module _ (P : Pages) (L : PagesLaws P) (a : Arena P.State) (h : IsSound P L a) where
  module _ (k st block : ℕ) (lt : k < 7) (e : (buddy_alloc P k a).0 ≡ some (st, block)) where
    taken : Taken P L k a st block (buddy_alloc P k a).1
    taken = let (ok, out) = buddy_alloc-IsSound P L k a lt h in rw e at out

    sound : IsSound P L (buddy_alloc P k a).1
    sound = (buddy_alloc-IsSound P L k a lt h).0

    taken-InBlock :
        (x : ℕ)
        → block ≤ x
        → x < block + 2 ^ (12 + k)
        → InBlock ((buddy_alloc P k a).1.chunk st) taken.index k x
    taken-InBlock x lo hi = record {
      index_lt = taken.index_lt;
      from_start = omega (arith, taken.here, lo);
      below_end = omega (arith, taken.here, hi, next_start taken.index (2 ^ (12 + k)));
    }

    taken-Held : Held P L k (buddy_alloc P k a).1 st taken.index block
    taken-Held = record {
      used = taken.used;
      here = taken-InBlock block (omega arith) (omega (arith, one-le-pow (12 + k) 2 (omega arith)));
      taken =
          λ p small q. ground (arith, taken.pages st p small, available-le_one P L a st p h small);
    }

    -- From a sound arena: the block that an allocation returns is held, by its address.
    pub alloc-Held : (i : ℕ) × Held P L k (buddy_alloc P k a).1 st i block
    alloc-Held = (taken.index, taken-Held)

    module _ (j s idx ptr : ℕ) (jt : j < 7) (held : Held P L j a s idx ptr) where
      -- From a sound arena: a block that is held before an allocation is held after it.
      pub alloc-keeps_Held : Held P L j (buddy_alloc P k a).1 s idx ptr
      alloc-keeps_Held =
          let same = taken.kept s held.used in
          record {
            used = ground (arith, same, held.used);
            here = rw (same.1) held.here;
            taken = λ p small q. omega (arith, taken.pages s p small, held.taken p small q);
          }

      -- From a sound arena: no address of a block that is held is in the block that an allocation
      -- returns.
      pub alloc-apart :
          (x : ℕ) → InBlock (a.chunk s) idx j x → ¬ ((block ≤ x) × (x < block + 2 ^ (12 + k)))
      alloc-apart x b (lo, hi) =
          let same = (taken.kept s held.used).1 in
          let used' : (buddy_alloc P k a).1.in_use s ≢ 0 =
            ground (arith, taken.kept s held.used, held.used) in
          let b' = taken-InBlock x lo hi in
          let (page, small) = page-InBlock (a.chunk s) idx j x jt b in
          let (page', small') =
            page-InBlock ((buddy_alloc P k a).1.chunk st) taken.index k x lt b' in
          elim (ℕ_discrete s st) [
            | yes q ↦
                let p = (x - a.chunk s) / 4096 in
                let c : a.chunk s ≡ (buddy_alloc P k a).1.chunk st =
                  sym same ∙ ap (buddy_alloc P k a).1.chunk q in
                let on : p / 2 ^ k ≡ taken.index = rw (sym c) at page' in
                let free : available P L a st p ≡ 0 =
                  ap (λ z. available P L a z p) (sym q) ∙ held.taken p small page in
                ground (arith, taken.pages st p small, on, free)
            | no ne ↦
                let c = chunks_apart P L (buddy_alloc P k a).1 s st sound used' taken.used ne in
                let w = within (a.chunk s) idx j x jt b in
                let w' = within ((buddy_alloc P k a).1.chunk st) taken.index k x lt b' in
                ground (arith, c, w, w', same)
          ]

    -- From a sound arena: giving back the block that an allocation returned leads to a sound arena
    -- where the same pages are available as before.
    pub free-alloc :
        (t : Ptr) (p : ℕ)
        → p < 128
        → let r = buddy_free P k block st (buddy_alloc P k a).1 in
          IsSound P L r × (available P L r t p ≡ available P L a t p)
    free-alloc t p small =
        let (ok, out) =
          buddy_free-IsSound P L k (buddy_alloc P k a).1 st taken.index block lt sound taken-Held in
        (ok, out.pages t p small ∙ sym (taken.pages t p small))

  -- From a sound arena: when one of two blocks that are held and share no page is given back, the
  -- other one is still held.
  pub free-keeps_Held :
      (k st i ptr j s idx ptr' : ℕ)
      → k < 7
      → j < 7
      → Held P L k a st i ptr
      → Held P L j a s idx ptr'
      → ((p : ℕ) → p < 128 → (s ≡ st) × (p / 2 ^ k ≡ i) → p / 2 ^ j ≢ idx)
      → Held P L j (buddy_free P k ptr st a) s idx ptr'
  unfolding available
  free-keeps_Held k st i ptr j s idx ptr' lt jt held other apart =
      let (ok, out) = buddy_free-IsSound P L k a st i ptr lt h held in
      let unavailable : (p : ℕ)
          → p < 128
          → p / 2 ^ j ≡ idx
          → available P L (buddy_free P k ptr st a) s p ≡ 0 =
        λ p small q. ground (arith, out.pages s p small, other.taken p small q, apart p small) in
      let first = first_page j idx in
      let small = first_page-lt j idx jt other.here.index_lt in
      let used : (buddy_free P k ptr st a).in_use s ≢ 0 =
        λ z. ground (arith, z, unavailable (idx * 2 ^ j) small first) in
      let same : (buddy_free P k ptr st a).chunk s ≡ a.chunk s = elim (ℕ_discrete s st) [
        | yes q ↦
            ap (buddy_free P k ptr st a).chunk q
            ∙ (out.same_chunk (λ z. used (ap (buddy_free P k ptr st a).in_use q ∙ z))).1
            ∙ ap a.chunk (sym q)
        | no ne ↦ (out.kept s ne).1
      ] in
      record { used = used; here = rw same other.here; taken = unavailable }
