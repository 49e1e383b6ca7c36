-- ===== src/Memory/SmallClass/Source.antt =====
-- Where small_class.c gets its blocks from, and gives them back to: `buddy_alloc_4` and `buddy_free_4`
-- of buddy.c.
use native.Mathlib.Decide.{ℕ_discrete}
use mini_libc.Base.{
  ℕ, ◌+◌, ◌*◌, ◌<◌, ◌≡◌, ◌≢◌, sym, ap, ◌∙◌, inl, inr, arith, Option, none, some, Option-cases,
}
use mini_libc.Links.{null}
use mini_libc.Memory.Pages.{Pages, PagesLaws}
use mini_libc.Memory.Buddy.{Arena}
use mini_libc.Memory.Buddy.Alloc.{buddy_alloc_4}
use mini_libc.Memory.Buddy.AllocSound.{Taken, Untouched}
use mini_libc.Memory.Buddy.Sound.{IsSound}
use mini_libc.Memory.Buddy.FreeSound.{Held}
use mini_libc.Memory.Buddy.Free.{buddy_free_4}
use mini_libc.Memory.Buddy.FreeLevels.{buddy_free-IsSound}
use mini_libc.Memory.Buddy.Levels.{buddy_alloc-IsSound}
use mini_libc.Memory.Buddy.Client.{free-keeps_Held, alloc-Held, alloc-keeps_Held, alloc-apart}

module _ (P : Pages) (L : PagesLaws P) where
  -- Block i of order 4 of the chunk `ctx` is allocated, and starts at p.
  abbrev pub HoldsBlock : Arena P.State → (ctx i p : ℕ) → Type 0
  HoldsBlock a ctx i p = Held P L 4 a ctx i p × (p ≡ a.chunk ctx + i * 65536)

  abbrev pub Keeps : Arena P.State → Arena P.State → Type 0
  Keeps a a' = (ctx i p : ℕ) → HoldsBlock a ctx i p → HoldsBlock a' ctx i p

  -- What `buddy_alloc_4` gives: no block, or one that is none of those that are held.
  abbrev pub Given : Arena P.State → Option (ℕ × ℕ) → Arena P.State → Type 0
  Given a none a' = Keeps a a'
  Given a (some (ctx, p)) a' =
      Keeps a a'
      × ((i : ℕ) × HoldsBlock a' ctx i p)
      × (p ≢ null)
      × ((ctx' i' q : ℕ) → HoldsBlock a ctx' i' q → q ≢ p)

  module _ (a : Arena P.State) (h : IsSound P L a) where
    Untouched-Keeps : (a' : Arena P.State) → Untouched P L a a' → Keeps a a'
    Untouched-Keeps a' u ctx i p (b, start) =
        let (used, chunk) = u.kept ctx b.used in
        (
          record {
            used = λ z. b.used (sym used ∙ z);
            here = rw chunk b.here;
            taken = λ q small e. u.pages ctx q small ∙ b.taken q small e;
          },
          start ∙ ap (λ z. z + i * 65536) (sym chunk),
        )

    Given-some :
        (ctx p : ℕ)
        → (buddy_alloc_4 P a).0 ≡ some (ctx, p)
        → IsSound P L (buddy_alloc_4 P a).1
        → Taken P L 4 a ctx p (buddy_alloc_4 P a).1
        → Given a (some (ctx, p)) (buddy_alloc_4 P a).1
    Given-some ctx p e ok t =
        let lt : 4 < 7 = omega arith in
        let (i, held) = alloc-Held P L a h 4 ctx p lt e in
        let (positive, end) = L.owns_bounds _ _ _ _ (ok.records_ok.chunk_owned ctx t.used) in
        (
          λ ctx' i' q b. (
            alloc-keeps_Held P L a h 4 ctx p lt e 4 ctx' i' q lt b.0,
            b.1 ∙ ap (λ z. z + i' * 65536) (sym (t.kept ctx' b.0.used).1),
          ),
          (i, (held, omega (arith, t.here, held.here.from_start, held.here.below_end))),
          λ z. positive (omega (arith, z, t.here)),
          λ ctx' i' q b z.
              alloc-apart P L a h 4 ctx p lt e 4 ctx' i' q lt b.0 q b.0.here
                (omega (arith, z), omega (arith, z)),
        )

    pub buddy_alloc_4-Given : Given a (buddy_alloc_4 P a).0 (buddy_alloc_4 P a).1
    buddy_alloc_4-Given =
        let (ok, out) = buddy_alloc-IsSound P L 4 a (omega arith) h in
        elim (Option-cases (buddy_alloc_4 P a).0) [
          | inl e ↦ rw e (Untouched-Keeps (buddy_alloc_4 P a).1 (rw e at out))
          | inr ((ctx, p), e) ↦
              let t : Taken P L 4 a ctx p (buddy_alloc_4 P a).1 = rw e at out in
              rw e (Given-some ctx p e ok t)
        ]

  -- When one of two blocks that are held and start at different addresses is given back, the other one
  -- is still held.
  pub buddy_free_4-keeps :
      (a : Arena P.State) (ctx i p : ℕ)
      → IsSound P L a
      → HoldsBlock a ctx i p
      → (ctx' i' q : ℕ) → HoldsBlock a ctx' i' q
      → q ≢ p
      → HoldsBlock (buddy_free_4 P p ctx a) ctx' i' q
  buddy_free_4-keeps a ctx i p h (held, start) ctx' i' q (held', start') ne =
      let lt : 4 < 7 = omega arith in
      let (ok, out) = buddy_free-IsSound P L 4 a ctx i p lt h held in
      let still =
        free-keeps_Held P L a h 4 ctx i p 4 ctx' i' q lt lt held held' (λ page small (same, e) e'.
          ne (
            start'
            ∙ ap (λ z. a.chunk z + i' * 65536) same
            ∙ ap (λ z. a.chunk ctx + z * 65536) (sym e' ∙ e)
            ∙ sym start)) in
      let chunk : (buddy_free_4 P p ctx a).chunk ctx' ≡ a.chunk ctx' = elim (ℕ_discrete ctx' ctx) [
        | yes z ↦
            ap (buddy_free_4 P p ctx a).chunk z
            ∙ (out.same_chunk (λ y. still.used (ap (buddy_free_4 P p ctx a).in_use z ∙ y))).1
            ∙ ap a.chunk (sym z)
        | no d ↦ (out.kept ctx' d).1
      ] in
      (still, start' ∙ ap (λ z. z + i' * 65536) (sym chunk))
