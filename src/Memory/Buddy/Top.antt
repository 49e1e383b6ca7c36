-- ===== src/Memory/Buddy/Top.antt =====
-- Order 6: a block of a chunk that is there, or of a new one.
use mini_libc.Base.{
  ℕ, ◌+◌, ◌≡◌, ◌≢◌, inl, inr, refl, sym, ap, ◌∙◌, arith, ==_false, ==_true, ◌==◌, if◌then◌else◌,
  Option, none, some, Option-cases,
}
use native.Mathlib.Decide.{ℕ_discrete}
use mini_libc.Bits.Words.{u32}
use mini_libc.Links.{Ptr, null}
use mini_libc.Links.Push.{head-members}
use mini_libc.Memory.Pages.{Pages, PagesLaws}
use mini_libc.Memory.Buddy.{Arena}
use mini_libc.Memory.Buddy.Records.{
  allocate_group, take_record, allocate_record, map_chunk, allocate_chunk_and_block6,
}
use mini_libc.Memory.Buddy.Alloc.{Allocated, alloc_chunk, buddy_alloc_6}
use mini_libc.Memory.Buddy.Sound.{IsSound, available}
use mini_libc.Memory.Buddy.AllocSound.{Untouched, Outcome, AllocSpec, alloc_listed-IsSound}
use mini_libc.Memory.Buddy.Reserve.{taken_state, take_record-eq}
use mini_libc.Memory.Buddy.Grown.{allocate_group-RecordsOk}
use mini_libc.Memory.Buddy.Chunk.{
  failed-IsSound, failed-Untouched, installed-IsSound, installed-Taken,
}

module _ (P : Pages) (L : PagesLaws P) where
  head-unused :
      (a : Arena P.State) → IsSound P L a → a.empty.head ≢ null → a.in_use a.empty.head ≡ 0
  head-unused a h ne =
      let (xs, e) = head-members a.empty h.records_ok.empties h.records_ok.empty_chain ne in
      h.records_ok.empty_unused a.empty.head (rw e (ground arith))

  abbrev with_block : Option Ptr × Arena P.State → Allocated
  with_block (none, a) = none
  with_block (some st, a) = some (st, a.chunk st)

  map_chunk-IsSound :
      (a : Arena P.State) (h : IsSound P L a) (ne : a.empty.head ≢ null)
      → let m = map_chunk P a.empty.head (taken_state P L a h.records_ok ne) in
        IsSound P L m.1 × Outcome P L 6 a (with_block m) m.1
  unfolding map_chunk
  map_chunk-IsSound a h ne = elim (Option-cases (P.mmap_alloc a.mmap_arena 524288).0) [
    | inl e ↦
        rw (map_chunk, e)
          (
            failed-IsSound P L a h ne (head-unused a h ne),
            failed-Untouched P L a h ne (head-unused a h ne),
          )
    | inr ((p, ctx), e) ↦
        rw (map_chunk, e)
          (
            installed-IsSound P L a h ne (head-unused a h ne) p ctx e,
            installed-Taken P L a h ne (head-unused a h ne) p ctx e,
          )
  ]

  group-IsSound :
      (a : Arena P.State)
      → IsSound P L a
      → a.empty.head ≡ null
      → IsSound P L (allocate_group P a) × Untouched P L a (allocate_group P a)
  unfolding allocate_group available
  group-IsSound a h e = elim (Option-cases (P.mmap_alloc a.mmap_arena 4096).0) [
    | inl q ↦
        let r = allocate_group-RecordsOk P L a h.records_ok e in
        let r' = rw (allocate_group, q) at r in
        rw (allocate_group, q)
          (
            record { orders_ok = h.orders_ok; records_ok = r' },
            record {
              pages = λ t p small. refl;
              kept = λ t u. (refl, refl);
              same_in_use = λ t. refl;
              same_ctx = λ t u. refl;
              same_heads = λ k. refl;
              same_counts = λ k t lt. refl;
              same_chunk_num = refl;
            },
          )
    | inr (g, q) ↦
        let r = allocate_group-RecordsOk P L a h.records_ok e in
        let r' = rw (allocate_group, q) at r in
        rw (allocate_group, q)
          (
            record { orders_ok = h.orders_ok; records_ok = r' },
            record {
              pages = λ t p small. refl;
              kept = λ t u. (refl, refl);
              same_in_use = λ t. refl;
              same_ctx = λ t u. refl;
              same_heads = λ k. refl;
              same_counts = λ k t lt. refl;
              same_chunk_num = refl;
            },
          )
  ]

  -- What is done first may leave the pages as they were.
  Outcome-after :
      (k : ℕ) (a b : Arena P.State) (r : Allocated) (a' : Arena P.State)
      → Untouched P L a b
      → Outcome P L k b r a'
      → Outcome P L k a r a'
  Outcome-after k a b none a' u o = record {
    pages = λ t p small. o.pages t p small ∙ u.pages t p small;
    kept = λ t w. ground (arith, u.kept t w, o.kept t);
    same_in_use = λ t. o.same_in_use t ∙ u.same_in_use t;
    same_ctx = λ t w. ground (arith, u.same_in_use t, u.same_ctx t, o.same_ctx t);
    same_heads = λ k. o.same_heads k ∙ u.same_heads k;
    same_counts = λ k t lt. o.same_counts k t lt ∙ u.same_counts k t lt;
    same_chunk_num = o.same_chunk_num ∙ u.same_chunk_num;
  }
  Outcome-after k a b (some (st, block)) a' u o = record {
    index = o.index;
    index_lt = o.index_lt;
    used = o.used;
    here = o.here;
    pages = λ t p small. sym (u.pages t p small) ∙ o.pages t p small;
    kept = λ t w. ground (arith, u.kept t w, o.kept t);
    old_chunk = λ w. o.old_chunk (λ z. w (sym (u.same_in_use st) ∙ z)) ∙ u.same_chunk_num;
    new_chunk = λ z. o.new_chunk (u.same_in_use st ∙ z) ∙ ap (λ m. u32 (m + 1)) u.same_chunk_num;
  }

  alloc_chunk-eq :
      (a : Arena P.State) (m : Option Ptr × Arena P.State)
      → allocate_chunk_and_block6 P a ≡ m
      → alloc_chunk P a ≡ (with_block m, m.1)
  unfolding alloc_chunk
  alloc_chunk-eq a (none, a') e = rw (alloc_chunk, e) (ap (λ z. (none, z.1)) e)
  alloc_chunk-eq a (some st, a') e =
      rw (alloc_chunk, e) (ap (λ z. (some (st, z.1.chunk st), z.1)) e)

  chunk_and_block6-eq :
      (a : Arena P.State) (st : Ptr) (a' : Arena P.State)
      → allocate_record P a ≡ (some st, a')
      → allocate_chunk_and_block6 P a ≡ map_chunk P st a'
  unfolding allocate_chunk_and_block6
  chunk_and_block6-eq a st a' e = rw (allocate_chunk_and_block6, e) (ap (λ z. map_chunk P st z.1) e)

  no_chunk-eq :
      (a b : Arena P.State)
      → allocate_record P a ≡ (none, b)
      → allocate_chunk_and_block6 P a ≡ (none, b)
  unfolding allocate_chunk_and_block6
  no_chunk-eq a b e = rw (allocate_chunk_and_block6, e) (ap (λ z. (none, z.1)) e)

  alloc_chunk-ready :
      (a b : Arena P.State) (h : IsSound P L b) (ne : b.empty.head ≢ null)
      → allocate_record P a ≡ take_record P b
      → let r = alloc_chunk P a in IsSound P L r.1 × Outcome P L 6 b r.0 r.1
  alloc_chunk-ready a b h ne e =
      let st = b.empty.head in
      let a' = taken_state P L b h.records_ok ne in
      let q =
        alloc_chunk-eq a (map_chunk P st a')
          (chunk_and_block6-eq a st a' (e ∙ take_record-eq P L b h.records_ok ne)) in
      rw q (map_chunk-IsSound b h ne)

  record_as :
      (a b : Arena P.State)
      → (if a.empty.head == null then allocate_group P a else a) ≡ b
      → allocate_record P a ≡ take_record P b
  unfolding allocate_record
  record_as a b e = ap (take_record P) e

  no_record : (b : Arena P.State) → b.empty.head ≡ null → take_record P b ≡ (none, b)
  unfolding take_record
  no_record b z = rw (==_true b.empty.head null z) refl

  pub alloc_chunk-IsSound :
      (a : Arena P.State)
      → IsSound P L a
      → let r = alloc_chunk P a in IsSound P L r.1 × Outcome P L 6 a r.0 r.1
  alloc_chunk-IsSound a h = elim (ℕ_discrete a.empty.head null) [
    | no ne ↦ alloc_chunk-ready a a h ne (record_as a a (rw (==_false a.empty.head null ne) refl))
    | yes z ↦
        let b = allocate_group P a in
        let (ok, same) = group-IsSound a h z in
        let e : allocate_record P a ≡ take_record P b =
          record_as a b (rw (==_true a.empty.head null z) refl) in
        elim (ℕ_discrete b.empty.head null) [
          | no ne ↦
              let (ok', out) = alloc_chunk-ready a b ok ne e in
              (ok', Outcome-after 6 a b (alloc_chunk P a).0 (alloc_chunk P a).1 same out)
          | yes y ↦
              let f : take_record P b ≡ (none, b) = no_record b y in
              let g : allocate_chunk_and_block6 P a ≡ (none, b) = no_chunk-eq a b (e ∙ f) in
              rw (alloc_chunk-eq a (none, b) g) (ok, same)
        ]
  ]

  pub buddy_alloc_6-ok : AllocSpec P L 6 (buddy_alloc_6 P)
  unfolding buddy_alloc_6
  buddy_alloc_6-ok a h = elim (ℕ_discrete (a.order 6).links.head null) [
    | yes z ↦ rw (==_true (a.order 6).links.head null z) (alloc_chunk-IsSound a h)
    | no ne ↦
        rw (==_false (a.order 6).links.head null ne)
          (alloc_listed-IsSound P L 6 a (omega arith) h ne)
  ]
