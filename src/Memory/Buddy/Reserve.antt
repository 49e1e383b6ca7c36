-- ===== src/Memory/Buddy/Reserve.antt =====
-- The records on their way between the list of empty records and a chunk: `st` is in no list of
-- empty records, and its fields do not stand for a chunk.
use mini_libc.Base.{ℕ, ◌≡◌, ◌≢◌, inl, inr, true, false, arith, ==_false, update, List, ◌∷◌, some}
use mini_libc.Links.{Ptr, null, has, IsChain, pop_front, reset}
use mini_libc.Links.Chain.{has-cases}
use mini_libc.Links.Push.{push_front-IsChain, pop_front-IsChain, reset-IsChain, head-members}
use mini_libc.Memory.Pages.{Pages, PagesLaws}
use mini_libc.Memory.Buddy.{Arena}
use mini_libc.Memory.Buddy.Records.{take_record, free_record}
use mini_libc.Memory.Buddy.Sound.{InGroup, RecordsOk}

module _ (P : Pages) (L : PagesLaws P) where
  pub record Reserved (st : Ptr) (a : Arena P.State) : Type 0 where
    pub empties : List Ptr
    pub empty_chain : IsChain a.empty empties
    pub apart : has st empties ≡ false
    pub not_null : st ≢ null
    pub empty_unused : (s : Ptr) → has s empties ≡ true → a.in_use s ≡ 0
    pub null_unused : a.in_use null ≡ 0
    pub empty_group :
        (s : Ptr) → has s empties ≡ true → InGroup P L a.mmap_arena a.chunk_group_mmap_ctx s
    pub mine : InGroup P L a.mmap_arena a.chunk_group_mmap_ctx st
    pub used_group :
        (s : Ptr) → a.in_use s ≢ 0 → s ≢ st → InGroup P L a.mmap_arena a.chunk_group_mmap_ctx s
    pub chunk_owned :
        (s : Ptr)
        → a.in_use s ≢ 0
        → s ≢ st
        → L.owns a.mmap_arena (a.chunk_mmap_ctx s) (a.chunk s) 524288
    pub ctx_apart :
        (s t : Ptr)
        → a.in_use s ≢ 0
        → a.in_use t ≢ 0
        → s ≢ st
        → t ≢ st
        → s ≢ t
        → a.chunk_mmap_ctx s ≢ a.chunk_mmap_ctx t

  -- More memory is mapped.
  pub InGroup-alloc :
      (s : P.State) (ctx : Ptr → ℕ) (len : ℕ) (st : Ptr)
      → InGroup P L s ctx st
      → InGroup P L (P.mmap_alloc s len).1 ctx st
  InGroup-alloc s ctx len st h = record {
    group = h.group;
    index = h.index;
    in_range = h.in_range;
    here = h.here;
    owned = L.alloc_keeps s len (ctx h.group) h.group 4096 h.owned;
  }

  pub Reserved-alloc :
      (st : Ptr) (a : Arena P.State) (len : ℕ)
      → Reserved st a
      → Reserved st (record a { mmap_arena = (P.mmap_alloc a.mmap_arena len).1 })
  Reserved-alloc st a len h = record {
    empties = h.empties;
    empty_chain = h.empty_chain;
    apart = h.apart;
    not_null = h.not_null;
    empty_unused = h.empty_unused;
    null_unused = h.null_unused;
    empty_group =
        λ s m. InGroup-alloc a.mmap_arena a.chunk_group_mmap_ctx len s (h.empty_group s m);
    mine = InGroup-alloc a.mmap_arena a.chunk_group_mmap_ctx len st h.mine;
    used_group =
        λ s u ne. InGroup-alloc a.mmap_arena a.chunk_group_mmap_ctx len s (h.used_group s u ne);
    chunk_owned = λ s u ne. L.alloc_keeps a.mmap_arena len _ _ _ (h.chunk_owned s u ne);
    ctx_apart = h.ctx_apart;
  }

  -- The record goes back to the list of empty records.
  pub free_record-RecordsOk :
      (st : Ptr) (a : Arena P.State) → Reserved st a → RecordsOk P L (free_record P st a)
  unfolding free_record
  free_record-RecordsOk st a h = record {
    empties = st ∷ h.empties;
    empty_chain =
        push_front-IsChain st (reset st a.empty) h.empties
          (reset-IsChain st a.empty h.empties h.empty_chain h.apart) h.not_null h.apart;
    empty_unused = λ s m. ground (arith, h.empty_unused s);
    null_unused = ground (arith, h.null_unused);
    empty_group = λ s m. elim (has-cases s st h.empties m) [
      | inl e ↦ rw e h.mine
      | inr (ne, m') ↦ h.empty_group s m'
    ];
    used_group = λ s u. h.used_group s (ground arith) (ground arith);
    chunk_owned = λ s u. ground (arith, h.chunk_owned s);
    ctx_apart = λ s t u v ne. ground (arith, h.ctx_apart s t);
  }

  -- The head of the list of empty records.
  module _ (a : Arena P.State) (h : RecordsOk P L a) (ne : a.empty.head ≢ null) where
    abbrev pub taken_state : Arena P.State
    taken_state = record a {
      empty = pop_front a.empty.head a.empty;
      in_use = update a.in_use a.empty.head 1;
    }

    pub take_record-eq : take_record P a ≡ (some a.empty.head, taken_state)
    unfolding take_record pop_front
    take_record-eq = rw (==_false a.empty.head null ne)

    pub taken-Reserved : Reserved a.empty.head taken_state
    taken-Reserved =
        let (xs, e) = head-members a.empty h.empties h.empty_chain ne in
        let c : IsChain a.empty (a.empty.head ∷ xs) = rw e at h.empty_chain in
        let member : (s : Ptr) → has s (a.empty.head ∷ xs) ≡ true → has s h.empties ≡ true =
          λ s m. rw e m in
        let first : has a.empty.head h.empties ≡ true = member a.empty.head (ground arith) in
        let unused = h.empty_unused a.empty.head first in
        record {
          empties = xs;
          empty_chain = pop_front-IsChain a.empty.head a.empty xs c;
          apart = c.chain.3;
          not_null = ne;
          empty_unused = λ s m. ground (arith, c.chain.3, h.empty_unused s, member s);
          null_unused = ground (arith, h.null_unused);
          empty_group = λ s m. h.empty_group s (member s (ground arith));
          mine = h.empty_group a.empty.head first;
          used_group = λ s u q. h.used_group s (ground arith);
          chunk_owned = λ s u q. h.chunk_owned s (ground arith);
          ctx_apart = λ s t u v q r n. h.ctx_apart s t (ground arith) (ground arith) n;
        }
