-- ===== src/Memory/Buddy/Levels.antt =====
-- `buddy_alloc_0` to `buddy_alloc_6`, as a table by order.
use mini_libc.Base.{ℕ, zero, suc, ◌<◌, arith}
use mini_libc.Memory.Pages.{Pages, PagesLaws}
use mini_libc.Memory.Buddy.{Arena}
use mini_libc.Memory.Buddy.Alloc.{
  Alloc, buddy_alloc_6, buddy_alloc_5, buddy_alloc_4, buddy_alloc_3, buddy_alloc_2, buddy_alloc_1,
  buddy_alloc_0,
}
use mini_libc.Memory.Buddy.Sound.{IsSound}
use mini_libc.Memory.Buddy.AllocSound.{Outcome, AllocSpec}
use mini_libc.Memory.Buddy.Split.{alloc_level_sound}
use mini_libc.Memory.Buddy.Top.{buddy_alloc_6-ok}

abbrev pub buddy_alloc : (P : Pages) → ℕ → Alloc P
buddy_alloc P zero = buddy_alloc_0 P
buddy_alloc P (suc zero) = buddy_alloc_1 P
buddy_alloc P (suc (suc zero)) = buddy_alloc_2 P
buddy_alloc P (suc (suc (suc zero))) = buddy_alloc_3 P
buddy_alloc P (suc (suc (suc (suc zero)))) = buddy_alloc_4 P
buddy_alloc P (suc (suc (suc (suc (suc zero))))) = buddy_alloc_5 P
buddy_alloc P (suc (suc (suc (suc (suc (suc k)))))) = buddy_alloc_6 P

module _ (P : Pages) (L : PagesLaws P) where
  level_5 : AllocSpec P L 5 (buddy_alloc_5 P)
  unfolding buddy_alloc_5
  level_5 = alloc_level_sound P L 5 (buddy_alloc_6 P) (omega arith) (buddy_alloc_6-ok P L)

  level_4 : AllocSpec P L 4 (buddy_alloc_4 P)
  unfolding buddy_alloc_4
  level_4 = alloc_level_sound P L 4 (buddy_alloc_5 P) (omega arith) level_5

  level_3 : AllocSpec P L 3 (buddy_alloc_3 P)
  unfolding buddy_alloc_3
  level_3 = alloc_level_sound P L 3 (buddy_alloc_4 P) (omega arith) level_4

  level_2 : AllocSpec P L 2 (buddy_alloc_2 P)
  unfolding buddy_alloc_2
  level_2 = alloc_level_sound P L 2 (buddy_alloc_3 P) (omega arith) level_3

  level_1 : AllocSpec P L 1 (buddy_alloc_1 P)
  unfolding buddy_alloc_1
  level_1 = alloc_level_sound P L 1 (buddy_alloc_2 P) (omega arith) level_2

  level_0 : AllocSpec P L 0 (buddy_alloc_0 P)
  unfolding buddy_alloc_0
  level_0 = alloc_level_sound P L 0 (buddy_alloc_1 P) (omega arith) level_1

-- `buddy_alloc_k`, for k below 7, keeps the invariant. If it returns a block, this is a block of order
-- k of a chunk in use; each of its pages was available and is not any more, no other page changed,
-- the chunks that were in use still are, where they were, and the number of chunks, a `uint32_t`, grows by one if
-- the chunk is new and stays if not. If it returns `NULL`, the available pages, the records in use,
-- their chunks and contexts, the number of chunks and, for every order, the head of the list and
-- the counts are what they were; a new group of empty records may stay.
pub buddy_alloc-IsSound :
    (P : Pages) (L : PagesLaws P) (k : ℕ) (a : Arena P.State)
    → k < 7
    → IsSound P L a
    → IsSound P L (buddy_alloc P k a).1
      × Outcome P L k a (buddy_alloc P k a).0 (buddy_alloc P k a).1
buddy_alloc-IsSound P L zero a lt h = level_0 P L a h
buddy_alloc-IsSound P L (suc zero) a lt h = level_1 P L a h
buddy_alloc-IsSound P L (suc (suc zero)) a lt h = level_2 P L a h
buddy_alloc-IsSound P L (suc (suc (suc zero))) a lt h = level_3 P L a h
buddy_alloc-IsSound P L (suc (suc (suc (suc zero)))) a lt h = level_4 P L a h
buddy_alloc-IsSound P L (suc (suc (suc (suc (suc zero))))) a lt h = level_5 P L a h
buddy_alloc-IsSound P L (suc (suc (suc (suc (suc (suc zero)))))) a lt h = buddy_alloc_6-ok P L a h
buddy_alloc-IsSound P L (suc (suc (suc (suc (suc (suc (suc k))))))) a lt h = absurd (omega arith)
