-- ===== src/Memory/Buddy/FreeLevels.antt =====
-- `buddy_free_0` to `buddy_free_6`, as a table by order.
use mini_libc.Base.{ℕ, zero, suc, ◌<◌, arith}
use mini_libc.Memory.Pages.{Pages, PagesLaws}
use mini_libc.Memory.Buddy.{Arena}
use mini_libc.Memory.Buddy.Free.{
  Free, buddy_free_6, buddy_free_5, buddy_free_4, buddy_free_3, buddy_free_2, buddy_free_1,
  buddy_free_0,
}
use mini_libc.Memory.Buddy.Sound.{IsSound}
use mini_libc.Memory.Buddy.FreeSound.{Held, Returned, FreeSpec, free_level_sound}
use mini_libc.Memory.Buddy.Release.{buddy_free_6-ok}

abbrev pub buddy_free : (P : Pages) → ℕ → Free P
buddy_free P zero = buddy_free_0 P
buddy_free P (suc zero) = buddy_free_1 P
buddy_free P (suc (suc zero)) = buddy_free_2 P
buddy_free P (suc (suc (suc zero))) = buddy_free_3 P
buddy_free P (suc (suc (suc (suc zero)))) = buddy_free_4 P
buddy_free P (suc (suc (suc (suc (suc zero))))) = buddy_free_5 P
buddy_free P (suc (suc (suc (suc (suc (suc k)))))) = buddy_free_6 P

module _ (P : Pages) (L : PagesLaws P) where
  level_5 : FreeSpec P L 5 (buddy_free_5 P)
  unfolding buddy_free_5
  level_5 = free_level_sound P L 5 (buddy_free_6 P) (omega arith) (buddy_free_6-ok P L)

  level_4 : FreeSpec P L 4 (buddy_free_4 P)
  unfolding buddy_free_4
  level_4 = free_level_sound P L 4 (buddy_free_5 P) (omega arith) level_5

  level_3 : FreeSpec P L 3 (buddy_free_3 P)
  unfolding buddy_free_3
  level_3 = free_level_sound P L 3 (buddy_free_4 P) (omega arith) level_4

  level_2 : FreeSpec P L 2 (buddy_free_2 P)
  unfolding buddy_free_2
  level_2 = free_level_sound P L 2 (buddy_free_3 P) (omega arith) level_3

  level_1 : FreeSpec P L 1 (buddy_free_1 P)
  unfolding buddy_free_1
  level_1 = free_level_sound P L 1 (buddy_free_2 P) (omega arith) level_2

  level_0 : FreeSpec P L 0 (buddy_free_0 P)
  unfolding buddy_free_0
  level_0 = free_level_sound P L 0 (buddy_free_1 P) (omega arith) level_1

-- `buddy_free_k`, for k below 7, keeps the invariant. Of an allocated block of order k, given by any of its
-- addresses, each page becomes available, and no other page changes; the chunk stays, or it is
-- gone as a whole.
pub buddy_free-IsSound :
    (P : Pages) (L : PagesLaws P) (k : ℕ) (a : Arena P.State) (st idx ptr : ℕ)
    → k < 7
    → IsSound P L a
    → Held P L k a st idx ptr
    → IsSound P L (buddy_free P k ptr st a) × Returned P L k a st idx (buddy_free P k ptr st a)
buddy_free-IsSound P L zero a st idx ptr lt h b = level_0 P L a st idx ptr h b
buddy_free-IsSound P L (suc zero) a st idx ptr lt h b = level_1 P L a st idx ptr h b
buddy_free-IsSound P L (suc (suc zero)) a st idx ptr lt h b = level_2 P L a st idx ptr h b
buddy_free-IsSound P L (suc (suc (suc zero))) a st idx ptr lt h b = level_3 P L a st idx ptr h b
buddy_free-IsSound P L (suc (suc (suc (suc zero)))) a st idx ptr lt h b =
    level_4 P L a st idx ptr h b
buddy_free-IsSound P L (suc (suc (suc (suc (suc zero))))) a st idx ptr lt h b =
    level_5 P L a st idx ptr h b
buddy_free-IsSound P L (suc (suc (suc (suc (suc (suc zero)))))) a st idx ptr lt h b =
    buddy_free_6-ok P L a st idx ptr h b
buddy_free-IsSound P L (suc (suc (suc (suc (suc (suc (suc k))))))) a st idx ptr lt h b =
    absurd (omega arith)
