-- ===== src/Links/Examples.antt =====
-- Lists of two structs, at the addresses 8 and 16.
use mini_libc.Base.{refl, arith, [], ◌∷◌}
use mini_libc.Links.{null, Links, IsChain, push_front, bypass, reset}
use mini_libc.Links.Push.{push_front-IsChain}
use mini_libc.Links.Unlink.{reset-bypass-IsChain}

abbrev nothing : Links
nothing = record { next = λ x. null; prev = λ x. null; head = null }

nothing-IsChain : IsChain nothing []
nothing-IsChain = record { chain = refl; outside = λ a m. refl }

one-IsChain : IsChain (push_front 8 nothing) (8 ∷ [])
one-IsChain = push_front-IsChain 8 nothing [] nothing-IsChain (omega arith) refl

two-IsChain : IsChain (push_front 16 (push_front 8 nothing)) (16 ∷ 8 ∷ [])
two-IsChain = push_front-IsChain 16 (push_front 8 nothing) (8 ∷ []) one-IsChain (omega arith) refl

reset-bypass-IsChain_example :
    IsChain (reset 8 (bypass 8 (push_front 16 (push_front 8 nothing)))) (16 ∷ [])
reset-bypass-IsChain_example =
    reset-bypass-IsChain 8 (push_front 16 (push_front 8 nothing)) (16 ∷ 8 ∷ []) two-IsChain refl
