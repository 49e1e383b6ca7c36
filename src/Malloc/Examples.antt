-- ===== src/Malloc/Examples.antt =====
-- Sizes, metadata and shifts at concrete values.
use mini_libc.Base.{◌+◌, ◌%◌, ◌^◌, ◌≤◌, ◌≡◌, ◌≢◌, refl, arith, none}
use mini_libc.Malloc.{
  get_class, alloc_target, metadata_x, metadata_y, tagged_y, class_code, ctx_of, arena_of,
  free_target, aligned_shift, tagged_shift,
}
use mini_libc.Malloc.Classes.{IsClass, power, get_class-IsClass, get_class-least}
use mini_libc.Malloc.Metadata.{metadata-round_trip}
use mini_libc.Malloc.Tagged.{tagged_metadata-round_trip}
use mini_libc.Malloc.Shifts.{aligned_shift-lands, tagged_shift-lands}

get_class-IsClass_example : IsClass (get_class 3000) × (3000 ≤ get_class 3000)
get_class-IsClass_example = get_class-IsClass 3000 (omega arith) (omega arith)

get_class-least_example : get_class 3000 ≤ 8192
get_class-least_example =
    get_class-least 3000 8192 (omega arith) (omega arith)
      (power 13 (omega arith) (omega arith) refl) (omega arith)

metadata-round_trip_example :
    (free_target (class_code (metadata_x (get_class 3000) 4096) (metadata_y (get_class 3000) 8216))
      ≡ alloc_target (get_class 3000))
    × (alloc_target (get_class 3000) ≢ none)
    × (arena_of (metadata_x (get_class 3000) 4096) ≡ 4096)
    × (ctx_of (metadata_y (get_class 3000) 8216) ≡ 8216)
metadata-round_trip_example =
    metadata-round_trip 3000 4096 8216 (omega arith) (omega arith) refl refl (omega arith)
      (omega arith)

aligned_shift-lands_example :
    ((4112 + (aligned_shift (2 ^ 6) 4112 + 16)) % 2 ^ 6 ≡ 0)
    × (aligned_shift (2 ^ 6) 4112 + 16 + 100 ≤ get_class (100 + 2 ^ 6))
aligned_shift-lands_example =
    aligned_shift-lands 6 4112 100 (omega arith) (omega arith) refl (omega arith) (omega arith)

tagged_shift-lands_example :
    ((4144 + (tagged_shift (2 ^ 6) 4144 + 32)) % 2 ^ 6 ≡ 0)
    × (tagged_shift (2 ^ 6) 4144 + 32 + 100 ≤ get_class (100 + (2 ^ 6 + 16)))
tagged_shift-lands_example =
    tagged_shift-lands 6 4144 100 (omega arith) (omega arith) refl (omega arith) (omega arith)

tagged_metadata-round_trip_example :
    (free_target (class_code (metadata_x (get_class 3000) 4096) (tagged_y (get_class 3000) 8216))
      ≡ alloc_target (get_class 3000))
    × (ctx_of (tagged_y (get_class 3000) 8216) ≡ 8216)
tagged_metadata-round_trip_example =
    tagged_metadata-round_trip 3000 4096 8216 (omega arith) (omega arith) refl refl (omega arith)
