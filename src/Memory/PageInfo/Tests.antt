-- ===== src/Memory/PageInfo/Tests.antt =====
-- The reference counts of src/memory/mod.rs on concrete words.
use redox_kernel.Common.{◌+◌, ◌^◌, ◌≡◌, refl, arith, Option, some, ok}
use redox_kernel.Memory.PageInfo
use redox_kernel.Memory.PageInfo.{
  rc_shared_not_cow, RefCount, one, shared, cow, cow_kind, shared_kind, AddRefError, from_raw,
  to_raw, refcount, add_ref, remove_ref,
}
use redox_kernel.Memory.PageInfo.Counting.{
  Holds, more, less, Adds, Removes, add_ref_lem, remove_ref_lem, remove_ref-add_ref,
}

-- a page that two address spaces map copy on write
abbrev twice : PageInfo.PageInfo
twice = record { refcount = 2 ^ 63 + 2; next = 0 }

abbrev thrice : PageInfo.PageInfo
thrice = record { refcount = 2 ^ 63 + 3; next = 0 }

twice-Holds : Holds twice (cow 2)
unfolding refcount from_raw
twice-Holds = (omega arith, refl)

add_ref_lem_example :
    (result : Option AddRefError × PageInfo.PageInfo) × (add_ref cow_kind twice ≡ ok result)
    × Adds result (more cow_kind (cow 2))
add_ref_lem_example = add_ref_lem twice (cow 2) cow_kind twice-Holds

remove_ref_lem_example :
    (result : Option RefCount × PageInfo.PageInfo) × (remove_ref twice ≡ ok result)
    × Removes result (less (cow 2))
remove_ref_lem_example = remove_ref_lem twice (cow 2) twice-Holds

remove_ref-add_ref_example :
    (info : PageInfo.PageInfo) × (remove_ref thrice ≡ ok (some (cow 2), info)) × Holds info (cow 2)
unfolding add_ref PageInfo.add_counted PageInfo.count_up refcount from_raw
remove_ref-add_ref_example = remove_ref-add_ref twice thrice (cow 2) cow_kind twice-Holds refl
