-- ===== src/Context/FdTbl/Tests.antt =====
-- The descriptor tables of src/context/context.rs on concrete tables, with bit 62 as the tag.
use redox_kernel.Common.{
  ℕ, ◌+◌, ◌^◌, ◌<◌, ◌≤◌, ◌≡◌, ◌⊎◌, refl, some, none, [], ◌∷◌, List, true, false, ◌&&◌, ◌==◌,
  if◌then◌else◌, arith, ok, err, Errno, length,
}
use redox_kernel.Context.FdTbl
use redox_kernel.Context.FdTbl.{
  FdTbl, FileDescriptor, context_max_files, get_file, insert_file, remove_file, add_file_min,
  bulk_remove_files, bulk_get_files, bulk_add_files_posix, contains,
}
use redox_kernel.Context.FdTbl.Slots.{IsTag, slot, used}
use redox_kernel.Context.FdTbl.Single.{can_insert, insert_file_lem}
use redox_kernel.Context.FdTbl.Lowest.{IsLowest, add_file_min_lem}
use redox_kernel.Context.FdTbl.Bulk.{bulk_remove_files_lem}
use redox_kernel.Context.FdTbl.Count.{IsCounted, single-IsCounted}
use redox_kernel.Context.FdTbl.Fill.{FreeSlots, stored, or_else, bulk_add_files_posix_lem}

abbrev tag : ℕ
tag = 2 ^ 62

abbrev tag-IsTag : IsTag tag
tag-IsTag = record { bit = 62; single = refl; above = omega arith }

abbrev console : FileDescriptor
console = record { description = 7; cloexec = false }

abbrev log : FileDescriptor
log = record { description = 9; cloexec = true }

-- descriptors at 0 and 2, and one in the upper table
abbrev three : FdTbl
three = record {
  posix_fdtbl = some console ∷ none ∷ some log ∷ [];
  upper_fdtbl = some log ∷ [];
  active_count = 3;
}

-- the handle of the upper table's first slot
abbrev upper_zero : ℕ
upper_zero = 2 ^ 62

abbrev filled : FdTbl
filled = record {
  posix_fdtbl = some console ∷ some console ∷ some log ∷ [];
  upper_fdtbl = some log ∷ [];
  active_count = 4;
}

adds_lowest : add_file_min tag three console 0 ≡ (some 1, filled)
unfolding add_file_min FdTbl.select_fdtbl FdTbl.write_fdtbl FdTbl.insert_file FdTbl.first_free
adds_lowest = refl

removes_upper : (remove_file tag three upper_zero).0 ≡ some log
unfolding remove_file FdTbl.select_fdtbl FdTbl.write_fdtbl
removes_upper = refl

three-IsCounted : IsCounted three
three-IsCounted = record { exact = refl; bounded = omega arith }

insert_file_lem_example :
    ((insert_file tag three 5 log).0 ≡ (if can_insert tag tag-IsTag three 5 then some 5 else none))
    × (get_file tag (insert_file tag three 5 log).1 0
        ≡ (if can_insert tag tag-IsTag three 5 && 0 == 5 then some log else get_file tag three 0))
insert_file_lem_example = insert_file_lem tag tag-IsTag three 5 0 log

add_file_min_lem_example :
    IsLowest tag tag-IsTag three 0 1
    × ((j : ℕ) → get_file tag filled j ≡ (if j == 1 then some console else get_file tag three j))
add_file_min_lem_example =
    add_file_min_lem tag tag-IsTag three filled console 0 1
      (record { posix = omega arith; upper = omega arith }) (omega arith) adds_lowest

bulk_remove_files_lem_example :
    ((e : Errno) × (bulk_get_files tag three (2 ∷ 0 ∷ []) ≡ err e)
      × (bulk_remove_files tag three (2 ∷ 0 ∷ []) ≡ err e))
    ⊎ ((files : List FileDescriptor) × (t' : FdTbl) × (bulk_get_files tag three (2 ∷ 0 ∷ [])
          ≡ ok files)
        × (bulk_remove_files tag three (2 ∷ 0 ∷ []) ≡ ok (files, t'))
        × ((j : ℕ)
            → get_file tag t' j ≡ (if contains j (2 ∷ 0 ∷ []) then none else get_file tag three j)))
bulk_remove_files_lem_example = bulk_remove_files_lem tag tag-IsTag three (2 ∷ 0 ∷ [])

single-IsCounted_example :
    IsCounted (insert_file tag three 1 log).1
    × IsCounted (add_file_min tag three log 1).1
    × IsCounted (remove_file tag three 1).1
single-IsCounted_example = single-IsCounted tag tag-IsTag three 1 log three-IsCounted

bulk_add_files_posix_lem_example :
    ((context_max_files < three.active_count + 2)
      × (0 < 2)
      × (bulk_add_files_posix three (log ∷ console ∷ []) ≡ ok (none, three)))
    ⊎ (((length (log ∷ console ∷ []) ≡ 0) ⊎ (three.active_count + 2 ≤ context_max_files))
        × (handles : List ℕ) × (t' : FdTbl) × (bulk_add_files_posix three (log ∷ console ∷ [])
            ≡ ok (some handles, t'))
        × FreeSlots three.posix_fdtbl handles
        × (length handles ≡ 2)
        × ((j : ℕ)
            → slot t'.posix_fdtbl j
              ≡ or_else (stored handles (log ∷ console ∷ []) j) (slot three.posix_fdtbl j))
        × (t'.upper_fdtbl ≡ three.upper_fdtbl)
        × (t'.active_count ≡ three.active_count + 2)
        × (used t'.posix_fdtbl ≡ used three.posix_fdtbl + 2))
bulk_add_files_posix_lem_example = bulk_add_files_posix_lem three (log ∷ console ∷ [])
