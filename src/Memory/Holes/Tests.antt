-- ===== src/Memory/Holes/Tests.antt =====
-- The holes of src/context/memory.rs on an address space of sixteen pages.
use redox_kernel.Common.{◌*◌, ◌≤◌, ◌≡◌, refl, some, [], ◌∷◌, true, ◌&&◌, ◌||◌, not, arith, ℕ}
use redox_kernel.Common.OrdMap
use redox_kernel.Memory.Holes
use redox_kernel.Memory.Holes.{Holes, reserve, unreserve, find_free_near}
use redox_kernel.Memory.Holes.Regions.{IsHoles, covers, in_region}
use redox_kernel.Memory.Holes.Search.{Aligned, find_free_near_free}
use redox_kernel.Memory.Holes.Free.{reserve_free, unreserve_free, unreserve-reserve}

abbrev page : ℕ
page = 4096

abbrev end : ℕ
end = 0x10000

abbrev whole : Holes
whole = (0, 0x10000) ∷ []

-- pages 2 to 4 are mapped
abbrev split : Holes
split = (0, 0x2000) ∷ (0x5000, 0xb000) ∷ []

reserve_splits : reserve 4096 whole 2 3 ≡ split
unfolding reserve OrdMap.get OrdMap.insert OrdMap.remove OrdMap.last_below Holes.reserve_bytes
    Holes.cut_previous Holes.cut_exact
reserve_splits = refl

unreserve_joins : unreserve 4096 split 2 3 ≡ whole
unfolding unreserve OrdMap.get OrdMap.insert OrdMap.remove OrdMap.last_below Holes.unreserve_bytes
    Holes.join_previous
unreserve_joins = refl

finds_behind : find_free_near 4096 split 0x1000 3 ≡ some 5
unfolding find_free_near
finds_behind = refl

reserve_free_example :
    IsHoles 0 end (reserve page whole 2 3)
    × Aligned page (reserve page whole 2 3)
    × ((a : ℕ)
        → covers (reserve page whole 2 3) a
          ≡ (covers whole a && not (in_region (2 * page) (3 * page) a)))
reserve_free_example =
    reserve_free page 2 3 end whole (omega arith) (omega arith) (omega arith) (omega arith)
      (omega arith) (λ a l u. ground arith)

unreserve_free_example :
    IsHoles 0 end (unreserve page split 2 3)
    × Aligned page (unreserve page split 2 3)
    × ((a : ℕ)
        → covers (unreserve page split 2 3) a
          ≡ (covers split a || in_region (2 * page) (3 * page) a))
unreserve_free_example =
    unreserve_free page 2 3 end split (omega arith) (omega arith) (omega arith) (omega arith)
      (omega arith) (λ a l u. ground arith)

unreserve-reserve_example : unreserve page (reserve page whole 2 3) 2 3 ≡ whole
unreserve-reserve_example =
    unreserve-reserve page 2 3 end whole (omega arith) (omega arith) (omega arith) (omega arith)
      (λ a l u. ground arith)

find_free_near_free_example : (0x1000 ≤ 5 * page) × (covers split 0x6fff ≡ true)
unfolding find_free_near
find_free_near_free_example =
    find_free_near_free page end 0x1000 split (omega arith) (omega arith) (omega arith)
      (omega arith) refl 3 5 0x6fff (omega arith) (omega arith) refl (omega arith) (omega arith)
