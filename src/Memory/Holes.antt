-- ===== src/Memory/Holes.antt =====
-- src/context/memory.rs: the free regions of an address space (`UserGrants::holes`), by byte
-- address, and how a mapping takes a region out and gives it back.
pub mod Regions
pub mod Reserve
pub mod Unreserve
pub mod Search
pub mod Free
pub mod Tests
use redox_kernel.Common.{
  ℕ, ◌+◌, ◌-◌, ◌*◌, ◌/◌, ◌≤◌, ◌<◌, max, Option, none, some, List, [], ◌∷◌, Bool, true, false, ◌&&◌,
  ltb, leb, ◌==◌, if◌then◌else◌, add_usize, sub_usize, mul_usize,
}
use redox_kernel.Common.OrdMap
use redox_kernel.Common.OrdMap.{OrdMap}

-- `BTreeMap<VirtualAddress, usize>`: the start of a hole and its size
abbrev pub Holes : Type 0
Holes = OrdMap ℕ

-- The first half of `reserve`: the hole that begins before the region is cut at the region's
-- start, and what lies behind the region becomes a hole.
unfoldable pub cut_previous : Holes → ℕ → ℕ → Holes
cut_previous holes start end = elim (OrdMap.last_below start holes) [
  | none ↦ holes
  | some (hole_offset, hole_size) ↦
      let prev_hole_end = add_usize hole_offset hole_size in
      let shrunk =
        if ltb start prev_hole_end
        then OrdMap.insert hole_offset (sub_usize start hole_offset) holes
        else holes in
      if ltb end prev_hole_end
      then OrdMap.insert end (sub_usize prev_hole_end end) shrunk
      else shrunk
]

-- The second half of `reserve`: a hole that begins exactly at the region.
unfoldable pub cut_exact : Holes → ℕ → ℕ → ℕ → Holes
cut_exact holes start size end = elim (OrdMap.get start holes) [
  | none ↦ holes
  | some hole_size ↦
      let remainder = sub_usize hole_size size in
      let removed = OrdMap.remove start holes in
      if ltb 0 remainder then OrdMap.insert end remainder removed else removed
]

-- `UserGrants::reserve`, on bytes
unfoldable pub reserve_bytes : Holes → ℕ → ℕ → Holes
reserve_bytes holes start size =
    let end = add_usize start size in cut_exact (cut_previous holes start end) start size end

unfoldable pub reserve : ℕ → Holes → ℕ → ℕ → Holes
reserve page_size holes base page_count =
    reserve_bytes holes (mul_usize base page_size) (mul_usize page_count page_size)

-- `opt.unwrap_or(0)`
abbrev pub or_zero : Option ℕ → ℕ
or_zero none = 0
or_zero (some n) = n

-- The second half of `unreserve`: the region joins the hole that ends at its start, or becomes a
-- hole of its own; `after` is the size of the hole that began at its end.
unfoldable pub join_previous : Holes → ℕ → ℕ → ℕ → ℕ → Holes
join_previous holes start size end after =
    let fresh = OrdMap.insert start (add_usize size after) holes in
    elim (OrdMap.last_below start holes) [
      | none ↦ fresh
      | some (hole_offset, hole_size) ↦
          if add_usize hole_offset hole_size == start
          then OrdMap.insert hole_offset (add_usize (sub_usize end hole_offset) after) holes
          else fresh
    ]

-- `UserGrants::unreserve`, on bytes
unfoldable pub unreserve_bytes : Holes → ℕ → ℕ → Holes
unreserve_bytes holes start size =
    let end = add_usize start size in
    join_previous (OrdMap.remove end holes) start size end (or_zero (OrdMap.get end holes))

unfoldable pub unreserve : ℕ → Holes → ℕ → ℕ → Holes
unreserve page_size holes base page_count =
    unreserve_bytes holes (mul_usize base page_size) (mul_usize page_count page_size)

-- The room that a hole offers at or above `min`, as `find_free_near` computes it.
unfoldable pub avail_size : ℕ → ℕ → ℕ → ℕ
avail_size min hole_offset hole_size =
    if leb hole_offset min && leb min (add_usize hole_offset hole_size)
    then sub_usize hole_size (sub_usize min hole_offset)
    else hole_size

-- `skip_while(hole ends at or below min)`
unfoldable pub skip_low : ℕ → Holes → Holes
skip_low min [] = []
skip_low min ((o, s) ∷ r) = if leb (add_usize o s) min then skip_low min r else (o, s) ∷ r

-- `find(the room suffices)`
unfoldable pub find_room : ℕ → ℕ → Holes → Option ℕ
find_room min size [] = none
find_room min size ((o, s) ∷ r) =
    if leb size (avail_size min o s) then some o else find_room min size r

-- `UserGrants::find_free_near`: the base page of the region that is found.
unfoldable pub find_free_near : ℕ → Holes → ℕ → ℕ → Option ℕ
unfolding skip_low find_room avail_size
find_free_near page_size holes min page_count =
    elim (find_room min (mul_usize page_count page_size) (skip_low min holes)) [
      | none ↦ none
      | some hole_start ↦ some (max hole_start min / page_size)
    ]
