-- ===== src/Memory/Holes/Regions.antt =====
-- The holes of src/context/memory.rs as a set of free addresses.
use redox_kernel.Common.{
  ℕ, ◌+◌, ◌≤◌, ◌<◌, ◌≡◌, refl, ◌⊎◌, inl, inr, [], ◌∷◌, Bool, true, false, ◌&&◌, ◌||◌, ltb, leb,
  arith, Bool-cases,
}
use redox_kernel.Common.OrdMap
use redox_kernel.Common.OrdMap.{KeysFrom}
use redox_kernel.Memory.Holes.{Holes}

-- Ascending, non-empty, never adjacent, and between `lo` and `hi`.
abbrev pub IsHoles : ℕ → ℕ → Holes → Type 0
IsHoles lo hi [] = Unit
IsHoles lo hi ((o, s) ∷ r) = (lo ≤ o) × (0 < s) × (o + s ≤ hi) × IsHoles (o + s + 1) hi r

-- The address lies in the region of `size` bytes at `start`.
abbrev pub in_region : ℕ → ℕ → ℕ → Bool
in_region start size a = leb start a && ltb a (start + size)

-- The address is free.
abbrev pub covers : Holes → ℕ → Bool
covers [] a = false
covers ((o, s) ∷ r) a = in_region o s a || covers r a

-- One hole holds the whole region.
abbrev pub Within : ℕ → ℕ → Holes → Type 0
Within start size [] = ⊥
Within start size ((o, s) ∷ r) = ((o ≤ start) × (start + size ≤ o + s)) ⊎ Within start size r

pub IsHoles-KeysFrom : (lo hi : ℕ) (h : Holes) → IsHoles lo hi h → KeysFrom lo h
IsHoles-KeysFrom lo hi [] w = tt
IsHoles-KeysFrom lo hi ((o, s) ∷ r) w =
    (w.0, OrdMap.KeysFrom-le r (omega arith) (IsHoles-KeysFrom (o + s + 1) hi r w.3))

pub IsHoles-le : (lo lo' hi : ℕ) (h : Holes) → lo' ≤ lo → IsHoles lo hi h → IsHoles lo' hi h
IsHoles-le lo lo' hi [] e w = tt
IsHoles-le lo lo' hi ((o, s) ∷ r) e w = (omega arith, w.1, w.2, w.3)

-- Nothing below the first hole is free.
pub covers-below : (lo hi : ℕ) (h : Holes) (a : ℕ) → IsHoles lo hi h → a < lo → covers h a ≡ false
covers-below lo hi [] a w e = refl
covers-below lo hi ((o, s) ∷ r) a w e = ground (arith, covers-below (o + s + 1) hi r a w.3)

-- A region whose addresses are all free lies in one hole, since holes are never adjacent.
pub Within-of_covers :
    (lo hi : ℕ) (h : Holes) (start size : ℕ)
    → IsHoles lo hi h
    → 0 < size
    → ((a : ℕ) → start ≤ a → a < start + size → covers h a ≡ true)
    → Within start size h
Within-of_covers lo hi [] start size w p free = cc (free start (omega arith) (omega arith))
Within-of_covers lo hi ((o, s) ∷ r) start size w p free = elim (Bool-cases (in_region o s start)) [
  | inl first ↦ elim (Bool-cases (leb (start + size) (o + s))) [
    | inl fits ↦ inl (ground arith)
    | inr over ↦ absurd (
        ground (
          arith,
          free (o + s) (ground arith) (ground arith),
          covers-below (o + s + 1) hi r (o + s) w.3,
        ))
  ]
  | inr later ↦ inr (
      Within-of_covers (o + s + 1) hi r start size w.3 p (λ a ha hb.
        ground (arith, free a ha hb, free start, covers-below (o + s + 1) hi r start w.3)))
]

pub Within-bounds :
    (lo hi : ℕ) (h : Holes) (start size : ℕ)
    → IsHoles lo hi h
    → Within start size h
    → (lo ≤ start) × (start + size ≤ hi)
Within-bounds lo hi [] start size w i = absurd i
Within-bounds lo hi ((o, s) ∷ r) start size w (inl i) = (omega arith, omega arith)
Within-bounds lo hi ((o, s) ∷ r) start size w (inr i) =
    let b = Within-bounds (o + s + 1) hi r start size w.3 i in (omega arith, omega arith)

-- No address of the region is free.
abbrev pub Outside : ℕ → ℕ → Holes → Type 0
Outside start size [] = Unit
Outside start size ((o, s) ∷ r) = ((o + s ≤ start) ⊎ (start + size ≤ o)) × Outside start size r
