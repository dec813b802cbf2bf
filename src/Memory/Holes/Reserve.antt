-- ===== src/Memory/Holes/Reserve.antt =====
-- `reserve` of src/context/memory.rs against a walk over the holes in order.
use redox_kernel.Common.{
  ℕ, ◌+◌, ◌-◌, ◌≤◌, ◌<◌, ◌≡◌, refl, inl, inr, [], ◌∷◌, ◌&&◌, ◌||◌, not, ltb, if◌then◌else◌, arith,
  Bool-cases, Option-cases, lt→ltb, usize_mod, add_usize, sub_usize,
}
use redox_kernel.Common.OrdMap
use redox_kernel.Common.OrdMap.{KeysFrom}
use redox_kernel.Memory.Holes.{Holes, cut_previous, cut_exact, reserve_bytes}
use redox_kernel.Memory.Holes.Regions.{
  IsHoles, Within, covers, in_region, IsHoles-KeysFrom, IsHoles-le, covers-below, Within-bounds,
}

-- The hole from `a` to `b`, where there is room between them.
abbrev pub front : ℕ → ℕ → Holes → Holes
front a b r = if ltb a b then (a, b - a) ∷ r else r

-- The reference: the hole that holds the region is replaced by what is left on its two sides.
unfoldable pub carve : ℕ → ℕ → Holes → Holes
carve start size [] = []
carve start size ((o, s) ∷ r) =
    if ltb start (o + s)
    then front o start (front (start + size) (o + s) r)
    else (o, s) ∷ carve start size r

module _ (start size o s : ℕ) (r : Holes) (keys : KeysFrom (o + 1) r) (behind : o + s ≤ start)
    (positive : 0 < s) (fits : start + size < usize_mod) where
  cut_previous-cons :
      cut_previous ((o, s) ∷ r) start (start + size) ≡ (o, s) ∷ cut_previous r start (start + size)
  unfolding cut_previous OrdMap.last_below
  cut_previous-cons = elim (Option-cases (OrdMap.last_below start r)) [
    | inl e ↦ ground (arith, e)
    | inr ((j, v), e) ↦
        let e' = add_usize j v in
        let tail_size = sub_usize e' (start + size) in
        ground (
          arith,
          e,
          OrdMap.last_below-KeysFrom start (o + 1) r j v keys e,
          OrdMap.insert-cons j (sub_usize start j) o s r,
          OrdMap.insert-cons (start + size) tail_size o s r,
          OrdMap.insert-cons (start + size) tail_size o s (OrdMap.insert j (sub_usize start j) r),
        )
  ]

  cut_exact-cons :
      (m : Holes)
      → 0 < size
      → cut_exact ((o, s) ∷ m) start size (start + size)
        ≡ (o, s) ∷ cut_exact m start size (start + size)
  unfolding cut_exact OrdMap.get OrdMap.remove
  cut_exact-cons m p = elim (Option-cases (OrdMap.get start m)) [
    | inl e ↦ ground (arith, e)
    | inr (v, e) ↦
        ground (
          arith,
          e,
          OrdMap.insert-cons (start + size) (sub_usize v size) o s (OrdMap.remove start m),
        )
  ]

-- The hole that holds the region is the first.
reserve_first :
    (lo hi o s : ℕ) (r : Holes) (start size : ℕ)
    → IsHoles lo hi ((o, s) ∷ r)
    → hi < usize_mod
    → 0 < size
    → o ≤ start
    → start + size ≤ o + s
    → cut_exact (cut_previous ((o, s) ∷ r) start (start + size)) start size (start + size)
      ≡ front o start (front (start + size) (o + s) r)
unfolding cut_previous cut_exact OrdMap.last_below OrdMap.get OrdMap.insert OrdMap.remove
reserve_first lo hi o s r start size w b p lower upper =
    let keys = IsHoles-KeysFrom (o + s + 1) hi r w.3 in
    ground (
      arith,
      OrdMap.last_below-below start (o + s + 1) r (omega arith) keys,
      OrdMap.get-below start (o + s + 1) r (omega arith) keys,
      λ (q : start + size < o + s).
          OrdMap.insert-front (start + size) (o + s + 1) (o + s - (start + size)) r (omega arith)
            keys,
    )

-- On well-formed holes with the region inside one of them, `reserve` is that walk.
pub reserve_bytes-carve :
    (lo hi : ℕ) (h : Holes) (start size : ℕ)
    → IsHoles lo hi h
    → hi < usize_mod
    → 0 < size
    → Within start size h
    → reserve_bytes h start size ≡ carve start size h
unfolding reserve_bytes carve
reserve_bytes-carve lo hi [] start size w b p i = absurd i
reserve_bytes-carve lo hi ((o, s) ∷ r) start size w b p (inl i) =
    let e : add_usize start size ≡ start + size = omega arith in
    rw e (ground (arith, reserve_first lo hi o s r start size w b p i.0 i.1))
reserve_bytes-carve lo hi ((o, s) ∷ r) start size w b p (inr i) =
    let bounds = Within-bounds (o + s + 1) hi r start size w.3 i in
    let keys : KeysFrom (o + 1) r =
      OrdMap.KeysFrom-le r (omega arith) (IsHoles-KeysFrom (o + s + 1) hi r w.3) in
    let e : add_usize start size ≡ start + size = omega arith in
    ground (
      arith,
      e,
      reserve_bytes-carve (o + s + 1) hi r start size w.3 b p i,
      cut_previous-cons start size o s r keys (omega arith) w.1 (omega arith),
      cut_exact-cons start size o s r keys (omega arith) w.1 (omega arith)
          (cut_previous r start (start + size)) p,
    )

pub carve-IsHoles :
    (lo hi : ℕ) (h : Holes) (start size : ℕ)
    → IsHoles lo hi h
    → 0 < size
    → Within start size h
    → IsHoles lo hi (carve start size h)
unfolding carve
carve-IsHoles lo hi [] start size w p i = absurd i
carve-IsHoles lo hi ((o, s) ∷ r) start size w p (inl i) = ground (
  arith,
  IsHoles-le (o + s + 1) (start + size) hi r (omega arith) w.3,
  IsHoles-le (o + s + 1) lo hi r (omega arith) w.3,
  IsHoles-le (o + s + 1) (start + 1) hi r (omega arith) w.3,
)
carve-IsHoles lo hi ((o, s) ∷ r) start size w p (inr i) = ground (
  arith,
  Within-bounds (o + s + 1) hi r start size w.3 i,
  carve-IsHoles (o + s + 1) hi r start size w.3 p i,
)

covers-front :
    (x y : ℕ) (r : Holes) (a : ℕ) → covers (front x y r) a ≡ (in_region x (y - x) a || covers r a)
covers-front x y r a = elim (Bool-cases (ltb x y)) [
  | inl h ↦ rw h refl
  | inr h ↦ rw h (ground arith)
]

pub covers-carve :
    (lo hi : ℕ) (h : Holes) (start size a : ℕ)
    → IsHoles lo hi h
    → 0 < size
    → Within start size h
    → covers (carve start size h) a ≡ (covers h a && not (in_region start size a))
unfolding carve
covers-carve lo hi [] start size a w p i = absurd i
covers-carve lo hi ((o, s) ∷ r) start size a w p (inl i) =
    rw (lt→ltb start (o + s) (omega arith), covers-front, covers-front)
      (ground (arith, covers-below (o + s + 1) hi r a w.3))
covers-carve lo hi ((o, s) ∷ r) start size a w p (inr i) = ground (
  arith,
  Within-bounds (o + s + 1) hi r start size w.3 i,
  covers-carve (o + s + 1) hi r start size a w.3 p i,
)
