-- ===== src/Memory/Holes/Free.antt =====
-- What `reserve` and `unreserve` of src/context/memory.rs do to the set of free addresses.
use redox_kernel.Common.{
  ℕ, ◌+◌, ◌*◌, ◌%◌, ◌≤◌, ◌<◌, ◌≡◌, inl, inr, [], ◌∷◌, true, false, ◌&&◌, ◌||◌, not, arith,
  usize_mod, ◌∙◌, ap, mul_usize, lt→ltb,
}
use native.Mathlib.Nat.{mul-mod_left}
use redox_kernel.Memory.Holes.{Holes, reserve, reserve_bytes, unreserve, unreserve_bytes}
use redox_kernel.Memory.Holes.Regions.{
  IsHoles, Within, Outside, covers, in_region, Within-of_covers, Within-bounds,
}
use redox_kernel.Memory.Holes.Reserve.{
  carve, front, reserve_bytes-carve, carve-IsHoles, covers-carve,
}
use redox_kernel.Memory.Holes.Unreserve.{
  fill, join_next, unreserve_bytes-fill, fill-IsHoles, covers-fill,
}
use redox_kernel.Memory.Holes.Search.{Aligned}

Aligned-front : (n a b : ℕ) (r : Holes) → a % n ≡ 0 → Aligned n r → Aligned n (front a b r)
Aligned-front n a b r p al = ground arith

carve-Aligned :
    (n start size : ℕ) (h : Holes)
    → (start + size) % n ≡ 0
    → Aligned n h
    → Aligned n (carve start size h)
unfolding carve
carve-Aligned n start size [] p al = tt
carve-Aligned n start size ((o, s) ∷ r) p al =
    let rest = front (start + size) (o + s) r in
    ground (
      arith,
      carve-Aligned n start size r p al.1,
      Aligned-front n (start + size) (o + s) r p al.1,
      Aligned-front n o start rest al.0,
    )

join_next-Aligned : (n o s : ℕ) (h : Holes) → o % n ≡ 0 → Aligned n h → Aligned n (join_next o s h)
join_next-Aligned n o s [] p al = (p, tt)
join_next-Aligned n o s ((j, t) ∷ r) p al = ground arith

fill-Aligned :
    (n start size : ℕ) (h : Holes) → start % n ≡ 0 → Aligned n h → Aligned n (fill start size h)
unfolding fill
fill-Aligned n start size [] p al = (p, tt)
fill-Aligned n start size ((o, s) ∷ r) p al = ground (
  arith,
  fill-Aligned n start size r p al.1,
  join_next-Aligned n o (s + size) r al.0 al.1,
  join_next-Aligned n start size ((o, s) ∷ r) p al,
)

-- Holes of which no address lies in the region stay clear of it.
Outside-of_covers :
    (lo hi : ℕ) (h : Holes) (start size : ℕ)
    → IsHoles lo hi h
    → 0 < size
    → ((a : ℕ) → start ≤ a → a < start + size → covers h a ≡ false)
    → Outside start size h
Outside-of_covers lo hi [] start size w p taken = tt
Outside-of_covers lo hi ((o, s) ∷ r) start size w p taken = (
  ground (arith, taken start, taken o),
  Outside-of_covers (o + s + 1) hi r start size w.3 p (λ a l u. ground (arith, taken a l u)),
)

-- The region goes back between what was left of its hole on the two sides.
refill :
    (start size o s hi : ℕ) (r : Holes)
    → IsHoles (o + s + 1) hi r
    → 0 < size
    → o ≤ start
    → start + size ≤ o + s
    → fill start size (front o start (front (start + size) (o + s) r)) ≡ (o, s) ∷ r
unfolding fill
refill start size o s hi [] w p l u = ground arith
refill start size o s hi ((j, t) ∷ r) w p l u = ground arith

-- Giving a region back undoes taking it out.
fill-carve :
    (lo hi : ℕ) (h : Holes) (start size : ℕ)
    → IsHoles lo hi h
    → 0 < size
    → Within start size h
    → fill start size (carve start size h) ≡ h
unfolding fill carve
fill-carve lo hi [] start size w p i = absurd i
fill-carve lo hi ((o, s) ∷ r) start size w p (inl i) =
    rw (lt→ltb start (o + s) (omega arith)) (refill start size o s hi r w.3 p i.0 i.1)
fill-carve lo hi ((o, s) ∷ r) start size w p (inr i) = ground (
  arith,
  Within-bounds (o + s + 1) hi r start size w.3 i,
  fill-carve (o + s + 1) hi r start size w.3 p i,
)

end_aligned : (base count n : ℕ) → (base * n + count * n) % n ≡ 0
end_aligned base count n = ap (λ t. t % n) (omega arith) ∙ mul-mod_left (base + count) n

reserve-bytes :
    (page_size base count hi : ℕ) (h : Holes)
    → hi < usize_mod
    → 0 < count * page_size
    → base * page_size + count * page_size ≤ hi
    → (reserve page_size h base count ≡ reserve_bytes h (base * page_size) (count * page_size))
      × (unreserve page_size h base count
          ≡ unreserve_bytes h (base * page_size) (count * page_size))
unfolding reserve unreserve
reserve-bytes page_size base count hi h b p fits =
    let x : mul_usize base page_size ≡ base * page_size = omega arith in
    let y : mul_usize count page_size ≡ count * page_size = omega arith in (rw (x, y), rw (x, y))

module _ (page_size base count hi : ℕ) (h : Holes) (w : IsHoles 0 hi h) (b : hi < usize_mod)
    (p : 0 < count * page_size) (fits : base * page_size + count * page_size ≤ hi) where
  -- From well-formed holes on page boundaries below a limit of 64 bits, reserving pages below the
  -- limit that are free, at least one, leaves ascending, non-empty, non-adjacent holes on page
  -- boundaries, in which exactly the addresses of those pages are no longer free.
  pub reserve_free :
      Aligned page_size h
      → ((a : ℕ)
          → base * page_size ≤ a
          → a < base * page_size + count * page_size
          → covers h a ≡ true)
      → IsHoles 0 hi (reserve page_size h base count)
        × Aligned page_size (reserve page_size h base count)
        × ((a : ℕ)
            → covers (reserve page_size h base count) a
              ≡ (covers h a && not (in_region (base * page_size) (count * page_size) a)))
  reserve_free al free =
      let i = Within-of_covers 0 hi h (base * page_size) (count * page_size) w p free in
      let e =
        (reserve-bytes page_size base count hi h b p fits).0
        ∙ reserve_bytes-carve 0 hi h (base * page_size) (count * page_size) w b p i in
      rw e (
        carve-IsHoles 0 hi h (base * page_size) (count * page_size) w p i,
        carve-Aligned page_size (base * page_size) (count * page_size) h
            (end_aligned base count page_size) al,
        λ a. covers-carve 0 hi h (base * page_size) (count * page_size) a w p i,
      )

  -- From well-formed holes on page boundaries below a limit of 64 bits, unreserving pages below the
  -- limit of which no address is free, at least one, leaves ascending, non-empty, non-adjacent holes
  -- on page boundaries, in which exactly the addresses of those pages are free in addition.
  pub unreserve_free :
      Aligned page_size h
      → ((a : ℕ)
          → base * page_size ≤ a
          → a < base * page_size + count * page_size
          → covers h a ≡ false)
      → IsHoles 0 hi (unreserve page_size h base count)
        × Aligned page_size (unreserve page_size h base count)
        × ((a : ℕ)
            → covers (unreserve page_size h base count) a
              ≡ (covers h a || in_region (base * page_size) (count * page_size) a))
  unreserve_free al taken =
      let out = Outside-of_covers 0 hi h (base * page_size) (count * page_size) w p taken in
      let e =
        (reserve-bytes page_size base count hi h b p fits).1
        ∙ unreserve_bytes-fill 0 hi h (base * page_size) (count * page_size) w b fits p out in
      rw e (
        fill-IsHoles 0 hi h (base * page_size) (count * page_size) w (omega arith) fits p out,
        fill-Aligned page_size (base * page_size) (count * page_size) h
            (mul-mod_left base page_size) al,
        λ a. covers-fill 0 hi h (base * page_size) (count * page_size) a w p,
      )

  -- From well-formed holes below a limit of 64 bits, reserving pages below the limit that are free,
  -- at least one, and then unreserving them gives the very same holes.
  pub unreserve-reserve :
      ((a : ℕ)
        → base * page_size ≤ a
        → a < base * page_size + count * page_size
        → covers h a ≡ true)
      → unreserve page_size (reserve page_size h base count) base count ≡ h
  unreserve-reserve free =
      let start = base * page_size in
      let size = count * page_size in
      let i = Within-of_covers 0 hi h start size w p free in
      let w' = carve-IsHoles 0 hi h start size w p i in
      let taken : (a : ℕ) → start ≤ a → a < start + size → covers (carve start size h) a ≡ false =
        λ a l u. ground (arith, covers-carve 0 hi h start size a w p i) in
      let out = Outside-of_covers 0 hi (carve start size h) start size w' p taken in
      rw
        (
          (reserve-bytes page_size base count hi h b p fits).0,
          reserve_bytes-carve 0 hi h start size w b p i,
        )
        ((reserve-bytes page_size base count hi (carve start size h) b p fits).1
          ∙ unreserve_bytes-fill 0 hi (carve start size h) start size w' b fits p out
          ∙ fill-carve 0 hi h start size w p i)
