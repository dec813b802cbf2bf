-- ===== src/Memory/Holes/Unreserve.antt =====
-- `unreserve` of src/context/memory.rs against a walk over the holes in order.
use redox_kernel.Common.{
  ℕ, ◌+◌, ◌≤◌, ◌<◌, ◌≡◌, refl, inl, inr, [], ◌∷◌, ◌||◌, ltb, ◌==◌, if◌then◌else◌, arith, Bool-cases,
  Option-cases, usize_mod, add_usize, sub_usize,
}
use redox_kernel.Common.OrdMap
use redox_kernel.Common.OrdMap.{KeysFrom}
use redox_kernel.Memory.Holes.{Holes, unreserve_bytes, join_previous, or_zero}
use redox_kernel.Memory.Holes.Regions.{
  IsHoles, Outside, covers, in_region, IsHoles-KeysFrom, IsHoles-le,
}

-- A hole in front of others takes in one that begins where it ends.
abbrev pub join_next : ℕ → ℕ → Holes → Holes
join_next o s [] = (o, s) ∷ []
join_next o s ((j, t) ∷ r) = if j == o + s then (o, s + t) ∷ r else (o, s) ∷ (j, t) ∷ r

-- The reference: the region joins the hole before it and the hole behind it, if they touch.
unfoldable pub fill : ℕ → ℕ → Holes → Holes
fill start size [] = (start, size) ∷ []
fill start size ((o, s) ∷ r) =
    if ltb (o + s) start
    then (o, s) ∷ fill start size r
    else if o + s == start
    then join_next o (s + size) r
    else join_next start size ((o, s) ∷ r)

-- Past a hole that lies before the region and does not touch it.
join_previous-cons :
    (start size after o s : ℕ) (m : Holes)
    → KeysFrom (o + 1) m
    → o + s < start
    → start + size < usize_mod
    → join_previous ((o, s) ∷ m) start size (start + size) after
      ≡ (o, s) ∷ join_previous m start size (start + size) after
unfolding join_previous OrdMap.last_below
join_previous-cons start size after o s m keys before fits =
    let fresh = add_usize size after in
    elim (Option-cases (OrdMap.last_below start m)) [
      | inl e ↦ ground (arith, e, OrdMap.insert-cons start fresh o s m)
      | inr ((j, v), e) ↦ ground (
        arith,
        e,
        OrdMap.last_below-KeysFrom start (o + 1) m j v keys e,
        OrdMap.insert-cons start fresh o s m,
        OrdMap.insert-cons j (add_usize (sub_usize (start + size) j) after) o s m,
      )
    ]

-- The region touches no hole before it.
join_previous_front :
    (start size end after lo : ℕ) (m : Holes)
    → KeysFrom lo m
    → start < lo
    → join_previous m start size end after ≡ (start, add_usize size after) ∷ m
unfolding join_previous
join_previous_front start size end after lo m keys h = ground (
  arith,
  OrdMap.last_below-below start lo m (omega arith) keys,
  OrdMap.insert-front start lo (add_usize size after) m h keys,
)

-- The region touches the first hole.
join_previous_touching :
    (start size after o s lo : ℕ) (m : Holes)
    → KeysFrom lo m
    → start < lo
    → 0 < s
    → o + s ≡ start
    → start + size + after < usize_mod
    → join_previous ((o, s) ∷ m) start size (start + size) after ≡ (o, s + size + after) ∷ m
unfolding join_previous OrdMap.last_below OrdMap.insert
join_previous_touching start size after o s lo m keys h p e fits =
    ground (arith, OrdMap.last_below-below start lo m (omega arith) keys)

-- What stands at the region's end, and the holes without it.
join_next-remove :
    (o s hi start size : ℕ) (r : Holes)
    → IsHoles (start + 1) hi r
    → Outside start size r
    → 0 < size
    → o + s ≡ start + size
    → (o, s + or_zero (OrdMap.get (start + size) r)) ∷ OrdMap.remove (start + size) r
      ≡ join_next o s r
unfolding OrdMap.get OrdMap.remove
join_next-remove o s hi start size [] w out p e = ground arith
join_next-remove o s hi start size ((j, t) ∷ r) w out p e =
    let keys = IsHoles-KeysFrom (j + t + 1) hi r w.3 in
    ground (
      arith,
      λ (q : start + size < j). OrdMap.get-below (start + size) (j + t + 1) r (omega arith) keys,
      λ (q : start + size < j).
          OrdMap.remove-absent (start + size) (j + t + 1) r (omega arith) keys,
    )

after_fits :
    (lo hi k : ℕ) (h : Holes) → IsHoles lo hi h → k ≤ hi → k + or_zero (OrdMap.get k h) ≤ hi
unfolding OrdMap.get
after_fits lo hi k [] w b = omega arith
after_fits lo hi k ((o, s) ∷ r) w b = ground (arith, after_fits (o + s + 1) hi k r w.3 b)

-- Away from the holes, `unreserve` is that walk.
pub unreserve_bytes-fill :
    (lo hi : ℕ) (h : Holes) (start size : ℕ)
    → IsHoles lo hi h
    → hi < usize_mod
    → start + size ≤ hi
    → 0 < size
    → Outside start size h
    → unreserve_bytes h start size ≡ fill start size h
unfolding unreserve_bytes fill
unreserve_bytes-fill lo hi [] start size w b u p out =
    let e : add_usize start size ≡ start + size = omega arith in
    rw e (
      unfold OrdMap.get OrdMap.remove join_previous OrdMap.last_below OrdMap.insert in ground arith)
unreserve_bytes-fill lo hi ((o, s) ∷ r) start size w b u p out =
    let e : add_usize start size ≡ start + size = omega arith in
    let end = start + size in
    let after = or_zero (OrdMap.get end r) in
    let others = OrdMap.remove end r in
    let keys : KeysFrom (o + s + 1) r = IsHoles-KeysFrom (o + s + 1) hi r w.3 in
    let keys' : KeysFrom (o + s + 1) others = OrdMap.remove-KeysFrom end (o + s + 1) r keys in
    elim (Bool-cases (ltb (o + s) start)) [
      | inl before ↦ ground (
        arith,
        e,
        OrdMap.get-cons end o s r,
        OrdMap.remove-cons end o s r,
        join_previous-cons start size after o s others
            (OrdMap.KeysFrom-le others (omega arith) keys'),
        unreserve_bytes-fill (o + s + 1) hi r start size w.3 b u p out.1,
      )
      | inr reaches ↦ elim (Bool-cases (o + s == start)) [
        | inl touches ↦ ground (
          arith,
          e,
          OrdMap.get-cons end o s r,
          OrdMap.remove-cons end o s r,
          after_fits (o + s + 1) hi end r w.3 u,
          join_previous_touching start size after o s (o + s + 1) others keys',
          join_next-remove o (s + size) hi start size r
              (IsHoles-le (o + s + 1) (start + 1) hi r (ground arith) w.3) out.1,
        )
        | inr apart ↦
            let all : IsHoles (start + 1) hi ((o, s) ∷ r) = (ground arith, w.1, w.2, w.3) in
            let keys'' : KeysFrom (start + 1) (OrdMap.remove end ((o, s) ∷ r)) =
              OrdMap.remove-KeysFrom end (start + 1) ((o, s) ∷ r)
                (IsHoles-KeysFrom (start + 1) hi ((o, s) ∷ r) all) in
            let after' = or_zero (OrdMap.get end ((o, s) ∷ r)) in
            ground (
              arith,
              e,
              after_fits lo hi end ((o, s) ∷ r) w u,
              join_previous_front start size end after' (start + 1) (OrdMap.remove end ((o, s) ∷ r))
                  keys'' (omega arith),
              join_next-remove start size hi start size ((o, s) ∷ r) all out p refl,
            )
      ]
    ]

covers-join_next :
    (o s : ℕ) (r : Holes) (a : ℕ)
    → 0 < s
    → covers (join_next o s r) a ≡ (in_region o s a || covers r a)
covers-join_next o s [] a p = refl
covers-join_next o s ((j, t) ∷ r) a p = elim (Bool-cases (j == o + s)) [
  | inl h ↦ rw h (ground arith)
  | inr h ↦ rw h refl
]

pub covers-fill :
    (lo hi : ℕ) (h : Holes) (start size a : ℕ)
    → IsHoles lo hi h
    → 0 < size
    → covers (fill start size h) a ≡ (covers h a || in_region start size a)
unfolding fill
covers-fill lo hi [] start size a w p = ground arith
covers-fill lo hi ((o, s) ∷ r) start size a w p = elim (Bool-cases (ltb (o + s) start)) [
  | inl before ↦ rw before (ground (arith, covers-fill (o + s + 1) hi r start size a w.3 p))
  | inr h ↦ rw h (elim (Bool-cases (o + s == start)) [
    | inl touches ↦ rw (touches, covers-join_next o (s + size) r a (omega arith)) (ground arith)
    | inr apart ↦ rw (apart, covers-join_next start size ((o, s) ∷ r) a p) (ground arith)
  ])
]

join_next-IsHoles :
    (lo hi o s start size : ℕ) (r : Holes)
    → IsHoles (start + 1) hi r
    → lo ≤ o
    → 0 < s
    → o + s ≤ hi
    → o + s ≡ start + size
    → 0 < size
    → Outside start size r
    → IsHoles lo hi (join_next o s r)
join_next-IsHoles lo hi o s start size [] w l p u e q out = ground arith
join_next-IsHoles lo hi o s start size ((j, t) ∷ r) w l p u e q out =
    elim (Bool-cases (j == o + s)) [
      | inl h ↦
          rw h (ground (arith, IsHoles-le (j + t + 1) (o + (s + t) + 1) hi r (ground arith) w.3))
      | inr h ↦ rw h (l, p, u, (ground arith, w.1, w.2, w.3))
    ]

pub fill-IsHoles :
    (lo hi : ℕ) (h : Holes) (start size : ℕ)
    → IsHoles lo hi h
    → lo ≤ start
    → start + size ≤ hi
    → 0 < size
    → Outside start size h
    → IsHoles lo hi (fill start size h)
unfolding fill
fill-IsHoles lo hi [] start size w l u p out = (l, p, u, tt)
fill-IsHoles lo hi ((o, s) ∷ r) start size w l u p out = elim (Bool-cases (ltb (o + s) start)) [
  | inl before ↦
      rw before
        (w.0, w.1, w.2, fill-IsHoles (o + s + 1) hi r start size w.3 (ground arith) u p out.1)
  | inr h ↦ rw h (elim (Bool-cases (o + s == start)) [
    | inl touches ↦ rw touches (
        join_next-IsHoles lo hi o (s + size) start size r
          (IsHoles-le (o + s + 1) (start + 1) hi r (ground arith) w.3) w.0 (omega arith)
          (ground arith) (ground arith) p out.1)
    | inr apart ↦ rw apart (
        join_next-IsHoles lo hi start size start size ((o, s) ∷ r) (ground arith, w.1, w.2, w.3) l p
          u refl p out)
  ])
]
