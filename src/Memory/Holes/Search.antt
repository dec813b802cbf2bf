-- ===== src/Memory/Holes/Search.antt =====
-- `find_free_near` of src/context/memory.rs: what it finds is free, and what it misses is not there.
use redox_kernel.Common.{
  ℕ, ◌+◌, ◌*◌, ◌/◌, ◌%◌, ◌≤◌, ◌<◌, ◌≡◌, max, inl, inr, none, some, [], ◌∷◌, true, leb, arith,
  Bool-cases, Option-cases, usize_mod, subst, add_usize, mul_usize,
}
use native.Mathlib.Nat.{div-add-mod, mod-eq_of_lt}
use redox_kernel.Memory.Holes.{Holes, skip_low, find_room, avail_size, find_free_near}
use redox_kernel.Memory.Holes.Regions.{IsHoles-le, IsHoles, Within, covers}

-- Every hole ends above `min`.
abbrev EndsAbove : ℕ → Holes → Type 0
EndsAbove min [] = Unit
EndsAbove min ((o, s) ∷ r) = (min < o + s) × EndsAbove min r

IsHoles-EndsAbove : (lo hi min : ℕ) (h : Holes) → IsHoles lo hi h → min < lo → EndsAbove min h
IsHoles-EndsAbove lo hi min [] w p = tt
IsHoles-EndsAbove lo hi min ((o, s) ∷ r) w p =
    (omega arith, IsHoles-EndsAbove (o + s + 1) hi min r w.3 (omega arith))

skip_low-EndsAbove :
    (lo hi min : ℕ) (h : Holes) → IsHoles lo hi h → hi < usize_mod → EndsAbove min (skip_low min h)
unfolding skip_low
skip_low-EndsAbove lo hi min [] w b = tt
skip_low-EndsAbove lo hi min ((o, s) ∷ r) w b = elim (Bool-cases (leb (add_usize o s) min)) [
  | inl low ↦ rw low (skip_low-EndsAbove (o + s + 1) hi min r w.3 b)
  | inr high ↦ rw high (ground arith, IsHoles-EndsAbove (o + s + 1) hi min r w.3 (ground arith))
]

-- What lies at or above `min` is in a hole that is not skipped, and the other way round.
Within-skip_low :
    (lo hi min start size : ℕ) (h : Holes)
    → IsHoles lo hi h
    → hi < usize_mod
    → 0 < size
    → (Within start size (skip_low min h) → Within start size h)
      × (min ≤ start → Within start size h → Within start size (skip_low min h))
unfolding skip_low
Within-skip_low lo hi min start size [] w b p = (λ i. i, λ _ i. i)
Within-skip_low lo hi min start size ((o, s) ∷ r) w b p =
    let ih = Within-skip_low (o + s + 1) hi min start size r w.3 b p in
    elim (Bool-cases (leb (add_usize o s) min)) [
      | inl low ↦
          rw low (
            λ i. inr (ih.0 i),
            λ m i. elim i [ inl e ↦ absurd (ground arith) | inr i' ↦ ih.1 m i' ],
          )
      | inr high ↦ rw high (λ i. i, λ m i. i)
    ]

find_room-Within :
    (lo hi min size o' : ℕ) (h : Holes)
    → IsHoles lo hi h
    → hi < usize_mod
    → min < usize_mod
    → EndsAbove min h
    → find_room min size h ≡ some o'
    → Within (max o' min) size h
unfolding find_room avail_size
find_room-Within lo hi min size o' [] w b m up e = cc
find_room-Within lo hi min size o' ((o, s) ∷ r) w b m up e =
    elim (Bool-cases (leb size (avail_size min o s))) [
      | inl fits ↦ inl (ground arith, ground arith)
      | inr no_room ↦
          inr (find_room-Within (o + s + 1) hi min size o' r w.3 b m up.1 (rw no_room at e))
    ]

find_room_complete :
    (lo hi min size start : ℕ) (h : Holes)
    → IsHoles lo hi h
    → hi < usize_mod
    → min ≤ start
    → EndsAbove min h
    → find_room min size h ≡ none
    → ¬ Within start size h
unfolding find_room avail_size
find_room_complete lo hi min size start [] w b m up e i = i
find_room_complete lo hi min size start ((o, s) ∷ r) w b m up e (inl i) = ground arith
find_room_complete lo hi min size start ((o, s) ∷ r) w b m up e (inr i) =
    find_room_complete (o + s + 1) hi min size start r w.3 b m up.1 (ground arith) i

Within-covers :
    (h : Holes) (start size a : ℕ)
    → Within start size h
    → start ≤ a
    → a < start + size
    → covers h a ≡ true
Within-covers [] start size a i l u = absurd i
Within-covers ((o, s) ∷ r) start size a (inl i) l u = ground arith
Within-covers ((o, s) ∷ r) start size a (inr i) l u =
    ground (arith, Within-covers r start size a i l u)

-- Every hole begins on a page boundary.
abbrev pub Aligned : ℕ → Holes → Type 0
Aligned page_size [] = Unit
Aligned page_size ((o, s) ∷ r) = (o % page_size ≡ 0) × Aligned page_size r

find_room-Aligned :
    (page_size min size o' : ℕ) (h : Holes)
    → Aligned page_size h
    → find_room min size h ≡ some o'
    → o' % page_size ≡ 0
unfolding find_room avail_size
find_room-Aligned page_size min size o' [] al e = cc
find_room-Aligned page_size min size o' ((o, s) ∷ r) al e =
    elim (Bool-cases (leb size (avail_size min o s))) [
      | inl fits ↦ ground arith
      | inr no_room ↦ find_room-Aligned page_size min size o' r al.1 (rw no_room at e)
    ]

skip_low-Aligned :
    (page_size min : ℕ) (h : Holes) → Aligned page_size h → Aligned page_size (skip_low min h)
unfolding skip_low
skip_low-Aligned page_size min [] al = tt
skip_low-Aligned page_size min ((o, s) ∷ r) al =
    ground (arith, skip_low-Aligned page_size min r al.1)

skip_low-IsHoles : (lo hi min : ℕ) (h : Holes) → IsHoles lo hi h → IsHoles lo hi (skip_low min h)
unfolding skip_low
skip_low-IsHoles lo hi min [] w = tt
skip_low-IsHoles lo hi min ((o, s) ∷ r) w = ground (
  arith,
  IsHoles-le (o + s + 1) lo hi (skip_low min r) (omega arith)
      (skip_low-IsHoles (o + s + 1) hi min r w.3),
)

div_exact : (a n : ℕ) → a % n ≡ 0 → a / n * n ≡ a
div_exact a n h = grind (arith, div-add-mod a n)

find_free_near-some :
    (page_size min count base : ℕ) (h : Holes)
    → count * page_size < usize_mod
    → find_free_near page_size h min count ≡ some base
    → (o : ℕ) × (find_room min (count * page_size) (skip_low min h) ≡ some o)
      × (base ≡ max o min / page_size)
unfolding find_free_near
find_free_near-some page_size min count base h fits e =
    let exact : mul_usize count page_size ≡ count * page_size = mod-eq_of_lt fits in
    elim (Option-cases (find_room min (mul_usize count page_size) (skip_low min h))) [
      | inl missing ↦ absurd (ground (arith, e, missing))
      | inr (o, found) ↦ (
        o,
        subst (λ t. find_room min t (skip_low min h) ≡ some o) exact found,
        ground (arith, e, found),
      )
    ]

find_free_near-none :
    (page_size min count : ℕ) (h : Holes)
    → count * page_size < usize_mod
    → find_free_near page_size h min count ≡ none
    → find_room min (count * page_size) (skip_low min h) ≡ none
unfolding find_free_near
find_free_near-none page_size min count h fits e =
    let exact : mul_usize count page_size ≡ count * page_size = mod-eq_of_lt fits in
    elim (Option-cases (find_room min (mul_usize count page_size) (skip_low min h))) [
      | inl missing ↦ subst (λ t. find_room min t (skip_low min h) ≡ none) exact missing
      | inr (o, found) ↦ absurd (ground (arith, e, found))
    ]

max-Aligned : (page_size a b : ℕ) → a % page_size ≡ 0 → b % page_size ≡ 0 → max a b % page_size ≡ 0
max-Aligned page_size a b p q = elim (Bool-cases (leb a b)) [
  | inl h ↦ let e : max a b ≡ b = ground arith in rw e q
  | inr h ↦ let e : max a b ≡ a = ground arith in rw e p
]

-- What `find_free_near` needs of an address space: its holes, aligned, below `hi`, and an aligned
-- lower limit.
module _ (page_size hi min : ℕ) (h : Holes) (w : IsHoles 0 hi h) (b : hi < usize_mod)
    (al : Aligned page_size h) (m : min < usize_mod) (mal : min % page_size ≡ 0) where
  -- The region of pages that `find_free_near` returns, in well-formed holes on page boundaries and
  -- for an aligned lower limit, and for pages, at least one, whose size in bytes is below 2^64, begins
  -- at or above the limit, and every address `a` in it is free.
  pub find_free_near_free :
      (count base a : ℕ)
      → 0 < count * page_size
      → count * page_size < usize_mod
      → find_free_near page_size h min count ≡ some base
      → base * page_size ≤ a
      → a < base * page_size + count * page_size
      → (min ≤ base * page_size) × (covers h a ≡ true)
  find_free_near_free count base a p fits e l u =
      let (o, found, place) = find_free_near-some page_size min count base h fits e in
      let aligned =
        max-Aligned page_size o min
          (find_room-Aligned page_size min (count * page_size) o (skip_low min h)
            (skip_low-Aligned page_size min h al) found)
          mal in
      let exact : base * page_size ≡ max o min =
        rw place (div_exact (max o min) page_size aligned) in
      let inside : Within (base * page_size) (count * page_size) h = rw exact (
        (Within-skip_low 0 hi min (max o min) (count * page_size) h w b p).0 (
          find_room-Within 0 hi min (count * page_size) o (skip_low min h)
            (skip_low-IsHoles 0 hi min h w) b m (skip_low-EndsAbove 0 hi min h w b) found)) in
      (rw exact (omega arith), Within-covers h (base * page_size) (count * page_size) a inside l u)

  -- `find_free_near` fails, in well-formed holes on page boundaries and for an aligned lower limit,
  -- only if no hole has room for the region at or above the limit.
  pub find_free_near_complete :
      (count start : ℕ)
      → 0 < count * page_size
      → count * page_size < usize_mod
      → find_free_near page_size h min count ≡ none
      → min ≤ start
      → ¬ Within start (count * page_size) h
  find_free_near_complete count start p fits e l i =
      find_room_complete 0 hi min (count * page_size) start (skip_low min h)
        (skip_low-IsHoles 0 hi min h w) b l (skip_low-EndsAbove 0 hi min h w b)
        (find_free_near-none page_size min count h fits e)
        ((Within-skip_low 0 hi min start (count * page_size) h w b p).1 l i)
