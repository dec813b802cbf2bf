-- ===== src/Memory/Grants/Insert.antt =====
-- `UserGrants::insert` and `remove` of src/context/memory.rs on grants and holes together.
use native.Mathlib.Nat.{div-add-mod', mod-lt, mul-le-mul_right}
use redox_kernel.Common.{
  ℕ, ◌+◌, ◌-◌, ◌*◌, ◌/◌, ◌%◌, ◌≤◌, ◌<◌, ◌≡◌, refl, none, some, [], ◌∷◌, true, ◌==◌, if◌then◌else◌,
  arith, Option-cases, inl, inr, usize_mod, not, max, is_some, ok, panic,
}
use redox_kernel.Common.OrdMap
use redox_kernel.Memory.Holes.{reserve, unreserve}
use redox_kernel.Memory.Holes.Regions.{IsHoles, covers, in_region}
use redox_kernel.Memory.Holes.Search.{Aligned}
use redox_kernel.Memory.Holes.Free.{reserve_free, unreserve_free}
use redox_kernel.Memory.Span.{PageSpan}
use redox_kernel.Memory.Span.Pages.{page_bound}
use redox_kernel.Memory.Grants.{GrantInfo, Grant, grant_span}
use redox_kernel.Memory.Grants.Table.{
  Inner, UserGrants, insert_inner, insert_grant, remove_grant, first_entry,
}
use redox_kernel.Memory.Grants.Conflicts.{overlapping, conflicts-overlapping, overlapping-none}
use redox_kernel.Memory.Grants.Pages.{
  IsGrants, IsGrant, PageView, page_view, page_seen, in_span, get-view, remove-IsGrants,
  page_view-remove,
}
use redox_kernel.Memory.Grants.Place.{insert_inner-place}
use redox_kernel.Memory.Grants.Runs.{run_of, run_at, run_at-place, run_at-remove}
use redox_kernel.Memory.Grants.Placed.{place-IsGrants, page_view-place}

-- Grants in order, disjoint, mapped, of at least one page each and below the limit, those that borrow
-- frames of frames that begin above address 0 and end below 2^64; holes in order on page boundaries,
-- and an address is in a hole exactly when no grant holds its page.
pub record WellFormed (page_size hi : ℕ) (u : UserGrants) : Type 0 where
  pub grants : IsGrants page_size 0 hi u.inner
  pub holes : IsHoles 0 (hi * page_size) u.holes
  pub aligned : Aligned page_size u.holes
  pub exact :
      (a : ℕ)
      → a < hi * page_size
      → covers u.holes a ≡ not (is_some (page_view page_size u.inner (a / page_size)))

module _ (page_size hi : ℕ) (positive : 0 < page_size) (words : hi * page_size < usize_mod) where
  -- The addresses of a span are those of its pages.
  in_region-in_span :
      (b c a : ℕ) → in_region (b * page_size) (c * page_size) a ≡ in_span b c (a / page_size)
  in_region-in_span b c a =
      let q = a / page_size in
      let whole : q * page_size + a % page_size ≡ a = div-add-mod' a page_size in
      let rest : a % page_size < page_size = mod-lt a positive in
      ground (
        arith,
        whole,
        rest,
        λ (h : b ≤ q). mul-le-mul_right page_size h,
        λ (h : q + 1 ≤ b). mul-le-mul_right page_size h,
        λ (h : b + c ≤ q). mul-le-mul_right page_size h,
        λ (h : q + 1 ≤ b + c). mul-le-mul_right page_size h,
      )

  pub overlapping-free :
      (s : PageSpan) (lo : ℕ) (m : Inner)
      → IsGrants page_size lo hi m
      → ((p : ℕ) → in_span s.base s.count p ≡ true → page_view page_size m p ≡ none)
      → overlapping s m ≡ []
  unfolding page_view
  overlapping-free s lo [] w free = refl
  overlapping-free s lo ((b, i) ∷ m) w free =
      let rest = overlapping-free s (b + i.page_count) m w.2 (λ p h. ground (arith, free p h)) in
      ground (arith, rest, free (max b s.base))

  module _ (u : UserGrants) (w : WellFormed page_size hi u) (g : Grant)
      (v : IsGrant page_size hi g.base g.info) where
    insert_inner-lem :
        ((p : ℕ) → in_span g.base g.info.page_count p ≡ true → page_view page_size u.inner p ≡ none)
        → IsGrants page_size 0 hi (insert_inner g u.inner)
          × ((p : ℕ)
              → page_view page_size (insert_inner g u.inner) p ≡ (
                  if in_span g.base g.info.page_count p
                  then some (page_seen page_size (p - g.base) g.info)
                  else page_view page_size u.inner p))
          × ((p : ℕ)
              → run_at (insert_inner g u.inner) p
                ≡ (if g.base == p then run_of g.info else run_at u.inner p))
    insert_inner-lem free =
        let clear = overlapping-free (grant_span g) 0 u.inner w.grants free in
        let limit : hi < usize_mod = omega (arith, page_bound page_size hi positive words hi) in
        rw (insert_inner-place page_size hi g v.1 (limit) v.0 u.inner 0 w.grants clear) (
          place-IsGrants page_size hi g v 0 u.inner (omega arith) w.grants clear,
          λ p. page_view-place page_size hi g v 0 u.inner p w.grants clear,
          λ p. run_at-place page_size hi g v 0 u.inner p w.grants clear,
        )

    sizes :
        (0 < g.info.page_count * page_size)
        × (g.base * page_size + g.info.page_count * page_size ≤ hi * page_size)
    sizes = (
      omega (arith, mul-le-mul_right page_size v.0),
      omega (arith, mul-le-mul_right page_size v.1),
    )

    -- From well-formed grants and holes below a limit of 64 bits, inserting a mapped grant of at least
    -- one page below the limit, on pages that no grant holds, and where it borrows frames, of frames
    -- that begin above address 0 and end below 2^64, does not panic; grants and holes are well-formed
    -- again, the pages of the new grant see what it maps, whether it was merged with its neighbours or
    -- not, and all other pages see what they saw. The view of a page leaves out pins, the mark of
    -- contiguous frames and, of a borrowed address space, the page in it. The mark is kept: the grants
    -- of contiguous frames are those of before, each with its base and length, and the new grant if it
    -- is marked, so none is merged.
    pub insert_grant-WellFormed :
        ((p : ℕ) → in_span g.base g.info.page_count p ≡ true → page_view page_size u.inner p ≡ none)
        → (u' : UserGrants) × (insert_grant page_size u g ≡ ok u')
          × WellFormed page_size hi u'
          × ((p : ℕ)
              → page_view page_size u'.inner p ≡ (
                  if in_span g.base g.info.page_count p
                  then some (page_seen page_size (p - g.base) g.info)
                  else page_view page_size u.inner p))
          × ((p : ℕ)
              → run_at u'.inner p ≡ (if g.base == p then run_of g.info else run_at u.inner p))
    unfolding insert_grant
    insert_grant-WellFormed free =
        let placed = insert_inner-lem free in
        let clear = overlapping-free (grant_span g) 0 u.inner w.grants free in
        let none_found =
          conflicts-overlapping page_size hi positive words u.inner (grant_span g) w.grants v.1 in
        let carved =
          reserve_free page_size g.base g.info.page_count (hi * page_size) u.holes w.holes words
            sizes.0 sizes.1 w.aligned
            (λ a l h. ground (
              arith,
              sizes,
              w.exact a,
              in_region-in_span g.base g.info.page_count a,
              free (a / page_size),
            )) in
        (
          record {
            inner = insert_inner g u.inner;
            holes = reserve page_size u.holes g.base g.info.page_count;
          },
          rw (none_found, clear) refl,
          record {
            grants = placed.0;
            holes = carved.0;
            aligned = carved.1;
            exact = λ a h. ground (
              arith,
              carved.2 a,
              placed.1 (a / page_size),
              w.exact a h,
              in_region-in_span g.base g.info.page_count a,
            );
          },
          placed.1,
          placed.2,
        )

    -- On well-formed grants, inserting a grant panics if a grant holds one of its pages.
    pub insert_grant-taken :
        (p : ℕ) (c : PageView)
        → in_span g.base g.info.page_count p ≡ true
        → page_view page_size u.inner p ≡ some c
        → insert_grant page_size u g ≡ panic
    unfolding insert_grant
    insert_grant-taken p c h e =
        let found =
          conflicts-overlapping page_size hi positive words u.inner (grant_span g) w.grants v.1 in
        elim (Option-cases (first_entry (overlapping (grant_span g) u.inner))) [
          | inl clear ↦ ground (
            arith,
            e,
            overlapping-none page_size hi positive words (grant_span g) 0 p u.inner w.grants clear
                h,
          )
          | inr (x, taken) ↦ rw (found, taken) refl
        ]

  module _ (u : UserGrants) (w : WellFormed page_size hi u) (b : ℕ) (i : GrantInfo)
      (found : OrdMap.get b u.inner ≡ some i) where
    -- From well-formed grants and holes, removing the grant at a base page gives that grant; grants
    -- and holes are well-formed again, the pages of the grant are free, and all other pages see what
    -- they saw.
    pub remove_grant-WellFormed :
        (u' : UserGrants) × (remove_grant page_size u b ≡ some (record { base = b; info = i }, u'))
        × WellFormed page_size hi u'
        × ((p : ℕ)
            → page_view page_size u'.inner p
              ≡ (if in_span b i.page_count p then none else page_view page_size u.inner p))
        × ((p : ℕ)
            → in_span b i.page_count p ≡ true
            → page_view page_size u.inner p ≡ some (page_seen page_size (p - b) i))
        × IsGrant page_size hi b i
        × ((p : ℕ) → run_at u'.inner p ≡ (if b == p then none else run_at u.inner p))
    unfolding remove_grant
    remove_grant-WellFormed =
        let at : (p : ℕ)
            → in_span b i.page_count p ≡ true
            → page_view page_size u.inner p ≡ some (page_seen page_size (p - b) i) =
          λ p. (get-view page_size 0 hi u.inner b p i w.grants found).2 in
        let v = (get-view page_size 0 hi u.inner b 0 i w.grants found).1 in
        let few = mul-le-mul_right page_size v.0 in
        let fits = mul-le-mul_right page_size v.1 in
        let freed =
          unreserve_free page_size b i.page_count (hi * page_size) u.holes w.holes words
            (omega (arith, few)) (omega (arith, fits)) w.aligned
            (λ a l h.
              ground
                (arith, fits, w.exact a, in_region-in_span b i.page_count a, at (a / page_size))) in
        let views = λ (p : ℕ). page_view-remove page_size 0 hi u.inner b p i w.grants found in
        (
          record {
            inner = OrdMap.remove b u.inner;
            holes = unreserve page_size u.holes b i.page_count;
          },
          rw found refl,
          record {
            grants = remove-IsGrants page_size 0 hi u.inner b w.grants;
            holes = freed.0;
            aligned = freed.1;
            exact = λ a h. ground (
              arith,
              freed.2 a,
              views (a / page_size),
              w.exact a h,
              in_region-in_span b i.page_count a,
            );
          },
          views,
          at,
          v,
          λ p. run_at-remove page_size hi 0 u.inner b p w.grants,
        )
