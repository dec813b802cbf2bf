-- ===== src/Memory/Grants/Conflicts.antt =====
-- `UserGrants::conflicts` of src/context/memory.rs against a filter over all grants.
use redox_kernel.Common.{
  ℕ, ◌+◌, ◌-◌, ◌*◌, ◌≤◌, ◌<◌, ◌≡◌, refl, Option, none, some, [], ◌∷◌, Bool, true, leb, ltb,
  if◌then◌else◌, arith, Bool-cases, Option-cases, inl, inr, usize_mod, min, max,
}
use redox_kernel.Common.OrdMap
use redox_kernel.Memory.Span.{PageSpan, span, intersects}
use redox_kernel.Memory.Span.Pages.{intersection_lem, page_bound}
use redox_kernel.Memory.Grants.{GrantInfo}
use redox_kernel.Memory.Grants.Table.{Inner, grant_at, take_conflicts, conflicts, first_entry}
use redox_kernel.Memory.Grants.Pages.{
  IsGrants, IsGrants-KeysFrom, page_view, page_seen, in_span, PageView, page_view-below,
}

-- The grant and the span have a page in common.
abbrev pub overlaps : PageSpan → ℕ → GrantInfo → Bool
overlaps s b i = ltb (max b s.base) (min (b + i.page_count) (s.base + s.count))

-- The reference: every grant that has a page in the span, in order.
abbrev pub overlapping : PageSpan → Inner → Inner
overlapping s [] = []
overlapping s ((b, i) ∷ m) = if overlaps s b i then (b, i) ∷ overlapping s m else overlapping s m

abbrev pub view_of : ℕ → ℕ → Option (ℕ × GrantInfo) → Option PageView
view_of page_size p none = none
view_of page_size p (some (b, i)) = some (page_seen page_size (p - b) i)

module _ (page_size hi : ℕ) (positive : 0 < page_size) (words : hi * page_size < usize_mod) where
  intersects-overlaps :
      (s : PageSpan) (b : ℕ) (i : GrantInfo)
      → b + i.page_count ≤ hi
      → s.base + s.count ≤ hi
      → intersects page_size (span b i.page_count) s ≡ overlaps s b i
  unfolding intersects
  intersects-overlaps s b i hb hs =
      ground (arith, intersection_lem page_size hi positive words (span b i.page_count) s hb hs)

  overlapping-behind :
      (s : PageSpan) (lo : ℕ) (m : Inner)
      → s.base + s.count ≤ lo
      → IsGrants page_size lo hi m
      → overlapping s m ≡ []
  overlapping-behind s lo [] h w = refl
  overlapping-behind s lo ((b, i) ∷ m) h w =
      ground (arith, overlapping-behind s (b + i.page_count) m (omega arith) w.2)

  -- From the start of the span on, the walk may stop at the first grant that does not overlap.
  take_conflicts_lem :
      (s : PageSpan) (lo : ℕ) (m : Inner)
      → s.base + s.count ≤ hi
      → s.base ≤ lo
      → IsGrants page_size lo hi m
      → take_conflicts page_size s m ≡ overlapping s m
  take_conflicts_lem s lo [] hs h w = refl
  take_conflicts_lem s lo ((b, i) ∷ m) hs h w = ground (
    arith,
    intersects-overlaps s b i w.1.1 hs,
    λ (q : s.base + s.count ≤ b + i.page_count). overlapping-behind s (b + i.page_count) m q w.2,
    take_conflicts_lem s (b + i.page_count) m hs (omega arith) w.2,
  )

  range_from-front :
      (k lo : ℕ) (m : Inner) → k ≤ lo → IsGrants page_size lo hi m → OrdMap.range_from k m ≡ m
  unfolding OrdMap.range_from
  range_from-front k lo [] h w = refl
  range_from-front k lo ((b, i) ∷ m) h w = ground arith

  conflicts-from :
      (s : PageSpan) (lo : ℕ) (m : Inner)
      → s.base + s.count ≤ hi
      → IsGrants page_size lo hi m
      → conflicts page_size m s ≡ overlapping s m
  unfolding conflicts grant_at OrdMap.range_from OrdMap.last_below
  conflicts-from s lo [] hs w = refl
  conflicts-from s lo ((b, i) ∷ m) hs w =
      let keys = IsGrants-KeysFrom page_size (b + i.page_count) hi m w.2 in
      let bound = page_bound page_size hi positive words (b + i.page_count) w.1.1 in
      let head = intersects-overlaps s b i w.1.1 hs in
      elim (Bool-cases (leb (b + i.page_count) s.base)) [
        | inl past ↦
            let rest = conflicts-from s (b + i.page_count) m hs w.2 in
            elim (Option-cases (OrdMap.last_below (s.base + 1) m)) [
              | inl e ↦ ground (arith, e)
              | inr ((j, v), e) ↦ ground (
                arith,
                e,
                OrdMap.last_below-KeysFrom (s.base + 1) (b + i.page_count) m j v keys e,
              )
            ]
        | inr here ↦
            let later =
              OrdMap.last_below-below (s.base + 1) (b + i.page_count) m (ground arith) keys in
            let tail = take_conflicts_lem s (b + i.page_count) m hs (ground arith) w.2 in
            ground (arith, later, tail, head, bound, overlapping-behind s (b + i.page_count) m)
      ]

  -- On grants in order up to a page of which the address is a word, `conflicts` of a span up to that
  -- page gives every grant that has a page in the span, in order, and no other.
  pub conflicts-overlapping :
      (m : Inner) (s : PageSpan)
      → IsGrants page_size 0 hi m
      → s.base + s.count ≤ hi
      → conflicts page_size m s ≡ overlapping s m
  conflicts-overlapping m s w hs = conflicts-from s 0 m hs w

  -- Where no grant overlaps the span, its pages are free.
  pub overlapping-none :
      (s : PageSpan) (lo p : ℕ) (m : Inner)
      → IsGrants page_size lo hi m
      → first_entry (overlapping s m) ≡ none
      → in_span s.base s.count p ≡ true
      → page_view page_size m p ≡ none
  unfolding page_view
  overlapping-none s lo p [] w e h = refl
  overlapping-none s lo p ((b, i) ∷ m) w e h =
      ground (arith, overlapping-none s (b + i.page_count) p m w.2)

  -- The first grant that overlaps the span is there, and no page of the span before it is taken.
  pub overlapping-some :
      (s : PageSpan) (lo b : ℕ) (i : GrantInfo) (m : Inner)
      → IsGrants page_size lo hi m
      → first_entry (overlapping s m) ≡ some (b, i)
      → (OrdMap.get b m ≡ some i)
        × (overlaps s b i ≡ true)
        × (lo ≤ b)
        × ((p : ℕ) → in_span s.base s.count p ≡ true → p < b → page_view page_size m p ≡ none)
  unfolding page_view OrdMap.get
  overlapping-some s lo b i [] w e = cc
  overlapping-some s lo b i ((c, j) ∷ m) w e = elim (Bool-cases (overlaps s c j)) [
    | inl first ↦
        let same : (c ≡ b) × (j ≡ i) = ground arith in
        (
          ground arith,
          ground arith,
          ground arith,
          λ p h q. ground (arith, page_view-below page_size (c + j.page_count) hi m p w.2),
        )
    | inr later ↦
        let rest = overlapping-some s (c + j.page_count) b i m w.2 (ground arith) in
        (ground arith, rest.1, ground arith, λ p h q. ground (arith, rest.3 p h q))
  ]

  -- On grants in order, `contains` gives the grant that holds a page, if there is one.
  pub grant_at-view :
      (lo p : ℕ) (m : Inner)
      → IsGrants page_size lo hi m
      → p < hi
      → page_view page_size m p ≡ view_of page_size p (grant_at m p)
  unfolding page_view grant_at OrdMap.last_below
  grant_at-view lo p [] w h = refl
  grant_at-view lo p ((b, i) ∷ m) w h =
      let rest = grant_at-view (b + i.page_count) p m w.2 h in
      let keys = IsGrants-KeysFrom page_size (b + i.page_count) hi m w.2 in
      let bound = page_bound page_size hi positive words (b + i.page_count) w.1.1 in
      elim (Option-cases (OrdMap.last_below (p + 1) m)) [
        | inl e ↦ ground (arith, e)
        | inr ((j, v), e) ↦
            ground (arith, e, OrdMap.last_below-KeysFrom (p + 1) (b + i.page_count) m j v keys e)
      ]
