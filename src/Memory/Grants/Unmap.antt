-- ===== src/Memory/Grants/Unmap.antt =====
-- `AddrSpace::munmap_inner` of src/context/memory.rs as a whole: which pages it frees, where a
-- pinned grant stops it, and that its loop ends.
use redox_kernel.Common.{
  ℕ, zero, suc, ◌+◌, ◌-◌, ◌*◌, ◌≤◌, ◌<◌, ◌≡◌, refl, ◌⊎◌, inl, inr, none, some, List, [], Bool, true,
  false, ◌&&◌, ltb, if◌then◌else◌, arith, usize_mod, Result, ok, err, ebusy, ◌>>=◌, Bool-cases,
  Option-cases, ◌==◌, ◌∙◌, sym,
}
use redox_kernel.Common.OrdMap
use redox_kernel.Memory.Span.{PageSpan, span}
use redox_kernel.Memory.Grants.{GrantInfo, Grant, is_pinned}
use redox_kernel.Memory.Grants.Table.{UserGrants, first_entry}
use redox_kernel.Memory.Grants.Conflicts.{
  overlaps, overlapping, conflicts-overlapping, overlapping-none, overlapping-some,
}
use redox_kernel.Memory.Grants.Pages.{page_view, in_span, get-view}
use redox_kernel.Memory.Grants.Runs.{run_at, uncut}
use redox_kernel.Memory.Grants.Rest.{
  rest_of, next_requested_lem, rest_of_lem, uncut-free, uncut-early, uncut-step,
}
use redox_kernel.Memory.Grants.Insert.{WellFormed}
use redox_kernel.Memory.Grants.Munmap.{
  UnmapResult, take_out, next_conflict, unmap, unmap_result, munmap_step, munmap_inner,
  next_requested, notify,
}
use redox_kernel.Memory.Grants.TakeOut.{take_out_lem}

-- How the call ends: either all pages of the span are free, or a pinned grant is in the way, and the
-- pages of the span before it are free. No other page changes, and the grants of contiguous frames
-- that lose pages, and no others, lose the mark.
abbrev pub Outcome : ℕ → UserGrants → PageSpan → UserGrants → Result (List UnmapResult) → Type 0
Outcome page_size u s u' r =
    ((files : List UnmapResult) × (r ≡ ok files)
      × ((p : ℕ)
          → page_view page_size u'.inner p
            ≡ (if in_span s.base s.count p then none else page_view page_size u.inner p))
      × ((p : ℕ) → run_at u'.inner p ≡ uncut s p (run_at u.inner p)))
    ⊎ ((b : ℕ) × (i : GrantInfo) × (r ≡ err ebusy)
        × (OrdMap.get b u'.inner ≡ some i)
        × (is_pinned i ≡ true)
        × (overlaps s b i ≡ true)
        × ((p : ℕ)
            → page_view page_size u'.inner p ≡ (
                if in_span s.base s.count p && ltb p b
                then none
                else page_view page_size u.inner p))
        × ((p : ℕ)
            → run_at u'.inner p
              ≡ (if ltb p b then uncut s p (run_at u.inner p) else run_at u.inner p)))

module _ (page_size : ℕ) (has_write : ℕ → Bool) (n : ℕ) (u : UserGrants) (s : PageSpan) where
  munmap_inner-stop :
      next_conflict page_size u.inner s false ≡ none
      → munmap_inner page_size has_write (suc n) u s false ≡ some (u, ok [])
  unfolding munmap_inner
  munmap_inner-stop h = rw (munmap_inner, h) refl

  munmap_inner-busy :
      next_conflict page_size u.inner s false ≡ some (err ebusy)
      → munmap_inner page_size has_write (suc n) u s false ≡ some (u, err ebusy)
  unfolding munmap_inner
  munmap_inner-busy h = rw (munmap_inner, h) refl

  munmap_inner-step :
      (c : PageSpan) (x : UnmapResult) (u2 u' : UserGrants) (r : Result (List UnmapResult))
      → next_conflict page_size u.inner s false ≡ some (ok c)
      → munmap_step page_size has_write u false c s ≡ ok (x, u2)
      → munmap_inner page_size has_write n u2 (next_requested c s) false ≡ some (u', r)
      → munmap_inner page_size has_write (suc n) u s false
        ≡ some (u', r >>= λ l. ok (notify page_size has_write x l))
  unfolding munmap_inner
  munmap_inner-step c x u2 u' r h g e = rw (munmap_inner, h) (rw g (rw e refl))

-- A mapped grant that is not pinned is unmapped.
munmap_step_lem :
    (page_size : ℕ) (has_write : ℕ → Bool) (u u' : UserGrants) (c s : PageSpan) (m : Grant)
    → take_out page_size u false c s ≡ ok (m, u')
    → m.info.mapped ≡ true
    → is_pinned m.info ≡ false
    → munmap_step page_size has_write u false c s ≡ ok (unmap_result page_size has_write m, u')
unfolding munmap_step unmap
munmap_step_lem page_size has_write u u' c s m t e f = rw (munmap_step, t) (rw (e, f) refl)

module _ (page_size hi : ℕ) (positive : 0 < page_size) (words : hi * page_size < usize_mod) where
  next_conflict_lem :
      (u : UserGrants) (s : PageSpan)
      → WellFormed page_size hi u
      → s.base + s.count ≤ hi
      → ((first_entry (overlapping s u.inner) ≡ none)
          × (next_conflict page_size u.inner s false ≡ none))
        ⊎ ((b : ℕ) × (i : GrantInfo) × (first_entry (overlapping s u.inner) ≡ some (b, i))
            × (next_conflict page_size u.inner s false
                ≡ some (if is_pinned i then err ebusy else ok (span b i.page_count))))
  unfolding next_conflict
  next_conflict_lem u s w h =
      let e = conflicts-overlapping page_size hi positive words u.inner s w.grants h in
      elim (Option-cases (first_entry (overlapping s u.inner))) [
        | inl clear ↦ inl (clear, rw (next_conflict, e) (rw clear refl))
        | inr ((b, i), found) ↦ inr (b, i, found, rw (next_conflict, e) (rw found (ground arith)))
      ]

  -- The outcome of the passes that are left, seen from before this one.
  Outcome-step :
      (u u2 u' : UserGrants) (s : PageSpan) (b : ℕ) (i : GrantInfo) (x : UnmapResult)
      (has_write : ℕ → Bool) (r : Result (List UnmapResult))
      → 0 < i.page_count
      → overlaps s b i ≡ true
      → ((p : ℕ) → in_span s.base s.count p ≡ true → p < b → page_view page_size u.inner p ≡ none)
      → ((p : ℕ)
          → page_view page_size u2.inner p ≡ (
              if in_span b i.page_count p && in_span s.base s.count p
              then none
              else page_view page_size u.inner p))
      → ((p : ℕ) → uncut s p (run_at u.inner p) ≡ uncut (rest_of s b i) p (run_at u2.inner p))
      → ((p : ℕ) → run_at u2.inner p ≡ (if b == p then none else run_at u.inner p))
      → WellFormed page_size hi u'
      → Outcome page_size u2 (rest_of s b i) u' r
      → Outcome page_size u s u' (r >>= λ l. ok (notify page_size has_write x l))
  unfolding rest_of
  Outcome-step u u2 u' s b i x has_write r pos overlap below view runs cut w
        (inl (files, e, views, left)) =
      inl (
        notify page_size has_write x files,
        rw e refl,
        λ p. ground (arith, views p, view p, below p),
        λ p. left p ∙ sym (runs p),
      )
  Outcome-step u u2 u' s b i x has_write r pos overlap below view runs cut w
        (inr (c, j, e, found, pinned, over, views, left)) =
      let last = b + i.page_count - 1 in
      let at = get-view page_size 0 hi u'.inner c last j w.grants found in
      let past : b + i.page_count ≤ c = ground (arith, at, views last, view last) in
      inr (
        c,
        j,
        rw e refl,
        found,
        pinned,
        ground arith,
        λ p. ground (arith, views p, view p, below p),
        λ p. ground (arith, left p, runs p, cut p),
      )

  module _ (has_write : ℕ → Bool) where
    -- From well-formed grants and holes, for a span of pages below the limit and with more fuel than
    -- the span has pages, `munmap_inner` without `unpin` ends and leaves well-formed grants and
    -- holes. Either it succeeds, all pages of the span are free and no other page changes; or it
    -- returns EBUSY, a pinned grant that has a page in the span is left in place, the pages of the
    -- span before that grant are free and no other page changes. Changes are those of the view of a
    -- page, which leaves out pins, the mark of contiguous frames and, of a borrowed address space, the
    -- page in it. The marked grants that remain are those of before that have no page in the span, with
    -- EBUSY also those at or behind the pinned grant: what is left of a cut one has lost the mark.
    pub munmap_inner_lem :
        (n : ℕ) (u : UserGrants) (s : PageSpan)
        → WellFormed page_size hi u
        → s.base + s.count ≤ hi
        → s.count < n
        → (u' : UserGrants) × (r : Result (List UnmapResult)) × (munmap_inner page_size has_write n
              u s false
            ≡ some (u', r))
          × WellFormed page_size hi u'
          × Outcome page_size u s u' r
    munmap_inner_lem zero u s w h fuel = absurd (omega arith)
    munmap_inner_lem (suc n) u s w h fuel = elim (next_conflict_lem u s w h) [
      | inl (clear, e) ↦ (
        u,
        ok [],
        munmap_inner-stop page_size has_write n u s e,
        w,
        inl (
          [],
          refl,
          λ p.
              ground
                (arith, overlapping-none page_size hi positive words s 0 p u.inner w.grants clear),
          λ p. sym (
              uncut-free page_size hi positive words u s p w (λ q k e v inside.
                overlapping-none page_size hi positive words s 0 q u.inner w.grants clear inside)),
        ),
      )
      | inr (b, i, first, e) ↦
          let at = overlapping-some page_size hi positive words s 0 b i u.inner w.grants first in
          elim (Bool-cases (is_pinned i)) [
            | inl pinned ↦ (
              u,
              err ebusy,
              munmap_inner-busy page_size has_write n u s (rw pinned at e),
              w,
              inr (
                b,
                i,
                refl,
                at.0,
                pinned,
                at.1,
                λ p. ground (arith, at.3 p),
                λ p.
                    ground
                      (arith, uncut-early page_size hi positive words u s b i w at.0 at.1 at.3 p),
              ),
            )
            | inr unpinned ↦
                let taken =
                  take_out_lem page_size hi positive words u w s h b i at.0 at.1 unpinned in
                let conflicting = span b i.page_count in
                let v = (get-view page_size 0 hi u.inner b b i w.grants at.0).1 in
                let m = taken.0 in
                let stepped =
                  munmap_step_lem page_size has_write u taken.1 conflicting s m taken.2 taken.3.2.2
                    taken.4 in
                let next = next_requested_lem page_size hi positive words s b i h v.1 in
                let shorter = rest_of_lem page_size hi positive words s b i h at.1 v.0 in
                let rest =
                  munmap_inner_lem n taken.1 (rest_of s b i) taken.5 shorter.0
                    (omega (arith, shorter.1)) in
                let x = unmap_result page_size has_write m in
                (
                  rest.0,
                  rest.1 >>= λ l. ok (notify page_size has_write x l),
                  munmap_inner-step page_size has_write n u s conflicting x taken.1 rest.0 rest.1
                      (rw unpinned at e) stepped (rw next rest.2),
                  rest.3,
                  Outcome-step u taken.1 rest.0 s b i x has_write rest.1 v.0 at.1 at.3 taken.6
                      (λ p.
                        uncut-step page_size hi positive words u s b i w at.0 at.1 at.3 p
                          (run_at taken.1.inner p) (taken.7 p))
                      taken.7 rest.3 rest.4,
                )
          ]
    ]
