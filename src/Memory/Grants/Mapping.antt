-- ===== src/Memory/Grants/Mapping.antt =====
-- `AddrSpace::mmap` of src/context/memory.rs: where a mapping goes, and what it changes.
use redox_kernel.Common.{
  ℕ, ◌+◌, ◌-◌, ◌*◌, ◌%◌, ◌≤◌, ◌<◌, ◌≡◌, ◌≢◌, refl, ◌⊎◌, inl, inr, Option, none, some, Bool, true,
  if◌then◌else◌, arith, usize_mod, Result, ok, err, panic, Errno, subst, sym, ◌==◌, Result-cases,
}
use redox_kernel.Memory.Span.{PageSpan, span}
use redox_kernel.Memory.Grants.{Grant}
use redox_kernel.Memory.Grants.Table.{UserGrants}
use redox_kernel.Memory.Grants.Pages.{IsGrant, Fits, page_view, page_seen, in_span}
use redox_kernel.Memory.Grants.Insert.{WellFormed, insert_grant-WellFormed}
use redox_kernel.Memory.Grants.Munmap.{MapFlags}
use redox_kernel.Memory.Grants.Select.{is_requested, Kept, KeptRun, Selected, select_span_lem}
use redox_kernel.Memory.Grants.Runs.{run_at, run_of, uncut}
use redox_kernel.Memory.Grants.Mmap.{Mapped, map_span, mmap}

-- What `mmap` did: the new grant is mapped and nothing else changed, or an error is returned.
abbrev pub Mapping :
    (page_size hi : ℕ) → UserGrants → ℕ → (ℕ → Result Grant) → Bool → Option ℕ → Mapped ℕ → Type 0
Mapping page_size hi u count map_grant fixed requested m =
    ((base : ℕ) × (g : Grant) × (m.result ≡ ok base)
      × (map_grant base ≡ ok g)
      × (base + count ≤ hi)
      × ((p : ℕ)
          → page_view page_size m.grants.inner p ≡ (
              if in_span base count p
              then some (page_seen page_size (p - base) g.info)
              else page_view page_size u.inner p))
      × ((p : ℕ)
          → run_at m.grants.inner p
            ≡ (if base == p then run_of g.info else uncut (span base count) p (run_at u.inner p)))
      × ((p : ℕ)
          → in_span base count p ≡ true
          → (page_view page_size u.inner p ≡ none)
            ⊎ ((fixed ≡ true) × (is_requested requested count p ≡ true))))
    ⊎ ((e : Errno) × (m.result ≡ err e)
        × ((p : ℕ) → Kept page_size fixed requested count u m.grants p)
        × ((p : ℕ) → KeptRun fixed requested count u m.grants p))

module _ (page_size hi : ℕ) (positive : 0 < page_size) (words : hi * page_size < usize_mod) where
  module _ (u : UserGrants) (w : WellFormed page_size hi u) (count : ℕ) (some_pages : 0 < count)
      (bounded : count ≤ hi) (mmap_min : ℕ) (min_word : mmap_min < usize_mod)
      (min_aligned : mmap_min % page_size ≡ 0) where
    module _ (has_write : ℕ → Bool) (fuel : ℕ) (enough : count < fuel)
        (map_grant : ℕ → Result Grant)
        (makes : (base : ℕ) (g : Grant)
          → map_grant base ≡ ok g
          → (g.base ≡ base)
            × (g.info.page_count ≡ count)
            × (g.info.mapped ≡ true)
            × Fits page_size count g.info.provider)
        (calm : (base : ℕ) → map_grant base ≢ panic) (requested : Option ℕ) (flags : MapFlags)
        (fits : (base : ℕ) → requested ≡ some base → base + count ≤ hi) where
      map_span_lem :
          (m : Mapped PageSpan)
          → WellFormed page_size hi m.grants
          → Selected page_size hi u count flags.fixed requested m
          → (m' : Mapped ℕ) × (map_span page_size map_grant m ≡ m')
            × WellFormed page_size hi m'.grants
            × Mapping page_size hi u count map_grant flags.fixed requested m'
      map_span_lem m w' (inr (e, r, kept, runs)) = (
        record { grants = m.grants; notify_files = m.notify_files; result = err e },
        rw r refl,
        w',
        inr (e, refl, kept, runs),
      )
      map_span_lem m w' (inl (base, r, within, kept, views, runs, kept_runs)) =
          elim (Result-cases (map_grant base)) [
            | inl crash ↦ absurd (calm base crash)
            | inr other ↦ elim other [
              | inl (e, failed) ↦ (
                record { grants = m.grants; notify_files = m.notify_files; result = err e },
                rw r (rw (map_span, failed) refl),
                w',
                inr (e, refl, kept, kept_runs),
              )
              | inr (g, made) ↦
                  let facts = makes base g made in
                  let v : IsGrant page_size hi g.base g.info = (
                    omega arith,
                    omega arith,
                    facts.2,
                    subst (λ n. Fits page_size n g.info.provider) (sym facts.1) facts.3,
                  ) in
                  let done =
                    insert_grant-WellFormed page_size hi positive words m.grants w' g v
                      (λ p h. ground (arith, facts.0, facts.1, views p)) in
                  (
                    record { grants = done.0; notify_files = m.notify_files; result = ok base },
                    rw r (rw (map_span, made) (rw (map_span, done.1) refl)),
                    done.2,
                    inl (
                      base,
                      g,
                      refl,
                      made,
                      within,
                      λ p. ground (arith, facts.0, facts.1, done.3 p, views p),
                      λ p. ground (arith, facts.0, done.4 p, runs p),
                      λ p h. elim (kept p) [
                        | inl same ↦ inl (ground (arith, sym same, views p, h))
                        | inr (replaced, asked, freed) ↦ inr (replaced, asked)
                      ],
                    ),
                  )
            ]
          ]

      -- From well-formed grants and holes, an aligned lower limit, at least one page and no more than
      -- the upper limit, and for a request below that; with more fuel than pages, and where what makes
      -- the grant does not panic and makes one of those pages, mapped, and borrowing, if it borrows
      -- frames, such that begin above address 0 and end below 2^64: `mmap` ends and does not panic, and
      -- leaves well-formed grants and holes. Either it returns the base of pages below the limit that
      -- now see the new grant, that were free but for requested ones with `MAP_FIXED`, and no other page
      -- changes; or it returns an error, and no page changes but that with `MAP_FIXED` requested ones
      -- may be free. Changes are those of the view of a page, which leaves out
      -- pins, the mark of contiguous frames and, of a borrowed address space, the page in it. Marked
      -- grants are those of before, but the ones that lost a page to the new grant, and the new grant
      -- if it is marked; on an error those of before, but that with `MAP_FIXED` ones that have a
      -- requested page may be gone.
      pub mmap_lem :
          (m : Mapped ℕ) × (mmap page_size has_write mmap_min fuel map_grant u requested count flags
            ≡ some m)
          × WellFormed page_size hi m.grants
          × Mapping page_size hi u count map_grant flags.fixed requested m
      unfolding mmap
      mmap_lem =
          let chosen =
            select_span_lem page_size hi positive words u w count some_pages bounded mmap_min
              min_word min_aligned has_write fuel requested flags enough fits in
          let mapped = map_span_lem chosen.0 chosen.2 chosen.3 in
          (mapped.0, rw (mmap, chosen.1) (rw mapped.1 refl), mapped.2, mapped.3)
