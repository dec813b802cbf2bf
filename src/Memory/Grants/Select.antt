-- ===== src/Memory/Grants/Select.antt =====
-- `AddrSpace::mmap` of src/context/memory.rs: where a mapping goes.
use native.Mathlib.Nat.{mul-le-mul_right, mul-div_left}
use redox_kernel.Common.{
  ℕ, ◌+◌, ◌-◌, ◌*◌, ◌%◌, ◌≤◌, ◌<◌, ◌≡◌, refl, ◌⊎◌, inl, inr, Option, none, some, List, [], ◌∷◌,
  Bool, true, false, ◌&&◌, ltb, if◌then◌else◌, arith, usize_mod, Result, ok, err, eexist, enomem,
  ebusy, Errno, Bool-cases, Option-cases, sym, ◌∙◌,
}
use redox_kernel.Memory.Span.{PageSpan, span}
use redox_kernel.Memory.Holes.{Holes, find_free_near}
use redox_kernel.Memory.Holes.Regions.{IsHoles, covers}
use redox_kernel.Memory.Holes.Search.{find_free_near_free}
use redox_kernel.Memory.Grants.Table.{UserGrants, first_entry}
use redox_kernel.Memory.Grants.Conflicts.{overlapping, conflicts-overlapping, overlapping-none}
use redox_kernel.Memory.Grants.Pages.{page_view, in_span}
use redox_kernel.Memory.Grants.Runs.{run_at, uncut, uncut-cases}
use redox_kernel.Memory.Grants.Insert.{WellFormed}
use redox_kernel.Memory.Grants.Munmap.{MapFlags, UnmapResult, munmap_inner}
use redox_kernel.Memory.Grants.Unmap.{munmap_inner_lem, Outcome}
use redox_kernel.Memory.Grants.Rest.{uncut-free}
use redox_kernel.Memory.Grants.Mmap.{Mapped, free_span, select_span}

-- Nothing at or above the upper limit is in a hole.
covers-above : (lo hi : ℕ) (h : Holes) (a : ℕ) → IsHoles lo hi h → hi ≤ a → covers h a ≡ false
covers-above lo hi [] a w e = refl
covers-above lo hi ((o, s) ∷ r) a w e = ground (arith, covers-above (o + s + 1) hi r a w.3)

-- The page was requested.
abbrev pub is_requested : Option ℕ → ℕ → ℕ → Bool
is_requested none count p = false
is_requested (some base) count p = in_span base count p

-- A run without those that have a requested page
abbrev pub uncut_by : Option ℕ → ℕ → ℕ → Option ℕ → Option ℕ
uncut_by none count p r = r
uncut_by (some base) count p r = uncut (span base count) p r

-- A page before and after: `MAP_FIXED` may have freed it if it was requested.
abbrev pub Kept : ℕ → Bool → Option ℕ → ℕ → UserGrants → UserGrants → ℕ → Type 0
Kept page_size fixed requested count u u' p =
    (page_view page_size u'.inner p ≡ page_view page_size u.inner p)
    ⊎ ((fixed ≡ true)
        × (is_requested requested count p ≡ true)
        × (page_view page_size u'.inner p ≡ none))

-- So may the marks of contiguous frames, of grants with a requested page.
abbrev pub KeptRun : Bool → Option ℕ → ℕ → UserGrants → UserGrants → ℕ → Type 0
KeptRun fixed requested count u u' p =
    (run_at u'.inner p ≡ run_at u.inner p)
    ⊎ ((fixed ≡ true)
        × (uncut_by requested count p (run_at u.inner p) ≡ none)
        × (run_at u'.inner p ≡ none))

-- The span that is selected lies below the limit, is free, and was not changed outside.
abbrev pub Selected : ℕ → ℕ → UserGrants → ℕ → Bool → Option ℕ → Mapped PageSpan → Type 0
Selected page_size hi u count fixed requested m =
    ((base : ℕ) × (m.result ≡ ok (span base count))
      × (base + count ≤ hi)
      × ((p : ℕ) → Kept page_size fixed requested count u m.grants p)
      × ((p : ℕ)
          → page_view page_size m.grants.inner p
            ≡ (if in_span base count p then none else page_view page_size u.inner p))
      × ((p : ℕ) → run_at m.grants.inner p ≡ uncut (span base count) p (run_at u.inner p))
      × ((p : ℕ) → KeptRun fixed requested count u m.grants p))
    ⊎ ((e : Errno) × (m.result ≡ err e)
        × ((p : ℕ) → Kept page_size fixed requested count u m.grants p)
        × ((p : ℕ) → KeptRun fixed requested count u m.grants p))

module _ (page_size hi : ℕ) (positive : 0 < page_size) (words : hi * page_size < usize_mod) where
  module _ (u : UserGrants) (w : WellFormed page_size hi u) (count : ℕ) (some_pages : 0 < count)
      (bounded : count ≤ hi) (mmap_min : ℕ) (min_word : mmap_min < usize_mod)
      (min_aligned : mmap_min % page_size ≡ 0) where
    free_page :
        (p : ℕ)
        → covers u.holes (p * page_size) ≡ true
        → (p < hi) × (page_view page_size u.inner p ≡ none)
    free_page p h =
        let low : p * page_size < hi * page_size =
          ground (arith, covers-above 0 (hi * page_size) u.holes (p * page_size) w.holes) in
        let inside : p < hi = ground (arith, λ (q : hi ≤ p). mul-le-mul_right page_size q) in
        (inside, ground (arith, w.exact (p * page_size) low, mul-div_left p positive))

    free_span_lem :
        (fixed : Bool) (requested : Option ℕ)
        → Selected page_size hi u count fixed requested (free_span page_size mmap_min u count)
    free_span_lem fixed requested =
        elim (Option-cases (find_free_near page_size u.holes mmap_min count)) [
          | inl e ↦ inr (enomem, ground (arith, e), λ p. inl refl, λ p. inl refl)
          | inr (base, e) ↦
              let few = mul-le-mul_right page_size bounded in
              let at_least = mul-le-mul_right page_size some_pages in
              let free : (p : ℕ)
                  → in_span base count p ≡ true
                  → (p < hi) × (page_view page_size u.inner p ≡ none) =
                λ p h. free_page p (
                  (find_free_near_free page_size (hi * page_size) mmap_min u.holes w.holes words
                    w.aligned min_word min_aligned count base (p * page_size)
                    (omega (arith, at_least)) (omega (arith, few)) e
                    (ground (arith, λ (q : base ≤ p). mul-le-mul_right page_size q))
                    (ground
                      (arith, λ (q : p + 1 ≤ base + count). mul-le-mul_right page_size q))).1) in
              let last = free (base + count - 1) (ground arith) in
              inl (
                base,
                ground (arith, e),
                omega (arith, last.0),
                λ p. inl refl,
                λ p. ground (arith, free p),
                λ p. sym (
                    uncut-free page_size hi positive words u (span base count) p w
                      (λ q n e v inside. (free q inside).1)),
                λ p. inl refl,
              )
        ]

    replaced_case :
        (has_write : ℕ → Bool) (fuel base : ℕ) (flags : MapFlags)
        → base + count ≤ hi
        → flags.fixed_noreplace ≡ false
        → flags.fixed ≡ true
        → (u' : UserGrants) × (r : Result (List UnmapResult)) × (munmap_inner page_size has_write
              fuel u
              (span base count)
              false
            ≡ some (u', r))
          × WellFormed page_size hi u'
          × Outcome page_size u (span base count) u' r
        → (m : Mapped PageSpan) × (select_span page_size has_write mmap_min fuel u
              (some base)
              count
              flags
            ≡ some m)
          × WellFormed page_size hi m.grants
          × Selected page_size hi u count flags.fixed (some base) m
    unfolding select_span
    replaced_case has_write fuel base flags within replace fixed
          (u', r, e, w', inl (files, done, views, runs)) =
        (
          record { grants = u'; notify_files = files; result = ok (span base count) },
          rw replace (rw fixed (rw e (rw done refl))),
          w',
          inl (
            base,
            refl,
            within,
            λ p. elim (Bool-cases (in_span base count p)) [
              | inl inside ↦ inr (fixed, inside, ground (arith, views p, inside))
              | inr outside ↦ inl (ground (arith, views p, outside))
            ],
            views,
            runs,
            λ p. elim (uncut-cases (span base count) p (run_at u.inner p)) [
              | inl same ↦ inl (runs p ∙ same)
              | inr cut ↦ inr (fixed, cut, runs p ∙ cut)
            ],
          ),
        )
    replaced_case has_write fuel base flags within replace fixed
          (u', r, e, w', inr (b, i, done, found, pinned, over, views, runs)) =
        (
          record { grants = u'; notify_files = []; result = err ebusy },
          rw replace (rw fixed (rw e (rw done refl))),
          w',
          inr (
            ebusy,
            refl,
            λ p. elim (Bool-cases (in_span base count p && ltb p b)) [
              | inl before ↦ inr (fixed, ground (arith, before), ground (arith, views p, before))
              | inr behind ↦ inl (ground (arith, views p, behind))
            ],
            λ p. elim (Bool-cases (ltb p b)) [
              | inl before ↦ elim (uncut-cases (span base count) p (run_at u.inner p)) [
                | inl same ↦ inl (ground (arith, runs p, before, same))
                | inr cut ↦ inr (fixed, cut, ground (arith, runs p, before, cut))
              ]
              | inr behind ↦ inl (ground (arith, runs p, behind))
            ],
          ),
        )

    -- What `select_span` settles on is free, whichever way it was found.
    pub select_span_lem :
        (has_write : ℕ → Bool) (fuel : ℕ) (requested : Option ℕ) (flags : MapFlags)
        → count < fuel
        → ((base : ℕ) → requested ≡ some base → base + count ≤ hi)
        → (m : Mapped PageSpan) × (select_span page_size has_write mmap_min fuel u requested count
              flags
            ≡ some m)
          × WellFormed page_size hi m.grants
          × Selected page_size hi u count flags.fixed requested m
    unfolding select_span
    select_span_lem has_write fuel none flags enough fits =
        (free_span page_size mmap_min u count, refl, w, free_span_lem flags.fixed none)
    select_span_lem has_write fuel (some base) flags enough fits =
        let within = fits base refl in
        let found =
          conflicts-overlapping page_size hi positive words u.inner (span base count) w.grants
            within in
        elim (Bool-cases flags.fixed_noreplace) [
          | inl noreplace ↦
              elim (Option-cases (first_entry (overlapping (span base count) u.inner))) [
                | inl clear ↦ (
                  record { grants = u; notify_files = []; result = ok (span base count) },
                  rw noreplace (rw (found, clear) refl),
                  w,
                  inl (
                    base,
                    refl,
                    within,
                    λ p. inl refl,
                    λ p. ground (
                      arith,
                      overlapping-none page_size hi positive words (span base count) 0 p u.inner
                          w.grants clear,
                    ),
                    λ p. sym (
                        uncut-free page_size hi positive words u (span base count) p w
                          (λ q n e v inside.
                            overlapping-none page_size hi positive words (span base count) 0 q
                              u.inner w.grants clear inside)),
                    λ p. inl refl,
                  ),
                )
                | inr (x, taken) ↦ (
                  record { grants = u; notify_files = []; result = err eexist },
                  rw noreplace (rw (found, taken) refl),
                  w,
                  inr (eexist, refl, λ p. inl refl, λ p. inl refl),
                )
              ]
          | inr replace ↦ elim (Bool-cases flags.fixed) [
            | inl fixed ↦
                let run =
                  munmap_inner_lem page_size hi positive words has_write fuel u (span base count) w
                    within enough in
                replaced_case has_write fuel base flags within replace fixed run
            | inr near ↦ (
              free_span page_size mmap_min u count,
              rw replace (rw near refl),
              w,
              free_span_lem flags.fixed (some base),
            )
          ]
        ]
