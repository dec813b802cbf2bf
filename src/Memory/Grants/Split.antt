-- ===== src/Memory/Grants/Split.antt =====
-- `Grant::extract` of src/context/memory.rs: the three parts show their pages what the whole did.
use native.Mathlib.Nat.{mul-le-mul_right}
use redox_kernel.Common.{
  ℕ, ◌+◌, ◌-◌, ◌*◌, ◌≤◌, ◌<◌, ◌≡◌, refl, Option, none, some, false, ◌==◌, arith, Bool-cases, inl,
  inr, usize_mod, ap, ok,
}
use redox_kernel.Memory.Span.{PageSpan, span, non_empty, slice}
use redox_kernel.Memory.Span.Pages.{page_bound, before_lem, after_lem}
use redox_kernel.Memory.Grants.{
  Grant, Provider, grant_span, extract, part, part_before, middle_provider, after_provider,
  before_provider, advance_file, is_pinned, pages_of, frame_next_by, part_after, provider_pinned,
  phys_contiguous_provider, map_result, GrantFileRef,
}
use redox_kernel.Memory.Grants.Provider.{
  allocated, allocated_shared, phys_borrowed, external, fmap_borrowed,
}
use redox_kernel.Memory.Grants.Runs.{run_in, before-run}
use redox_kernel.Memory.Grants.Pages.{IsGrant, Fits, seen, IsPart, IsPart?}

module _ (page_size hi : ℕ) (positive : 0 < page_size) (words : hi * page_size < usize_mod) where
  advance-advance :
      (f : GrantFileRef) (n k : ℕ)
      → n + k ≤ hi
      → advance_file page_size (advance_file page_size f n) k ≡ advance_file page_size f (n + k)
  advance-advance f n k h = ground (arith, page_bound page_size hi positive words (n + k))

  seen-before : (k : ℕ) (p : Provider) → seen page_size k (before_provider p) ≡ seen page_size k p
  seen-before k (allocated none c) = refl
  seen-before k (allocated (some f) c) = refl
  seen-before k (allocated_shared pinned) = refl
  seen-before k (phys_borrowed b) = refl
  seen-before k (external a s pinned) = refl
  seen-before k (fmap_borrowed f n) = refl

  -- The provider of the extracted part.
  middle_lem :
      (n count : ℕ) (p : Provider)
      → n + count ≤ hi
      → Fits page_size (n + count) p
      → (q : Provider) × (middle_provider page_size n p ≡ ok q)
        × Fits page_size count q
        × ((k : ℕ) → n + k ≤ hi → seen page_size k q ≡ seen page_size (n + k) p)
        × (provider_pinned q ≡ provider_pinned p)
        × (phys_contiguous_provider q ≡ phys_contiguous_provider p)
  middle_lem n count (allocated none c) l h = (allocated none c, refl, tt, λ k m. refl, refl, refl)
  middle_lem n count (allocated (some f) c) l h = (
    allocated (some (advance_file page_size f n)) c,
    refl,
    tt,
    λ k m. ground (arith, advance-advance f n k m),
    refl,
    refl,
  )
  middle_lem n count (allocated_shared pinned) l h =
      (allocated_shared pinned, refl, tt, λ k m. refl, refl, refl)
  middle_lem n count (phys_borrowed b) l h =
      let small = page_bound page_size hi positive words (n + count) l in
      let moved : frame_next_by page_size b n ≡ ok (b + n * page_size) = ground (arith, small) in
      (
        phys_borrowed (b + n * page_size),
        rw moved refl,
        (omega arith, omega arith),
        λ k m. ap phys_borrowed (omega arith),
        refl,
        refl,
      )
  middle_lem n count (external a s pinned) l h =
      (external a s pinned, refl, tt, λ k m. refl, refl, refl)
  middle_lem n count (fmap_borrowed f c) l h = (
    fmap_borrowed (advance_file page_size f n) c,
    refl,
    tt,
    λ k m. ground (arith, advance-advance f n k m),
    refl,
    refl,
  )

  -- The provider of the part behind it.
  behind_lem :
      (n count : ℕ) (p : Provider)
      → n + count ≤ hi
      → Fits page_size (n + count) p
      → (q : Provider) × (after_provider page_size n p ≡ ok q)
        × Fits page_size count q
        × ((k : ℕ) → n + k ≤ hi → seen page_size k q ≡ seen page_size (n + k) p)
        × (phys_contiguous_provider q ≡ false)
  behind_lem n count (allocated none c) l h = (allocated none false, refl, tt, λ k m. refl, refl)
  behind_lem n count (allocated (some f) c) l h = (
    allocated (some (advance_file page_size f n)) false,
    refl,
    tt,
    λ k m. ground (arith, advance-advance f n k m),
    refl,
  )
  behind_lem n count (allocated_shared pinned) l h =
      (allocated_shared false, refl, tt, λ k m. refl, refl)
  behind_lem n count (phys_borrowed b) l h =
      let small = page_bound page_size hi positive words (n + count) l in
      let moved : frame_next_by page_size b n ≡ ok (b + n * page_size) = ground (arith, small) in
      (
        phys_borrowed (b + n * page_size),
        rw moved refl,
        (omega arith, omega arith),
        λ k m. ap phys_borrowed (omega arith),
        refl,
      )
  behind_lem n count (external a s pinned) l h = (external a s false, refl, tt, λ k m. refl, refl)
  behind_lem n count (fmap_borrowed f c) l h = (
    fmap_borrowed (advance_file page_size f n) 0,
    refl,
    tt,
    λ k m. ground (arith, advance-advance f n k m),
    refl,
  )

  Fits-le : (n m : ℕ) (p : Provider) → n ≤ m → Fits page_size m p → Fits page_size n p
  Fits-le n m (allocated c k) l h = tt
  Fits-le n m (allocated_shared pinned) l h = tt
  Fits-le n m (phys_borrowed b) l h = (h.0, omega (arith, mul-le-mul_right page_size l))
  Fits-le n m (external a s pinned) l h = tt
  Fits-le n m (fmap_borrowed f c) l h = tt

  Fits-before : (n : ℕ) (p : Provider) → Fits page_size n p → Fits page_size n (before_provider p)
  Fits-before n (allocated c k) h = tt
  Fits-before n (allocated_shared pinned) h = tt
  Fits-before n (phys_borrowed b) h = h
  Fits-before n (external a s pinned) h = tt
  Fits-before n (fmap_borrowed f c) h = tt

  module _ (g : Grant) (v : IsGrant page_size hi g.base g.info) (inner : PageSpan)
      (inside : g.base ≤ inner.base)
      (within : inner.base + inner.count ≤ g.base + g.info.page_count)
      (some_pages : 0 < inner.count) where
    abbrev n : ℕ
    n = inner.base - g.base

    abbrev r : ℕ
    r = g.base + g.info.page_count - (inner.base + inner.count)

    before_part :
        IsPart? page_size hi g g.base n (part_before g.info (non_empty (span g.base n)))
        × (pages_of (part_before g.info (non_empty (span g.base n))) ≡ n)
        × (run_in (part_before g.info (non_empty (span g.base n))) ≡ none)
    before_part = elim (Bool-cases (n == 0)) [
      | inl nothing ↦ rw nothing (ground arith, ground arith, refl)
      | inr something ↦ rw something (
        (
          refl,
          refl,
          (
            ground arith,
            omega arith,
            v.2,
            Fits-before n g.info.provider
                (Fits-le n g.info.page_count g.info.provider (omega arith) v.3),
          ),
          λ p h. ground (arith, seen-before (p - g.base) g.info.provider),
        ),
        refl,
        rw (before-run g.info.provider) refl,
      )
    ]

    after_part :
        (q : Provider)
        → Fits page_size (inner.count + r) q
        → ((k : ℕ) → n + k ≤ hi → seen page_size k q ≡ seen page_size (n + k) g.info.provider)
        → (a : Option Grant) × (map_result
              (part_after page_size g.info q inner.count)
              (non_empty (span (inner.base + inner.count) r))
            ≡ ok a)
          × IsPart? page_size hi g (inner.base + inner.count) r a
          × (run_in a ≡ none)
    after_part q fits views = elim (Bool-cases (r == 0)) [
      | inl nothing ↦ (none, rw nothing refl, ground arith, refl)
      | inr something ↦
          let behind = behind_lem inner.count r q (omega arith) fits in
          (
            some (part g.info (span (inner.base + inner.count) r) behind.0),
            rw (something, behind.1) refl,
            (
              refl,
              refl,
              (ground arith, omega arith, v.2, behind.2),
              λ p h.
                  let k = p - (inner.base + inner.count) in
                  let e : n + (inner.count + k) ≡ p - g.base = ground arith in
                  let l : n + (inner.count + k) ≤ hi = ground arith in
                  ground (arith, e, behind.3 k (ground arith), views (inner.count + k) l),
            ),
            rw behind.4 refl,
          )
    ]

    -- A mapped grant that is not pinned, of pages below a limit of 64 bits, and where it borrows
    -- frames, of frames that begin above address 0 and end below 2^64, is cut at a span of at least one
    -- of its pages without a panic: into the pages before the span, those of the span, and those behind
    -- it, no grant standing for no pages. Every page sees what it saw in the view of a page, which
    -- leaves out pins, the mark of contiguous frames and, of a borrowed address space, the page in it.
    -- The pages of the span keep the mark and are not pinned, and the two other parts are without the
    -- mark.
    pub extract_lem :
        is_pinned g.info ≡ false
        → (b : Option Grant) × (m : Grant) × (a : Option Grant) × (extract page_size g inner
            ≡ ok (some (b, m, a)))
          × IsPart? page_size hi g g.base (inner.base - g.base) b
          × IsPart page_size hi g inner.base inner.count m
          × IsPart? page_size hi g
              (inner.base + inner.count)
              (g.base + g.info.page_count - (inner.base + inner.count))
              a
          × (is_pinned m.info ≡ false)
          × (run_in b ≡ none)
          × (run_in a ≡ none)
          × (phys_contiguous_provider m.info.provider ≡ phys_contiguous_provider g.info.provider)
    unfolding extract slice
    extract_lem unpinned =
        let before =
          before_lem page_size hi positive words (grant_span g) inner v.1 (omega arith) inside in
        let after = after_lem page_size hi positive words (grant_span g) inner v.1 within in
        let fits : Fits page_size (n + (inner.count + r)) g.info.provider =
          Fits-le (n + (inner.count + r)) g.info.page_count g.info.provider (omega arith) v.3 in
        let middle = middle_lem n (inner.count + r) g.info.provider (omega arith) fits in
        let behind = after_part middle.0 middle.2 middle.3 in
        (
          part_before g.info (non_empty (span g.base n)),
          part g.info inner middle.0,
          behind.0,
          rw (unpinned, before, after) (rw before_part.1 (rw middle.1 (rw behind.1 refl))),
          before_part.0,
          (
            refl,
            refl,
            (
              some_pages,
              omega arith,
              v.2,
              Fits-le inner.count (inner.count + r) middle.0 (omega arith) middle.2,
            ),
            λ p h.
                let k = p - inner.base in
                let e : n + k ≡ p - g.base = ground arith in
                ground (arith, e, middle.3 k (ground arith)),
          ),
          behind.2,
          ground (arith, middle.4, unpinned),
          before_part.2,
          behind.3,
          middle.5,
        )
