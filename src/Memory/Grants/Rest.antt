-- ===== src/Memory/Grants/Rest.antt =====
-- What a pass of `AddrSpace::munmap_inner` in src/context/memory.rs leaves to the next, and which
-- grants of contiguous frames it touches.
use redox_kernel.Common.{
  ℕ, ◌+◌, ◌-◌, ◌*◌, ◌≤◌, ◌<◌, ◌≡◌, refl, inl, inr, none, some, true, ◌==◌, ltb, if◌then◌else◌,
  arith, usize_mod, Bool-cases, Option-cases, Option, ap, ◌∙◌, sym, max,
}
use redox_kernel.Common.OrdMap
use redox_kernel.Memory.Span.{PageSpan, span, empty}
use redox_kernel.Memory.Span.Pages.{end_lem, page_bound}
use redox_kernel.Memory.Grants.{GrantInfo}
use redox_kernel.Memory.Grants.Table.{UserGrants}
use redox_kernel.Memory.Grants.Conflicts.{overlaps}
use redox_kernel.Memory.Grants.Pages.{page_view, in_span}
use redox_kernel.Memory.Grants.Runs.{run_of, run_at, run_at-get, run_at-taken, run_at-apart, uncut}
use redox_kernel.Memory.Grants.Insert.{WellFormed}
use redox_kernel.Memory.Grants.Munmap.{next_requested}

-- What the next pass asks for.
unfoldable pub rest_of : PageSpan → ℕ → GrantInfo → PageSpan
rest_of s b i =
    if ltb (b + i.page_count) (s.base + s.count)
    then span (b + i.page_count) (s.base + s.count - (b + i.page_count))
    else empty

module _ (page_size hi : ℕ) (positive : 0 < page_size) (words : hi * page_size < usize_mod) where
  pub next_requested_lem :
      (s : PageSpan) (b : ℕ) (i : GrantInfo)
      → s.base + s.count ≤ hi
      → b + i.page_count ≤ hi
      → next_requested (span b i.page_count) s ≡ rest_of s b i
  unfolding rest_of
  next_requested_lem s b i hs hc = ground (
    arith,
    end_lem page_size hi positive words s hs,
    end_lem page_size hi positive words (span b i.page_count) hc,
    page_bound page_size hi positive words (s.base + s.count) hs,
  )

  pub rest_of_lem :
      (s : PageSpan) (b : ℕ) (i : GrantInfo)
      → s.base + s.count ≤ hi
      → overlaps s b i ≡ true
      → 0 < i.page_count
      → ((rest_of s b i).base + (rest_of s b i).count ≤ hi) × ((rest_of s b i).count < s.count)
  unfolding rest_of
  rest_of_lem s b i h overlap pos = ground arith

  -- A run none of whose pages is in the span is left.
  pub uncut-free :
      (u : UserGrants) (s : PageSpan) (p : ℕ)
      → WellFormed page_size hi u
      → ((q n : ℕ)
          → run_at u.inner p ≡ some n
          → in_span p n q ≡ true
          → in_span s.base s.count q ≡ true
          → page_view page_size u.inner q ≡ none)
      → uncut s p (run_at u.inner p) ≡ run_at u.inner p
  uncut-free u s p w free = elim (Option-cases (run_at u.inner p)) [
    | inl h ↦ rw h refl
    | inr (n, h) ↦
        let at = max p s.base in
        let taken = run_at-taken page_size hi 0 u.inner p at n w.grants h in
        let none_there = free at n h in ground (arith, h, taken, none_there)
  ]

  module _ (u : UserGrants) (s : PageSpan) (b : ℕ) (i : GrantInfo) (w : WellFormed page_size hi u)
      (found : OrdMap.get b u.inner ≡ some i) (overlap : overlaps s b i ≡ true)
      (below : (p : ℕ)
        → in_span s.base s.count p ≡ true
        → p < b
        → page_view page_size u.inner p ≡ none) where
    -- A pass does not touch the runs before the grant.
    pub uncut-early : (p : ℕ) → p < b → uncut s p (run_at u.inner p) ≡ run_at u.inner p
    uncut-early p h = uncut-free u s p w (λ q n e here inside.
        let apart = run_at-apart page_size hi 0 u.inner p n b i w.grants e found in
        below q inside (ground (arith, apart)))

    -- It takes the grant's own.
    pub uncut-step :
        (p : ℕ) (r2 : Option ℕ)
        → r2 ≡ (if b == p then none else run_at u.inner p)
        → uncut s p (run_at u.inner p) ≡ uncut (rest_of s b i) p r2
    unfolding rest_of
    uncut-step p r2 e = elim (Bool-cases (b == p)) [
      | inl same ↦
          let eq : b ≡ p = ground arith in
          let mine : run_at u.inner p ≡ run_of i =
            ap (run_at u.inner) (sym eq) ∙ run_at-get page_size hi u.inner b i found in
          ground (arith, mine, same)
      | inr other ↦ elim (Option-cases (run_at u.inner p)) [
        | inl h ↦ ground (arith, h, other)
        | inr (n, h) ↦
            let apart = run_at-apart page_size hi 0 u.inner p n b i w.grants h found in
            ground (arith, h, other, apart, uncut-early p)
      ]
    ]
