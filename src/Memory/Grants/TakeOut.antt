-- ===== src/Memory/Grants/TakeOut.antt =====
-- One pass of `AddrSpace::munmap_inner` in src/context/memory.rs: the part of a grant in a span is
-- taken out of the grants.
use redox_kernel.Common.{
  ℕ, ◌+◌, ◌-◌, ◌*◌, ◌≤◌, ◌<◌, ◌≡◌, refl, Option, none, some, true, false, ◌&&◌, ◌==◌, ◌∙◌, ap, sym,
  Bool-cases, inl, inr, max, min, if◌then◌else◌, arith, usize_mod, ok,
}
use redox_kernel.Common.OrdMap
use redox_kernel.Memory.Span.{PageSpan, span, intersection}
use redox_kernel.Memory.Span.Pages.{intersection_lem}
use redox_kernel.Memory.Grants.{GrantInfo, Grant, is_pinned, extract, phys_contiguous_provider}
use redox_kernel.Memory.Grants.Table.{UserGrants, remove_grant}
use redox_kernel.Memory.Grants.Conflicts.{overlaps}
use redox_kernel.Memory.Grants.Pages.{IsPart, IsPart?, page_view, page_seen, in_span, PageView}
use redox_kernel.Memory.Grants.Runs.{run_at, run_in, run_at-free}
use redox_kernel.Memory.Grants.Insert.{WellFormed, insert_grant-WellFormed, remove_grant-WellFormed}
use redox_kernel.Memory.Grants.Split.{extract_lem}
use redox_kernel.Memory.Grants.Munmap.{insert_part, take_out}

-- A page of the grant gets its view back before and behind the span, and only there.
view-steps :
    (b n from count start size p : ℕ) (x : PageView) (v0 v1 v2 v3 : Option PageView)
    → from ≡ max b start
    → from + count ≡ min (b + n) (start + size)
    → v1 ≡ (if in_span b n p then none else v0)
    → (in_span b n p ≡ true → v0 ≡ some x)
    → v2 ≡ (if in_span b (from - b) p then some x else v1)
    → v3 ≡ (if in_span (from + count) (b + n - (from + count)) p then some x else v2)
    → v3 ≡ (if in_span b n p && in_span start size p then none else v0)
view-steps b n from count start size p x v0 v1 v2 v3 e f h0 h1 h2 h3 = ground arith

-- A pass runs through where each of its steps does.
take_out-steps :
    (page_size : ℕ) (u u1 u2 u3 : UserGrants) (c s inner : PageSpan) (g m : Grant)
    (b a : Option Grant)
    → remove_grant page_size u c.base ≡ some (g, u1)
    → intersection page_size c s ≡ inner
    → extract page_size g inner ≡ ok (some (b, m, a))
    → insert_part page_size b u1 ≡ ok u2
    → insert_part page_size a u2 ≡ ok u3
    → take_out page_size u false c s ≡ ok (m, u3)
unfolding take_out
take_out-steps page_size u u1 u2 u3 c s inner g m b a removed meet cut first second =
    rw (removed, meet) (rw cut (rw first (rw second refl)))

module _ (page_size hi : ℕ) (positive : 0 < page_size) (words : hi * page_size < usize_mod) where
  -- A part of a grant goes back to pages that are free.
  pub insert_part_lem :
      (u : UserGrants)
      → WellFormed page_size hi u
      → (whole : Grant) (base count : ℕ) (o : Option Grant)
      → IsPart? page_size hi whole base count o
      → run_in o ≡ none
      → ((p : ℕ) → in_span base count p ≡ true → page_view page_size u.inner p ≡ none)
      → (u' : UserGrants) × (insert_part page_size o u ≡ ok u')
        × WellFormed page_size hi u'
        × ((p : ℕ)
            → page_view page_size u'.inner p ≡ (
                if in_span base count p
                then some (page_seen page_size (p - whole.base) whole.info)
                else page_view page_size u.inner p))
        × ((p : ℕ) → run_at u'.inner p ≡ run_at u.inner p)
  insert_part_lem u w whole base count none part unmarked free =
      (u, refl, w, λ p. ground arith, λ p. refl)
  insert_part_lem u w whole base count (some g) part unmarked free =
      let done =
        insert_grant-WellFormed page_size hi positive words u w g part.2
          (λ p h. free p (ground (arith, part.0, part.1))) in
      let none_there =
        run_at-free page_size hi 0 u.inner g.base w.grants
          (free g.base (ground (arith, part.0, part.1, part.2.0))) in
      (
        done.0,
        done.1,
        done.2,
        λ p. ground (arith, done.3 p, part.0, part.1, part.3 p),
        λ p. elim (Bool-cases (g.base == p)) [
          | inl same ↦
              let e : g.base ≡ p = ground arith in
              done.4 p ∙ rw same (unmarked ∙ sym none_there ∙ ap (run_at u.inner) e)
          | inr other ↦ done.4 p ∙ rw other refl
        ],
      )

  module _ (u : UserGrants) (w : WellFormed page_size hi u) (s : PageSpan)
      (bounded : s.base + s.count ≤ hi) (b : ℕ) (i : GrantInfo)
      (found : OrdMap.get b u.inner ≡ some i) (overlap : overlaps s b i ≡ true)
      (unpinned : is_pinned i ≡ false) where
    pub take_out_lem :
        (m : Grant) × (u' : UserGrants) × (take_out page_size u false (span b i.page_count) s
          ≡ ok (m, u'))
        × IsPart page_size hi
            (record { base = b; info = i })
            (max b s.base)
            (min (b + i.page_count) (s.base + s.count) - max b s.base)
            m
        × (is_pinned m.info ≡ false)
        × WellFormed page_size hi u'
        × ((p : ℕ)
            → page_view page_size u'.inner p ≡ (
                if in_span b i.page_count p && in_span s.base s.count p
                then none
                else page_view page_size u.inner p))
        × ((p : ℕ) → run_at u'.inner p ≡ (if b == p then none else run_at u.inner p))
        × (phys_contiguous_provider m.info.provider ≡ phys_contiguous_provider i.provider)
    take_out_lem =
        let g : Grant = record { base = b; info = i } in
        let removed = remove_grant-WellFormed page_size hi positive words u w b i found in
        let v = removed.5 in
        let from = max b s.base in
        let count = min (b + i.page_count) (s.base + s.count) - from in
        let meet =
          intersection_lem page_size hi positive words (span b i.page_count) s v.1 bounded in
        let cut =
          extract_lem page_size hi positive words g v (span from count) (omega arith) (ground arith)
            (ground arith) unpinned in
        let first =
          insert_part_lem removed.0 removed.2 g b (from - b) cut.0 cut.4 cut.8
            (λ p h. ground (arith, removed.3 p)) in
        let second =
          insert_part_lem first.0 first.2 g (from + count) (b + i.page_count - (from + count)) cut.2
            cut.6 cut.9 (λ p h. ground (arith, removed.3 p, first.3 p)) in
        (
          cut.1,
          second.0,
          take_out-steps page_size u removed.0 first.0 second.0 (span b i.page_count) s
              (span from count) g cut.1 cut.0 cut.2 removed.1 meet cut.3 first.1 second.1,
          cut.5,
          cut.7,
          second.2,
          λ p.
              view-steps b i.page_count from count s.base s.count p (page_seen page_size (p - b) i)
                (page_view page_size u.inner p) (page_view page_size removed.0.inner p)
                (page_view page_size first.0.inner p) (page_view page_size second.0.inner p) refl
                (ground arith) (removed.3 p) (removed.4 p) (first.3 p) (second.3 p),
          λ p. ground (arith, second.4 p, first.4 p, removed.6 p),
          cut.10,
        )
