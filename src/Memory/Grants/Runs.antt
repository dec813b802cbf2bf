-- ===== src/Memory/Grants/Runs.antt =====
-- The grants of src/context/memory.rs whose frames are contiguous, `phys_contiguous`, which are never
-- merged, and which lose the mark where `Grant::extract` cuts them.
use redox_kernel.Common.{
  ℕ, ◌+◌, ◌≤◌, ◌<◌, ◌≡◌, ◌⊎◌, refl, Option, none, some, [], ◌∷◌, true, false, ltb, ◌==◌,
  if◌then◌else◌, arith, Bool-cases, Option-cases, is_some, min, max, inl, inr, subst, sym,
}
use redox_kernel.Common.OrdMap
use redox_kernel.Memory.Span.{PageSpan}
use redox_kernel.Memory.Grants.{
  GrantInfo, Grant, Provider, can_be_merged_if_adjacent, plain, phys_contiguous_provider,
  before_provider, grant_span,
}
use redox_kernel.Memory.Grants.Provider.{
  allocated, allocated_shared, phys_borrowed, external, fmap_borrowed,
}
use redox_kernel.Memory.Grants.Table.{Inner}
use redox_kernel.Memory.Grants.Conflicts.{overlapping}
use redox_kernel.Memory.Grants.Pages.{IsGrants, IsGrants-KeysFrom, IsGrant, page_view, in_span}
use redox_kernel.Memory.Grants.Place.{place, join_after, longer}

-- The number of pages of a grant of contiguous frames
abbrev pub run_of : GrantInfo → Option ℕ
run_of i = if phys_contiguous_provider i.provider then some i.page_count else none

-- That of the grant at a base page, if there is one
unfoldable pub run_at : Inner → ℕ → Option ℕ
run_at [] p = none
run_at ((b, i) ∷ m) p = if b == p then run_of i else run_at m p

-- The mark of a part
abbrev pub run_in : Option Grant → Option ℕ
run_in none = none
run_in (some g) = run_of g.info

plain-run : (p : Provider) → plain p ≡ true → phys_contiguous_provider p ≡ false
plain-run p h = ground arith

-- Grants that can be merged have no mark.
merged-run :
    (i g : GrantInfo)
    → can_be_merged_if_adjacent i g ≡ true
    → (phys_contiguous_provider i.provider ≡ false) × (phys_contiguous_provider g.provider ≡ false)
unfolding can_be_merged_if_adjacent
merged-run i g h = ground (arith, plain-run i.provider, plain-run g.provider)

module _ (page_size hi : ℕ) where
  pub run_at-below :
      (lo : ℕ) (m : Inner) (p : ℕ) → IsGrants page_size lo hi m → p < lo → run_at m p ≡ none
  unfolding run_at
  run_at-below lo [] p w h = refl
  run_at-below lo ((b, i) ∷ m) p w h = ground (arith, run_at-below (b + i.page_count) m p w.2)

  pub run_at-get :
      (m : Inner) (b : ℕ) (i : GrantInfo) → OrdMap.get b m ≡ some i → run_at m b ≡ run_of i
  unfolding run_at OrdMap.get
  run_at-get [] b i h = cc
  run_at-get ((c, j) ∷ m) b i h = ground (arith, run_at-get m b i)

  pub run_at-remove :
      (lo : ℕ) (m : Inner) (b p : ℕ)
      → IsGrants page_size lo hi m
      → run_at (OrdMap.remove b m) p ≡ (if b == p then none else run_at m p)
  unfolding run_at OrdMap.remove
  run_at-remove lo [] b p w = ground arith
  run_at-remove lo ((c, j) ∷ m) b p w =
      ground
        (arith, run_at-remove (c + j.page_count) m b p w.2, run_at-below (c + j.page_count) m p w.2)

  -- A run takes pages that see it.
  pub run_at-taken :
      (lo : ℕ) (m : Inner) (p q n : ℕ)
      → IsGrants page_size lo hi m
      → run_at m p ≡ some n
      → in_span p n q ≡ true
      → is_some (page_view page_size m q) ≡ true
  unfolding run_at page_view
  run_at-taken lo [] p q n w e h = cc
  run_at-taken lo ((c, j) ∷ m) p q n w e h =
      ground (arith, run_at-taken (c + j.page_count) m p q n w.2)

  -- A run and another grant have no page in common.
  pub run_at-apart :
      (lo : ℕ) (m : Inner) (p n b : ℕ) (i : GrantInfo)
      → IsGrants page_size lo hi m
      → run_at m p ≡ some n
      → OrdMap.get b m ≡ some i
      → (p < b → p + n ≤ b) × (b < p → b + i.page_count ≤ p)
  unfolding run_at OrdMap.get
  run_at-apart lo [] p n b i w e f = cc
  run_at-apart lo ((c, j) ∷ m) p n b i w e f = ground (
    arith,
    run_at-apart (c + j.page_count) m p n b i w.2,
    run_at-below (c + j.page_count) m p w.2,
    OrdMap.get-below b (c + j.page_count) m,
    IsGrants-KeysFrom page_size (c + j.page_count) hi m w.2,
  )

  -- Runs are not empty.
  pub run_at-positive :
      (lo : ℕ) (m : Inner) (p n : ℕ) → IsGrants page_size lo hi m → run_at m p ≡ some n → 0 < n
  unfolding run_at
  run_at-positive lo [] p n w e = cc
  run_at-positive lo ((c, j) ∷ m) p n w e =
      ground (arith, run_at-positive (c + j.page_count) m p n w.2)

  -- Where a page is free, no run begins.
  pub run_at-free :
      (lo : ℕ) (m : Inner) (p : ℕ)
      → IsGrants page_size lo hi m
      → page_view page_size m p ≡ none
      → run_at m p ≡ none
  run_at-free lo m p w h = elim (Option-cases (run_at m p)) [
    | inl e ↦ e
    | inr (n, e) ↦ ground (arith, run_at-positive lo m p n w e, run_at-taken lo m p p n w e, h)
  ]

  run_at-join_after :
      (b : ℕ) (g : GrantInfo) (m : Inner) (p : ℕ)
      → 0 < g.page_count
      → IsGrants page_size (b + g.page_count) hi m
      → run_at (join_after b g m) p ≡ (if b == p then run_of g else run_at m p)
  unfolding run_at
  run_at-join_after b g [] p pos w = refl
  run_at-join_after b g ((c, i) ∷ m) p pos w =
      ground (arith, merged-run i g, run_at-below (c + i.page_count) m p w.2)

  module _ (g : Grant) (v : IsGrant page_size hi g.base g.info) where
    behind :
        (lo : ℕ) (m : Inner)
        → g.base ≤ lo
        → IsGrants page_size lo hi m
        → overlapping (grant_span g) m ≡ []
        → IsGrants page_size (g.base + g.info.page_count) hi m
    behind lo [] l w free = tt
    behind lo ((c, i) ∷ m) l w free = ground arith

    pub run_at-place :
        (lo : ℕ) (m : Inner) (p : ℕ)
        → IsGrants page_size lo hi m
        → overlapping (grant_span g) m ≡ []
        → run_at (place g.base g.info m) p ≡ (if g.base == p then run_of g.info else run_at m p)
    unfolding place run_at
    run_at-place lo [] p w free = refl
    run_at-place lo ((c, i) ∷ m) p w free = elim (Bool-cases (ltb g.base c)) [
      | inl first ↦
          ground (arith, behind c ((c, i) ∷ m), run_at-join_after g.base g.info ((c, i) ∷ m) p v.0)
      | inr later ↦ elim (Bool-cases (can_be_merged_if_adjacent i g.info)) [
        | inl h ↦ elim (Bool-cases (c + i.page_count == g.base)) [
          | inl touching ↦
              let rest : IsGrants page_size (g.base + g.info.page_count) hi m =
                behind (c + i.page_count) m (ground arith) w.2 (ground arith) in
              let same : c + (g.info.page_count + i.page_count) ≡ g.base + g.info.page_count =
                ground arith in
              let joined =
                run_at-join_after c (longer g.info i.page_count) m p (omega (arith, v.0))
                  (subst (λ n. IsGrants page_size n hi m) (sym same) rest) in
              let none_there = run_at-below (g.base + g.info.page_count) m p rest in
              let unmarked = merged-run i g.info h in
              ground (arith, joined, none_there, unmarked, v.0)
          | inr apart ↦ ground (arith, run_at-place (c + i.page_count) m p)
        ]
        | inr h ↦ ground (
          arith,
          behind (c + i.page_count) m,
          run_at-join_after g.base g.info m p v.0,
          run_at-place (c + i.page_count) m p,
        )
      ]
    ]

-- A run that has no page in the span is left.
abbrev pub uncut : PageSpan → ℕ → Option ℕ → Option ℕ
uncut s p none = none
uncut s p (some n) = if ltb (max p s.base) (min (p + n) (s.base + s.count)) then none else some n

pub uncut-cases : (s : PageSpan) (p : ℕ) (r : Option ℕ) → (uncut s p r ≡ r) ⊎ (uncut s p r ≡ none)
uncut-cases s p none = inl refl
uncut-cases s p (some n) = elim (Bool-cases (ltb (max p s.base) (min (p + n) (s.base + s.count)))) [
  | inl meets ↦ inr (rw meets refl)
  | inr apart ↦ inl (rw apart refl)
]

-- Only the extracted part keeps the mark.
pub before-run : (p : Provider) → phys_contiguous_provider (before_provider p) ≡ false
before-run (allocated c k) = refl
before-run (allocated_shared pinned) = refl
before-run (phys_borrowed b) = refl
before-run (external a s pinned) = refl
before-run (fmap_borrowed f n) = refl
