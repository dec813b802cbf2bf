-- ===== src/Memory/Grants/Tests.antt =====
-- The grants of src/context/memory.rs on an address space of sixteen pages.
use redox_kernel.Common.{
  ℕ, ◌+◌, ◌-◌, ◌≤◌, subst, ◌≡◌, ◌≢◌, refl, ◌==◌, if◌then◌else◌, Option, none, some, List, [], ◌∷◌,
  true, false, Result, ok, panic, arith,
}
use redox_kernel.Memory.Grants.{is_pinned, phys_contiguous_provider}
use redox_kernel.Memory.Grants.Pages
use redox_kernel.Memory.Grants.Pages.{IsPart, IsPart?, page_view, page_seen, in_span}
use redox_kernel.Memory.Grants.Conflicts.{overlapping, conflicts-overlapping}
use redox_kernel.Memory.Grants.Insert.{WellFormed, insert_grant-WellFormed}
use redox_kernel.Memory.Grants.Split.{extract_lem}
use redox_kernel.Memory.Grants.Unmap.{Outcome, munmap_inner_lem}
use redox_kernel.Memory.Grants.Mmap.{Mapped, mmap}
use redox_kernel.Memory.Grants.Mapping.{Mapping, mmap_lem}
use redox_kernel.Memory.Grants.Mprotect.{can_have_flags}
use redox_kernel.Memory.Grants.Runs.{run_at, run_in}
use redox_kernel.Common.OrdMap
use redox_kernel.Memory.Holes
use redox_kernel.Memory.Span
use redox_kernel.Memory.Span.{span}
use redox_kernel.Memory.Grants.{Grant, can_be_merged_if_adjacent, extract}
use redox_kernel.Memory.Grants.Provider.{allocated}
use redox_kernel.Memory.Grants.Table
use redox_kernel.Memory.Grants.Table.{UserGrants, new_grants, insert_grant, remove_grant, conflicts}
use redox_kernel.Memory.Grants.Munmap.{MapFlags, UnmapResult, munmap_inner, take_out}
use redox_kernel.Memory.Grants.Mprotect
use redox_kernel.Memory.Grants.Mprotect.{FlagOps, mprotect}

abbrev page : ℕ
page = 4096

-- Two pages of anonymous memory with flags `f`
abbrev anonymous : ℕ → ℕ → Grant
anonymous base f = record {
  base = base;
  info = record { page_count = 2; flags = f; mapped = true; provider = allocated none false };
}

-- Writable pages 2 and 3, read-only pages 4 and 5
abbrev two_mappings : UserGrants
two_mappings = record {
  inner = (2, (anonymous 2 1).info) ∷ (4, (anonymous 4 0).info) ∷ [];
  holes = (0, 0x2000) ∷ (0x6000, 0xa000) ∷ [];
}

-- Flags of one bit, which is the right to write.
abbrev one_bit : FlagOps
one_bit = record {
  has_write = λ f. f == 1;
  has_execute = λ f. false;
  execute = λ f b. f;
  write = λ f b. elim b [ true ↦ 1 | false ↦ 0 ];
}

abbrev read_only : MapFlags
read_only = record { fixed_noreplace = false; fixed = false; prot_write = false; prot_exec = false }

-- Taking the right to write from two neighbouring mappings of which the second lacks it: the first
-- is merged with the second, which is then looked for in vain.
mprotect_neighbours : (mprotect page one_bit two_mappings (span 2 4) read_only).1 ≡ panic
unfolding mprotect Mprotect.mprotect_regions Mprotect.rewrite Mprotect.can_have_flags take_out
    extract insert_grant remove_grant conflicts Table.insert_inner Table.grant_at
    can_be_merged_if_adjacent Span.between Span.intersection Span.intersects Span.before Span.after
    Span.slice OrdMap.get OrdMap.insert OrdMap.remove OrdMap.last_below OrdMap.range_from
    Holes.reserve Holes.reserve_bytes Holes.cut_previous Holes.cut_exact Holes.unreserve
    Holes.unreserve_bytes Holes.join_previous
mprotect_neighbours = refl

two_mappings-WellFormed : WellFormed page 16 two_mappings
unfolding page_view
two_mappings-WellFormed = record {
  grants = (
    omega arith,
    (omega arith, omega arith, refl, tt),
    (omega arith, (omega arith, omega arith, refl, tt), tt),
  );
  holes = omega arith;
  aligned = (refl, (refl, tt));
  exact = λ a h. ground arith;
}

free_behind : (p : ℕ) → in_span 6 2 p ≡ true → page_view page two_mappings.inner p ≡ none
unfolding page_view
free_behind p h = ground arith

made : (base : ℕ) (g : Grant) → ok (anonymous base 1) ≡ ok g → anonymous base 1 ≡ g
made base g h = cc

makes_anonymous :
    (base : ℕ) (g : Grant)
    → ok (anonymous base 1) ≡ ok g
    → (g.base ≡ base)
      × (g.info.page_count ≡ 2)
      × (g.info.mapped ≡ true)
      × Pages.Fits page 2 g.info.provider
makes_anonymous base g h =
    subst
      (λ g'.
        (g'.base ≡ base)
        × (g'.info.page_count ≡ 2)
        × (g'.info.mapped ≡ true)
        × Pages.Fits page 2 g'.info.provider)
      (made base g h) (refl, refl, refl, tt)

never_panics : (base : ℕ) → ok (anonymous base 1) ≢ panic
never_panics base h = cc

below_limit : (base : ℕ) → some 3 ≡ some base → base + 2 ≤ 16
below_limit base h = ground arith

conflicts-overlapping_example :
    conflicts page two_mappings.inner (span 3 2) ≡ overlapping (span 3 2) two_mappings.inner
conflicts-overlapping_example =
    conflicts-overlapping page 16 (omega arith) (omega arith) two_mappings.inner (span 3 2)
      two_mappings-WellFormed.grants (omega arith)

insert_grant-WellFormed_example :
    (u' : UserGrants) × (insert_grant page two_mappings (anonymous 6 0) ≡ ok u')
    × WellFormed page 16 u'
    × ((p : ℕ)
        → page_view page u'.inner p ≡ (
            if in_span 6 2 p
            then some (page_seen page (p - 6) (anonymous 6 0).info)
            else page_view page two_mappings.inner p))
    × ((p : ℕ) → run_at u'.inner p ≡ (if 6 == p then none else run_at two_mappings.inner p))
insert_grant-WellFormed_example =
    insert_grant-WellFormed page 16 (omega arith) (omega arith) two_mappings two_mappings-WellFormed
      (anonymous 6 0) (omega arith, omega arith, refl, tt) free_behind

munmap_inner_lem_example :
    (u' : UserGrants) × (r : Result (List UnmapResult)) × (munmap_inner page
        (λ f. f == 1)
        3
        two_mappings
        (span 3 2)
        false
      ≡ some (u', r))
    × WellFormed page 16 u'
    × Outcome page two_mappings (span 3 2) u' r
munmap_inner_lem_example =
    munmap_inner_lem page 16 (omega arith) (omega arith) (λ f. f == 1) 3 two_mappings (span 3 2)
      two_mappings-WellFormed (omega arith) (omega arith)

extract_lem_example :
    (b : Option Grant) × (m : Grant) × (a : Option Grant) × (extract page (anonymous 2 1) (span 3 1)
      ≡ ok (some (b, m, a)))
    × IsPart? page 16 (anonymous 2 1) 2 1 b
    × IsPart page 16 (anonymous 2 1) 3 1 m
    × IsPart? page 16 (anonymous 2 1) 4 0 a
    × (is_pinned m.info ≡ false)
    × (run_in b ≡ none)
    × (run_in a ≡ none)
    × (phys_contiguous_provider m.info.provider ≡ false)
extract_lem_example =
    extract_lem page 16 (omega arith) (omega arith) (anonymous 2 1)
      (omega arith, omega arith, refl, tt) (span 3 1) (omega arith) (omega arith) (omega arith) refl

mmap_lem_example :
    (m : Mapped ℕ) × (mmap page
        (λ f. f == 1)
        4096
        3
        (λ base. ok (anonymous base 1))
        two_mappings
        (some 3)
        2
        read_only
      ≡ some m)
    × WellFormed page 16 m.grants
    × Mapping page 16 two_mappings 2 (λ base. ok (anonymous base 1)) false (some 3) m
mmap_lem_example =
    mmap_lem page 16 (omega arith) (omega arith) two_mappings two_mappings-WellFormed 2
      (omega arith) (omega arith) 4096 (omega arith) refl (λ f. f == 1) 3 (omega arith)
      (λ base. ok (anonymous base 1)) makes_anonymous never_panics (some 3) read_only below_limit
