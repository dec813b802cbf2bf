-- ===== src/Memory/Grants/Protect.antt =====
-- `AddrSpaceWrapper::mprotect` of src/context/memory.rs on a span in which one grant has pages.
use redox_kernel.Common.{ℕ, ◌+◌, ◌-◌, ◌≡◌, none, some, ◌&&◌, ◌==◌, max, min, if◌then◌else◌}
use redox_kernel.Memory.Span.{PageSpan}
use redox_kernel.Memory.Grants.{GrantInfo, phys_contiguous_provider}
use redox_kernel.Memory.Grants.Table.{UserGrants}
use redox_kernel.Memory.Grants.Pages.{page_view, page_seen, in_span}
use redox_kernel.Memory.Grants.Runs.{run_at}
use redox_kernel.Memory.Grants.Munmap.{MapFlags}
use redox_kernel.Memory.Grants.Rewrite.{with_flags}
use redox_kernel.Memory.Grants.Mprotect.{FlagOps, new_flags}

-- The marks of contiguous frames: of a marked grant only the part in the span keeps it.
abbrev pub ProtectedRuns : UserGrants → PageSpan → ℕ → GrantInfo → UserGrants → Type 0
ProtectedRuns u s b i u' =
    (p : ℕ)
    → run_at u'.inner p ≡ (
        if max b s.base == p
        then (if phys_contiguous_provider i.provider
            then some (min (b + i.page_count) (s.base + s.count) - max b s.base)
            else none)
        else if b == p
        then none
        else run_at u.inner p)

-- The part of the grant that is in the span, with its other flags
abbrev pub Protected :
    ℕ → FlagOps → MapFlags → UserGrants → PageSpan → ℕ → GrantInfo → UserGrants → Type 0
Protected page_size ops flags u s b i u' =
    (p : ℕ)
    → page_view page_size u'.inner p ≡ (
        if in_span b i.page_count p && in_span s.base s.count p
        then some (with_flags (new_flags ops i.flags flags) (page_seen page_size (p - b) i))
        else page_view page_size u.inner p)
