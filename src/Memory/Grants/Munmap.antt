-- ===== src/Memory/Grants/Munmap.antt =====
-- src/context/memory.rs: `AddrSpace::munmap_inner`, the grants that `mprotect` rewrites, and the
-- span that `mmap` selects. The page tables and the pins in another address space are left out.
-- `has_write` is the flag test of the page table library.
use redox_kernel.Common.{
  ℕ, zero, suc, Option, none, some, List, [], ◌∷◌, Bool, true, false, ◌&&◌, not, ltb, if◌then◌else◌,
  mul_usize, Result, ok, err, panic, ◌>>=◌, ◌>>◌, assert, expect, is_some, ebusy, einval,
}
use redox_kernel.Memory.Span.{PageSpan, span, end, empty, offset_from, intersection}
use redox_kernel.Memory.Grants.{
  GrantFileRef, Provider, Grant, is_pinned, can_extract, unpin_info, extract,
}
use redox_kernel.Memory.Grants.Provider.{
  allocated, allocated_shared, phys_borrowed, external, fmap_borrowed,
}
use redox_kernel.Memory.Grants.Table.{
  Inner, UserGrants, conflicts, first_entry, insert_grant, remove_grant,
}

-- `MapFlags` of the system call interface, as far as it is read here, and `MunmapFlags::NEEDS_SYNC`.
pub record MapFlags : Type 0 where
  pub fixed_noreplace : Bool
  pub fixed : Bool
  pub prot_write : Bool
  pub prot_exec : Bool

pub record UnmapResult : Type 0 where
  pub file_desc : Option GrantFileRef
  pub size : ℕ
  pub needs_sync : Bool

abbrev pub unpin_grant : Bool → Grant → Grant
unpin_grant true g = record g { info = unpin_info g.info }
unpin_grant false g = g

abbrev file_of : Provider → Option GrantFileRef
file_of (allocated cow k) = cow
file_of (allocated_shared pinned) = none
file_of (phys_borrowed b) = none
file_of (external a s pinned) = none
file_of (fmap_borrowed f n) = some f

-- `is_fmap_shared.unwrap_or(false)`
abbrev fmap_shared : Provider → Bool
fmap_shared (allocated cow k) = false
fmap_shared (allocated_shared pinned) = false
fmap_shared (phys_borrowed b) = false
fmap_shared (external a s pinned) = false
fmap_shared (fmap_borrowed f n) = true

-- The span still requested once the conflicting grant is dealt with.
abbrev pub next_requested : PageSpan → PageSpan → PageSpan
next_requested conflicting requested =
    if ltb (end conflicting) (end requested)
    then span (end conflicting) (offset_from (end requested) (end conflicting))
    else empty

module _ (page_size : ℕ) where
  -- `if let Some(grant) = part { grants.insert(grant) }`
  abbrev pub insert_part : Option Grant → UserGrants → Result UserGrants
  insert_part none u = ok u
  insert_part (some g) u = insert_grant page_size u g

  -- The part of a grant in a span is taken out of the grants; the rest of it goes back.
  unfoldable pub take_out : UserGrants → Bool → PageSpan → PageSpan → Result (Grant × UserGrants)
  take_out u unpin conflicting requested = do
    removed ← expect (remove_grant page_size u conflicting.base)
    extracted ←
        extract page_size (unpin_grant unpin removed.0)
          (intersection page_size conflicting requested)
    parts ← expect extracted
    u1 ← insert_part parts.0 removed.1
    u2 ← insert_part parts.2 u1
    ok (parts.1, u2)

  -- The closure `next` of `munmap_inner`
  unfoldable pub next_conflict : Inner → PageSpan → Bool → Option (Result PageSpan)
  next_conflict m requested unpin = elim (first_entry (conflicts page_size m requested)) [
    | none ↦ none
    | some e ↦ some (
        if is_pinned e.1 && not unpin
        then err ebusy
        else if not (can_extract e.1 unpin)
        then err einval
        else ok (span e.0 e.1.page_count))
  ]

  module _ (has_write : ℕ → Bool) where
    abbrev pub unmap_result : Grant → UnmapResult
    unmap_result g = record {
      file_desc = file_of g.info.provider;
      size = mul_usize g.info.page_count page_size;
      needs_sync = fmap_shared g.info.provider && has_write g.info.flags;
    }

    -- `Grant::unmap`, without the page tables
    unfoldable pub unmap : Grant → Result UnmapResult
    unmap g = do assert g.info.mapped; assert (not (is_pinned g.info)); ok (unmap_result g)

    -- One pass of the loop
    unfoldable pub munmap_step :
        UserGrants → Bool → PageSpan → PageSpan → Result (UnmapResult × UserGrants)
    munmap_step u unpin conflicting requested = do
      t ← take_out u unpin conflicting requested
      r ← unmap t.0
      ok (r, t.1)

    -- `if unmap_result.file_desc.is_some() { notify_files.push(unmap_result) }`
    abbrev pub notify : UnmapResult → List UnmapResult → List UnmapResult
    notify r rest = if is_some r.file_desc then r ∷ rest else rest

    abbrev pub notifying :
        UnmapResult
        → UserGrants × Result (List UnmapResult)
        → UserGrants × Result (List UnmapResult)
    notifying r (u, rest) = (u, rest >>= λ l. ok (notify r l))

    -- `munmap_inner`: the grants as it leaves them, and what it returns; none where the fuel ends.
    unfoldable pub munmap_inner :
        ℕ → UserGrants → PageSpan → Bool → Option (UserGrants × Result (List UnmapResult))
    munmap_inner zero u requested unpin = none
    munmap_inner (suc n) u requested unpin = elim (next_conflict u.inner requested unpin) [
      | none ↦ some (u, ok [])
      | some c ↦ elim c [
        | panic ↦ some (u, panic)
        | err e ↦ some (u, err e)
        | ok conflicting ↦ elim (munmap_step u unpin conflicting requested) [
          | panic ↦ some (u, panic)
          | err e ↦ some (u, err e)
          | ok s ↦ elim (munmap_inner n s.1 (next_requested conflicting requested) unpin) [
            | none ↦ none
            | some rest ↦ some (notifying s.0 rest)
          ]
        ]
      ]
    ]
