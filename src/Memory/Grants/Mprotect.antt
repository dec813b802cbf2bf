-- ===== src/Memory/Grants/Mprotect.antt =====
-- src/context/memory.rs: `AddrSpaceWrapper::mprotect`, without the page tables. The tests and
-- updates of page flags belong to the page table library and are parameters.
use redox_kernel.Common.{
  ℕ, List, [], ◌∷◌, Bool, true, false, ◌&&◌, ◌||◌, not, if◌then◌else◌, Result, ok, err, panic,
  ◌>>=◌, ◌>>◌, assert, ebusy, eacces, map,
}
use redox_kernel.Memory.Span.{PageSpan, span}
use redox_kernel.Memory.Grants.{Provider, GrantInfo, Grant, is_pinned}
use redox_kernel.Memory.Grants.Provider.{
  allocated, allocated_shared, phys_borrowed, external, fmap_borrowed,
}
use redox_kernel.Memory.Grants.Table.{UserGrants, conflicts, insert_grant}
use redox_kernel.Memory.Grants.Munmap.{MapFlags, take_out}

abbrev pub allocated_provider : Provider → Bool
allocated_provider (allocated c k) = true
allocated_provider (allocated_shared pinned) = false
allocated_provider (phys_borrowed b) = false
allocated_provider (external a s pinned) = false
allocated_provider (fmap_borrowed f n) = false

-- The part of `PageFlags` that is read and written here
pub record FlagOps : Type 0 where
  pub has_write : ℕ → Bool
  pub has_execute : ℕ → Bool
  pub execute : ℕ → Bool → ℕ
  pub write : ℕ → Bool → ℕ

-- `Grant::remap`, without the page tables
abbrev pub remap : Grant → ℕ → Result Grant
remap g flags = do assert g.info.mapped; ok (record g { info = record g.info { flags = flags } })

abbrev pub region : ℕ × GrantInfo → Result PageSpan
region (base, info) = if is_pinned info then err ebusy else ok (span base info.page_count)

module _ (ops : FlagOps) where
  unfoldable pub can_have_flags : GrantInfo → MapFlags → Bool
  can_have_flags i flags =
      let is_downgrade =
        (ops.has_write i.flags || not flags.prot_write)
        && (ops.has_execute i.flags || not flags.prot_exec) in
      if allocated_provider i.provider then true else is_downgrade

  abbrev pub new_flags : ℕ → MapFlags → ℕ
  new_flags old flags = ops.write (ops.execute old flags.prot_exec) flags.prot_write

module _ (page_size : ℕ) (ops : FlagOps) where
  -- What the loop does with a grant once its part in the span is taken out.
  unfoldable pub rewrite : UserGrants → Grant → MapFlags → UserGrants × Result (Unit {0})
  rewrite u g flags =
      if not (can_have_flags ops g.info flags)
      then (elim (insert_grant page_size u g) [
        | panic ↦ (u, panic)
        | err e ↦ (u, err e)
        | ok u' ↦ (u', err eacces)
      ])
      else (elim (remap g (new_flags ops g.info.flags flags) >>= insert_grant page_size u) [
        | panic ↦ (u, panic)
        | err e ↦ (u, err e)
        | ok u' ↦ (u', ok tt)
      ])

  -- The loop over the regions found at the start
  unfoldable pub mprotect_regions :
      List (Result PageSpan) → UserGrants → PageSpan → MapFlags → UserGrants × Result (Unit {0})
  mprotect_regions [] u requested flags = (u, ok tt)
  mprotect_regions (r ∷ rest) u requested flags = elim r [
    | panic ↦ (u, panic)
    | err e ↦ (u, err e)
    | ok grant_span ↦ elim (take_out page_size u false grant_span requested) [
      | panic ↦ (u, panic)
      | err e ↦ (u, err e)
      | ok t ↦
          let done = rewrite t.1 t.0 flags in
          elim done.1 [
            | panic ↦ done
            | err e ↦ done
            | ok _ ↦ mprotect_regions rest done.0 requested flags
          ]
    ]
  ]

  unfoldable pub mprotect : UserGrants → PageSpan → MapFlags → UserGrants × Result (Unit {0})
  unfolding mprotect_regions
  mprotect u requested flags =
      mprotect_regions (map region (conflicts page_size u.inner requested)) u requested flags
