-- ===== src/Memory/Grants/Mmap.antt =====
-- src/context/memory.rs: `AddrSpace::mmap`, without the page tables. What makes the grant, the
-- argument `map` of the source, is the parameter `map_grant`.
use redox_kernel.Common.{
  ℕ, Option, none, some, List, [], Bool, false, if◌then◌else◌, Result, ok, err, panic, ◌>>=◌,
  eexist, enomem, is_some, ok_or,
}
use redox_kernel.Memory.Span.{PageSpan, span}
use redox_kernel.Memory.Grants.{Grant}
use redox_kernel.Memory.Grants.Table.{UserGrants, conflicts, first_entry, insert_grant, find_free}
use redox_kernel.Memory.Grants.Munmap.{MapFlags, UnmapResult, munmap_inner}

-- How `mmap` leaves the grants, the files to notify, and what it returns
pub record Mapped (A : Type 0) : Type 0 where
  pub grants : UserGrants
  pub notify_files : List UnmapResult
  pub result : Result A

abbrev pub free_span : ℕ → ℕ → UserGrants → ℕ → Mapped PageSpan
free_span page_size mmap_min u page_count = record {
  grants = u;
  notify_files = [];
  result = ok_or (find_free page_size u mmap_min page_count) enomem;
}

-- What `MAP_FIXED` does with the grants in the way.
abbrev pub replaced : PageSpan → UserGrants × Result (List UnmapResult) → Mapped PageSpan
replaced requested (u, panic) = record { grants = u; notify_files = []; result = panic }
replaced requested (u, err e) = record { grants = u; notify_files = []; result = err e }
replaced requested (u, ok files) = record {
  grants = u;
  notify_files = files;
  result = ok requested;
}

-- The grant that `map` makes is inserted.
abbrev pub map_span : ℕ → (ℕ → Result Grant) → Mapped PageSpan → Mapped ℕ
map_span page_size map_grant m = elim m.result [
  | panic ↦ record { grants = m.grants; notify_files = m.notify_files; result = panic }
  | err e ↦ record { grants = m.grants; notify_files = m.notify_files; result = err e }
  | ok s ↦ elim (map_grant s.base >>= insert_grant page_size m.grants) [
    | panic ↦ record { grants = m.grants; notify_files = m.notify_files; result = panic }
    | err e ↦ record { grants = m.grants; notify_files = m.notify_files; result = err e }
    | ok u' ↦ record { grants = u'; notify_files = m.notify_files; result = ok s.base }
  ]
]

module _ (page_size : ℕ) (has_write : ℕ → Bool) (mmap_min : ℕ) where
  -- `selected_span`
  unfoldable pub select_span : ℕ → UserGrants → Option ℕ → ℕ → MapFlags → Option (Mapped PageSpan)
  select_span fuel u none page_count flags = some (free_span page_size mmap_min u page_count)
  select_span fuel u (some requested_base) page_count flags =
      let requested = span requested_base page_count in
      if flags.fixed_noreplace
      then some (record {
        grants = u;
        notify_files = [];
        result =
            if is_some (first_entry (conflicts page_size u.inner requested))
            then err eexist
            else ok requested;
      })
      else if flags.fixed
      then (elim (munmap_inner page_size has_write fuel u requested false) [
        | none ↦ none
        | some r ↦ some (replaced requested r)
      ])
      else some (free_span page_size mmap_min u page_count)

  unfoldable pub mmap :
      ℕ → (ℕ → Result Grant) → UserGrants → Option ℕ → ℕ → MapFlags → Option (Mapped ℕ)
  unfolding select_span
  mmap fuel map_grant u requested_base_opt page_count flags =
      elim (select_span fuel u requested_base_opt page_count flags) [
        | none ↦ none
        | some m ↦ some (map_span page_size map_grant m)
      ]
