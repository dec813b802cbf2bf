-- ===== src/Memory/Grants/Table.antt =====
-- src/context/memory.rs, `UserGrants`: the grants of an address space by their base page, and the
-- holes between them.
use redox_kernel.Common.{
  ℕ, ◌+◌, Option, none, some, [], ◌∷◌, ◌&&◌, not, ltb, leb, ◌==◌, if◌then◌else◌, add_usize, Result,
  ok, ◌>>◌, assert, is_some,
}
use redox_kernel.Common.OrdMap
use redox_kernel.Common.OrdMap.{OrdMap}
use redox_kernel.Memory.Span.{PageSpan, span, next_by, end, intersects}
use redox_kernel.Memory.Holes.{Holes, reserve, unreserve, find_free_near}
use redox_kernel.Memory.Grants.{GrantInfo, Grant, grant_span, can_be_merged_if_adjacent}

abbrev pub Inner : Type 0
Inner = OrdMap GrantInfo

pub record UserGrants : Type 0 where
  pub inner : Inner
  pub holes : Holes

-- `UserGrants::new`; `crate::USER_END_OFFSET` is `user_end`.
abbrev pub new_grants : ℕ → UserGrants
new_grants user_end = record { inner = []; holes = (0, user_end) ∷ [] }

abbrev pub holds : ℕ → Option (ℕ × GrantInfo) → Option (ℕ × GrantInfo)
holds page none = none
holds page (some (base, info)) =
    if leb base page && ltb page (next_by base info.page_count) then some (base, info) else none

-- `UserGrants::contains`
unfoldable pub grant_at : Inner → ℕ → Option (ℕ × GrantInfo)
grant_at m page = holds page (OrdMap.last_below (page + 1) m)

abbrev pub search_start : PageSpan → Option (ℕ × GrantInfo) → ℕ
search_start requested none = requested.base
search_start requested (some (base, info)) = base

abbrev pub first_entry : Inner → Option (ℕ × GrantInfo)
first_entry [] = none
first_entry (e ∷ m) = some e

-- The length of the merged grant is a word.
abbrev pub grow : Grant → ℕ → Grant
grow g n = record g { info = record g.info { page_count = add_usize g.info.page_count n } }

-- The neighbour before the grant, where it touches it and can be merged with it.
abbrev pub before_region : Grant → Option (ℕ × GrantInfo) → Option (ℕ × ℕ)
before_region g none = none
before_region g (some (base, info)) =
    if (next_by base info.page_count == g.base) && can_be_merged_if_adjacent info g.info
    then some (base, info.page_count)
    else none

abbrev pub after_region : Grant → Option (ℕ × GrantInfo) → Option (ℕ × ℕ)
after_region g none = none
after_region g (some (base, info)) =
    if (base == next_by g.base g.info.page_count) && can_be_merged_if_adjacent info g.info
    then some (base, info.page_count)
    else none

abbrev pub merge_before : Option (ℕ × ℕ) → Grant × Inner → Grant × Inner
merge_before none gm = gm
merge_before (some (base, count)) (g, m) =
    (record (grow g count) { base = base }, OrdMap.remove base m)

abbrev pub merge_after : Option (ℕ × ℕ) → Grant × Inner → Grant × Inner
merge_after none gm = gm
merge_after (some (base, count)) (g, m) = (grow g count, OrdMap.remove base m)

-- What `insert` does to the grants, once the region is known to be free.
unfoldable pub insert_inner : Grant → Inner → Inner
insert_inner g m =
    let before = before_region g (OrdMap.last_below g.base m) in
    let after = after_region g (first_entry (OrdMap.range_from (end (grant_span g)) m)) in
    let merged = merge_after after (merge_before before (g, m)) in
    OrdMap.insert merged.0.base merged.0.info merged.1

module _ (page_size : ℕ) where
  abbrev pub take_conflicts : PageSpan → Inner → Inner
  take_conflicts requested [] = []
  take_conflicts requested ((base, info) ∷ m) =
      if intersects page_size (span base info.page_count) requested
      then (base, info) ∷ take_conflicts requested m
      else []

  -- `UserGrants::conflicts` and `conflicts_mut`
  unfoldable pub conflicts : Inner → PageSpan → Inner
  unfolding grant_at
  conflicts m requested =
      take_conflicts requested
        (OrdMap.range_from (search_start requested (grant_at m requested.base)) m)

  -- `UserGrants::insert`
  unfoldable pub insert_grant : UserGrants → Grant → Result UserGrants
  insert_grant u g = do
    assert (not (is_some (first_entry (conflicts u.inner (grant_span g)))))
    ok (record {
      inner = insert_inner g u.inner;
      holes = reserve page_size u.holes g.base g.info.page_count;
    })

  abbrev remove_found : UserGrants → ℕ → Option GrantInfo → Option (Grant × UserGrants)
  remove_found u base none = none
  remove_found u base (some info) = some (
    record { base = base; info = info },
    record {
      inner = OrdMap.remove base u.inner;
      holes = unreserve page_size u.holes base info.page_count;
    },
  )

  -- `UserGrants::remove`
  unfoldable pub remove_grant : UserGrants → ℕ → Option (Grant × UserGrants)
  remove_grant u base = remove_found u base (OrdMap.get base u.inner)

  -- `UserGrants::find_free`
  abbrev pub find_free : UserGrants → ℕ → ℕ → Option PageSpan
  find_free u min page_count = elim (find_free_near page_size u.holes min page_count) [
    | none ↦ none
    | some page ↦ some (span page page_count)
  ]
