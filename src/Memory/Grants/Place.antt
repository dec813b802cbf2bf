-- ===== src/Memory/Grants/Place.antt =====
-- How `UserGrants::insert` of src/context/memory.rs places a grant between its neighbours, against a
-- walk over the grants in order.
use redox_kernel.Common.{
  ℕ, ◌+◌, ◌≤◌, ◌<◌, ◌≡◌, ◌≢◌, refl, none, some, [], ◌∷◌, ◌&&◌, ltb, ◌==◌, if◌then◌else◌, arith,
  Bool-cases, Option-cases, inl, inr, usize_mod,
}
use redox_kernel.Common.OrdMap
use redox_kernel.Common.OrdMap.{KeysFrom}
use redox_kernel.Memory.Grants.{GrantInfo, Grant, can_be_merged_if_adjacent, grant_span}
use redox_kernel.Memory.Span.{end}
use redox_kernel.Memory.Grants.Table.{Inner, insert_inner, first_entry, grow}
use redox_kernel.Memory.Grants.Conflicts.{overlapping}
use redox_kernel.Memory.Grants.Pages.{IsGrants, IsGrants-KeysFrom}

abbrev pub longer : GrantInfo → ℕ → GrantInfo
longer i n = record i { page_count = i.page_count + n }

-- A grant in front of others takes in one that begins where it ends and can be merged with it.
abbrev pub join_after : ℕ → GrantInfo → Inner → Inner
join_after b g [] = (b, g) ∷ []
join_after b g ((c, i) ∷ m) =
    if (c == b + g.page_count) && can_be_merged_if_adjacent i g
    then (b, longer g i.page_count) ∷ m
    else (b, g) ∷ (c, i) ∷ m

-- The reference: the grant joins the one before it and the one behind it, where they touch it and
-- can be merged with it.
unfoldable pub place : ℕ → GrantInfo → Inner → Inner
place b g [] = (b, g) ∷ []
place b g ((c, i) ∷ m) =
    if ltb b c
    then join_after b g ((c, i) ∷ m)
    else if (c + i.page_count == b) && can_be_merged_if_adjacent i g
    then join_after c (longer g i.page_count) m
    else if c + i.page_count == b
    then (c, i) ∷ join_after b g m
    else (c, i) ∷ place b g m

-- The length plays no part in whether two grants can be merged.
longer-can_be_merged :
    (i g : GrantInfo) (n : ℕ)
    → can_be_merged_if_adjacent i (longer g n) ≡ can_be_merged_if_adjacent i g
unfolding can_be_merged_if_adjacent
longer-can_be_merged i g n = refl

range_from-first :
    (k d : ℕ) (v : GrantInfo) (m : Inner)
    → first_entry (OrdMap.range_from k m) ≡ some (d, v)
    → k ≤ d
unfolding OrdMap.range_from
range_from-first k d v [] h = cc
range_from-first k d v ((c, i) ∷ m) h = ground (arith, range_from-first k d v m)

module _ (page_size hi : ℕ) (g : Grant) (fits : g.base + g.info.page_count ≤ hi)
    (words : hi < usize_mod) (positive : 0 < g.info.page_count) where
  -- The grant lies before all others.
  insert_inner-front :
      (lo : ℕ) (m : Inner)
      → IsGrants page_size lo hi m
      → g.base + g.info.page_count ≤ lo
      → insert_inner g m ≡ join_after g.base g.info m
  unfolding insert_inner OrdMap.last_below OrdMap.range_from OrdMap.insert OrdMap.remove
  insert_inner-front lo [] w h = ground arith
  insert_inner-front lo ((c, i) ∷ m) w h =
      let keys = IsGrants-KeysFrom page_size (c + i.page_count) hi m w.2 in
      let none_below = OrdMap.last_below-below g.base (c + i.page_count) m (omega arith) keys in
      let grown = longer g.info i.page_count in
      ground (
        arith,
        none_below,
        OrdMap.insert-front g.base (c + i.page_count) grown m (omega arith) keys,
      )

  -- One grant lies before it, all others behind it.
  insert_inner-second :
      (c : ℕ) (i : GrantInfo) (m : Inner)
      → IsGrants page_size 0 hi ((c, i) ∷ m)
      → c + i.page_count ≤ g.base
      → IsGrants page_size (g.base + g.info.page_count) hi m
      → insert_inner g ((c, i) ∷ m) ≡ (
          if (c + i.page_count == g.base) && can_be_merged_if_adjacent i g.info
          then join_after c (longer g.info i.page_count) m
          else (c, i) ∷ join_after g.base g.info m)
  unfolding insert_inner OrdMap.last_below OrdMap.range_from OrdMap.insert OrdMap.remove
  insert_inner-second c i [] w h v = ground arith
  insert_inner-second c i ((d, j) ∷ m) w h v =
      let keys = IsGrants-KeysFrom page_size (d + j.page_count) hi m v.2 in
      let none_below = OrdMap.last_below-below g.base (d + j.page_count) m (omega arith) keys in
      let grown = longer g.info j.page_count in
      let both = longer (longer g.info i.page_count) j.page_count in
      ground (
        arith,
        none_below,
        longer-can_be_merged j g.info i.page_count,
        OrdMap.insert-front g.base (d + j.page_count) grown m (omega arith) keys,
        OrdMap.insert-front c (d + j.page_count) both m (omega arith) keys,
      )

  -- Past a grant before the one that precedes it.
  insert_inner-cons :
      (c j : ℕ) (i v : GrantInfo) (m : Inner)
      → IsGrants page_size 0 hi ((c, i) ∷ m)
      → OrdMap.last_below g.base m ≡ some (j, v)
      → insert_inner g ((c, i) ∷ m) ≡ (c, i) ∷ insert_inner g m
  unfolding insert_inner OrdMap.last_below OrdMap.range_from
  insert_inner-cons c j i v m w e =
      let keys = IsGrants-KeysFrom page_size (c + i.page_count) hi m w.2 in
      let later = OrdMap.last_below-KeysFrom g.base (c + i.page_count) m j v keys e in
      let apart : c ≢ j = omega arith in
      let before = grow g v.page_count in
      let kept = OrdMap.insert-cons g.base g.info c i m (omega arith) in
      let joined = OrdMap.insert-cons j before.info c i (OrdMap.remove j m) (omega arith) in
      elim (Option-cases (first_entry (OrdMap.range_from (end (grant_span g)) m))) [
        | inl e' ↦ ground (arith, e, e', OrdMap.remove-cons j c i m apart, kept, joined)
        | inr ((d, k), e') ↦
            let past = range_from-first (end (grant_span g)) d k m e' in
            let apart' : c ≢ d = omega arith in
            let after = grow g k.page_count in
            let both = grow before k.page_count in
            ground (
              arith,
              e,
              e',
              OrdMap.remove-cons j c i m apart,
              OrdMap.remove-cons d c i m apart',
              OrdMap.remove-cons d c i (OrdMap.remove j m) apart',
              kept,
              joined,
              OrdMap.insert-cons g.base after.info c i (OrdMap.remove d m) (omega arith),
              OrdMap.insert-cons j both.info c i (OrdMap.remove d (OrdMap.remove j m))
                  (omega arith),
            )
      ]

  behind_all :
      (lo : ℕ) (m : Inner)
      → IsGrants page_size lo hi m
      → OrdMap.last_below g.base m ≡ none
      → overlapping (grant_span g) m ≡ []
      → IsGrants page_size (g.base + g.info.page_count) hi m
  unfolding OrdMap.last_below
  behind_all lo [] w e free = tt
  behind_all lo ((d, j) ∷ m) w e free = elim (Option-cases (OrdMap.last_below g.base m)) [
    | inl e' ↦ ground (arith, e')
    | inr (q, e') ↦ ground (arith, e')
  ]

  -- Where no grant overlaps the new one, `insert` is that walk.
  pub insert_inner-place :
      (m : Inner) (lo : ℕ)
      → IsGrants page_size lo hi m
      → overlapping (grant_span g) m ≡ []
      → insert_inner g m ≡ place g.base g.info m
  unfolding place
  insert_inner-place [] lo w free =
      insert_inner-front (g.base + g.info.page_count) [] w (omega arith)
  insert_inner-place ((c, i) ∷ m) lo w free = elim (Bool-cases (ltb g.base c)) [
    | inl behind ↦ ground (arith, insert_inner-front c ((c, i) ∷ m))
    | inr ahead ↦
        let rest = insert_inner-place m (c + i.page_count) w.2 (ground arith) in
        let keys = IsGrants-KeysFrom page_size (c + i.page_count) hi m w.2 in
        elim (Option-cases (OrdMap.last_below g.base m)) [
          | inl e ↦
              let v = behind_all (c + i.page_count) m w.2 e (ground arith) in
              ground (
                arith,
                rest,
                insert_inner-front (g.base + g.info.page_count) m v (omega arith),
                insert_inner-second c i m (omega arith, w.1, w.2),
              )
          | inr ((j, v), e) ↦ ground (
            arith,
            rest,
            insert_inner-cons c j i v m (omega arith, w.1, w.2) e,
            OrdMap.last_below-KeysFrom g.base (c + i.page_count) m j v keys e,
          )
        ]
  ]
