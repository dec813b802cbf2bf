-- ===== src/Memory/Grants/Placed.antt =====
-- What placing a grant in src/context/memory.rs does to the pages: grants stay well-formed, and
-- merging shows on no page.
use redox_kernel.Common.{
  ℕ, ◌+◌, ◌-◌, ◌≤◌, ◌≡◌, refl, none, some, [], ◌∷◌, true, false, ltb, ◌==◌, if◌then◌else◌, arith,
  Bool-cases, inl, inr, subst, sym, ap,
}
use redox_kernel.Memory.Grants.{
  GrantInfo, Grant, Provider, can_be_merged_if_adjacent, plain, grant_span,
}
use redox_kernel.Memory.Grants.Provider.{allocated}
use redox_kernel.Memory.Grants.Table.{Inner}
use redox_kernel.Memory.Grants.Conflicts.{overlapping}
use redox_kernel.Memory.Grants.Pages.{IsGrants, IsGrant, Fits, page_view, page_seen, in_span, seen}
use redox_kernel.Memory.Grants.Place.{place, join_after, longer}

plain_lem : (p : Provider) → plain p ≡ true → p ≡ allocated none false
plain_lem p h = ground arith

-- Grants that can be merged agree on all but their length.
merged_lem :
    (i g : GrantInfo)
    → can_be_merged_if_adjacent i g ≡ true
    → (i.mapped ≡ g.mapped)
      × (i.flags ≡ g.flags)
      × (i.provider ≡ allocated none false)
      × (g.provider ≡ allocated none false)
unfolding can_be_merged_if_adjacent
merged_lem i g h = ground (arith, plain_lem i.provider, plain_lem g.provider)

module _ (page_size : ℕ) where
  page_seen-merged :
      (k l : ℕ) (i g : GrantInfo)
      → can_be_merged_if_adjacent i g ≡ true
      → (page_seen page_size k g ≡ page_seen page_size l i)
        × (page_seen page_size k g ≡ page_seen page_size l g)
  page_seen-merged k l i g h =
      let e = merged_lem i g h in
      let same : (q : Provider)
          → q ≡ allocated none false
          → (j : ℕ) → seen page_size j q ≡ allocated none false =
        λ q e j. ap (seen page_size j) e in
      ground (arith, e, same g.provider e.3 k, same g.provider e.3 l, same i.provider e.2 l)

  Fits-merged :
      (n : ℕ) (i g : GrantInfo) → can_be_merged_if_adjacent i g ≡ true → Fits page_size n g.provider
  Fits-merged n i g h = subst (Fits page_size n) (sym (merged_lem i g h).3) tt

  module _ (hi b : ℕ) (g : GrantInfo) (v : IsGrant page_size hi b g) where
    join_after-IsGrants :
        (lo : ℕ) (m : Inner)
        → lo ≤ b
        → IsGrants page_size (b + g.page_count) hi m
        → IsGrants page_size lo hi (join_after b g m)
    join_after-IsGrants lo [] l w = (l, v, tt)
    join_after-IsGrants lo ((c, i) ∷ m) l w =
        ground (arith, Fits-merged (g.page_count + i.page_count) i g)

    page_view-join_after :
        (m : Inner) (p : ℕ)
        → IsGrants page_size (b + g.page_count) hi m
        → page_view page_size (join_after b g m) p ≡ (
            if in_span b g.page_count p
            then some (page_seen page_size (p - b) g)
            else page_view page_size m p)
    unfolding page_view
    page_view-join_after [] p w = refl
    page_view-join_after ((c, i) ∷ m) p w = ground (arith, page_seen-merged (p - b) (p - c) i g)

  module _ (hi : ℕ) (g : Grant) (v : IsGrant page_size hi g.base g.info) where
    -- Grants from the new one's start on lie behind it, where none overlaps it.
    behind :
        (lo : ℕ) (m : Inner)
        → g.base ≤ lo
        → IsGrants page_size lo hi m
        → overlapping (grant_span g) m ≡ []
        → IsGrants page_size (g.base + g.info.page_count) hi m
    behind lo [] l w free = tt
    behind lo ((c, i) ∷ m) l w free = ground arith

    pub place-IsGrants :
        (lo : ℕ) (m : Inner)
        → lo ≤ g.base
        → IsGrants page_size lo hi m
        → overlapping (grant_span g) m ≡ []
        → IsGrants page_size lo hi (place g.base g.info m)
    unfolding place
    place-IsGrants lo [] l w free = (l, v, tt)
    place-IsGrants lo ((c, i) ∷ m) l w free =
        let merged = longer g.info i.page_count in
        let long : can_be_merged_if_adjacent i g.info ≡ true
            → c + i.page_count ≡ g.base
            → IsGrant page_size hi c merged =
          λ h e. (
            omega arith,
            omega arith,
            v.2,
            Fits-merged (g.info.page_count + i.page_count) i g.info h,
          ) in
        ground (
          arith,
          behind c ((c, i) ∷ m),
          behind (c + i.page_count) m,
          join_after-IsGrants hi g.base g.info v lo ((c, i) ∷ m) l,
          λ (q : IsGrant page_size hi c merged). join_after-IsGrants hi c merged q lo m,
          join_after-IsGrants hi g.base g.info v (c + i.page_count) m,
          place-IsGrants (c + i.page_count) m,
          long,
        )

    pub page_view-place :
        (lo : ℕ) (m : Inner) (p : ℕ)
        → IsGrants page_size lo hi m
        → overlapping (grant_span g) m ≡ []
        → page_view page_size (place g.base g.info m) p ≡ (
            if in_span g.base g.info.page_count p
            then some (page_seen page_size (p - g.base) g.info)
            else page_view page_size m p)
    unfolding place page_view
    page_view-place lo [] p w free = refl
    page_view-place lo ((c, i) ∷ m) p w free = elim (Bool-cases (ltb g.base c)) [
      | inl first ↦
          ground
            (arith, behind c ((c, i) ∷ m), page_view-join_after hi g.base g.info v ((c, i) ∷ m) p)
      | inr later ↦ elim (Bool-cases (can_be_merged_if_adjacent i g.info)) [
        | inl h ↦ elim (Bool-cases (c + i.page_count == g.base)) [
          | inl touching ↦
              let merged = longer g.info i.page_count in
              let long : IsGrant page_size hi c merged = (
                omega arith,
                ground arith,
                v.2,
                Fits-merged (g.info.page_count + i.page_count) i g.info h,
              ) in
              let one = page_view-join_after hi c merged long m p in
              let two = page_seen-merged (p - c) (p - c) i g.info h in
              let three = page_seen-merged (p - c) (p - g.base) i g.info h in
              let rest = behind (c + i.page_count) m (ground arith) w.2 (ground arith) in
              ground (arith, one, two.0, three.1)
          | inr apart ↦ ground (arith, page_view-place (c + i.page_count) m p)
        ]
        | inr h ↦ ground (
          arith,
          behind (c + i.page_count) m,
          page_view-join_after hi g.base g.info v m p,
          page_view-place (c + i.page_count) m p,
        )
      ]
    ]
